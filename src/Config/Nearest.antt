-- ===== src/Config/Nearest.antt =====
-- Which section of the configuration is used: one whose frequency is the nearest to the processor's.
use ooops.Prelude.{
  ℕ, suc, ◌+◌, ◌*◌, ◌≡◌, refl, sym, subst, ◌∙◌, ap, ◌⊎◌, inl, inr, true, false, Option, none, some,
  List, [], ◌∷◌, get_elem?, Bool-cases, arith,
}
use ooops.Floats.{Floats}
use ooops.Config.{Choice, distance, closer, choose, first_choice}

module _ (fl : Floats) where
  -- The comparison of `float` numbers is a strict order, whatever is not a number.
  pub record Ordered : Type 0 where
    pub irreflexive : (a : fl.Single) → fl.gt_single a a ≡ false
    pub transitive :
        (a b c : fl.Single)
        → fl.gt_single a b ≡ true
        → fl.gt_single b c ≡ true
        → fl.gt_single a c ≡ true

  -- Of the frequencies that open sections, none is nearer than m.
  abbrev pub NoneNearer : fl.Single → fl.Single → List (Option fl.Single) → Type 0
  NoneNearer f_sys m [] = Unit {0}
  NoneNearer f_sys m (none ∷ []) = Unit {0}
  NoneNearer f_sys m (some f ∷ []) = fl.gt_single m (distance fl f_sys f) ≡ false
  NoneNearer f_sys m (none ∷ _ ∷ fs) = NoneNearer f_sys m fs
  NoneNearer f_sys m (some f ∷ _ ∷ fs) =
      (fl.gt_single m (distance fl f_sys f) ≡ false) × NoneNearer f_sys m fs

  -- The start, or lower.
  abbrev Below : fl.Single → fl.Single → Type 0
  Below m start = (m ≡ start) ⊎ (fl.gt_single start m ≡ true)

  Below-trans : Ordered → (a b c : fl.Single) → Below a b → Below b c → Below a c
  Below-trans o a b c (inl e) k = subst (λ x. Below x c) (sym e) k
  Below-trans o a b c (inr e) (inl f) = inr (subst (λ x. fl.gt_single x a ≡ true) f e)
  Below-trans o a b c (inr e) (inr f) = inr (o.transitive c b a f e)

  not_nearer :
      Ordered
      → (m b d : fl.Single) → Below m b
      → fl.gt_single b d ≡ false
      → fl.gt_single m d ≡ false
  not_nearer o m b d (inl e) h = subst (λ x. fl.gt_single x d ≡ false) (sym e) h
  not_nearer o m b d (inr e) h = elim (Bool-cases (fl.gt_single m d)) [
    | inl t ↦ absurd (let u = o.transitive b m d e t in cc)
    | inr f ↦ f
  ]

  closer-Below :
      (f_sys : fl.Single) (i : ℕ) (r : Option fl.Single) (c : Choice fl)
      → Below (closer fl f_sys i r c).df_min c.df_min
  unfolding closer
  closer-Below f_sys i none c = inl refl
  closer-Below f_sys i (some f) c =
      elim (Bool-cases (fl.gt_single c.df_min (distance fl f_sys f))) [
        | inl t ↦ rw t (inr t)
        | inr t ↦ rw t (inl refl)
      ]

  choose-Below :
      Ordered
      → (f_sys : fl.Single) (i : ℕ) (fs : List (Option fl.Single)) (c : Choice fl)
      → Below (choose fl f_sys i fs c).df_min c.df_min
  unfolding choose
  choose-Below o f_sys i [] c = inl refl
  choose-Below o f_sys i (f ∷ []) c = closer-Below f_sys i f c
  choose-Below o f_sys i (f ∷ g ∷ fs) c =
      Below-trans o _ _ _ (choose-Below o f_sys (i + 2) fs (closer fl f_sys i f c))
        (closer-Below f_sys i f c)

  -- What `closer` leaves is not farther than what it was given.
  closer_not_nearer :
      Ordered
      → (f_sys f : fl.Single) (i : ℕ) (c : Choice fl)
      → fl.gt_single (closer fl f_sys i (some f) c).df_min (distance fl f_sys f) ≡ false
  unfolding closer
  closer_not_nearer o f_sys f i c =
      elim (Bool-cases (fl.gt_single c.df_min (distance fl f_sys f))) [
        | inl t ↦ rw t (o.irreflexive (distance fl f_sys f))
        | inr t ↦ rw t t
      ]

  choose-NoneNearer :
      Ordered
      → (f_sys : fl.Single) (i : ℕ) (fs : List (Option fl.Single)) (c : Choice fl)
      → NoneNearer f_sys (choose fl f_sys i fs c).df_min fs
  unfolding choose
  choose-NoneNearer o f_sys i [] c = tt
  choose-NoneNearer o f_sys i (none ∷ []) c = tt
  choose-NoneNearer o f_sys i (some f ∷ []) c = closer_not_nearer o f_sys f i c
  choose-NoneNearer o f_sys i (none ∷ g ∷ fs) c = choose-NoneNearer o f_sys (i + 2) fs _
  choose-NoneNearer o f_sys i (some f ∷ g ∷ fs) c = (
    not_nearer o _ _ _ (choose-Below o f_sys (i + 2) fs (closer fl f_sys i (some f) c))
        (closer_not_nearer o f_sys f i c),
    choose-NoneNearer o f_sys (i + 2) fs _,
  )

  -- The choice is a section that is there, at the distance that is its own.
  abbrev pub Chosen : fl.Single → ℕ → List (Option fl.Single) → Choice fl → Choice fl → Type 0
  Chosen f_sys i fs c c' =
      (c' ≡ c)
      ⊎ ((k : ℕ) × (f : fl.Single) × (c'.config_use ≡ some (i + 2 * k))
          × (get_elem? fs (2 * k) ≡ some (some f))
          × (c'.df_min ≡ distance fl f_sys f))

  closer-Chosen :
      (f_sys : fl.Single) (i : ℕ) (r : Option fl.Single) (fs : List (Option fl.Single))
      (c : Choice fl)
      → Chosen f_sys i (r ∷ fs) c (closer fl f_sys i r c)
  unfolding closer
  closer-Chosen f_sys i none fs c = inl refl
  closer-Chosen f_sys i (some f) fs c =
      elim (Bool-cases (fl.gt_single c.df_min (distance fl f_sys f))) [
        | inl t ↦ rw t (inr (0, f, ap some (omega arith), refl, refl))
        | inr t ↦ rw t (inl refl)
      ]

  choose-Chosen :
      (f_sys : fl.Single) (i : ℕ) (fs : List (Option fl.Single)) (c : Choice fl)
      → Chosen f_sys i fs c (choose fl f_sys i fs c)
  unfolding choose
  choose-Chosen f_sys i [] c = inl refl
  choose-Chosen f_sys i (f ∷ []) c = closer-Chosen f_sys i f [] c
  choose-Chosen f_sys i (f ∷ g ∷ fs) c =
      next (choose-Chosen f_sys (i + 2) fs (closer fl f_sys i f c))
    where
      next :
          Chosen f_sys
            (i + 2)
            fs
            (closer fl f_sys i f c)
            (choose fl f_sys (i + 2) fs (closer fl f_sys i f c))
          → Chosen f_sys i (f ∷ g ∷ fs) c (choose fl f_sys (i + 2) fs (closer fl f_sys i f c))
      next (inl e) =
          subst (Chosen f_sys i (f ∷ g ∷ fs) c) (sym e) (closer-Chosen f_sys i f (g ∷ fs) c)
      next (inr (k, x, u, at, d)) = inr (k + 1, x, u ∙ ap some (omega arith), later, d)
        where
          later : get_elem? (f ∷ g ∷ fs) (2 * (k + 1)) ≡ some (some x)
          later =
              subst (λ n. get_elem? (f ∷ g ∷ fs) n ≡ some (some x)) {x = suc (suc (2 * k))}
                (omega arith) at

  -- `Read_Config` chooses the section of the nearest frequency, where the comparison of `float` is a
  -- strict order. Of the frequencies behind the tags at even places none is nearer to the
  -- processor's than `df_Min` at the end. And either `Config_Use` is the place of such a tag, and
  -- `df_Min` the distance of the frequency there; or nothing is chosen, and `df_Min` is still 10.
  pub choose_nearest :
      Ordered
      → (f_sys : fl.Single) (fs : List (Option fl.Single))
      → let c = choose fl f_sys 0 fs (first_choice fl) in
        NoneNearer f_sys c.df_min fs × Chosen f_sys 0 fs (first_choice fl) c
  choose_nearest o f_sys fs =
      (choose-NoneNearer o f_sys 0 fs (first_choice fl), choose-Chosen f_sys 0 fs (first_choice fl))
