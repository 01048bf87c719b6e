-- ===== src/Hook/Span.antt =====
-- src/hook.c: the range of a module's functions (`query_all_org_func_addr`). The addresses that
-- `query_func_addr` finds are data; 0 is a function that it does not find.
use ooops.Prelude.{
  ℕ, ◌≤◌, ◌<◌, ◌≡◌, refl, sym, subst, ◌⊎◌, inl, inr, Bool, true, false, List, [], ◌∷◌, ltb, ◌==◌,
  if◌then◌else◌, Bool-cases, arith,
}
use ooops.Hook.Blocks.{Span}

-- The loop up to the first function found.
unfoldable pub first_addr : List ℕ → Span → Span
first_addr [] m = m
first_addr (a ∷ addrs) m =
    if a == 0 then first_addr addrs m else record m { old_func_addr_min = a; old_func_addr_max = a }

abbrev pub lower : ℕ → Span → Span
lower a m = if ltb a m.old_func_addr_min then record m { old_func_addr_min = a } else m

abbrev pub raise : ℕ → Span → Span
raise a m = if ltb m.old_func_addr_max a then record m { old_func_addr_max = a } else m

unfoldable pub widen_span : List ℕ → Span → Span
widen_span [] m = m
widen_span (a ∷ addrs) m =
    if a == 0 then widen_span addrs m else widen_span addrs (raise a (lower a m))

-- `is_patch_disabled`
unfoldable pub disable : List ℕ → List Bool → List Bool
disable (a ∷ addrs) (b ∷ bs) = (if a == 0 then true else b) ∷ disable addrs bs
disable [] bs = bs
disable (a ∷ addrs) [] = []

unfoldable pub set_span : List ℕ → Span → Span
unfolding first_addr widen_span
set_span addrs m = widen_span addrs (first_addr addrs m)

abbrev pub Within : ℕ → Span → Type 0
Within a m = (m.old_func_addr_min ≤ a) × (a ≤ m.old_func_addr_max)

abbrev pub IsFound : ℕ → List ℕ → Type 0
IsFound a [] = ⊥
IsFound a (b ∷ bs) = ((a ≡ b) × (0 < b)) ⊎ IsFound a bs

-- What is within stays within.
widen_span-Within : (addrs : List ℕ) (m : Span) (x : ℕ) → Within x m → Within x (widen_span addrs m)
unfolding widen_span
widen_span-Within [] m x w = w
widen_span-Within (a ∷ addrs) m x w = elim (Bool-cases (a == 0)) [
  | inl e ↦ rw e (widen_span-Within addrs m x w)
  | inr e ↦ rw e (widen_span-Within addrs (raise a (lower a m)) x (ground arith))
]

widen_span-IsFound :
    (addrs : List ℕ) (m : Span) (x : ℕ) → IsFound x addrs → Within x (widen_span addrs m)
unfolding widen_span
widen_span-IsFound [] m x f = absurd f
widen_span-IsFound (a ∷ addrs) m x (inl (e, h)) =
    let some_addr : (a == 0) ≡ false = ground arith in
    rw some_addr (widen_span-Within addrs (raise a (lower a m)) x (ground arith))
widen_span-IsFound (a ∷ addrs) m x (inr f) = elim (Bool-cases (a == 0)) [
  | inl e ↦ rw e (widen_span-IsFound addrs m x f)
  | inr e ↦ rw e (widen_span-IsFound addrs (raise a (lower a m)) x f)
]

IsFound-lower :
    (all : List ℕ) (a : ℕ) (m : Span)
    → IsFound a all
    → IsFound m.old_func_addr_min all
    → IsFound (raise a (lower a m)).old_func_addr_min all
IsFound-lower all a m f g = subst (λ x. IsFound x all) (sym same) lowest
  where
    same : (raise a (lower a m)).old_func_addr_min ≡ (lower a m).old_func_addr_min
    same = ground arith

    lowest : IsFound (lower a m).old_func_addr_min all
    lowest = elim (Bool-cases (ltb a m.old_func_addr_min)) [ inl e ↦ rw e f | inr e ↦ rw e g ]

IsFound-raise :
    (all : List ℕ) (a : ℕ) (m : Span)
    → IsFound a all
    → IsFound m.old_func_addr_max all
    → IsFound (raise a (lower a m)).old_func_addr_max all
IsFound-raise all a m f g = elim (Bool-cases (ltb m.old_func_addr_max a)) [
  | inl e ↦
      subst (λ x. IsFound x all) {x = a} {y = (raise a (lower a m)).old_func_addr_max}
        (ground arith) f
  | inr e ↦
      subst (λ x. IsFound x all) {x = m.old_func_addr_max}
        {y = (raise a (lower a m)).old_func_addr_max} (ground arith) g
]

abbrev pub EndsFound : List ℕ → Span → Type 0
EndsFound all m = IsFound m.old_func_addr_min all × IsFound m.old_func_addr_max all

widen_span-EndsFound :
    (all addrs : List ℕ) (m : Span)
    → ((x : ℕ) → IsFound x addrs → IsFound x all)
    → EndsFound all m
    → EndsFound all (widen_span addrs m)
unfolding widen_span
widen_span-EndsFound all [] m sub f = f
widen_span-EndsFound all (a ∷ addrs) m sub f = elim (Bool-cases (a == 0)) [
  | inl e ↦ rw e (widen_span-EndsFound all addrs m (λ x g. sub x (inr g)) f)
  | inr e ↦
      let here = sub a (inl (refl, ground arith)) in
      rw e (
        widen_span-EndsFound all addrs (raise a (lower a m)) (λ x g. sub x (inr g))
          (IsFound-lower all a m here f.0, IsFound-raise all a m here f.1))
]

first_addr-EndsFound :
    (addrs : List ℕ) (m : Span) (x : ℕ) → IsFound x addrs → EndsFound addrs (first_addr addrs m)
unfolding first_addr
first_addr-EndsFound [] m x f = absurd f
first_addr-EndsFound (a ∷ addrs) m x f = elim (Bool-cases (a == 0)) [
  | inl e ↦
      let rest = first_addr-EndsFound addrs m x (later f e) in
      let same : first_addr (a ∷ addrs) m ≡ first_addr addrs m = rw (first_addr, e) refl in
      subst (EndsFound (a ∷ addrs)) (sym same) (inr rest.0, inr rest.1)
  | inr e ↦ rw e (inl (refl, ground arith), inl (refl, ground arith))
]
  where
    later : IsFound x (a ∷ addrs) → (a == 0) ≡ true → IsFound x addrs
    later (inl (p, h)) e = absurd (ground arith)
    later (inr g) e = g

-- Where one function of a module is found at least, the range of the module goes from one address
-- found to another and holds each address found.
pub set_span_tight :
    (addrs : List ℕ) (m : Span) (x : ℕ)
    → IsFound x addrs
    → EndsFound addrs (set_span addrs m) × ((y : ℕ) → IsFound y addrs → Within y (set_span addrs m))
unfolding set_span
set_span_tight addrs m x f = (
  widen_span-EndsFound addrs addrs (first_addr addrs m) (λ y g. g)
      (first_addr-EndsFound addrs m x f),
  λ y g. widen_span-IsFound addrs (first_addr addrs m) y g,
)
