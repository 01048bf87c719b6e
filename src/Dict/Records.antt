-- ===== src/Dict/Records.antt =====
-- The table as the records that it holds, the newest first.
use ooops.Prelude.{
  ℕ, suc, ◌+◌, ◌≤◌, ◌≡◌, ◌≢◌, refl, sym, ap, ◌∙◌, true, false, Option, none, some, List, [], ◌∷◌,
  Text, ◌==◌, ==_iff, if◌then◌else◌, str_eq, str_eq_iff, length, inl, inr, Bool-cases, ◌%◌, arith,
}
use ooops.Dict.{Elt}
use ooops.Dict.Chains.{Chain, Fresh, Apart, lookup}

abbrev pub Records : Type 0
Records = List (Text × ℕ)

-- The records of the elements.
abbrev pub entries : (ℕ → Elt) → List ℕ → Records
entries elts [] = []
entries elts (j ∷ js) = ((elts j).key, (elts j).value) ∷ entries elts js

-- The value of the newest record with the key.
abbrev pub newest : Records → Text → Option ℕ
newest [] key = none
newest ((k, v) ∷ m) key = if str_eq k key then some v else newest m key

-- Without the newest record with the key.
abbrev pub drop_newest : Text → Records → Records
drop_newest key [] = []
drop_newest key ((k, v) ∷ m) = if str_eq k key then m else (k, v) ∷ drop_newest key m

pub lookup-entries :
    (elts : ℕ → Elt) (is : List ℕ) (key : Text) → lookup elts is key ≡ newest (entries elts is) key
lookup-entries elts [] key = refl
lookup-entries elts (j ∷ js) key = rw (lookup-entries elts js key) refl

pub length-drop_newest :
    (m : Records) (key : Text) (v : ℕ)
    → newest m key ≡ some v
    → length (drop_newest key m) + 1 ≡ length m
length-drop_newest [] key v h = absurd (cc)
length-drop_newest ((k, w) ∷ m) key v h = elim (Bool-cases (str_eq k key)) [
  | inl e ↦ rw e (omega arith)
  | inr e ↦ rw e (omega (arith, length-drop_newest m key v (rw e at h)))
]

pub length-entries : (elts : ℕ → Elt) (is : List ℕ) → length (entries elts is) ≡ length is
length-entries elts [] = refl
length-entries elts (j ∷ js) = ap suc (length-entries elts js)

-- Elements that are the same have the same records.
pub entries-frame :
    (elts elts' : ℕ → Elt) (is js : List ℕ)
    → ((j : ℕ) → Fresh j is → elts' j ≡ elts j)
    → Apart js is
    → entries elts' js ≡ entries elts js
entries-frame elts elts' is [] same a = refl
entries-frame elts elts' is (j ∷ js) same a =
    rw (same j a.0, entries-frame elts elts' is js same a.1) refl

pub Chain-frame :
    (elts elts' : ℕ → Elt) (is js : List ℕ) (head : Option ℕ)
    → ((j : ℕ) → Fresh j is → elts' j ≡ elts j)
    → Apart js is
    → Chain elts head js
    → Chain elts' head js
Chain-frame elts elts' is [] head same a c = c
Chain-frame elts elts' is (j ∷ js) head same a c =
    (c.0, rw (same j a.0) (Chain-frame elts elts' is js (elts j).next same a.1 c.1))

module _ (hash : Text → ℕ) (size : ℕ) where
  -- The records whose keys are in bucket h.
  abbrev pub in_bucket : ℕ → Records → Records
  in_bucket h [] = []
  in_bucket h ((k, v) ∷ m) = if h == hash k % size then (k, v) ∷ in_bucket h m else in_bucket h m

  pub newest-in_bucket :
      (m : Records) (key : Text) → newest (in_bucket (hash key % size) m) key ≡ newest m key
  newest-in_bucket [] key = refl
  newest-in_bucket ((k, v) ∷ m) key = elim (Bool-cases (hash key % size == hash k % size)) [
    | inl e ↦ rw (e, newest-in_bucket m key) refl
    | inr e ↦ rw (e, newest-in_bucket m key, other e) refl
  ]
    where
      other : (hash key % size == hash k % size) ≡ false → str_eq k key ≡ false
      other e = elim (Bool-cases (str_eq k key)) [
        | inl t ↦ absurd (
            let same = ap (λ x. hash x % size) (sym ((str_eq_iff k key).0 t)) in
            let q = (==_iff (hash key % size) (hash k % size)).1 same in cc)
        | inr f ↦ f
      ]

  pub length-in_bucket : (h : ℕ) (m : Records) → length (in_bucket h m) ≤ length m
  length-in_bucket h [] = omega arith
  length-in_bucket h ((k, v) ∷ m) = ground (arith, length-in_bucket h m)

  pub in_bucket-drop_newest :
      (m : Records) (key : Text)
      → in_bucket (hash key % size) (drop_newest key m)
        ≡ drop_newest key (in_bucket (hash key % size) m)
  in_bucket-drop_newest [] key = refl
  in_bucket-drop_newest ((k, v) ∷ m) key = elim (Bool-cases (str_eq k key)) [
    | inl t ↦
        let here : (hash key % size == hash k % size) ≡ true =
          (==_iff (hash key % size) (hash k % size)).1
            (ap (λ x. hash x % size) (sym ((str_eq_iff k key).0 t))) in
        rw (t, here, t) refl
    | inr f ↦ elim (Bool-cases (hash key % size == hash k % size)) [
      | inl e ↦ rw (f, e, f, in_bucket-drop_newest m key) refl
      | inr e ↦ rw (f, e, in_bucket-drop_newest m key) refl
    ]
  ]

  pub in_bucket-drop_other :
      (m : Records) (key : Text) (h : ℕ)
      → (h == hash key % size) ≡ false
      → in_bucket h (drop_newest key m) ≡ in_bucket h m
  in_bucket-drop_other [] key h other = refl
  in_bucket-drop_other ((k, v) ∷ m) key h other = elim (Bool-cases (str_eq k key)) [
    | inl t ↦
        let away : (h == hash k % size) ≡ false =
          ap (λ x. h == hash x % size) ((str_eq_iff k key).0 t) ∙ other in
        rw (t, away) refl
    | inr f ↦ rw (f, in_bucket-drop_other m key h other) refl
  ]

  -- Each record has its key in bucket h.
  abbrev pub AllHome : ℕ → Records → Type 0
  AllHome h [] = Unit {0}
  AllHome h ((k, v) ∷ m) = (h ≡ hash k % size) × AllHome h m

  pub in_bucket-AllHome : (h : ℕ) (m : Records) → AllHome h (in_bucket h m)
  in_bucket-AllHome h [] = tt
  in_bucket-AllHome h ((k, v) ∷ m) = elim (Bool-cases (h == hash k % size)) [
    | inl e ↦ rw e ((==_iff h (hash k % size)).0 e, in_bucket-AllHome h m)
    | inr e ↦ rw e (in_bucket-AllHome h m)
  ]

  Fresh-AllHome :
      (elts : ℕ → Elt) (h : ℕ) (j : ℕ) (is : List ℕ)
      → h ≢ hash (elts j).key % size
      → AllHome h (entries elts is)
      → Fresh j is
  Fresh-AllHome elts h j [] ne home = tt
  Fresh-AllHome elts h j (i ∷ is) ne home = (
    λ e. ne (home.0 ∙ ap (λ x. hash (elts x).key % size) (sym e)),
    Fresh-AllHome elts h j is ne home.1,
  )

  -- Elements of two buckets.
  pub Apart-AllHome :
      (elts : ℕ → Elt) (h h' : ℕ) (is js : List ℕ)
      → h ≢ h'
      → AllHome h (entries elts is)
      → AllHome h' (entries elts js)
      → Apart js is
  Apart-AllHome elts h h' is [] ne a b = tt
  Apart-AllHome elts h h' is (j ∷ js) ne a b =
      (Fresh-AllHome elts h j is (λ e. ne (e ∙ sym b.0)) a, Apart-AllHome elts h h' is js ne a b.1)
