-- ===== src/Dict/Chains.antt =====
-- The buckets and the free elements of the table, as lists of indices.
use ooops.Prelude.{
  ℕ, zero, suc, ◌≤◌, ◌≡◌, ◌≢◌, refl, sym, subst, Option, none, some, List, [], ◌∷◌, Text, ◌==◌,
  if◌then◌else◌, str_eq, length, inl, inr, Bool-cases, arith,
}
use ooops.Dict.{Elt, write, search_from}

-- The elements that are reached from an index.
abbrev pub Chain : (ℕ → Elt) → Option ℕ → List ℕ → Type 0
Chain elts head [] = head ≡ none
Chain elts head (j ∷ js) = (head ≡ some j) × Chain elts (elts j).next js

abbrev pub Fresh : ℕ → List ℕ → Type 0
Fresh i [] = Unit {0}
Fresh i (j ∷ js) = (i ≢ j) × Fresh i js

abbrev pub Apart : List ℕ → List ℕ → Type 0
Apart [] is = Unit {0}
Apart (j ∷ js) is = Fresh j is × Apart js is

abbrev pub Distinct : List ℕ → Type 0
Distinct [] = Unit {0}
Distinct (j ∷ js) = Fresh j js × Distinct js

-- The value at the first element of the list that has the key.
abbrev pub lookup : (ℕ → Elt) → List ℕ → Text → Option ℕ
lookup elts [] key = none
lookup elts (j ∷ js) key =
    if str_eq (elts j).key key then some (elts j).value else lookup elts js key

pub write_ne : {A : Type 0} (f : ℕ → A) (i j : ℕ) (v : A) → i ≢ j → write f i v j ≡ f j
write_ne f i j v h = elim (Bool-cases (j == i)) [
  | inl e ↦ absurd (h (ground arith))
  | inr e ↦ rw e refl
]

pub write_self : {A : Type 0} (f : ℕ → A) (i : ℕ) (v : A) → write f i v i ≡ v
write_self f i v = ground arith

pub Chain-write :
    (elts : ℕ → Elt) (i : ℕ) (e : Elt) (head : Option ℕ) (is : List ℕ)
    → Fresh i is
    → Chain elts head is
    → Chain (write elts i e) head is
Chain-write elts i e head [] f c = c
Chain-write elts i e head (j ∷ js) f c = (
  c.0,
  subst (λ x. Chain (write elts i e) (x.next) js) (sym (write_ne elts i j e f.0))
      (Chain-write elts i e (elts j).next js f.1 c.1),
)

pub lookup-write :
    (elts : ℕ → Elt) (i : ℕ) (e : Elt) (is : List ℕ) (key : Text)
    → Fresh i is
    → lookup (write elts i e) is key ≡ lookup elts is key
lookup-write elts i e [] key f = refl
lookup-write elts i e (j ∷ js) key f =
    rw (write_ne elts i j e f.0, lookup-write elts i e js key f.1) refl

-- The walk finds what the list holds, where it may go as far as the list is long.
pub search_from-lookup :
    (fuel : ℕ) (elts : ℕ → Elt) (head : Option ℕ) (is : List ℕ) (key : Text)
    → Chain elts head is
    → length is ≤ fuel
    → search_from fuel elts head key ≡ lookup elts is key
unfolding search_from
search_from-lookup fuel elts none [] key c h = refl
search_from-lookup fuel elts (some i) [] key c h = absurd (cc)
search_from-lookup fuel elts none (j ∷ js) key c h = absurd (let e = c.0 in cc)
search_from-lookup zero elts (some i) (j ∷ js) key c h = absurd (omega arith)
search_from-lookup (suc fuel) elts (some i) (j ∷ js) key c h =
    let e : i ≡ j = (let q = c.0 in cc) in
    rw (e, search_from-lookup fuel elts (elts j).next js key c.1 (omega arith)) refl
