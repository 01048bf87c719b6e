-- ===== src/Daemon/Charts/Names.antt =====
-- The names of the file systems, by which their logs and pages are called.
use ooops.Prelude.{
  ℕ, zero, suc, ◌-◌, ◌≤◌, ◌<◌, ◌≡◌, ◌≢◌, ◌⊎◌, inl, inr, refl, ap, ◌∙◌, false, none, some, List, [],
  ◌∷◌, ◌++◌, Text, length, get_elem?, ltb, ◌==◌, length-append, Option-cases, arith,
}
use ooops.Daemon.Charts.Page.{take-append}
use ooops.Daemon.Charts.Job.{cut_at, trim_tag, create_trimmed_name}

-- `/name`, where the name does not end with a slash, or `/name/`.
abbrev pub IsTag : Text → Text → Type 0
IsTag tag name =
    ((tag ≡ b'/' ∷ name)
      × (0 < length name)
      × ((c : ℕ) → get_elem? name (length name - 1) ≡ some c → c ≢ b'/'))
    ⊎ (tag ≡ b'/' ∷ (name ++ b'/' ∷ []))

abbrev pub AllTags : List Text → List Text → Type 0
AllTags [] [] = Unit {0}
AllTags [] (n ∷ ns) = ⊥
AllTags (t ∷ ts) [] = ⊥
AllTags (t ∷ ts) (n ∷ ns) = IsTag t n × AllTags ts ns

get_elem?_beyond : (s : Text) (k : ℕ) → length s ≤ k → get_elem? s k ≡ none
get_elem?_beyond [] k h = refl
get_elem?_beyond (c ∷ s) zero h = absurd (omega arith)
get_elem?_beyond (c ∷ s) (suc k) h = get_elem?_beyond s k (omega arith)

get_elem?-append_last : (s : Text) (c : ℕ) → get_elem? (s ++ c ∷ []) (length s) ≡ some c
get_elem?-append_last [] c = refl
get_elem?-append_last (x ∷ s) c = get_elem?-append_last s c

cut_at_beyond : (k : ℕ) (s : Text) → length s ≤ k → cut_at k s ≡ s
unfolding cut_at
cut_at_beyond k s h = rw (cut_at, get_elem?_beyond s k h) refl

cut_at_plain : (k : ℕ) (s : Text) → ((c : ℕ) → get_elem? s k ≡ some c → c ≢ b'/') → cut_at k s ≡ s
unfolding cut_at
cut_at_plain k s h = elim (Option-cases (get_elem? s k)) [
  | inl e ↦ rw (cut_at, e) refl
  | inr (c, e) ↦
      let other : (c == b'/') ≡ false = ground (arith, h c e) in rw (cut_at, e, other) refl
]

cut_at_slash : (s : Text) → cut_at (length s) (s ++ b'/' ∷ []) ≡ s
unfolding cut_at
cut_at_slash s = rw (cut_at, get_elem?-append_last s b'/') (take-append s (b'/' ∷ []))

trim_tag-IsTag : (tag name : Text) → IsTag tag name → trim_tag tag ≡ some name
unfolding trim_tag
trim_tag-IsTag tag name (inl (e, some_byte, plain)) =
    let long : ltb (suc (length name)) 2 ≡ false = ground arith in
    let whole : suc (length name) - 1 ≡ length name = omega arith in
    let last : suc (length name) - 2 ≡ length name - 1 = omega arith in
    ap trim_tag e
    ∙ rw (trim_tag, long, whole, last, cut_at_beyond (length name) name (omega arith))
        (ap some (cut_at_plain (length name - 1) name plain))
trim_tag-IsTag tag name (inr e) =
    let n = length-append name (b'/' ∷ []) in
    let long : ltb (suc (length (name ++ b'/' ∷ []))) 2 ≡ false = ground (arith, n) in
    let whole : suc (length (name ++ b'/' ∷ [])) - 1 ≡ length (name ++ b'/' ∷ []) = omega arith in
    let last : suc (length (name ++ b'/' ∷ [])) - 2 ≡ length name = omega (arith, n) in
    ap trim_tag e
    ∙ rw
        (
          trim_tag,
          long,
          whole,
          last,
          cut_at_beyond (length (name ++ b'/' ∷ [])) (name ++ b'/' ∷ []) (omega arith),
        )
        (ap some (cut_at_slash name))

pub create_trimmed_name-AllTags :
    (tags names : List Text) → AllTags tags names → create_trimmed_name tags ≡ some names
unfolding create_trimmed_name
create_trimmed_name-AllTags [] [] h = refl
create_trimmed_name-AllTags [] (n ∷ ns) h = absurd h
create_trimmed_name-AllTags (t ∷ ts) [] h = absurd h
create_trimmed_name-AllTags (t ∷ ts) (n ∷ ns) h =
    rw (create_trimmed_name, trim_tag-IsTag t n h.0, create_trimmed_name-AllTags ts ns h.1) refl
