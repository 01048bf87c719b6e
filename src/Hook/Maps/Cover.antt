-- ===== src/Hook/Maps/Cover.antt =====
-- The addresses that the segments of `get_module_maps` hold.
use ooops.Prelude.{
  ℕ, suc, ◌+◌, ◌≤◌, ◌<◌, ◌≡◌, refl, ◌==◌, ◌↔◌, ◌⊎◌, inl, inr, true, false, some, List, [], ◌∷◌,
  ◌++◌, Text, ltb, length, strn_eq, Option-cases, arith,
}
use ooops.Hook.Maps.{
  Segment, Library, Line, Map, add_segment, add_library, query_lib_name_in_list, read_lines,
  get_module_maps, drop_last_segment, max_num_seg, max_num_lib, stack_name,
}
use ooops.Hook.Maps.Merge.{
  Ascending, Separated, InSegments, InLines, add_segment-Separated, add_segment-InSegments,
  read_lines-Separated,
}

-- The list has no entry of the stack.
abbrev pub NoStack : List Line → Type 0
NoStack [] = Unit {0}
NoStack (l ∷ ls) =
    ((name : Text) → l.lib ≡ some name → strn_eq name stack_name 7 ≡ false) × NoStack ls

length-snoc {ℓ} : {A : Type ℓ} (xs : List A) (x : A) → length (xs ++ (x ∷ [])) ≡ suc (length xs)
length-snoc [] x = refl
length-snoc (y ∷ xs) x = rw (length-snoc xs x) refl

length-add_segment : (b e : ℕ) (ss : List Segment) → length (add_segment b e ss) ≤ suc (length ss)
unfolding add_segment
length-add_segment b e [] = omega arith
length-add_segment b e (s ∷ ss) = ground arith

length-add_library :
    (name : Text) (base : ℕ) (libs : List Library)
    → length (add_library name base libs) ≤ suc (length libs)
unfolding add_library
length-add_library name base libs = elim (Option-cases (query_lib_name_in_list name libs)) [
  | inl e ↦ rw (add_library, e) (rw (length-snoc libs _) (omega arith))
  | inr (l, e) ↦ rw (add_library, e) (omega arith)
]

-- With room in the tables, a line adds its segment, and its library at most.
read_lines-cons :
    (l : Line) (ls : List Line) (m : Map)
    → ((name : Text) → l.lib ≡ some name → strn_eq name stack_name 7 ≡ false)
    → length m.segs + 1 < max_num_seg
    → length m.libs + 1 < max_num_lib
    → (libs : List Library) × (length libs ≤ suc (length m.libs))
      × (read_lines (l ∷ ls) m
          ≡ read_lines ls (record { segs = add_segment l.addr_b l.addr_e m.segs; libs = libs }))
unfolding read_lines
read_lines-cons l ls m plain p q = elim (Option-cases l.lib) [
  | inl e ↦ (m.libs, omega arith, rw (read_lines, e, more) refl)
  | inr (name, e) ↦
      let few = length-add_library name l.addr_b m.libs in
      let less : ltb (length (add_library name l.addr_b m.libs)) max_num_lib ≡ true =
        ground arith in
      (add_library name l.addr_b m.libs, few, rw (read_lines, e, plain name e, less, more) refl)
]
  where
    more : ltb (length (add_segment l.addr_b l.addr_e m.segs)) max_num_seg ≡ true
    more = ground (arith, length-add_segment l.addr_b l.addr_e m.segs)

shift_sum : {A B C D E : Type 0} → E ↔ (A ⊎ D) → D ↔ (B ⊎ C) → E ↔ ((B ⊎ A) ⊎ C)
shift_sum {A} {B} {C} {D} {E} f g = (λ e. there (f.0 e), back)
  where
    there : A ⊎ D → (B ⊎ A) ⊎ C
    there (inl a) = inl (inr a)
    there (inr d) = elim (g.0 d) [ inl b ↦ inl (inl b) | inr c ↦ inr c ]

    back : (B ⊎ A) ⊎ C → E
    back (inl (inl b)) = f.1 (inr (g.1 (inl b)))
    back (inl (inr a)) = f.1 (inl a)
    back (inr c) = f.1 (inr (g.1 (inr c)))

-- Behind the lines up to `hi` there is no more, or the stack, with a gap before it, and what the
-- kernel lists behind it.
abbrev pub AtStack : ℕ → List Line → Type 0
AtStack hi [] = Unit {0}
AtStack hi (l ∷ after) =
    ((name : Text) × (l.lib ≡ some name) × (strn_eq name stack_name 7 ≡ true)) × (hi < l.addr_b)

-- Where the last of the lines ends.
abbrev pub end_of : ℕ → List Line → ℕ
end_of lo [] = lo
end_of lo (l ∷ ls) = end_of l.addr_e ls

drop-add_segment :
    (hi b e : ℕ) (ss : List Segment)
    → hi < b
    → Separated (suc hi) ss
    → drop_last_segment (add_segment b e ss) ≡ ss
unfolding add_segment
drop-add_segment hi b e [] h p = refl
drop-add_segment hi b e (s ∷ ss) h p =
    let apart : (b == s.addr_max) ≡ false = ground arith in rw apart refl

-- The segment of the stack is made and dropped.
read_lines_stack :
    (rest : List Line) (hi : ℕ) (m : Map)
    → AtStack hi rest
    → Separated (suc hi) m.segs
    → (read_lines rest m).segs ≡ m.segs
unfolding read_lines
read_lines_stack [] hi m stack sep = refl
read_lines_stack (l ∷ after) hi m ((name, e, q), gap) sep =
    rw (read_lines, e, q) (drop-add_segment hi l.addr_b l.addr_e m.segs gap sep)

read_lines-InSegments :
    (ls rest : List Line) (lo : ℕ) (m : Map) (x : ℕ)
    → Ascending lo (ls ++ rest)
    → NoStack ls
    → AtStack (end_of lo ls) rest
    → Separated (suc lo) m.segs
    → length ls + length m.segs < max_num_seg
    → length ls + length m.libs < max_num_lib
    → InSegments x (read_lines (ls ++ rest) m).segs ↔ (InLines x ls ⊎ InSegments x m.segs)
read_lines-InSegments [] rest lo m x asc plain stack sep p q =
    let same = read_lines_stack rest lo m stack sep in
    rw same (inr, elim [ inl r ↦ absurd r | inr r ↦ r ])
read_lines-InSegments (l ∷ ls) rest lo m x asc plain stack sep p q =
    let step = read_lines-cons l (ls ++ rest) m plain.0 (omega arith) (omega arith) in
    let segs = add_segment l.addr_b l.addr_e m.segs in
    let few = length-add_segment l.addr_b l.addr_e m.segs in
    let later =
      read_lines-InSegments ls rest l.addr_e (record { segs = segs; libs = step.0 }) x asc.2 plain.1
        stack (add_segment-Separated lo l.addr_b l.addr_e m.segs asc.0 asc.1 sep) (omega arith)
        (omega arith) in
    rw (step.2)
      (shift_sum later (add_segment-InSegments lo l.addr_b l.addr_e m.segs x asc.0 asc.1 sep))

-- The kernel lists mappings by rising addresses. Let the list be fewer than 256 of them, none the
-- stack, and then either nothing or the line of the stack, with a gap before it, and any further
-- lines. `get_module_maps` makes segments that hold exactly the addresses of the mappings before
-- the stack, none empty and with a gap between any two.
pub get_module_maps_covers :
    (ls rest : List Line)
    → Ascending 0 (ls ++ rest)
    → NoStack ls
    → AtStack (end_of 0 ls) rest
    → length ls < max_num_lib
    → ((hi : ℕ) × Separated hi (get_module_maps (ls ++ rest)).segs)
      × ((x : ℕ) → InSegments x (get_module_maps (ls ++ rest)).segs ↔ InLines x ls)
unfolding get_module_maps
get_module_maps_covers ls rest asc plain stack few = (
  read_lines-Separated (ls ++ rest) 0 _ asc tt,
  λ x.
      let r =
        read_lines-InSegments ls rest 0 (record { segs = []; libs = [] }) x asc plain stack tt
          (omega arith) (omega arith) in
      (λ i. elim (r.0 i) [ inl a ↦ a | inr b ↦ absurd b ], λ i. r.1 (inl i)),
)
