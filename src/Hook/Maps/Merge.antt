-- ===== src/Hook/Maps/Merge.antt =====
-- The segments that `get_module_maps` makes of the lines of the memory map.
use ooops.Prelude.{
  ℕ, suc, ◌≤◌, ◌<◌, ◌≡◌, ◌↔◌, ◌⊎◌, inl, inr, ◌&&◌, List, [], ◌∷◌, ltb, length, strn_eq, Bool-cases,
  Option-cases, ◌==◌, arith,
}
use native.Mathlib.Decide.{dec_lt}
use ooops.Hook.Maps.{
  Segment, Line, Map, add_segment, add_library, read_lines, drop_last_segment, max_num_seg,
  max_num_lib, stack_name,
}

-- The kernel lists mappings by rising addresses, none empty and no two overlapping.
abbrev pub Ascending : ℕ → List Line → Type 0
Ascending lo [] = Unit {0}
Ascending lo (l ∷ ls) = (lo ≤ l.addr_b) × (l.addr_b < l.addr_e) × Ascending l.addr_e ls

-- Segments, the last one first, none empty, with a gap between any two.
abbrev pub Separated : ℕ → List Segment → Type 0
Separated hi [] = Unit {0}
Separated hi (s ∷ ss) = (s.addr_max < hi) × (s.addr_min < s.addr_max) × Separated s.addr_min ss

abbrev pub InSegments : ℕ → List Segment → Type 0
InSegments x [] = ⊥
InSegments x (s ∷ ss) = ((s.addr_min ≤ x) × (x < s.addr_max)) ⊎ InSegments x ss

abbrev pub InLines : ℕ → List Line → Type 0
InLines x [] = ⊥
InLines x (l ∷ ls) = ((l.addr_b ≤ x) × (x < l.addr_e)) ⊎ InLines x ls

Separated-mono : (lo hi : ℕ) (ss : List Segment) → lo ≤ hi → Separated lo ss → Separated hi ss
Separated-mono lo hi [] h p = tt
Separated-mono lo hi (s ∷ ss) h p = (omega arith, p.1, p.2)

pub add_segment-Separated :
    (lo b e : ℕ) (ss : List Segment)
    → lo ≤ b
    → b < e
    → Separated (suc lo) ss
    → Separated (suc e) (add_segment b e ss)
unfolding add_segment
add_segment-Separated lo b e [] h k p = (omega arith, omega arith, tt)
add_segment-Separated lo b e (s ∷ ss) h k p = ground arith

pub add_segment-InSegments :
    (lo b e : ℕ) (ss : List Segment) (x : ℕ)
    → lo ≤ b
    → b < e
    → Separated (suc lo) ss
    → InSegments x (add_segment b e ss) ↔ (((b ≤ x) × (x < e)) ⊎ InSegments x ss)
unfolding add_segment
add_segment-InSegments lo b e [] x h k p = (λ q. q, λ q. q)
add_segment-InSegments lo b e (s ∷ ss) x h k p = elim (Bool-cases (b == s.addr_max)) [
  | inl q ↦ rw q (joined (ground arith))
  | inr q ↦ rw q (λ r. r, λ r. r)
]
  where
    joined :
        b ≡ s.addr_max
        → (((s.addr_min ≤ x) × (x < e)) ⊎ InSegments x ss)
          ↔ (((b ≤ x) × (x < e)) ⊎ InSegments x (s ∷ ss))
    joined q = (there, back)
      where
        there :
            ((s.addr_min ≤ x) × (x < e)) ⊎ InSegments x ss
            → ((b ≤ x) × (x < e)) ⊎ InSegments x (s ∷ ss)
        there (inl r) = elim (dec_lt x b) [
          | yes t ↦ inr (inl (r.0, omega arith))
          | no t ↦ inl (omega arith, r.1)
        ]
        there (inr r) = inr (inr r)

        back :
            ((b ≤ x) × (x < e)) ⊎ InSegments x (s ∷ ss)
            → ((s.addr_min ≤ x) × (x < e)) ⊎ InSegments x ss
        back (inl r) = inl (omega arith, r.1)
        back (inr (inl r)) = inl (r.0, omega arith)
        back (inr (inr r)) = inr r

drop-Separated :
    (hi : ℕ) (ss : List Segment) → Separated hi ss → Separated hi (drop_last_segment ss)
drop-Separated hi [] p = tt
drop-Separated hi (s ∷ ss) p = Separated-mono s.addr_min hi ss (omega arith) p.2

-- Whatever the kernel lists, by rising addresses: no segment is empty, and there is a gap between
-- any two.
pub read_lines-Separated :
    (ls : List Line) (lo : ℕ) (m : Map)
    → Ascending lo ls
    → Separated (suc lo) m.segs
    → (hi : ℕ) × Separated hi (read_lines ls m).segs
unfolding read_lines
read_lines-Separated [] lo m asc sep = (suc lo, sep)
read_lines-Separated (l ∷ ls) lo m asc sep = elim (Option-cases l.lib) [
  | inl e ↦ elim (Bool-cases (ltb (length segs) max_num_seg)) [
    | inl more ↦
        rw (e, read_lines, more)
          (read_lines-Separated ls l.addr_e (record m { segs = segs }) asc.2 next)
    | inr full ↦ rw (e, read_lines, full) (suc l.addr_e, next)
  ]
  | inr (name, e) ↦ elim (Bool-cases (strn_eq name stack_name 7)) [
    | inl stack ↦ rw (e, read_lines, stack) (suc l.addr_e, drop-Separated _ segs next)
    | inr file ↦
        elim (Bool-cases (
          ltb (length (add_library name l.addr_b m.libs)) max_num_lib
          && ltb (length segs) max_num_seg)) [
            | inl more ↦
                rw (e, read_lines, file, more)
                  (read_lines-Separated ls l.addr_e
                    (record { segs = segs; libs = add_library name l.addr_b m.libs }) asc.2 next)
            | inr full ↦ rw (e, read_lines, file, full) (suc l.addr_e, next)
          ]
  ]
]
  where
    segs : List Segment
    segs = add_segment l.addr_b l.addr_e m.segs

    next : Separated (suc l.addr_e) segs
    next = add_segment-Separated lo l.addr_b l.addr_e m.segs asc.0 asc.1 sep
