-- ===== src/Hook/Maps.antt =====
-- src/hook.c: the memory map of the process (`get_module_maps`, `get_position_of_next_line`).
-- A line of /proc/<pid>/maps is read by `sscanf`: what it yields is the data here.
pub mod Merge
pub mod Cover
pub mod NextLine
use ooops.Prelude.{
  ℕ, zero, suc, ◌+◌, ◌-◌, Bool, ◌&&◌, ◌||◌, true, false, Option, none, some, List, [], ◌∷◌, ◌++◌,
  Text, codes, ltb, leb, ◌==◌, if◌then◌else◌, str_eq, strn_eq, length, get_or,
}

-- One entry of `addr_min` and `addr_max`.
pub record Segment : Type 0 where
  pub addr_min : ℕ
  pub addr_max : ℕ

-- One entry of `lib_name_list` and `lib_base_addr`.
pub record Library : Type 0 where
  pub name : Text
  pub base : ℕ

-- What is read of a line: its two addresses, and the name of its file if it has one.
pub record Line : Type 0 where
  pub addr_b : ℕ
  pub addr_e : ℕ
  pub lib : Option Text

-- The segments so far, the last one first. A segment that begins where the last one ends is joined
-- to it.
unfoldable pub add_segment : ℕ → ℕ → List Segment → List Segment
add_segment b e [] = record { addr_min = b; addr_max = e } ∷ []
add_segment b e (s ∷ ss) =
    if b == s.addr_max
    then record s { addr_max = e } ∷ ss
    else record { addr_min = b; addr_max = e } ∷ s ∷ ss

abbrev pub starts_with : Text → Text → Bool
starts_with xs pre = strn_eq xs pre (length pre)

-- `strstr(xs, sub) != NULL`
unfoldable pub has_infix : Text → Text → Bool
has_infix [] sub = starts_with [] sub
has_infix (x ∷ xs) sub = starts_with (x ∷ xs) sub || has_infix xs sub

-- The two loops of `query_lib_name_in_list`; the entry found, or none for -1.
unfoldable pub find_exact : Text → List Library → Option Library
find_exact name [] = none
find_exact name (l ∷ ls) = if str_eq name l.name then some l else find_exact name ls

unfoldable pub find_partial : Text → List Library → Option Library
unfolding has_infix
find_partial name [] = none
find_partial name (l ∷ ls) = if has_infix l.name name then some l else find_partial name ls

unfoldable pub query_lib_name_in_list : Text → List Library → Option Library
unfolding find_exact find_partial
query_lib_name_in_list name libs = elim (find_exact name libs) [
  | some l ↦ some l
  | none ↦ find_partial name libs
]

abbrev pub max_num_seg : ℕ
max_num_seg = 2048

abbrev pub max_num_lib : ℕ
max_num_lib = 256

pub record Map : Type 0 where
  -- the last one first
  pub segs : List Segment
  pub libs : List Library

abbrev pub drop_last_segment : List Segment → List Segment
drop_last_segment [] = []
drop_last_segment (s ∷ ss) = ss

-- A file that is not in the list goes to its end.
unfoldable pub add_library : Text → ℕ → List Library → List Library
unfolding query_lib_name_in_list
add_library name base libs = elim (query_lib_name_in_list name libs) [
  | some l ↦ libs
  | none ↦ libs ++ (record { name = name; base = base } ∷ [])
]

abbrev pub stack_name : Text
stack_name = codes "[stack]"

-- The loop over the lines: it ends at the stack, whose segment is dropped, or at a full table.
unfoldable pub read_lines : List Line → Map → Map
unfolding add_segment add_library
read_lines [] m = m
read_lines (l ∷ ls) m = elim l.lib [
  | none ↦ elim (ltb (length segs) max_num_seg) [
    | true ↦ read_lines ls (record m { segs = segs })
    | false ↦ record m { segs = segs }
  ]
  | some name ↦ elim (strn_eq name stack_name 7) [
    | true ↦ record m { segs = drop_last_segment segs }
    | false ↦
        elim (ltb (length (add_library name l.addr_b m.libs)) max_num_lib
          && ltb (length segs) max_num_seg) [
            | true ↦ read_lines ls (record { segs = segs; libs = add_library name l.addr_b m.libs })
            | false ↦ record { segs = segs; libs = add_library name l.addr_b m.libs }
          ]
  ]
]
  where
    segs : List Segment
    segs = add_segment l.addr_b l.addr_e m.segs

unfoldable pub get_module_maps : List Line → Map
unfolding read_lines
get_module_maps ls = read_lines ls (record { segs = []; libs = [] })

-- The offset behind the next line feed from i on, among the first `size` bytes; none is -1.
unfoldable pub get_position_of_next_line : ℕ → List ℕ → ℕ → ℕ → Option ℕ
get_position_of_next_line zero buff i size = none
get_position_of_next_line (suc fuel) buff i size =
    if ltb i size
    then (elim (get_or buff i 0 == 0xA) [
      | true ↦ if leb size (i + 1) then none else some (i + 1)
      | false ↦ get_position_of_next_line fuel buff (i + 1) size
    ])
    else none
