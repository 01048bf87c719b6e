-- ===== src/Hook/Blocks.antt =====
-- src/hook.c: the memory blocks that hold trampolines (`find_usable_block`,
-- `allocate_memory_block_for_patches`, `determine_mem_block_size`). Addresses are user addresses,
-- so the sums and differences of the code do not wrap. `exit(1)` is `none`.
pub mod Reach
use ooops.Prelude.{
  ℕ, suc, ◌+◌, ◌-◌, ◌*◌, ◌/◌, ◌%◌, ◌^◌, Bool, ◌&&◌, Option, none, some, List, [], ◌∷◌, ◌++◌, ltb,
  leb, ◌==◌, if◌then◌else◌,
}
use ooops.Hook.Maps.{Segment}

abbrev pub null_rip_var_offset : ℕ
null_rip_var_offset = 0x7FF00000

abbrev pub min_mem_size : ℕ
min_mem_size = 0x1000

-- `PATCH_BLOCK`
pub record Block : Type 0 where
  pub patch_addr : ℕ
  pub patch_addr_end : ℕ
  pub num_trampoline : ℕ

-- The part of `MODULE_PATCH_INFO` that places a module: its functions and its block.
pub record Span : Type 0 where
  pub old_func_addr_min : ℕ
  pub old_func_addr_max : ℕ
  pub idx_patch_blk : ℕ

-- `labs(a - b)`
abbrev pub labs_sub : ℕ → ℕ → ℕ
labs_sub a b = (a - b) + (b - a)

abbrev pub middle : Block → ℕ
middle b = (b.patch_addr + b.patch_addr_end) / 2

abbrev pub is_usable : Span → Block → Bool
is_usable m b =
    ltb (labs_sub m.old_func_addr_min (middle b)) null_rip_var_offset
    && ltb (labs_sub m.old_func_addr_max (middle b)) null_rip_var_offset

-- `none` is -1.
unfoldable pub find_usable_block : Span → List Block → ℕ → Option ℕ
find_usable_block m [] i = none
find_usable_block m (b ∷ bs) i = if is_usable m b then some i else find_usable_block m bs (suc i)

-- The segment that holds an address, and the one behind it.
unfoldable pub find_segment : ℕ → List Segment → Option (Segment × List Segment)
find_segment a [] = none
find_segment a (s ∷ ss) =
    if leb s.addr_min a && leb a s.addr_max then some (s, ss) else find_segment a ss

-- `(addr_min[iSeg+1] - addr_max[iSeg]) < MIN_MEM_SIZE`, where there is a next segment
unfoldable pub is_crowded : Segment → List Segment → Bool
is_crowded s [] = Bool.false
is_crowded s (t ∷ ts) = ltb ((t.addr_min + 2 ^ 64 - s.addr_max) % 2 ^ 64) min_mem_size

abbrev pub new_block : ℕ → Block
new_block a = record { patch_addr = a; patch_addr_end = a + min_mem_size; num_trampoline = 0 }

-- `mmap` at a fixed address is an argument; `none` is `MAP_FAILED`.
module _ (mmap : ℕ → Option ℕ) where
  unfoldable pub map_block :
      List Block → Span → Option (Segment × List Segment) → Option (List Block × Span)
  unfolding is_crowded
  map_block bs m none = none
  map_block bs m (some (s, ss)) =
      if is_crowded s ss
      then none
      else elim (mmap s.addr_max) [ none ↦ none | some a ↦ some (bs ++ (new_block a ∷ []), m) ]

  -- One round of the loop over the modules.
  unfoldable pub allocate_one : List Segment → List Block → Span → Option (List Block × Span)
  unfolding map_block find_segment
  allocate_one segs bs m =
      if m.old_func_addr_min == 0 && m.old_func_addr_max == 0
      then some (bs, m)
      else elim (find_usable_block m bs 0) [
        | some i ↦ some (bs, record m { idx_patch_blk = i })
        | none ↦
            map_block bs m (find_segment ((m.old_func_addr_min + m.old_func_addr_max) / 2) segs)
      ]

  unfoldable pub allocate_blocks :
      List Segment → List Block → List Span → Option (List Block × List Span)
  allocate_blocks segs bs [] = some (bs, [])
  allocate_blocks segs bs (m ∷ ms) = elim (allocate_one segs bs m) [
    | none ↦ none
    | some (bs', m') ↦ elim (allocate_blocks segs bs' ms) [
      | none ↦ none
      | some (bs'', ms') ↦ some (bs'', m' ∷ ms')
    ]
  ]

-- How many bytes from the start of its page `mprotect` is told to open for a function's entry.
unfoldable pub determine_mem_block_size : ℕ → ℕ → ℕ
determine_mem_block_size addr page_size =
    if ltb page_size (addr % page_size + 5) then page_size * 2 else page_size
