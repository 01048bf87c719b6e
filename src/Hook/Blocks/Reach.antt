-- ===== src/Hook/Blocks/Reach.antt =====
-- What a block that `find_usable_block` gives is good for, and what `allocate_memory_block_for_patches`
-- leaves behind.
use ooops.Prelude.{
  ℕ, zero, suc, ◌+◌, ◌-◌, ◌*◌, ◌/◌, ◌%◌, ◌^◌, ◌≤◌, ◌<◌, ◌≡◌, refl, ◌∙◌, ap, subst, true, false,
  Option, none, some, List, [], ◌∷◌, ◌++◌, ◌⊎◌, inl, inr, get_elem?, Bool-cases, Option-cases,
  arith,
}
use ooops.Hook.Maps.{Segment}
use ooops.Hook.Blocks.{
  Block, Span, min_mem_size, is_usable, find_usable_block, find_segment, map_block, new_block,
  allocate_one, determine_mem_block_size,
}

abbrev pub IsMapped : Block → Type 0
IsMapped b = b.patch_addr_end ≡ b.patch_addr + min_mem_size

-- Every byte of the block is closer than 2^31 to every address among the module's functions.
abbrev pub Reaches : Block → Span → Type 0
Reaches b m =
    (f x : ℕ)
    → m.old_func_addr_min ≤ f
    → f ≤ m.old_func_addr_max
    → b.patch_addr ≤ x
    → x < b.patch_addr_end
    → (f + 2 ^ 19 ≤ x + 2 ^ 31) × (x + 2 ^ 19 ≤ f + 2 ^ 31)

is_usable-Reaches : (m : Span) (b : Block) → IsMapped b → is_usable m b ≡ true → Reaches b m
is_usable-Reaches m b mapped ok f x lo hi below above = ground arith

abbrev Search : Span → List Block → ℕ → Option ℕ → Type 0
Search m bs k r =
    ((i : ℕ) × (b : Block) × (r ≡ some (k + i))
      × (get_elem? bs i ≡ some b)
      × (is_usable m b ≡ true))
    ⊎ ((r ≡ none) × ((i : ℕ) (b : Block) → get_elem? bs i ≡ some b → is_usable m b ≡ false))

cons_unusable :
    (m : Span) (b : Block) (bs : List Block)
    → is_usable m b ≡ false
    → ((i : ℕ) (c : Block) → get_elem? bs i ≡ some c → is_usable m c ≡ false)
    → (i : ℕ) (c : Block) → get_elem? (b ∷ bs) i ≡ some c
    → is_usable m c ≡ false
cons_unusable m b bs e h zero c g = subst (λ c. is_usable m c ≡ false) {x = b} {y = c} (cc) e
cons_unusable m b bs e h (suc i) c g = h i c g

cons_cases :
    (m : Span) (b : Block) (bs : List Block) (k : ℕ) (r : Option ℕ)
    → is_usable m b ≡ false
    → Search m bs (suc k) r
    → Search m (b ∷ bs) k r
cons_cases m b bs k r e (inl (i, c, f, g, h)) = inl (suc i, c, f ∙ ap some (omega arith), g, h)
cons_cases m b bs k r e (inr (f, h)) = inr (f, cons_unusable m b bs e h)

-- The block found is the first usable one.
find_usable_block_cases :
    (m : Span) (bs : List Block) (k : ℕ) → Search m bs k (find_usable_block m bs k)
unfolding find_usable_block
find_usable_block_cases m [] k = inr (refl, λ i b e. cc)
find_usable_block_cases m (b ∷ bs) k = elim (Bool-cases (is_usable m b)) [
  | inl e ↦ inl (0, b, rw e (ap some (omega arith)), refl, e)
  | inr e ↦ rw e (
      cons_cases m b bs k (find_usable_block m bs (suc k)) e (find_usable_block_cases m bs (suc k)))
]

-- The pages that `mprotect` opens hold the five bytes of the entry, and no more than two.
pub determine_mem_block_size_covers :
    (addr page_size : ℕ)
    → 5 ≤ page_size
    → let base = addr - addr % page_size in
      let size = determine_mem_block_size addr page_size in
      (base ≤ addr) × (addr + 5 ≤ base + size) × ((size ≡ page_size) ⊎ (size ≡ page_size * 2))
unfolding determine_mem_block_size
determine_mem_block_size_covers addr page_size h = ground arith

-- A module that is given a block by `find_usable_block` can jump between its functions and any byte
-- of that block by a 32-bit offset; where -1 is returned, no block is close enough.
pub find_usable_block-Reaches :
    (m : Span) (bs : List Block)
    → ((i : ℕ) (b : Block) → get_elem? bs i ≡ some b → IsMapped b)
    → ((i : ℕ) × (b : Block) × (find_usable_block m bs 0 ≡ some i)
        × (get_elem? bs i ≡ some b)
        × Reaches b m)
      ⊎ ((find_usable_block m bs 0 ≡ none)
          × ((i : ℕ) (b : Block) → get_elem? bs i ≡ some b → is_usable m b ≡ false))
find_usable_block-Reaches m bs mapped = elim (find_usable_block_cases m bs 0) [
  | inl (i, b, e, g, h) ↦
      inl (i, b, e ∙ ap some (omega arith), g, is_usable-Reaches m b (mapped i b g) h)
  | inr (e, h) ↦ inr (e, h)
]

map_block_cases :
    (mmap : ℕ → Option ℕ) (bs : List Block) (m m' : Span) (bs' : List Block)
    (r : Option (Segment × List Segment))
    → map_block mmap bs m r ≡ some (bs', m')
    → (a : ℕ) × (bs' ≡ bs ++ (new_block a ∷ [])) × (m' ≡ m)
unfolding map_block
map_block_cases mmap bs m m' bs' none e = cc
map_block_cases mmap bs m m' bs' (some (s, ss)) e = elim (Option-cases (mmap s.addr_max)) [
  | inl n ↦ absurd (ground arith)
  | inr (a, n) ↦ (a, ground arith, ground arith)
]

-- A module for which a new block is mapped does not get that block's index: the block goes to the
-- end of the list, and the module keeps the index that it had, 0 from `memset`, whose block, if
-- there was one before, is too far away.
pub allocate_one-new_block :
    (mmap : ℕ → Option ℕ) (segs : List Segment) (b : Block) (bs bs' : List Block) (m m' : Span)
    → m.idx_patch_blk ≡ 0
    → 0 < m.old_func_addr_max
    → find_usable_block m (b ∷ bs) 0 ≡ none
    → allocate_one mmap segs (b ∷ bs) m ≡ some (bs', m')
    → ((a : ℕ) × (bs' ≡ (b ∷ bs) ++ (new_block a ∷ [])))
      × (m'.idx_patch_blk ≡ 0)
      × (is_usable m b ≡ false)
unfolding allocate_one
allocate_one-new_block mmap segs b bs bs' m m' zeroed pos far e =
    let made =
      map_block_cases mmap (b ∷ bs) m m' bs'
        (find_segment ((m.old_func_addr_min + m.old_func_addr_max) / 2) segs) (ground arith) in
    ((made.0, made.1), ap (λ s. s.idx_patch_blk) made.2 ∙ zeroed, unusable)
  where
    unusable : is_usable m b ≡ false
    unusable = elim (find_usable_block_cases m (b ∷ bs) 0) [
      | inl (_, _, q, _, _) ↦ absurd (cc)
      | inr (_, h) ↦ h 0 b refl
    ]
