-- ===== src/Tests/Hooks.antt =====
-- Maps, blocks and registrations of a small process.
use ooops.Prelude.{
  ℕ, zero, ◌+◌, ◌≡◌, refl, subst, suc, ◌^◌, ◌⊎◌, ◌↔◌, true, false, Option, none, some, List, [],
  ◌∷◌, ◌++◌, Text, codes, get_elem?, strn_eq, arith, str_eq,
}
use ooops.Hook.Maps.{Segment, Line, get_module_maps, stack_name}
use ooops.Hook.Maps.Merge.{Ascending, Separated, InSegments, InLines}
use ooops.Hook.Maps.Cover.{NoStack, AtStack, end_of, get_module_maps_covers}
use ooops.Hook.Blocks.{Block, Span, find_usable_block, is_usable, allocate_one, new_block}
use ooops.Hook.Blocks.Reach.{IsMapped, Reaches, find_usable_block-Reaches, allocate_one-new_block}
use ooops.Hook.Registry.{Registry, Hook, Code, Paths, register_a_hook, determine_lib_path}
use ooops.Hook.Registry.Keep.{Consistent}
use ooops.Hook.Registry.Outcome.{Registered, register_a_hook-Registered}

-- `printf '/bin/ls'`, its data behind it, and libc.
abbrev lines : List Line
lines =
    record { addr_b = 4096; addr_e = 8192; lib = some (codes "/bin/ls") }
    ∷ record { addr_b = 8192; addr_e = 12288; lib = none }
    ∷ record { addr_b = 65536; addr_e = 131072; lib = some (codes "/lib/libc-2.31.so") }
    ∷ []

-- The stack, and what the kernel lists behind it.
abbrev stack_on : List Line
stack_on =
    record { addr_b = 262144; addr_e = 393216; lib = some (codes "[stack]") }
    ∷ record { addr_b = 524288; addr_e = 528384; lib = some (codes "[vdso]") }
    ∷ []

lines-Ascending : Ascending 0 (lines ++ stack_on)
lines-Ascending = (
  omega arith,
  omega arith,
  (
    omega arith,
    omega arith,
    (omega arith, omega arith, (omega arith, omega arith, (omega arith, omega arith, tt))),
  ),
)

stack_on-AtStack : AtStack (end_of 0 lines) stack_on
unfolding strn_eq
stack_on-AtStack = ((codes "[stack]", refl, refl), omega arith)

not_stack :
    (l name : Text)
    → strn_eq l stack_name 7 ≡ false
    → (some l ≡ some name)
    → strn_eq name stack_name 7 ≡ false
not_stack l name h e = subst (λ n. strn_eq n stack_name 7 ≡ false) {x = l} {y = name} (cc) h

lines-NoStack : NoStack lines
unfolding strn_eq
lines-NoStack = (
  λ name e. not_stack (codes "/bin/ls") name refl e,
  (λ name e. absurd (cc), (λ name e. not_stack (codes "/lib/libc-2.31.so") name refl e, tt)),
)

segments_run :
    (get_module_maps (lines ++ stack_on)).segs
    ≡ record { addr_min = 65536; addr_max = 131072 }
      ∷ record { addr_min = 4096; addr_max = 12288 }
      ∷ []
unfolding get_module_maps strn_eq str_eq
segments_run = refl

get_module_maps_covers_example :
    ((hi : ℕ) × Separated hi (get_module_maps (lines ++ stack_on)).segs)
    × ((x : ℕ) → InSegments x (get_module_maps (lines ++ stack_on)).segs ↔ InLines x lines)
get_module_maps_covers_example =
    get_module_maps_covers lines stack_on lines-Ascending lines-NoStack stack_on-AtStack
      (omega arith)

abbrev near : Block
near = record { patch_addr = 131072; patch_addr_end = 135168; num_trampoline = 0 }

abbrev far : Block
far = record { patch_addr = 2 ^ 40; patch_addr_end = 2 ^ 40 + 4096; num_trampoline = 0 }

abbrev libc : Span
libc = record { old_func_addr_min = 70000; old_func_addr_max = 80000; idx_patch_blk = 0 }

blocks-IsMapped : (i : ℕ) (b : Block) → get_elem? (far ∷ near ∷ []) i ≡ some b → IsMapped b
blocks-IsMapped zero b e = subst IsMapped {x = far} {y = b} (cc) refl
blocks-IsMapped (suc zero) b e = subst IsMapped {x = near} {y = b} (cc) refl
blocks-IsMapped (suc (suc i)) b e = absurd (cc)

find_usable_block-Reaches_example :
    ((i : ℕ) × (b : Block) × (find_usable_block libc (far ∷ near ∷ []) 0 ≡ some i)
      × (get_elem? (far ∷ near ∷ []) i ≡ some b)
      × Reaches b libc)
    ⊎ ((find_usable_block libc (far ∷ near ∷ []) 0 ≡ none)
        × ((i : ℕ) (b : Block) → get_elem? (far ∷ near ∷ []) i ≡ some b → is_usable libc b ≡ false))
find_usable_block-Reaches_example = find_usable_block-Reaches libc (far ∷ near ∷ []) blocks-IsMapped

abbrev map_at : ℕ → Option ℕ
map_at a = some a

abbrev segments : List Segment
segments =
    record { addr_min = 4096; addr_max = 12288 }
    ∷ record { addr_min = 65536; addr_max = 131072 }
    ∷ []

allocated : allocate_one map_at segments (far ∷ []) libc ≡ some (far ∷ new_block 131072 ∷ [], libc)
unfolding allocate_one find_usable_block
allocated = refl

none_near : find_usable_block libc (far ∷ []) 0 ≡ none
unfolding find_usable_block
none_near = refl

allocate_one-new_block_example :
    ((a : ℕ) × (far ∷ new_block 131072 ∷ [] ≡ (far ∷ []) ++ (new_block a ∷ [])))
    × (libc.idx_patch_blk ≡ 0)
    × (is_usable libc far ≡ false)
allocate_one-new_block_example =
    allocate_one-new_block map_at segments far [] (far ∷ new_block 131072 ∷ []) libc libc refl
      (omega arith) none_near allocated

abbrev memory_text : Text
memory_text = codes "7f00-7f10 r-xp 00 00:00 9  /lib/ld-2.31.so"

abbrev no_paths : Paths
no_paths = record { path_ld = []; path_libc = []; path_libpthread = [] }

abbrev at_first : Registry
at_first = record {
  modules = [];
  num_hook = 0;
  found_libc = true;
  num_called_module_map = 0;
  maps = record { segs = []; libs = [] };
  paths = no_paths;
}

abbrev open_hook : Hook
open_hook = record { func_name = codes "open"; new_func_addr = 5000; ptr_old_func = 6000 }

abbrev lib_paths_2_31 : Paths
lib_paths_2_31 = record {
  path_ld = codes "/lib/ld-2.31.so";
  path_libc = codes "/lib/libc-2.31.so";
  path_libpthread = codes "/lib/libpthread-2.31.so";
}

abbrev with_open : Registry
with_open = record {
  modules =
      record {
        module_name = codes "/lib/libc-2.31.so";
        module_base_addr = 65536;
        hooks = open_hook ∷ [];
      }
      ∷ [];
  num_hook = 1;
  found_libc = true;
  num_called_module_map = 1;
  maps = get_module_maps lines;
  paths = lib_paths_2_31;
}

no_library : Text → Option (List Line)
no_library name = none

register_runs :
    register_a_hook memory_text lines no_library (codes "libc") open_hook at_first
    ≡ some (Code.success, with_open)
unfolding register_a_hook get_module_maps determine_lib_path strn_eq str_eq
register_runs = refl

register_a_hook-Registered_example :
    Consistent with_open × Registered (codes "libc") open_hook at_first with_open Code.success
register_a_hook-Registered_example =
    register_a_hook-Registered memory_text lines no_library (codes "libc") open_hook at_first
      with_open Code.success (tt, tt, refl, (omega arith, tt)) register_runs
