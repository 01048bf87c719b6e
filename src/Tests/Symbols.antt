-- ===== src/Tests/Symbols.antt =====
-- A library with the symbols `open` and `open64`, which have one address, and no `stat`.
use ooops.Prelude.{
  Text, Option, strn_eq, str_eq, ℕ, zero, suc, ◌≡◌, refl, Bool, true, false, some, List, [], ◌∷◌,
  ◌++◌, codes,
}
use ooops.Hook.Patch.{Memory}
use ooops.Hook.Blocks.{Span}
use ooops.Hook.Symbols.{Elf, Func, Symbol, query_module}
use ooops.Hook.Maps.{Line, get_module_maps}
use ooops.Hook.Query.{Target, Found, query_all_org_func_addr}
use ooops.Hook.Query.Sound.{AllReadable, AllSound, query_all_org_func_addr_sound}
use ooops.Hook.Symbols.Resolve.{symbols_from}

abbrev byte_at : List ℕ → Memory
byte_at [] a = 0
byte_at (b ∷ bs) zero = b
byte_at (b ∷ bs) (suc a) = byte_at bs a

abbrev zeros : ℕ → List ℕ
zeros zero = []
zeros (suc n) = 0 ∷ zeros n

-- `st_name`, `st_value` and `st_size`
abbrev record_of : ℕ → ℕ → ℕ → List ℕ
record_of name value size = name ∷ zeros 7 ++ value ∷ zeros 7 ++ size ∷ zeros 7

abbrev bytes : List ℕ
bytes = 0 ∷ codes "open" ++ 0 ∷ codes "open64" ++ zeros 4 ++ record_of 1 64 30 ++ record_of 6 64 30

abbrev lib_open : Elf
lib_open = record {
  sections =
      record { sh_type = 0; sh_offset = 0; sh_size = 0; sh_entsize = 0 }
      ∷ record { sh_type = 2; sh_offset = 16; sh_size = 48; sh_entsize = 24 }
      ∷ record { sh_type = 3; sh_offset = 0; sh_size = 13; sh_entsize = 0 }
      ∷ [];
  image = byte_at bytes;
}

abbrev wanted_funcs : List Func
wanted_funcs =
    record { func_name = codes "open"; func_addr = 0; func_len = 0 }
    ∷ record { func_name = codes "open64"; func_addr = 0; func_len = 0 }
    ∷ record { func_name = codes "stat"; func_addr = 0; func_len = 0 }
    ∷ []

abbrev all_on : List Bool
all_on = false ∷ false ∷ false ∷ []

abbrev both : List Symbol
both = record { strtab = 0; rec_addr = 16 } ∷ record { strtab = 0; rec_addr = 40 } ∷ []

abbrev no_range : Span
no_range = record { old_func_addr_min = 0; old_func_addr_max = 0; idx_patch_blk = 0 }

both_read : symbols_from lib_open 0 lib_open.sections 0 ≡ some both
unfolding symbols_from
both_read = refl

-- The process has it at 4096, and a hook is registered for `lib_open`.
abbrev its_lines : List Line
its_lines = record { addr_b = 4096; addr_e = 8192; lib = some (codes "/usr/lib_open.so") } ∷ []

abbrev files : Text → Option Elf
files name = some lib_open

abbrev its_targets : List Target
its_targets =
    record {
      module_name = codes "lib_open";
      module_base_addr = 0;
      funcs = wanted_funcs;
      disabled = all_on;
      span = no_range;
    }
    ∷ []

its_targets-AllReadable : AllReadable files (get_module_maps its_lines).libs its_targets
unfolding get_module_maps strn_eq str_eq
its_targets-AllReadable = (
  record {
    lib = record { name = codes "/usr/lib_open.so"; base = 4096 };
    elf = lib_open;
    syms = both;
    in_map = refl;
    file = refl;
    symbols = both_read;
  },
  tt,
)

query_all_org_func_addr_sound_example :
    (fs : List Found) × (query_all_org_func_addr files its_lines its_targets ≡ some fs)
    × AllSound files (get_module_maps its_lines).libs its_targets its_targets-AllReadable fs
query_all_org_func_addr_sound_example =
    query_all_org_func_addr_sound files its_lines its_targets its_targets-AllReadable

-- The three functions: the first is patched, the second is the same, the third is not found.
slots_of_lib_open :
    query_module (some lib_open) 4096 wanted_funcs all_on no_range
    ≡ some (
      record { func_name = codes "open"; func_addr = 4160; func_len = 30 }
          ∷ record { func_name = codes "open64"; func_addr = 4160; func_len = 30 }
          ∷ record { func_name = codes "stat"; func_addr = 0; func_len = 0 }
          ∷ [],
      record { old_func_addr_min = 4160; old_func_addr_max = 4160; idx_patch_blk = 0 },
      record { addr = 4160; is_disabled = false }
          ∷ record { addr = 0; is_disabled = true }
          ∷ record { addr = 0; is_disabled = true }
          ∷ [],
    )
unfolding query_module
slots_of_lib_open = refl
