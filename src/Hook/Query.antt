-- ===== src/Hook/Query.antt =====
-- src/hook.c, `query_all_org_func_addr`: the base addresses of the registered modules in a new map of
-- the process, then their functions. A name that is not in the map, or a file that cannot be read,
-- ends the process: `none`.
pub mod Sound
use ooops.Prelude.{ℕ, Bool, Option, none, some, List, [], ◌∷◌, Text}
use ooops.Hook.Maps.{Library, Line, query_lib_name_in_list, get_module_maps}
use ooops.Hook.Blocks.{Span}
use ooops.Hook.Symbols.{Elf, Func, Slot, query_module}

-- An entry of `module_list`, what is used of it.
pub record Target : Type 0 where
  pub module_name : Text
  pub module_base_addr : ℕ
  pub funcs : List Func
  pub disabled : List Bool
  pub span : Span

-- An entry with its functions found, and which of them `install_hook` patches.
pub record Found : Type 0 where
  pub target : Target
  pub slots : List Slot

abbrev pub put_front {ℓ} : {A : Type ℓ} → A → Option (List A) → Option (List A)
put_front a none = none
put_front a (some rest) = some (a ∷ rest)

abbrev pub with_base : Target → Library → Target
with_base t l = record t { module_name = l.name; module_base_addr = l.base }

-- `update module base address`
unfoldable pub find_bases : List Library → List Target → Option (List Target)
find_bases libs [] = some []
find_bases libs (t ∷ ts) = elim (query_lib_name_in_list t.module_name libs) [
  | none ↦ none
  | some l ↦ put_front (with_base t l) (find_bases libs ts)
]

abbrev pub found_of : Target → List Func × Span × List Slot → Found
found_of t (funcs, span, slots) = record {
  target = record t { funcs = funcs; span = span };
  slots = slots;
}

unfoldable pub query_modules : (Text → Option Elf) → List Target → Option (List Found)
query_modules files [] = some []
query_modules files (t ∷ ts) =
    elim (query_module (files t.module_name) t.module_base_addr t.funcs t.disabled t.span) [
      | none ↦ none
      | some r ↦ put_front (found_of t r) (query_modules files ts)
    ]

-- With the lines of /proc/<pid>/maps and the files as mmap shows them.
unfoldable pub query_all_org_func_addr :
    (Text → Option Elf) → List Line → List Target → Option (List Found)
unfolding find_bases query_modules
query_all_org_func_addr files lines targets =
    elim (find_bases (get_module_maps lines).libs targets) [
      | none ↦ none
      | some ts ↦ query_modules files ts
    ]
