-- ===== src/Hook/Registry.antt =====
-- src/hook.c: which functions are to be intercepted (`register_a_hook`, `query_registered_module`,
-- `determine_lib_path`), up to `install_hook`. Function addresses are numbers.
pub mod Keep
pub mod Steps
pub mod Outcome
use ooops.Prelude.{
  ℕ, zero, suc, ◌+◌, ◌-◌, Bool, true, false, not, Option, none, some, List, [], ◌∷◌, ◌++◌, map,
  Text, codes, str_eq, ltb, leb, ◌==◌, if◌then◌else◌, length, take, drop,
}
use ooops.Hook.Maps.{
  Segment, Library, Line, Map, starts_with, query_lib_name_in_list, get_module_maps,
}

-- `ERROR_CODE_REGISTER_HOOK`
pub data Code : Type 0 where
  success : Code
  not_found_libc : Code
  dlopen_failed : Code
  module_name_too_long : Code
  func_name_too_long : Code
  too_many_hooks : Code

-- One row of `func_name_list`, `new_func_addr_list` and `ptr_old_func_add_list`.
pub record Hook : Type 0 where
  pub func_name : Text
  pub new_func_addr : ℕ
  pub ptr_old_func : ℕ

-- `MODULE_PATCH_INFO`; `num_hook` is the length of `hooks`.
pub record Module : Type 0 where
  pub module_name : Text
  pub module_base_addr : ℕ
  pub hooks : List Hook

pub record Paths : Type 0 where
  pub path_ld : Text
  pub path_libc : Text
  pub path_libpthread : Text

-- What `determine_lib_path` does: it clears `found_libc`, it exits, it copies from NULL, or it sets
-- the three paths.
pub data Search : Type 0 where
  not_found : Search
  quit : Search
  crash : Search
  found : Paths → Search

-- The static variables of the file that registration uses; `num_module` is the length of `modules`.
pub record Registry : Type 0 where
  pub modules : List Module
  pub num_hook : ℕ
  pub found_libc : Bool
  pub num_called_module_map : ℕ
  pub maps : Map
  pub paths : Paths

abbrev pub max_patch : ℕ
max_patch = 48

abbrev pub max_module : ℕ
max_module = 16

abbrev pub max_len_path_name : ℕ
max_len_path_name = 256

abbrev pub max_len_func_name : ℕ
max_len_func_name = 128

-- `strstr`: what stands before the first occurrence, the nearest byte first, and what begins there.
unfoldable pub find_sub : Text → Text → Text → Option (Text × Text)
find_sub sub before [] = if starts_with [] sub then some (before, []) else none
find_sub sub before (x ∷ xs) =
    if starts_with (x ∷ xs) sub then some (before, x ∷ xs) else find_sub sub (x ∷ before) xs

-- The offset of the first ".so" among the next `fuel` bytes.
unfoldable pub find_end : ℕ → ℕ → Text → Option ℕ
find_end zero i xs = none
find_end (suc fuel) i xs =
    if starts_with xs (codes ".so") then some i else find_end fuel (suc i) (drop 1 xs)

-- The nearest "  /" at or before a place, within `fuel` bytes: what lies from its slash up to there.
-- The start of the buffer ends the search, too.
unfoldable pub find_start : ℕ → Text → Text → Text → Option Text
find_start zero before here dir = none
find_start (suc fuel) before here dir =
    if starts_with here (codes "  /")
    then some (drop 2 dir)
    else (elim before [ [] ↦ none | c ∷ cs ↦ find_start fuel cs (c ∷ here) (c ∷ dir) ])

-- `snprintf` into 512 bytes
abbrev pub fit_512 : Text → Text
fit_512 xs = take 511 xs

-- The paths of a library directory and the rest of the text from "/ld-" on.
abbrev pub lib_paths : Text → Text → ℕ → Paths
lib_paths dir at_name i =
    let ver = take (i - 4) (drop 4 at_name) in
    record {
      path_ld = dir ++ take (i + 3) at_name;
      path_libc = fit_512 (dir ++ codes "/libc-" ++ ver ++ codes ".so");
      path_libpthread = fit_512 (dir ++ codes "/libpthread-" ++ ver ++ codes ".so");
    }

-- The argument is the text of the memory map that was read.
unfoldable pub determine_lib_path : Text → Search
unfolding find_sub find_end find_start
determine_lib_path text = elim (find_sub (codes "/ld-2.") [] text) [
  | none ↦ Search.not_found
  | some (before, at_name) ↦ elim (find_end 10 0 at_name) [
    | none ↦ Search.quit
    | some i ↦ elim (find_start 100 before at_name []) [
      | none ↦ Search.crash
      | some dir ↦ Search.found (lib_paths dir at_name i)
    ]
  ]
]

unfoldable pub query_registered_module : Text → List Module → Option Module
query_registered_module name [] = none
query_registered_module name (m ∷ ms) =
    if str_eq name m.module_name then some m else query_registered_module name ms

-- The row `num_hook` of the module with this name, the first one, is written.
unfoldable pub add_hook : Text → Hook → List Module → List Module
add_hook name h [] = []
add_hook name h (m ∷ ms) =
    if str_eq name m.module_name
    then record m { hooks = m.hooks ++ (h ∷ []) } ∷ ms
    else m ∷ add_hook name h ms

-- A module that is not there yet goes to the end.
unfoldable pub put_hook : Text → ℕ → Hook → List Module → List Module
unfolding query_registered_module add_hook
put_hook name base h ms = elim (query_registered_module name ms) [
  | none ↦ ms ++ (record { module_name = name; module_base_addr = base; hooks = h ∷ [] } ∷ [])
  | some m ↦ add_hook name h ms
]

-- Whether the row that is written lies in the tables: `module_list` has 16 modules, and each of
-- them 48 rows.
unfoldable pub has_room : Text → List Module → Bool
unfolding query_registered_module
has_room name ms = elim (query_registered_module name ms) [
  | none ↦ ltb (length ms) max_module
  | some m ↦ ltb (length m.hooks) max_patch
]

-- The code does not look for room: a write outside the tables is `none`.
unfoldable pub record_hook : Text → ℕ → Hook → List Module → Option (List Module)
unfolding put_hook has_room
record_hook name base h ms = if has_room name ms then some (put_hook name base h ms) else none

abbrev pub resolve : Paths → Text → Text
resolve p name =
    if str_eq name (codes "ld")
    then p.path_ld
    else (if str_eq name (codes "libc")
        then p.path_libc
        else if str_eq name (codes "libpthread")
        then p.path_libpthread
        else name)

abbrev pub zeroed : Module
zeroed = record { module_name = []; module_base_addr = 0; hooks = [] }

-- What the search for the libraries leaves behind. `none` ends the process.
unfoldable pub take_paths : Search → Registry → Option Registry
take_paths Search.not_found r = some (record r { found_libc = false })
take_paths Search.quit r = none
take_paths Search.crash r = none
take_paths (Search.found p) r = some (record r { paths = p })

-- The work at the first hook.
unfoldable pub init_once : Text → Registry → Option Registry
unfolding take_paths
init_once text r =
    if r.num_hook == 0
    then take_paths (determine_lib_path text) (record r { modules = map (λ _. zeroed) r.modules })
    else some r

-- `num_called_ModuleMap == 0`
abbrev pub map_once : List Line → Registry → Registry
map_once ls r =
    if r.num_called_module_map == 0
    then record r { maps = get_module_maps ls; num_called_module_map = 1 }
    else r

-- A library that is not in the list is loaded, and the map read again; `none` is a failure.
abbrev pub load : (Text → Option (List Line)) → Text → Registry → Option Registry
load dlopen name r =
    if starts_with name (codes "/")
    then (elim (query_lib_name_in_list name r.maps.libs) [
      | some _ ↦ some r
      | none ↦ elim (dlopen name) [
        | none ↦ none
        | some ls ↦ some (record r { maps = get_module_maps ls })
      ]
    ])
    else some r

-- The end of `register_a_hook`, `name` being `module_name_local`. `none` is the end of the process,
-- or a write outside the tables.
unfoldable pub enter_hook : Text → Hook → Registry → Option (Code × Registry)
unfolding record_hook
enter_hook name h r = elim (query_lib_name_in_list name r.maps.libs) [
  | none ↦ none
  | some l ↦ elim (record_hook name l.base h r.modules) [
    | none ↦ none
    | some ms ↦ some (
      (if ltb max_patch (r.num_hook + 1) then Code.too_many_hooks else Code.success),
      record r { modules = ms; num_hook = r.num_hook + 1 },
    )
  ]
]

-- What the process reads of its memory map as text and as lines, and what `dlopen` does: the map
-- after it, or nothing for NULL.
module _ (text : Text) (ls : List Line) (dlopen : Text → Option (List Line)) where
  -- Behind the test of `found_libc`.
  unfoldable pub register_in : Text → Hook → Registry → Option (Code × Registry)
  unfolding enter_hook
  register_in module_name h r =
      let name = resolve r.paths module_name in
      elim (load dlopen name (map_once ls r)) [
        | none ↦ some (Code.dlopen_failed, map_once ls r)
        | some r' ↦ enter_hook name h r'
      ]

  -- Behind the tests of the lengths.
  unfoldable pub register_named : Text → Hook → Registry → Option (Code × Registry)
  unfolding init_once register_in
  register_named module_name h r = elim (init_once text r) [
    | none ↦ none
    | some r' ↦
        if r'.found_libc then register_in module_name h r' else some (Code.not_found_libc, r')
  ]

  unfoldable pub register_a_hook : Text → Hook → Registry → Option (Code × Registry)
  unfolding register_named
  register_a_hook module_name h r =
      if leb max_len_path_name (length module_name)
      then some (Code.module_name_too_long, r)
      else (if leb max_len_func_name (length h.func_name)
          then some (Code.func_name_too_long, r)
          else register_named module_name h r)
