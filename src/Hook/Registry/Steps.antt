-- ===== src/Hook/Registry/Steps.antt =====
-- The steps of `register_a_hook`: what each leaves of the hooks.
use ooops.Prelude.{
  ℕ, suc, ◌+◌, ◌<◌, ap, true, length, ◌≡◌, refl, sym, subst, ◌∙◌, inl, inr, Option, some, List, [],
  ◌∷◌, ◌++◌, map, Text, str_eq, ltb, ◌==◌, Bool-cases, Option-cases, if◌then◌else◌, arith,
}
use ooops.Hook.Maps.{Library, Line, query_lib_name_in_list}
use ooops.Hook.Registry.{
  Registry, Module, Hook, Code, Search, max_patch, max_module, query_registered_module, has_room,
  put_hook, record_hook, enter_hook, init_once, take_paths, zeroed, determine_lib_path, load,
  map_once,
}
use ooops.Hook.Registry.Keep.{
  Consistent, Distinct, Filled, total, hooks_of, hooks_of-append, hooks_of-add_hook,
  Distinct-append, Distinct-add_hook, Filled-append, Filled-add_hook, total-append, total-add_hook,
  InTables, InTables-append, InTables-add_hook, cleared_same,
}

-- One hook more, the last one of the module with this name; no other module has changed.
abbrev pub Recorded : Text → Hook → Registry → Registry → Type 0
Recorded name h r r' =
    (r'.num_hook ≡ r.num_hook + 1)
    × ((n : Text)
        → hooks_of n r'.modules
          ≡ (if str_eq n name then hooks_of n r.modules ++ (h ∷ []) else hooks_of n r.modules))

abbrev pub SameHooks : Registry → Registry → Type 0
SameHooks r r' = (r'.modules ≡ r.modules) × (r'.num_hook ≡ r.num_hook)

-- The codes of a call that records nothing.
abbrev pub IsRefusal : Code → Type 0
IsRefusal Code.success = ⊥
IsRefusal Code.not_found_libc = Unit {0}
IsRefusal Code.dlopen_failed = Unit {0}
IsRefusal Code.module_name_too_long = Unit {0}
IsRefusal Code.func_name_too_long = Unit {0}
IsRefusal Code.too_many_hooks = ⊥

abbrev Kept : List Module → List Module → Type 0
Kept ms ms' = Distinct ms' × Filled ms' × (total ms' ≡ suc (total ms)) × InTables ms'

-- The room that is not looked for is there where nothing is written outside the tables.
put_hook-Kept :
    (name : Text) (base : ℕ) (h : Hook) (ms : List Module)
    → Distinct ms
    → Filled ms
    → InTables ms
    → has_room name ms ≡ true
    → Kept ms (put_hook name base h ms)
unfolding put_hook has_room
put_hook-Kept name base h ms d f t room = elim (Option-cases (query_registered_module name ms)) [
  | inl q ↦
      let m : Module = record { module_name = name; module_base_addr = base; hooks = h ∷ [] } in
      let free : length ms < max_module = ground arith in
      subst (Kept ms) (sym (rw (put_hook, q) refl)) (
        Distinct-append ms m d q,
        Filled-append ms m f (omega arith),
        total-append ms m ∙ omega arith,
        InTables-append ms m t free (omega arith),
      )
  | inr (m, q) ↦
      let free : length m.hooks < max_patch = ground arith in
      subst (Kept ms) (sym (rw (put_hook, q) refl)) (
        Distinct-add_hook name h ms d,
        Filled-add_hook name h ms f,
        total-add_hook name h ms m q,
        InTables-add_hook name h ms m t q free,
      )
]

hooks_of-put_hook :
    (n name : Text) (base : ℕ) (h : Hook) (ms : List Module)
    → hooks_of n (put_hook name base h ms)
      ≡ (if str_eq n name then hooks_of n ms ++ (h ∷ []) else hooks_of n ms)
unfolding put_hook
hooks_of-put_hook n name base h ms = elim (Option-cases (query_registered_module name ms)) [
  | inl q ↦ rw (put_hook, q) (hooks_of-append n name base h ms q)
  | inr (m, q) ↦ rw (put_hook, q) (hooks_of-add_hook n name h ms m q)
]

record_hook_done :
    (name : Text) (base : ℕ) (h : Hook) (ms ms' : List Module)
    → record_hook name base h ms ≡ some ms'
    → (has_room name ms ≡ true) × (ms' ≡ put_hook name base h ms)
unfolding record_hook
record_hook_done name base h ms ms' e = elim (Bool-cases (has_room name ms)) [
  | inl room ↦ ground arith
  | inr full ↦ absurd (ground arith)
]

abbrev entered : Text → Hook → Registry → Library → Registry
entered name h r l = record r {
  modules = put_hook name l.base h r.modules;
  num_hook = r.num_hook + 1;
}

abbrev outcome : Registry → Code
outcome r = if ltb max_patch (r.num_hook + 1) then Code.too_many_hooks else Code.success

-- An entry is made only where its row is in the tables.
enter_hook_done :
    (name : Text) (h : Hook) (r r' : Registry) (code : Code)
    → enter_hook name h r ≡ some (code, r')
    → (l : Library) × (has_room name r.modules ≡ true)
      × (r' ≡ entered name h r l)
      × (code ≡ outcome r)
unfolding enter_hook
enter_hook_done name h r r' code e = elim (Option-cases (query_lib_name_in_list name r.maps.libs)) [
  | inl q ↦ absurd (ground arith)
  | inr (l, q) ↦ elim (Option-cases (record_hook name l.base h r.modules)) [
    | inl full ↦ absurd (ground arith)
    | inr (ms, w) ↦
        let (room, put) = record_hook_done name l.base h r.modules ms w in
        let made : r' ≡ record r { modules = ms; num_hook = r.num_hook + 1 } = ground arith in
        (
          l,
          room,
          made ∙ ap (λ x. record r { modules = x; num_hook = r.num_hook + 1 }) put,
          ground arith,
        )
  ]
]

pub enter_hook_records :
    (name : Text) (h : Hook) (r r' : Registry) (code : Code)
    → Consistent r
    → enter_hook name h r ≡ some (code, r')
    → Consistent r'
      × Recorded name h r r'
      × (code ≡ (if ltb max_patch r'.num_hook then Code.too_many_hooks else Code.success))
      × (r'.paths ≡ r.paths)
enter_hook_records name h r r' code c e =
    let (l, room, made, coded) = enter_hook_done name h r r' code e in
    let kept = put_hook-Kept name l.base h r.modules c.0 c.1 c.3 room in
    subst
      (λ x.
        Consistent x
        × Recorded name h r x
        × (code ≡ (if ltb max_patch x.num_hook then Code.too_many_hooks else Code.success))
        × (x.paths ≡ r.paths))
      (sym made)
      (
        (kept.0, kept.1, omega arith, kept.3),
        (refl, λ n. hooks_of-put_hook n name l.base h r.modules),
        coded,
        refl,
      )

take_paths_same : (s : Search) (r r' : Registry) → take_paths s r ≡ some r' → SameHooks r r'
unfolding take_paths
take_paths_same Search.not_found r r' e = ground arith
take_paths_same Search.quit r r' e = absurd (ground arith)
take_paths_same Search.crash r r' e = absurd (ground arith)
take_paths_same (Search.found p) r r' e = ground arith

pub init_once_same :
    (text : Text) (r r' : Registry) → Consistent r → init_once text r ≡ some r' → SameHooks r r'
unfolding init_once
init_once_same text r r' c e = elim (Bool-cases (r.num_hook == 0)) [
  | inl z ↦
      let same = cleared_same r.modules c.1 (ground arith) in
      let taken =
        take_paths_same (determine_lib_path text)
          (record r { modules = map (λ _. zeroed) r.modules }) r' (ground arith) in
      (taken.0 ∙ same, taken.1)
  | inr z ↦ ground arith
]

pub map_once_same :
    (ls : List Line) (r : Registry)
    → SameHooks r (map_once ls r) × ((map_once ls r).paths ≡ r.paths)
map_once_same ls r = ground arith

pub load_same :
    (dlopen : Text → Option (List Line)) (name : Text) (r r' : Registry)
    → load dlopen name r ≡ some r'
    → SameHooks r r' × (r'.paths ≡ r.paths)
load_same dlopen name r r' e = ground arith
