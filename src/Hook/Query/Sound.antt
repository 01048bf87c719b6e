-- ===== src/Hook/Query/Sound.antt =====
-- All registered modules are found, resolved and patched once.
use ooops.Prelude.{
  ℕ, ◌≡◌, refl, ap, ◌∙◌, Option, none, some, List, [], ◌∷◌, Text, if◌then◌else◌, map,
}
use ooops.Hook.Maps.{Library, Line, query_lib_name_in_list, get_module_maps}
use ooops.Hook.Span.{IsFound, EndsFound, Within}
use ooops.Hook.Symbols.{Elf, Symbol, query_module}
use ooops.Hook.Symbols.Resolve.{symbols_from, resolve_func}
use ooops.Hook.Symbols.Patched.{installs, is_wanted, resolved, query_module_sound}
use ooops.Hook.Query.{
  Target, Found, with_base, found_of, find_bases, query_modules, query_all_org_func_addr, put_front,
}

-- The library of a module in the map, its file and the symbols of it.
pub record Readable (files : Text → Option Elf) (libs : List Library) (t : Target) : Type 0 where
  pub lib : Library
  pub elf : Elf
  pub syms : List Symbol
  pub in_map : query_lib_name_in_list t.module_name libs ≡ some lib
  pub file : files lib.name ≡ some elf
  pub symbols : symbols_from elf 0 elf.sections 0 ≡ some syms

abbrev pub AllReadable : (Text → Option Elf) → List Library → List Target → Type 0
AllReadable files libs [] = Unit {0}
AllReadable files libs (t ∷ ts) = Readable files libs t × AllReadable files libs ts

-- What is found of a module: its library and base address; for each function the last symbol of its
-- name; a range that is tight; and one trampoline for each address that is wanted.
pub record IsSound (files : Text → Option Elf) (libs : List Library) (t : Target)
    (r : Readable files libs t) (f : Found) : Type 0 where
  pub name : f.target.module_name ≡ r.lib.name
  pub base : f.target.module_base_addr ≡ r.lib.base
  pub funcs : f.target.funcs ≡ map (resolve_func r.elf.image r.lib.base r.syms) t.funcs
  pub tight :
      (x : ℕ)
      → IsFound x (resolved r.elf r.lib.base r.syms t.funcs)
      → EndsFound (resolved r.elf r.lib.base r.syms t.funcs) f.target.span × Within x f.target.span
  pub once :
      (a : ℕ)
      → installs a f.slots
        ≡ (if is_wanted a (resolved r.elf r.lib.base r.syms t.funcs) t.disabled then 1 else 0)

abbrev pub AllSound :
    (files : Text → Option Elf) (libs : List Library) (ts : List Target)
    → AllReadable files libs ts
    → List Found
    → Type 0
AllSound files libs [] r [] = Unit {0}
AllSound files libs [] r (f ∷ fs) = ⊥
AllSound files libs (t ∷ ts) r [] = ⊥
AllSound files libs (t ∷ ts) r (f ∷ fs) = IsSound files libs t r.0 f × AllSound files libs ts r.1 fs

query_one :
    (files : Text → Option Elf) (libs : List Library) (t : Target) (r : Readable files libs t)
    → (f : Found) × ((rest : Option (List Found))
        → (elim (query_module (files r.lib.name) r.lib.base t.funcs t.disabled t.span) [
          | none ↦ none
          | some o ↦ put_front (found_of (with_base t r.lib) o) rest
        ])
          ≡ put_front f rest)
      × IsSound files libs t r f
query_one files libs t r =
    let (span, slots, run, tight, once) =
      query_module_sound r.elf r.lib.base t.funcs t.disabled t.span r.syms r.symbols in
    let funcs = map (resolve_func r.elf.image r.lib.base r.syms) t.funcs in
    (
      found_of (with_base t r.lib) (funcs, span, slots),
      λ rest. rw (r.file, run) refl,
      record { name = refl; base = refl; funcs = refl; tight = tight; once = once },
    )

query_modules-AllSound :
    (files : Text → Option Elf) (libs : List Library) (ts : List Target)
    (r : AllReadable files libs ts)
    → (bs : List Target) × (fs : List Found) × (find_bases libs ts ≡ some bs)
      × (query_modules files bs ≡ some fs)
      × AllSound files libs ts r fs
unfolding find_bases query_modules
query_modules-AllSound files libs [] r = ([], [], refl, refl, tt)
query_modules-AllSound files libs (t ∷ ts) r =
    let (bs, fs, based, queried, sound) = query_modules-AllSound files libs ts r.1 in
    let (f, run, good) = query_one files libs t r.0 in
    let here = r.0.in_map in
    (
      with_base t r.0.lib ∷ bs,
      f ∷ fs,
      rw (find_bases, here, based) refl,
      run (query_modules files bs) ∙ ap (put_front f) queried,
      (good, sound),
    )

-- Each registered module has a library in the map of the process, the first one of its name, or else
-- the first that contains it, and the file of that library can be read. Then all modules are
-- queried, in order: a module gets the name and the base address of its library; each function has
-- the address and the length of the last symbol of its name in the file, or what it had before where
-- there is no such symbol; the range of the module goes from one address found to another and holds
-- each of them, where one is found at least; and an address gets one trampoline where it is found
-- for a function whose hook is not disabled, however many such functions there are, and none
-- otherwise.
pub query_all_org_func_addr_sound :
    (files : Text → Option Elf) (lines : List Line) (ts : List Target)
    (r : AllReadable files (get_module_maps lines).libs ts)
    → (fs : List Found) × (query_all_org_func_addr files lines ts ≡ some fs)
      × AllSound files (get_module_maps lines).libs ts r fs
unfolding query_all_org_func_addr
query_all_org_func_addr_sound files lines ts r =
    let (bs, fs, based, queried, sound) =
      query_modules-AllSound files (get_module_maps lines).libs ts r in
    (fs, rw (query_all_org_func_addr, based) queried, sound)
