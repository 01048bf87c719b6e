-- ===== src/Hook/Registry/Outcome.antt =====
-- What `register_a_hook` returns, and what the registry holds then.
use ooops.Prelude.{
  ◌+◌, ◌≡◌, sym, subst, ◌∙◌, ap, ◌⊎◌, inl, inr, Option, some, List, [], ◌∷◌, ◌++◌, Text, str_eq,
  ltb, leb, length, Bool-cases, Option-cases, if◌then◌else◌, arith,
}
use ooops.Hook.Maps.{Line}
use ooops.Hook.Registry.{
  Registry, Hook, Code, max_patch, max_len_path_name, max_len_func_name, init_once, register_in,
  register_named, register_named, register_a_hook, load, map_once, resolve,
}
use ooops.Hook.Registry.Keep.{Consistent, InTables, Distinct, Filled, total, hooks_of}
use ooops.Hook.Registry.Steps.{
  Recorded, SameHooks, IsRefusal, enter_hook_records, init_once_same, map_once_same, load_same,
}

SameHooks-Consistent : (r r' : Registry) → SameHooks r r' → Consistent r → Consistent r'
SameHooks-Consistent r r' s c = (
  subst Distinct (sym s.0) c.0,
  subst Filled (sym s.0) c.1,
  s.1 ∙ c.2 ∙ ap total (sym s.0),
  subst InTables (sym s.0) c.3,
)

SameHooks-Recorded :
    (name : Text) (h : Hook) (r s t : Registry)
    → SameHooks r s
    → Recorded name h s t
    → Recorded name h r t
SameHooks-Recorded name h r s t e d = (
  d.0 ∙ ap (λ k. k + 1) e.1,
  λ n.
      subst
        (λ ms.
          hooks_of n t.modules
          ≡ (if str_eq n name then hooks_of n ms ++ (h ∷ []) else hooks_of n ms))
        e.0 (d.1 n),
)

-- The two results of a call that returns: a refusal, or an entry.
abbrev pub Registered : Text → Hook → Registry → Registry → Code → Type 0
Registered module_name h r r' code =
    (IsRefusal code × SameHooks r r')
    ⊎ ((code ≡ (if ltb max_patch r'.num_hook then Code.too_many_hooks else Code.success))
        × Recorded (resolve r'.paths module_name) h r r')

register_in_cases :
    (text : Text) (ls : List Line) (dlopen : Text → Option (List Line)) (module_name : Text)
    (h : Hook) (r r' : Registry) (code : Code)
    → Consistent r
    → register_in text ls dlopen module_name h r ≡ some (code, r')
    → Consistent r' × Registered module_name h r r' code
unfolding register_in
register_in_cases text ls dlopen module_name h r r' code c e =
    elim (Option-cases (load dlopen name (map_once ls r))) [
      | inl q ↦
          let made : r' ≡ map_once ls r = ground arith in
          let coded : code ≡ Code.dlopen_failed = ground arith in
          let same = subst (SameHooks r) (sym made) (map_once_same ls r).0 in
          (SameHooks-Consistent r r' same c, inl (subst IsRefusal (sym coded) tt, same))
      | inr (s, q) ↦
          let loaded = load_same dlopen name (map_once ls r) s q in
          let mapped = map_once_same ls r in
          let same : SameHooks r s = (loaded.0.0 ∙ mapped.0.0, loaded.0.1 ∙ mapped.0.1) in
          let done =
            enter_hook_records name h s r' code (SameHooks-Consistent r s same c) (ground arith) in
          let there : r.paths ≡ r'.paths = sym (done.3 ∙ loaded.1 ∙ mapped.1) in
          (
            done.0,
            inr (
              done.2,
              subst (λ p. Recorded (resolve p module_name) h r r') there
                  (SameHooks-Recorded name h r s r' same done.1),
            ),
          )
    ]
  where
    name : Text
    name = resolve r.paths module_name

register_named_cases :
    (text : Text) (ls : List Line) (dlopen : Text → Option (List Line)) (module_name : Text)
    (h : Hook) (r r' : Registry) (code : Code)
    → Consistent r
    → register_named text ls dlopen module_name h r ≡ some (code, r')
    → Consistent r' × Registered module_name h r r' code
unfolding register_named
register_named_cases text ls dlopen module_name h r r' code c e =
    elim (Option-cases (init_once text r)) [
      | inl q ↦ absurd (ground arith)
      | inr (s, q) ↦ go s (init_once_same text r s c q) (ground arith)
    ]
  where
    carry :
        (s : Registry)
        → SameHooks r s
        → Registered module_name h s r' code
        → Registered module_name h r r' code
    carry s same (inl (f, k)) = inl (f, (k.0 ∙ same.0, k.1 ∙ same.1))
    carry s same (inr (k, d)) =
        inr (k, SameHooks-Recorded (resolve r'.paths module_name) h r s r' same d)

    go :
        (s : Registry)
        → SameHooks r s
        → (if s.found_libc
            then register_in text ls dlopen module_name h s
            else some (Code.not_found_libc, s))
          ≡ some (code, r')
        → Consistent r' × Registered module_name h r r' code
    go s same w = elim (Bool-cases s.found_libc) [
      | inl f ↦
          let done =
            register_in_cases text ls dlopen module_name h s r' code
              (SameHooks-Consistent r s same c) (ground arith) in
          (done.0, carry s same done.1)
      | inr f ↦
          let made : r' ≡ s = ground arith in
          let coded : code ≡ Code.not_found_libc = ground arith in
          let kept = subst (SameHooks r) (sym made) same in
          (SameHooks-Consistent r r' kept c, inl (subst IsRefusal (sym coded) tt, kept))
    ]

-- From a registry in which no two modules have one name, each has a hook, `num_hook` counts the
-- hooks of all, and there are at most 16 modules, none of more than 48 hooks, every call of
-- `register_a_hook` that returns, and has not written outside the tables, leaves such a registry.
-- Either it returns an error other than too many hooks, with modules and count unchanged. Or it
-- appends the hook to those of the module that the name resolves to, changes no other module, and
-- returns success exactly if the new count is at most 48, else too many hooks.
pub register_a_hook-Registered :
    (text : Text) (ls : List Line) (dlopen : Text → Option (List Line)) (module_name : Text)
    (h : Hook) (r r' : Registry) (code : Code)
    → Consistent r
    → register_a_hook text ls dlopen module_name h r ≡ some (code, r')
    → Consistent r' × Registered module_name h r r' code
unfolding register_a_hook
register_a_hook-Registered text ls dlopen module_name h r r' code c e =
    elim (Bool-cases (leb max_len_path_name (length module_name))) [
      | inl long ↦ refused Code.module_name_too_long tt (ground arith) (ground arith)
      | inr short ↦ elim (Bool-cases (leb max_len_func_name (length h.func_name))) [
        | inl long ↦ refused Code.func_name_too_long tt (ground arith) (ground arith)
        | inr fits ↦ register_named_cases text ls dlopen module_name h r r' code c (ground arith)
      ]
    ]
  where
    refused :
        (k : Code)
        → IsRefusal k
        → code ≡ k
        → r' ≡ r
        → Consistent r' × Registered module_name h r r' code
    refused k f p q = (
      subst Consistent (sym q) c,
      inl (subst IsRefusal (sym p) f, (ap (λ x. x.modules) q, ap (λ x. x.num_hook) q)),
    )
