-- ===== src/Hook/Registry/Keep.antt =====
-- What registration keeps of the hooks that are there, and what it adds to them.
use ooops.Prelude.{
  ℕ, suc, ◌+◌, ◌<◌, ◌≤◌, ◌≡◌, refl, sym, ◌∙◌, ap, inl, inr, false, none, some, List, [], ◌∷◌, ◌++◌,
  map, Text, str_eq, str_eq_iff, length, Bool-cases, Option-cases, if◌then◌else◌, arith,
}
use ooops.Hook.Registry.{
  Registry, Module, Hook, zeroed, query_registered_module, add_hook, max_patch, max_module,
}

abbrev pub total : List Module → ℕ
total [] = 0
total (m ∷ ms) = length m.hooks + total ms

abbrev pub Distinct : List Module → Type 0
Distinct [] = Unit {0}
Distinct (m ∷ ms) = (query_registered_module m.module_name ms ≡ none) × Distinct ms

abbrev pub Filled : List Module → Type 0
Filled [] = Unit {0}
Filled (m ∷ ms) = (0 < length m.hooks) × Filled ms

abbrev pub AllRows : List Module → Type 0
AllRows [] = Unit {0}
AllRows (m ∷ ms) = (length m.hooks ≤ max_patch) × AllRows ms

-- The modules and their hooks lie in the tables.
abbrev pub InTables : List Module → Type 0
InTables ms = (length ms ≤ max_module) × AllRows ms

-- No two modules have one name, each has a hook, `num_hook` counts the hooks of all, and they lie in
-- the tables.
abbrev pub Consistent : Registry → Type 0
Consistent r =
    Distinct r.modules × Filled r.modules × (r.num_hook ≡ total r.modules) × InTables r.modules

-- The hooks of the module with this name, in the order of registration.
abbrev pub hooks_of : Text → List Module → List Hook
hooks_of name ms = elim (query_registered_module name ms) [ none ↦ [] | some m ↦ m.hooks ]

str_eq_sym : (xs ys : Text) → str_eq xs ys ≡ false → str_eq ys xs ≡ false
str_eq_sym xs ys e = elim (Bool-cases (str_eq ys xs)) [
  | inl t ↦ absurd (let p = (str_eq_iff xs ys).1 (sym ((str_eq_iff ys xs).0 t)) in cc)
  | inr f ↦ f
]

query-append :
    (n : Text) (ms : List Module) (m : Module)
    → query_registered_module n ms ≡ none
    → query_registered_module n (ms ++ (m ∷ [])) ≡ query_registered_module n (m ∷ [])
unfolding query_registered_module
query-append n [] m e = refl
query-append n (k ∷ ks) m e = ground (arith, query-append n ks m)

query-append_some :
    (n : Text) (ms : List Module) (m k : Module)
    → query_registered_module n ms ≡ some k
    → query_registered_module n (ms ++ (m ∷ [])) ≡ some k
unfolding query_registered_module
query-append_some n [] m k e = absurd (cc)
query-append_some n (j ∷ js) m k e = ground (arith, query-append_some n js m k)

query-add_hook :
    (n name : Text) (h : Hook) (ms : List Module)
    → query_registered_module n ms ≡ none
    → query_registered_module n (add_hook name h ms) ≡ none
unfolding query_registered_module add_hook
query-add_hook n name h [] e = refl
query-add_hook n name h (m ∷ ms) e = ground (arith, query-add_hook n name h ms)

pub Distinct-append :
    (ms : List Module) (m : Module)
    → Distinct ms
    → query_registered_module m.module_name ms ≡ none
    → Distinct (ms ++ (m ∷ []))
unfolding query_registered_module
Distinct-append [] m d e = (refl, tt)
Distinct-append (k ∷ ks) m d e = elim (Bool-cases (str_eq m.module_name k.module_name)) [
  | inl t ↦ absurd (ground arith)
  | inr f ↦
      let f' = str_eq_sym m.module_name k.module_name f in
      (
        query-append k.module_name ks m d.0 ∙ rw (query_registered_module, f') refl,
        Distinct-append ks m d.1 (ground arith),
      )
]

pub Distinct-add_hook :
    (name : Text) (h : Hook) (ms : List Module) → Distinct ms → Distinct (add_hook name h ms)
unfolding add_hook
Distinct-add_hook name h [] d = tt
Distinct-add_hook name h (m ∷ ms) d = elim (Bool-cases (str_eq name m.module_name)) [
  | inl e ↦ rw e d
  | inr e ↦ rw e (query-add_hook m.module_name name h ms d.0, Distinct-add_hook name h ms d.1)
]

pub hooks_of-add_hook :
    (n name : Text) (h : Hook) (ms : List Module) (m : Module)
    → query_registered_module name ms ≡ some m
    → hooks_of n (add_hook name h ms)
      ≡ (if str_eq n name then hooks_of n ms ++ (h ∷ []) else hooks_of n ms)
unfolding query_registered_module add_hook
hooks_of-add_hook n name h [] m e = absurd (cc)
hooks_of-add_hook n name h (k ∷ ks) m e = elim (Bool-cases (str_eq name k.module_name)) [
  | inl a ↦
      let same = ap (str_eq n) ((str_eq_iff name k.module_name).0 a) in
      (elim (Bool-cases (str_eq n k.module_name)) [
        | inl b ↦ rw (a, same, hooks_of, query_registered_module, b) refl
        | inr b ↦ rw (a, same, hooks_of, query_registered_module, b) refl
      ])
  | inr a ↦ elim (Bool-cases (str_eq n k.module_name)) [
    | inl b ↦
        let other =
          ap (λ x. str_eq x name) ((str_eq_iff n k.module_name).0 b)
          ∙ str_eq_sym name k.module_name a in
        rw (a, other, hooks_of, query_registered_module, b) refl
    | inr b ↦
        let rest = hooks_of-add_hook n name h ks m (ground arith) in
        rw (a, hooks_of, query_registered_module, b) rest
  ]
]

pub hooks_of-append :
    (n name : Text) (base : ℕ) (h : Hook) (ms : List Module)
    → query_registered_module name ms ≡ none
    → hooks_of n
        (ms ++ (record { module_name = name; module_base_addr = base; hooks = h ∷ [] } ∷ []))
      ≡ (if str_eq n name then hooks_of n ms ++ (h ∷ []) else hooks_of n ms)
unfolding query_registered_module
hooks_of-append n name base h ms e = elim (Option-cases (query_registered_module n ms)) [
  | inl q ↦ elim (Bool-cases (str_eq n name)) [
    | inl b ↦ rw (hooks_of, query-append n ms _ q, q, b) refl
    | inr b ↦ rw (hooks_of, query-append n ms _ q, q, b) refl
  ]
  | inr (k, q) ↦ elim (Bool-cases (str_eq n name)) [
    | inl b ↦
        absurd (let p = ap (λ x. query_registered_module x ms) ((str_eq_iff n name).0 b) in cc)
    | inr b ↦ rw (hooks_of, query-append_some n ms _ k q, q, b) refl
  ]
]

pub total-append :
    (ms : List Module) (m : Module) → total (ms ++ (m ∷ [])) ≡ total ms + length m.hooks
total-append [] m = omega arith
total-append (k ∷ ks) m = rw (total-append ks m) (omega arith)

length-snoc : (hs : List Hook) (h : Hook) → length (hs ++ (h ∷ [])) ≡ suc (length hs)
length-snoc [] h = refl
length-snoc (k ∷ hs) h = ap suc (length-snoc hs h)

pub total-add_hook :
    (name : Text) (h : Hook) (ms : List Module) (m : Module)
    → query_registered_module name ms ≡ some m
    → total (add_hook name h ms) ≡ suc (total ms)
unfolding query_registered_module add_hook
total-add_hook name h [] m e = absurd (cc)
total-add_hook name h (k ∷ ks) m e =
    ground (arith, length-snoc k.hooks h, total-add_hook name h ks m)

pub Filled-append :
    (ms : List Module) (m : Module) → Filled ms → 0 < length m.hooks → Filled (ms ++ (m ∷ []))
Filled-append [] m f h = (h, tt)
Filled-append (k ∷ ks) m f h = (f.0, Filled-append ks m f.1 h)

pub Filled-add_hook :
    (name : Text) (h : Hook) (ms : List Module) → Filled ms → Filled (add_hook name h ms)
unfolding add_hook
Filled-add_hook name h [] f = tt
Filled-add_hook name h (k ∷ ks) f = elim (Bool-cases (str_eq name k.module_name)) [
  | inl e ↦ rw (e, length-snoc k.hooks h) (omega arith, f.1)
  | inr e ↦ rw e (f.0, Filled-add_hook name h ks f.1)
]

length-append : (ms : List Module) (m : Module) → length (ms ++ (m ∷ [])) ≡ suc (length ms)
length-append [] m = refl
length-append (k ∷ ks) m = ap suc (length-append ks m)

length-add_hook :
    (name : Text) (h : Hook) (ms : List Module) → length (add_hook name h ms) ≡ length ms
unfolding add_hook
length-add_hook name h [] = refl
length-add_hook name h (k ∷ ks) = ground (arith, length-add_hook name h ks)

AllRows-append :
    (ms : List Module) (m : Module)
    → AllRows ms
    → length m.hooks ≤ max_patch
    → AllRows (ms ++ (m ∷ []))
AllRows-append [] m f h = (h, tt)
AllRows-append (k ∷ ks) m f h = (f.0, AllRows-append ks m f.1 h)

AllRows-add_hook :
    (name : Text) (h : Hook) (ms : List Module) (m : Module)
    → AllRows ms
    → query_registered_module name ms ≡ some m
    → length m.hooks < max_patch
    → AllRows (add_hook name h ms)
unfolding add_hook query_registered_module
AllRows-add_hook name h [] m f q p = tt
AllRows-add_hook name h (k ∷ ks) m f q p = elim (Bool-cases (str_eq name k.module_name)) [
  | inl e ↦
      let same : length k.hooks ≡ length m.hooks = ground arith in
      rw (e, length-snoc k.hooks h) (omega (arith, same), f.1)
  | inr e ↦ rw e (f.0, AllRows-add_hook name h ks m f.1 (ground arith) p)
]

pub InTables-append :
    (ms : List Module) (m : Module)
    → InTables ms
    → length ms < max_module
    → length m.hooks ≤ max_patch
    → InTables (ms ++ (m ∷ []))
InTables-append ms m t room h = (omega (arith, length-append ms m), AllRows-append ms m t.1 h)

pub InTables-add_hook :
    (name : Text) (h : Hook) (ms : List Module) (m : Module)
    → InTables ms
    → query_registered_module name ms ≡ some m
    → length m.hooks < max_patch
    → InTables (add_hook name h ms)
InTables-add_hook name h ms m t q p =
    (omega (arith, t.0, length-add_hook name h ms), AllRows-add_hook name h ms m t.1 q p)

-- With no hook, the list has no module for `memset` to clear.
pub cleared_same : (ms : List Module) → Filled ms → total ms ≡ 0 → map (λ _. zeroed) ms ≡ ms
cleared_same [] f e = refl
cleared_same (m ∷ ms) f e = absurd (omega arith)
