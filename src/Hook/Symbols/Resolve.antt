-- ===== src/Hook/Symbols/Resolve.antt =====
-- What `query_func_addr` finds for each function: the last symbol of its name.
use ooops.Prelude.{
  ℕ, zero, suc, ◌+◌, ◌/◌, ◌%◌, ◌^◌, ◌≡◌, refl, sym, ap, ◌∙◌, Bool, true, false, Option, none, some,
  List, [], ◌∷◌, ◌++◌, map, Text, ◌==◌, if◌then◌else◌, Bool-cases, inl, inr, arith,
}
use ooops.Hook.Patch.{Memory, read32}
use ooops.Hook.Symbols.{
  Shdr, Elf, Func, Symbol, is_named, take_symbol, read_symbols, near_strtab, has_symbols,
  read_sections,
}

-- The symbols of one table, in order.
abbrev pub table : ℕ → ℕ → ℕ → ℕ → List Symbol
table strtab entsize zero rec_addr = []
table strtab entsize (suc n) rec_addr =
    record { strtab = strtab; rec_addr = rec_addr } ∷ table strtab entsize n (rec_addr + entsize)

-- One more table in front.
abbrev pub in_front : List Symbol → Option (List Symbol) → Option (List Symbol)
in_front ts none = none
in_front ts (some rest) = some (ts ++ rest)

-- The symbols of all tables, in the order of the sections.
unfoldable pub symbols_from : Elf → ℕ → List Shdr → ℕ → Option (List Symbol)
unfolding near_strtab
symbols_from elf i [] old = some []
symbols_from elf i (s ∷ ss) old =
    if has_symbols s
    then (elim (near_strtab elf.sections i old) [
      | none ↦ none
      | some strtab ↦
          if s.sh_entsize == 0
          then none
          else in_front (table strtab s.sh_entsize (s.sh_size / s.sh_entsize) s.sh_offset)
              (symbols_from elf (suc i) ss strtab)
    ])
    else symbols_from elf (suc i) ss old

-- The last symbol with a name.
unfoldable pub last_symbol : Memory → Text → List Symbol → Option Symbol
last_symbol m name [] = none
last_symbol m name (s ∷ ss) = elim (last_symbol m name ss) [
  | some t ↦ some t
  | none ↦ if is_named m s name then some s else none
]

-- The function with the address and the length of a symbol, where there is one.
abbrev pub set_symbol : Memory → ℕ → Option Symbol → Func → Func
set_symbol m base none f = f
set_symbol m base (some s) f = record f {
  func_addr = (read32 m (s.rec_addr + 8) + base) % 2 ^ 64;
  func_len = read32 m (s.rec_addr + 16);
}

abbrev pub resolve_func : Memory → ℕ → List Symbol → Func → Func
resolve_func m base ss f = set_symbol m base (last_symbol m f.func_name ss) f

take_symbol-name :
    (m : Memory) (base : ℕ) (s : Symbol) (f : Func)
    → (take_symbol m base s f).func_name ≡ f.func_name
unfolding take_symbol
take_symbol-name m base s f = ground arith

-- One more symbol in front is taken first.
resolve_func-cons :
    (m : Memory) (base : ℕ) (s : Symbol) (ss : List Symbol) (f : Func)
    → resolve_func m base (s ∷ ss) f ≡ resolve_func m base ss (take_symbol m base s f)
unfolding last_symbol take_symbol
resolve_func-cons m base s ss f =
    step (is_named m s f.func_name) (last_symbol m f.func_name ss)
    ∙ ap (λ n. set_symbol m base (last_symbol m n ss) (take_symbol m base s f))
        (sym (take_symbol-name m base s f))
  where
    step :
        (b : Bool) (o : Option Symbol)
        → set_symbol m base (elim o [ some t ↦ some t | none ↦ if b then some s else none ]) f
          ≡ set_symbol m base o (if b then set_symbol m base (some s) f else f)
    step true none = refl
    step true (some t) = refl
    step false none = refl
    step false (some t) = refl

resolve_func-append :
    (m : Memory) (base : ℕ) (ss ts : List Symbol) (f : Func)
    → resolve_func m base (ss ++ ts) f ≡ resolve_func m base ts (resolve_func m base ss f)
unfolding last_symbol
resolve_func-append m base [] ts f = refl
resolve_func-append m base (s ∷ ss) ts f =
    resolve_func-cons m base s (ss ++ ts) f
    ∙ resolve_func-append m base ss ts (take_symbol m base s f)
    ∙ ap (resolve_func m base ts) (sym (resolve_func-cons m base s ss f))

map_id : (gs : List Func) → gs ≡ map (λ f. f) gs
map_id [] = refl
map_id (g ∷ gs) = ap (◌∷◌ g) (map_id gs)

map-map :
    {A B C : Type 0} (g : B → C) (f : A → B) (xs : List A)
    → map g (map f xs) ≡ map (λ x. g (f x)) xs
map-map g f [] = refl
map-map g f (x ∷ xs) = ap (◌∷◌ (g (f x))) (map-map g f xs)

map_same : {A B : Type 0} (f g : A → B) (xs : List A) → ((x : A) → f x ≡ g x) → map f xs ≡ map g xs
map_same f g [] h = refl
map_same f g (x ∷ xs) h = λ i. h x i ∷ map_same f g xs h i

-- The loops over the symbols of one table, taken function by function.
read_symbols-table :
    (m : Memory) (base strtab entsize n rec_addr : ℕ) (fs : List Func)
    → read_symbols m base strtab entsize n rec_addr fs
      ≡ map (resolve_func m base (table strtab entsize n rec_addr)) fs
unfolding read_symbols last_symbol
read_symbols-table m base strtab entsize zero rec_addr fs = map_id fs
read_symbols-table m base strtab entsize (suc n) rec_addr fs =
    read_symbols-table m base strtab entsize n (rec_addr + entsize) (map (take_symbol m base s) fs)
    ∙ map-map (resolve_func m base rest) (take_symbol m base s) fs
    ∙ map_same (λ f. resolve_func m base rest (take_symbol m base s f))
        (resolve_func m base (s ∷ rest)) fs (λ f. sym (resolve_func-cons m base s rest f))
  where
    s : Symbol
    s = record { strtab = strtab; rec_addr = rec_addr }

    rest : List Symbol
    rest = table strtab entsize n (rec_addr + entsize)

abbrev pub resolve_all : Memory → ℕ → Option (List Symbol) → List Func → Option (List Func)
resolve_all m base none fs = none
resolve_all m base (some ss) fs = some (map (resolve_func m base ss) fs)

resolve_all-in_front :
    (m : Memory) (base strtab entsize n rec_addr : ℕ) (fs : List Func) (o : Option (List Symbol))
    → resolve_all m base o (read_symbols m base strtab entsize n rec_addr fs)
      ≡ resolve_all m base (in_front (table strtab entsize n rec_addr) o) fs
unfolding last_symbol
resolve_all-in_front m base strtab entsize n rec_addr fs none = refl
resolve_all-in_front m base strtab entsize n rec_addr fs (some rest) = ap some (
    ap (map (resolve_func m base rest)) (read_symbols-table m base strtab entsize n rec_addr fs)
    ∙ map-map (resolve_func m base rest) (resolve_func m base ts) fs
    ∙ map_same (λ f. resolve_func m base rest (resolve_func m base ts f))
        (resolve_func m base (ts ++ rest)) fs (λ f. sym (resolve_func-append m base ts rest f)))
  where
    ts : List Symbol
    ts = table strtab entsize n rec_addr

pub read_sections-symbols_from :
    (elf : Elf) (base i : ℕ) (ss : List Shdr) (old : ℕ) (fs : List Func)
    → read_sections elf base i ss old fs ≡ resolve_all elf.image base (symbols_from elf i ss old) fs
unfolding read_sections symbols_from last_symbol
read_sections-symbols_from elf base i [] old fs = ap some (map_id fs)
read_sections-symbols_from elf base i (s ∷ ss) old fs = elim (Bool-cases (has_symbols s)) [
  | inl e ↦
      rw (read_sections, symbols_from, e)
        (with_table (λ strtab gs. read_sections-symbols_from elf base (suc i) ss strtab gs)
          (near_strtab elf.sections i old))
  | inr e ↦
      rw (read_sections, symbols_from, e) (read_sections-symbols_from elf base (suc i) ss old fs)
]
  where
    n : ℕ
    n = s.sh_size / s.sh_entsize

    with_table :
        ((strtab : ℕ) (gs : List Func)
          → read_sections elf base (suc i) ss strtab gs
            ≡ resolve_all elf.image base (symbols_from elf (suc i) ss strtab) gs)
        → (o : Option ℕ)
        → (elim o [
          | none ↦ none
          | some strtab ↦
              if s.sh_entsize == 0
              then none
              else read_sections elf base
                  (suc i)
                  ss
                  strtab
                  (read_symbols elf.image base strtab s.sh_entsize n s.sh_offset fs)
        ])
          ≡ resolve_all elf.image base
              (elim o [
                | none ↦ none
                | some strtab ↦
                    if s.sh_entsize == 0
                    then none
                    else in_front
                        (table strtab s.sh_entsize n s.sh_offset)
                        (symbols_from elf (suc i) ss strtab)
              ])
              fs
    with_table ih none = refl
    with_table ih (some strtab) = elim (Bool-cases (s.sh_entsize == 0)) [
      | inl z ↦ rw z refl
      | inr z ↦ rw z (
          ih strtab (read_symbols elf.image base strtab s.sh_entsize n s.sh_offset fs)
          ∙ resolve_all-in_front elf.image base strtab s.sh_entsize n s.sh_offset fs
              (symbols_from elf (suc i) ss strtab))
    ]
