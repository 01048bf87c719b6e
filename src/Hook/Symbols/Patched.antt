-- ===== src/Hook/Symbols/Patched.antt =====
-- What is installed of one module: each function found, once.
use ooops.Prelude.{
  ℕ, ◌+◌, ◌≡◌, refl, ap, ◌∙◌, Bool, true, false, not, ◌&&◌, ◌||◌, some, List, [], ◌∷◌, map, ◌==◌,
  if◌then◌else◌, arith,
}
use ooops.Hook.Blocks.{Span}
use ooops.Hook.Span.{set_span, disable, IsFound, EndsFound, Within, set_span_tight}
use ooops.Hook.Symbols.{
  Elf, Func, Symbol, Slot, slots_of, is_among, drop_duplicates, patched, query_func_addr,
  query_module,
}
use ooops.Hook.Symbols.Resolve.{symbols_from, resolve_func, read_sections-symbols_from}

-- How often a trampoline is set up for an address.
unfoldable pub installs : ℕ → List Slot → ℕ
installs a [] = 0
installs a (s ∷ ss) = (if not s.is_disabled && a == s.addr then 1 else 0) + installs a ss

-- An address is found, and its hook is not disabled.
unfoldable pub is_wanted : ℕ → List ℕ → List Bool → Bool
is_wanted a (x ∷ xs) (b ∷ bs) = (not b && not (x == 0) && a == x) || is_wanted a xs bs
is_wanted a _ _ = false

abbrev is_enabled : ℕ → List Slot → Bool
is_enabled a [] = false
is_enabled a (s ∷ ss) = (not s.is_disabled && a == s.addr) || is_enabled a ss

-- The head of the list, its flag and its membership split.
installs_head :
    (off again here inside wanted : Bool) (slot : Slot) (a : ℕ) (same more : List Slot)
    → slot.is_disabled ≡ off
    → (a == slot.addr) ≡ here
    → (here ≡ true → inside ≡ again)
    → installs a same ≡ (if inside then 0 else if wanted then 1 else 0)
    → installs a more ≡ (if here || inside then 0 else if wanted then 1 else 0)
    → installs a (
        if off
        then slot ∷ same
        else if again
        then record { addr = 0; is_disabled = true } ∷ same
        else slot ∷ more)
      ≡ (if inside then 0 else if not off && here || wanted then 1 else 0)
unfolding installs
installs_head true again here inside wanted slot a same more p q r s t = rw p (ground arith)
installs_head false true true inside wanted slot a same more p q r s t =
    let same_as = r refl in ground arith
installs_head false true false inside wanted slot a same more p q r s t = ground arith
installs_head false false true inside wanted slot a same more p q r s t =
    let same_as = r refl in rw (p, q) (ground arith)
installs_head false false false inside wanted slot a same more p q r s t = rw (p, q) (ground arith)

drop_duplicates-installs :
    (before : List ℕ) (ss : List Slot) (a : ℕ)
    → installs a (drop_duplicates before ss)
      ≡ (if is_among a before then 0 else if is_enabled a ss then 1 else 0)
unfolding installs drop_duplicates
drop_duplicates-installs before [] a = ground arith
drop_duplicates-installs before (s ∷ ss) a =
    installs_head s.is_disabled (is_among s.addr before) (a == s.addr) (is_among a before)
      (is_enabled a ss) s a (drop_duplicates before ss) (drop_duplicates (s.addr ∷ before) ss) refl
      refl (λ e. ap (λ x. is_among x before) (ground arith)) (drop_duplicates-installs before ss a)
      (drop_duplicates-installs (s.addr ∷ before) ss a)

is_enabled-is_wanted :
    (a : ℕ) (addrs : List ℕ) (bs : List Bool)
    → is_enabled a (slots_of addrs (disable addrs bs)) ≡ is_wanted a addrs bs
unfolding disable is_wanted
is_enabled-is_wanted a [] bs = refl
is_enabled-is_wanted a (x ∷ xs) [] = refl
is_enabled-is_wanted a (x ∷ xs) (b ∷ bs) = let rest = is_enabled-is_wanted a xs bs in ground arith

patched-installs :
    (a : ℕ) (addrs : List ℕ) (bs : List Bool)
    → installs a (patched addrs bs) ≡ (if is_wanted a addrs bs then 1 else 0)
unfolding patched
patched-installs a addrs bs =
    drop_duplicates-installs [] (slots_of addrs (disable addrs bs)) a
    ∙ ap (λ w. if w then 1 else 0) (is_enabled-is_wanted a addrs bs)

-- `old_func_addr_list`, where each function has the last symbol of its name.
abbrev pub resolved : Elf → ℕ → List Symbol → List Func → List ℕ
resolved elf base syms fs = map (λ g. g.func_addr) (map (resolve_func elf.image base syms) fs)

-- Each function has the address and the length of the last symbol of its name in the file, or what
-- it had before where there is no such symbol. The range of the module goes from one address found to
-- another and holds each of them, where one is found at least. An address gets one trampoline where
-- it is found for a function whose hook is not disabled, however many such functions there are, and
-- none otherwise.
pub query_module_sound :
    (elf : Elf) (base : ℕ) (fs : List Func) (bs : List Bool) (span : Span) (syms : List Symbol)
    → symbols_from elf 0 elf.sections 0 ≡ some syms
    → (tight : Span) × (slots : List Slot) × (query_module (some elf) base fs bs span
        ≡ some (map (resolve_func elf.image base syms) fs, tight, slots))
      × ((x : ℕ)
          → IsFound x (resolved elf base syms fs)
          → EndsFound (resolved elf base syms fs) tight × Within x tight)
      × ((a : ℕ) → installs a slots ≡ (if is_wanted a (resolved elf base syms fs) bs then 1 else 0))
unfolding query_module query_func_addr
query_module_sound elf base fs bs span syms h = (
  set_span addrs span,
  patched addrs bs,
  rw (query_module, query_func_addr, read_sections-symbols_from elf base 0 elf.sections 0 fs, h)
      refl,
  (λ x f. let t = set_span_tight addrs span x f in (t.0, t.1 x f)),
  (λ a. patched-installs a addrs bs),
)
  where
    addrs : List ℕ
    addrs = resolved elf base syms fs
