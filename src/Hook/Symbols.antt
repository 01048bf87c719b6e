-- ===== src/Hook/Symbols.antt =====
-- src/hook.c: the symbols of a shared object (`query_func_addr`), what `query_all_org_func_addr` makes
-- of them for one module, and the duplicates that `install_hook` leaves out. The file is what mmap
-- shows of it, a function from offsets to bytes, with its section headers; offsets in it are less
-- than 2^31, so that an `int` holds them. A read of a header outside of the table is `none`.
pub mod Resolve
pub mod Patched
use ooops.Prelude.{
  ℕ, zero, suc, ◌+◌, ◌-◌, ◌*◌, ◌/◌, ◌%◌, ◌^◌, Bool, true, false, ◌&&◌, ◌||◌, Option, none, some,
  List, [], ◌∷◌, map, Text, ◌==◌, if◌then◌else◌, get_elem?,
}
use ooops.Hook.Patch.{Memory, read32}
use ooops.Hook.Blocks.{Span}
use ooops.Hook.Span.{set_span, disable}

-- `Elf64_Shdr`, what is used of it
pub record Shdr : Type 0 where
  pub sh_type : ℕ
  pub sh_offset : ℕ
  pub sh_size : ℕ
  pub sh_entsize : ℕ

pub record Elf : Type 0 where
  pub sections : List Shdr
  pub image : Memory

-- `func_name_list[k]`, `func_addr_list[k]` and `func_len_list[k]`
pub record Func : Type 0 where
  pub func_name : Text
  pub func_addr : ℕ
  pub func_len : ℕ

abbrev pub sht_symtab : ℕ
sht_symtab = 2

abbrev pub sht_strtab : ℕ
sht_strtab = 3

abbrev pub sht_dynsym : ℕ
sht_dynsym = 11

-- `strcmp(sym_name, func_name_list[k])==0`, the first string being in the file
unfoldable pub str_at : Memory → ℕ → Text → Bool
str_at m a [] = m a == 0
str_at m a (c ∷ cs) = m a == c && str_at m (a + 1) cs

-- A symbol: the offset of its string table, and that of its record.
pub record Symbol : Type 0 where
  pub strtab : ℕ
  pub rec_addr : ℕ

module _ (m : Memory) where
  abbrev pub is_named : Symbol → Text → Bool
  is_named s name = str_at m (s.strtab + read32 m s.rec_addr) name

  -- `st_value`, of which 32 bits are read, and `st_size`
  unfoldable pub take_symbol : ℕ → Symbol → Func → Func
  unfolding str_at
  take_symbol base s f =
      if is_named s f.func_name
      then record f {
        func_addr = (read32 m (s.rec_addr + 8) + base) % 2 ^ 64;
        func_len = read32 m (s.rec_addr + 16);
      }
      else f

  -- `for(j=0; j<num_sym; j++)` over `for(k=0; k<num_func; k++)`
  unfoldable pub read_symbols : ℕ → ℕ → ℕ → ℕ → ℕ → List Func → List Func
  unfolding take_symbol
  read_symbols base strtab entsize zero rec_addr fs = fs
  read_symbols base strtab entsize (suc n) rec_addr fs =
      read_symbols base strtab entsize n (rec_addr + entsize)
        (map (take_symbol base (record { strtab = strtab; rec_addr = rec_addr })) fs)

-- One of the three headers that are looked at for a string table.
abbrev pub see_strtab : Option Shdr → Option ℕ → Option ℕ
see_strtab none old = none
see_strtab (some s) none = none
see_strtab (some s) (some old) =
    some (if s.sh_type == sht_strtab then s.sh_offset % 2 ^ 32 else old)

-- `for (j = i-1; j < i+2; j++)`
unfoldable pub near_strtab : List Shdr → ℕ → ℕ → Option ℕ
near_strtab all zero old = none
near_strtab all (suc i) old =
    see_strtab (get_elem? all (suc (suc i)))
      (see_strtab (get_elem? all (suc i)) (see_strtab (get_elem? all i) (some old)))

abbrev pub has_symbols : Shdr → Bool
has_symbols s = s.sh_type == sht_dynsym || s.sh_type == sht_symtab

-- `for (i = 0; i < header->e_shnum; i++)`; `strtab_offset` is kept from one section to the next. An
-- entry size of 0 is divided by: `none`.
unfoldable pub read_sections : Elf → ℕ → ℕ → List Shdr → ℕ → List Func → Option (List Func)
unfolding read_symbols near_strtab
read_sections elf base i [] old fs = some fs
read_sections elf base i (s ∷ ss) old fs =
    if has_symbols s
    then (elim (near_strtab elf.sections i old) [
      | none ↦ none
      | some strtab ↦
          if s.sh_entsize == 0
          then none
          else read_sections elf base (suc i) ss strtab (
              read_symbols elf.image base strtab s.sh_entsize (s.sh_size / s.sh_entsize) s.sh_offset
                fs)
    ])
    else read_sections elf base (suc i) ss old fs

-- `none` for the file is a failure of `open` or `mmap`, which ends the process.
unfoldable pub query_func_addr : Option Elf → ℕ → List Func → Option (List Func)
unfolding read_sections
query_func_addr none base fs = none
query_func_addr (some elf) base fs = read_sections elf base 0 elf.sections 0 fs

-- `old_func_addr_list[iFunc]` with `is_patch_disabled[iFunc]`
pub record Slot : Type 0 where
  pub addr : ℕ
  pub is_disabled : Bool

abbrev pub slots_of : List ℕ → List Bool → List Slot
slots_of (a ∷ addrs) (b ∷ bs) = record { addr = a; is_disabled = b } ∷ slots_of addrs bs
slots_of _ _ = []

abbrev pub is_among : ℕ → List ℕ → Bool
is_among a [] = false
is_among a (x ∷ xs) = a == x || is_among a xs

-- The first lines of the loop of `install_hook`, given the addresses of the valid patches before:
-- an address that is among them is not patched again.
unfoldable pub drop_duplicates : List ℕ → List Slot → List Slot
drop_duplicates before [] = []
drop_duplicates before (s ∷ ss) =
    let again = record { addr = 0; is_disabled = true } ∷ drop_duplicates before ss in
    let kept = s ∷ drop_duplicates before ss in
    let fresh = s ∷ drop_duplicates (s.addr ∷ before) ss in
    if s.is_disabled then kept else if is_among s.addr before then again else fresh

-- What is patched of one module.
unfoldable pub patched : List ℕ → List Bool → List Slot
unfolding drop_duplicates disable
patched addrs bs = drop_duplicates [] (slots_of addrs (disable addrs bs))

-- One module in `query_all_org_func_addr`, then the choice of `install_hook`.
unfoldable pub query_module :
    Option Elf → ℕ → List Func → List Bool → Span → Option (List Func × Span × List Slot)
unfolding query_func_addr set_span patched
query_module elf base fs bs span = elim (query_func_addr elf base fs) [
  | none ↦ none
  | some gs ↦
      let addrs = map (λ g. g.func_addr) gs in some (gs, set_span addrs span, patched addrs bs)
]
