-- ===== src/Hook/Protect.antt =====
-- src/hook.c: the calls of `mprotect` around the writes of `install_hook` and `uninstall_hook`. A
-- write to a byte that may not be written ends the process: `none`. `mprotect` does what it is told. A trampoline is asked for whole;
-- the byte before it, at which the code looks for an offset, is left out.
pub mod Guarded
use ooops.Prelude.{
  ℕ, zero, suc, ◌+◌, ◌-◌, ◌%◌, Bool, true, false, not, ◌&&◌, Option, none, some, List, [], ◌∷◌, ltb,
  leb, ◌==◌, if◌then◌else◌,
}
use ooops.Hook.Patch.{Memory, Patch, trampoline_size, install_one, uninstall_one}
use ooops.Hook.Blocks.{determine_mem_block_size}

pub record Space : Type 0 where
  pub memory : Memory
  pub writable : ℕ → Bool

-- `mprotect(base, size, ...)`, with PROT_WRITE or without it
unfoldable pub mprotect : ℕ → ℕ → Bool → (ℕ → Bool) → ℕ → Bool
mprotect base size w f x = if leb base x && ltb x (base + size) then w else f x

unfoldable pub all_writable : (ℕ → Bool) → ℕ → ℕ → Bool
all_writable f a zero = true
all_writable f a (suc n) = f (a + n) && all_writable f a n

-- `addr & mask`, for a size that is a power of two
abbrev pub page_base : ℕ → Patch → ℕ
page_base page_size p = p.org - p.org % page_size

-- `MemSize_Modify`
abbrev pub mem_size_modify : ℕ → Patch → ℕ
mem_size_modify page_size p = determine_mem_block_size p.org page_size

abbrev pub protect_entry : ℕ → Patch → Bool → (ℕ → Bool) → ℕ → Bool
protect_entry page_size p w = mprotect (page_base page_size p) (mem_size_modify page_size p) w

-- The entry of one function is opened, written and closed again.
abbrev pub write_opened : ℕ → Patch → Memory → (ℕ → Bool) → Option Space
write_opened page_size p memory f =
    let opened = protect_entry page_size p true f in
    if all_writable opened p.org 5
    then some (record { memory = memory; writable = protect_entry page_size p false opened })
    else none

-- The loop body of `install_hook` for one function.
unfoldable pub install_guarded : ℕ → Patch → Space → Option Space
unfolding mprotect all_writable
install_guarded page_size p s =
    if all_writable s.writable p.at trampoline_size
    then write_opened page_size p (install_one p s.memory) s.writable
    else none

-- That of `uninstall_hook`, which passes over a function on the first page.
unfoldable pub uninstall_guarded : ℕ → Patch → Space → Option Space
unfolding mprotect all_writable
uninstall_guarded page_size p s =
    if page_base page_size p == 0
    then some s
    else write_opened page_size p (uninstall_one p s.memory) s.writable

unfoldable pub install_all_guarded : ℕ → List Patch → Space → Option Space
unfolding install_guarded
install_all_guarded page_size [] s = some s
install_all_guarded page_size (p ∷ ps) s = elim (install_guarded page_size p s) [
  | none ↦ none
  | some t ↦ install_all_guarded page_size ps t
]

unfoldable pub uninstall_all_guarded : ℕ → List Patch → Space → Option Space
unfolding uninstall_guarded
uninstall_all_guarded page_size [] s = some s
uninstall_all_guarded page_size (p ∷ ps) s = elim (uninstall_guarded page_size p s) [
  | none ↦ none
  | some t ↦ uninstall_all_guarded page_size ps t
]

-- `found_libc` and `is_uninstalled`
pub record Hooks : Type 0 where
  pub space : Space
  pub found_libc : Bool
  pub is_uninstalled : Bool

-- `uninstall_hook`, up to the unmapping of the blocks.
unfoldable pub uninstall_hook : ℕ → List Patch → Hooks → Option Hooks
unfolding uninstall_all_guarded
uninstall_hook page_size ps h =
    if not h.found_libc
    then some h
    else if h.is_uninstalled
    then some h
    else (elim (uninstall_all_guarded page_size ps h.space) [
      | none ↦ none
      | some s ↦ some (record h { space = s; is_uninstalled = true })
    ])
