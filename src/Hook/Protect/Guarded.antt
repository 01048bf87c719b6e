-- ===== src/Hook/Protect/Guarded.antt =====
-- The writes of the hooks are permitted, and the pages of the functions are closed after them.
use ooops.Prelude.{
  ℕ, zero, suc, ◌+◌, ◌≤◌, ◌<◌, ◌≡◌, refl, ◌∙◌, ◌⊎◌, Bool, true, false, some, List, [], ◌∷◌, ◌==◌,
  arith,
}
use ooops.Hook.Patch.{
  Memory, Patch, trampoline_size, install_one, uninstall_one, install_all, uninstall_all,
}
use ooops.Hook.Patch.Undo.{All, AllApart, OffBlock, uninstall_all-install_all}
use ooops.Hook.Blocks.Reach.{determine_mem_block_size_covers}
use ooops.Hook.Protect.{
  Hooks, uninstall_hook, Space, mprotect, all_writable, page_base, mem_size_modify, protect_entry,
  write_opened, install_guarded, uninstall_guarded, install_all_guarded, uninstall_all_guarded,
}

all_writable_each :
    (f : ℕ → Bool) (a n : ℕ) → ((i : ℕ) → i < n → f (a + i) ≡ true) → all_writable f a n ≡ true
unfolding all_writable
all_writable_each f a zero h = refl
all_writable_each f a (suc n) h =
    rw (h n (omega arith), all_writable_each f a n (λ i lt. h i (omega arith))) refl

mprotect_in :
    (base size : ℕ) (w : Bool) (f : ℕ → Bool) (x : ℕ)
    → base ≤ x
    → x < base + size
    → mprotect base size w f x ≡ w
unfolding mprotect
mprotect_in base size w f x lo hi = ground arith

mprotect_out :
    (base size : ℕ) (w : Bool) (f : ℕ → Bool) (x : ℕ)
    → (x < base) ⊎ (base + size ≤ x)
    → mprotect base size w f x ≡ f x
unfolding mprotect
mprotect_out base size w f x out = ground arith

module _ (page_size : ℕ) (big : 5 ≤ page_size) where
  -- The trampoline of q is off the pages that are opened for p.
  abbrev pub OffPages : Patch → Patch → Type 0
  OffPages p q =
      (q.at + trampoline_size ≤ page_base page_size p)
      ⊎ (page_base page_size p + mem_size_modify page_size p ≤ q.at)

  -- No trampoline that is written later is on pages that are closed before.
  abbrev pub AllOffPages : List Patch → Type 0
  AllOffPages [] = Unit {0}
  AllOffPages (p ∷ ps) = All (OffPages p) ps × AllOffPages ps

  abbrev pub OpenBlock : (ℕ → Bool) → Patch → Type 0
  OpenBlock f q = (i : ℕ) → i < trampoline_size → f (q.at + i) ≡ true

  -- The function is not on the first page.
  abbrev pub IsBehind : Patch → Type 0
  IsBehind p = page_size ≤ p.org

  abbrev pub ClosedEntry : (ℕ → Bool) → Patch → Type 0
  ClosedEntry f p = (i : ℕ) → i < 5 → f (p.org + i) ≡ false

  closed : Patch → (ℕ → Bool) → ℕ → Bool
  closed p f = protect_entry page_size p false (protect_entry page_size p true f)

  closed_all : List Patch → (ℕ → Bool) → ℕ → Bool
  closed_all [] f = f
  closed_all (p ∷ ps) f = closed_all ps (closed p f)

  protect_entry_in :
      (p : Patch) (w : Bool) (f : ℕ → Bool) (i : ℕ)
      → i < 5
      → protect_entry page_size p w f (p.org + i) ≡ w
  protect_entry_in p w f i lt =
      let (lo, hi, size) = determine_mem_block_size_covers p.org page_size big in
      mprotect_in (page_base page_size p) (mem_size_modify page_size p) w f (p.org + i)
        (omega arith) (omega arith)

  write_opened_runs :
      (p : Patch) (m : Memory) (f : ℕ → Bool)
      → write_opened page_size p m f ≡ some (record { memory = m; writable = closed p f })
  unfolding closed
  write_opened_runs p m f =
      let opened =
        all_writable_each (protect_entry page_size p true f) p.org 5 (protect_entry_in p true f) in
      rw (write_opened, opened) refl

  closed-ClosedEntry : (p : Patch) (f : ℕ → Bool) → ClosedEntry (closed p f) p
  unfolding closed
  closed-ClosedEntry p f i lt = protect_entry_in p false (protect_entry page_size p true f) i lt

  closed-OpenBlock :
      (p : Patch) (f : ℕ → Bool) (q : Patch)
      → OffPages p q
      → OpenBlock f q
      → OpenBlock (closed p f) q
  unfolding closed
  closed-OpenBlock p f q off blocks i lt =
      let base = page_base page_size p in
      let size = mem_size_modify page_size p in
      mprotect_out base size false (mprotect base size true f) (q.at + i) (omega arith)
      ∙ mprotect_out base size true f (q.at + i) (omega arith)
      ∙ blocks i lt

  closed-false : (p : Patch) (f : ℕ → Bool) (x : ℕ) → f x ≡ false → closed p f x ≡ false
  unfolding closed mprotect
  closed-false p f x e = ground (arith, e)

  closed_all-false :
      (ps : List Patch) (f : ℕ → Bool) (x : ℕ) → f x ≡ false → closed_all ps f x ≡ false
  unfolding closed_all
  closed_all-false [] f x e = e
  closed_all-false (p ∷ ps) f x e = closed_all-false ps (closed p f) x (closed-false p f x e)

  closed_all-ClosedEntry : (ps : List Patch) (f : ℕ → Bool) → All (ClosedEntry (closed_all ps f)) ps
  unfolding closed_all
  closed_all-ClosedEntry [] f = tt
  closed_all-ClosedEntry (p ∷ ps) f = (
    λ i lt. closed_all-false ps (closed p f) (p.org + i) (closed-ClosedEntry p f i lt),
    closed_all-ClosedEntry ps (closed p f),
  )

  still_open :
      (p : Patch) (f : ℕ → Bool) (qs : List Patch)
      → All (OffPages p) qs
      → All (OpenBlock f) qs
      → All (OpenBlock (closed p f)) qs
  still_open p f [] off blocks = tt
  still_open p f (q ∷ qs) off blocks =
      (closed-OpenBlock p f q off.0 blocks.0, still_open p f qs off.1 blocks.1)

  install_all_guarded_runs :
      (ps : List Patch) (m : Memory) (f : ℕ → Bool)
      → All (OpenBlock f) ps
      → AllOffPages ps
      → install_all_guarded page_size ps (record { memory = m; writable = f })
        ≡ some (record { memory = install_all ps m; writable = closed_all ps f })
  unfolding install_all_guarded install_guarded install_all closed_all
  install_all_guarded_runs [] m f blocks off = refl
  install_all_guarded_runs (p ∷ ps) m f blocks off =
      let block = all_writable_each f p.at trampoline_size blocks.0 in
      rw (install_all_guarded, install_guarded, block, write_opened_runs p (install_one p m) f)
        (install_all_guarded_runs ps (install_one p m) (closed p f)
          (still_open p f ps off.0 blocks.1) off.1)

  uninstall_all_guarded_runs :
      (ps : List Patch) (m : Memory) (f : ℕ → Bool)
      → All IsBehind ps
      → uninstall_all_guarded page_size ps (record { memory = m; writable = f })
        ≡ some (record { memory = uninstall_all ps m; writable = closed_all ps f })
  unfolding uninstall_all_guarded uninstall_guarded uninstall_all closed_all
  uninstall_all_guarded_runs [] m f behind = refl
  uninstall_all_guarded_runs (p ∷ ps) m f behind =
      let entry = behind.0 in
      let some_page : (page_base page_size p == 0) ≡ false = ground arith in
      rw
        (
          uninstall_all_guarded,
          uninstall_guarded,
          some_page,
          write_opened_runs p (uninstall_one p m) f,
        )
        (uninstall_all_guarded_runs ps (uninstall_one p m) (closed p f) behind.1)

  -- Pages have 5 bytes or more; the patches share no byte, their trampolines may be written, no function
  -- is on the first page, and no trampoline is on the pages that are opened for a function before it.
  -- Then `install_hook` and after it `uninstall_hook`, where libc was found, run without a write to
  -- a byte that is not open: after each of them the entries of all functions are closed again, and
  -- at the end every byte of memory is as it was, but for those of the trampolines (and the byte
  -- before each). A second `uninstall_hook` does nothing.
  pub uninstall_hook_restores :
      (ps : List Patch) (s : Space) (x : ℕ)
      → AllApart ps
      → All (OpenBlock s.writable) ps
      → AllOffPages ps
      → All IsBehind ps
      → All (λ p. OffBlock p x) ps
      → (t : Space) × (u : Hooks) × (install_all_guarded page_size ps s ≡ some t)
        × All (ClosedEntry t.writable) ps
        × (uninstall_hook page_size ps
              (record { space = t; found_libc = true; is_uninstalled = false })
            ≡ some u)
        × All (ClosedEntry u.space.writable) ps
        × (u.space.memory x ≡ s.memory x)
        × (uninstall_hook page_size ps u ≡ some u)
  unfolding uninstall_hook
  uninstall_hook_restores ps s x apart blocks pages behind off =
      let f = closed_all ps s.writable in
      let m = install_all ps s.memory in
      (
        record { memory = m; writable = f },
        record {
          space = record { memory = uninstall_all ps m; writable = closed_all ps f };
          found_libc = true;
          is_uninstalled = true;
        },
        install_all_guarded_runs ps s.memory s.writable blocks pages,
        closed_all-ClosedEntry ps s.writable,
        rw (uninstall_hook, uninstall_all_guarded_runs ps m f behind) refl,
        closed_all-ClosedEntry ps f,
        uninstall_all-install_all ps s.memory x apart off,
        refl,
      )
