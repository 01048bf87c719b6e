-- ===== src/Tests/Patches.antt =====
-- Hooks written into a small memory.
use ooops.Prelude.{
  ℕ, ◌+◌, ◌-◌, ◌≡◌, refl, ◌<◌, none, some, true, false, [], ◌∷◌, get_or, if◌then◌else◌, ltb, leb,
  ◌&&◌, arith,
}
use ooops.Hook.Patch.{
  Memory, Entry, Patch, install_one, jump_target, read64, opcode_jmp, offset_bounce, bounce_code,
  write_entry,
}
use ooops.Hook.Patch.Frame.{Fits}
use ooops.Hook.Patch.Jumps.{Near, install_one_jumps}
use ooops.Hook.Patch.Undo.{All, AllApart}
use ooops.Hook.Blocks.{determine_mem_block_size}
use ooops.Hook.Protect.{
  Space, mprotect, all_writable, protect_entry, install_all_guarded, Hooks, uninstall_hook,
}
use ooops.Hook.Protect.Guarded.{OpenBlock, ClosedEntry, uninstall_hook_restores}

abbrev entry : Entry
entry = record { saved_code_len = 6; offset_rip_var = none; with_jmp = none }

abbrev first : Patch
first = record { at = 8192; org = 4096; new_addr = 70000; entry = entry }

abbrev second : Patch
second = record { at = 8256; org = 5000; new_addr = 80000; entry = entry }

-- `push %rbp; mov %rsp,%rbp; sub ...` and no-ops.
abbrev memory : Memory
memory x =
    if leb 4096 x && ltb x 4102
    then get_or (0x55 ∷ 0x48 ∷ 0x89 ∷ 0xe5 ∷ 0x48 ∷ 0x83 ∷ []) (x - 4096) 0
    else 0x90

first-Fits : Fits first
first-Fits = record { long = omega arith; short = omega arith; jmp = tt }

first-Near : Near first
first-Near = omega arith

entry_jump_runs : jump_target (install_one first memory) 4096 ≡ 8212
unfolding install_one write_entry
entry_jump_runs = refl

install_one_jumps_example :
    let m' = install_one first memory in
    (m' 4096 ≡ opcode_jmp)
    × (jump_target m' 4096 ≡ 8192 + offset_bounce)
    × ((i : ℕ) → i < 6 → m' (8192 + offset_bounce + i) ≡ get_or (bounce_code 0) i 0)
    × (read64 m' (8192 + offset_bounce + 6) ≡ 70000)
    × (m' (8192 + 6) ≡ opcode_jmp)
    × (jump_target m' (8192 + 6) ≡ 4096 + 6)
install_one_jumps_example = install_one_jumps first memory first-Fits first-Near (omega arith)

patches-AllApart : AllApart (first ∷ second ∷ [])
patches-AllApart = (
  record { fits = first-Fits; pos = omega arith; apart = omega arith },
  (omega arith, tt),
  (
    record {
      fits = record { long = omega arith; short = omega arith; jmp = tt };
      pos = omega arith;
      apart = omega arith;
    },
    tt,
    tt,
  ),
)

abbrev space : Space
space = record { memory = memory; writable = λ x. leb 8192 x }

blocks_open : All (OpenBlock 4096 (omega arith) space.writable) (first ∷ second ∷ [])
blocks_open = ((λ i lt. ground arith), ((λ i lt. ground arith), tt))

-- An entry on two pages is opened on both.
two_pages :
    all_writable (protect_entry 4096 (record first { org = 4094 }) true (λ x. false)) 4094 5 ≡ true
unfolding all_writable mprotect determine_mem_block_size
two_pages = refl

uninstall_hook_restores_example :
    (t : Space) × (u : Hooks) × (install_all_guarded 4096 (first ∷ second ∷ []) space ≡ some t)
    × All (ClosedEntry 4096 (omega arith) t.writable) (first ∷ second ∷ [])
    × (uninstall_hook 4096
          (first ∷ second ∷ [])
          (record { space = t; found_libc = true; is_uninstalled = false })
        ≡ some u)
    × All (ClosedEntry 4096 (omega arith) u.space.writable) (first ∷ second ∷ [])
    × (u.space.memory 4098 ≡ 0x89)
    × (uninstall_hook 4096 (first ∷ second ∷ []) u ≡ some u)
unfolding determine_mem_block_size
uninstall_hook_restores_example =
    uninstall_hook_restores 4096 (omega arith) (first ∷ second ∷ []) space 4098 patches-AllApart
      blocks_open ((omega arith, tt), (tt, tt)) (omega arith, (omega arith, tt)) (omega arith)
