-- ===== src/Hook/Patch.antt =====
-- src/hook.c: the code that `install_hook` writes for one function, and what `uninstall_hook` puts
-- back. Memory is a function from addresses to bytes. A `TRAMPOLINE` at address t has its
-- `trampoline` at t, `bounce` at t + 20 and `org_code` at t + 36. What udis86 finds in the entry
-- code is an argument.
pub mod Frame
pub mod Jumps
pub mod Undo
use ooops.Prelude.{
  ℕ, zero, suc, ◌+◌, ◌-◌, ◌*◌, ◌/◌, ◌%◌, ◌^◌, Bool, true, false, ◌&&◌, Option, none, some, List, [],
  ◌∷◌, ◌++◌, ltb, leb, ◌==◌, if◌then◌else◌, length, get_or,
}

abbrev pub Memory : Type 0
Memory = ℕ → ℕ

-- Bytes written from an address on.
unfoldable pub poke : Memory → ℕ → List ℕ → Memory
poke m a bs x = if leb a x && ltb x (a + length bs) then get_or bs (x - a) 0 else m x

-- `memcpy` between regions that do not overlap
unfoldable pub copy_bytes : Memory → ℕ → ℕ → ℕ → Memory
copy_bytes m dst src n x = if leb dst x && ltb x (dst + n) then m (src + (x - dst)) else m x

abbrev pub le32 : ℕ → List ℕ
le32 v = v % 256 ∷ v / 256 % 256 ∷ v / 65536 % 256 ∷ v / 16777216 % 256 ∷ []

abbrev pub le64 : ℕ → List ℕ
le64 v = le32 (v % 2 ^ 32) ++ le32 (v / 2 ^ 32)

-- `*(int *)a`, as its 32-bit pattern
abbrev pub read32 : Memory → ℕ → ℕ
read32 m a = m a + 256 * m (a + 1) + 65536 * m (a + 2) + 16777216 * m (a + 3)

abbrev pub read64 : Memory → ℕ → ℕ
read64 m a = read32 m a + 2 ^ 32 * read32 m (a + 4)

-- `(int)(a - b)` of two addresses, as its pattern
abbrev pub diff32 : ℕ → ℕ → ℕ
diff32 a b = (a + 2 ^ 64 - b) % 2 ^ 64 % 2 ^ 32

-- `*p_int += d`
unfoldable pub add32_at : Memory → ℕ → ℕ → Memory
unfolding poke
add32_at m a d = poke m a (le32 ((read32 m a + d) % 2 ^ 32))

abbrev pub jmp_instruction_len : ℕ
jmp_instruction_len = 5

abbrev pub opcode_jmp : ℕ
opcode_jmp = 0xE9

abbrev pub offset_bounce : ℕ
offset_bounce = 20

abbrev pub offset_org_code : ℕ
offset_org_code = 36

-- `sizeof(TRAMPOLINE)`
abbrev pub trampoline_size : ℕ
trampoline_size = 64

-- `jmp QWORD PTR [rip+0x0]`, and the address of the new function.
abbrev pub bounce_code : ℕ → List ℕ
bounce_code new_addr = 0xff ∷ 0x25 ∷ 0 ∷ 0 ∷ 0 ∷ 0 ∷ le64 new_addr

-- What the disassembly of the entry code gives: `saved_code_len`, `offset_rIP_var` if one is found,
-- and `WithJmp` if positive.
pub record Entry : Type 0 where
  pub saved_code_len : ℕ
  pub offset_rip_var : Option ℕ
  pub with_jmp : Option ℕ

-- One registered function: its trampoline, its address, that of its replacement, its entry code.
pub record Patch : Type 0 where
  pub at : ℕ
  pub org : ℕ
  pub new_addr : ℕ
  pub entry : Entry

-- `if( *p_int == offset_rIP_var ) *p_int += ...` at the address a
fix_rip_at : Patch → ℕ → ℕ → Memory → Memory
unfolding add32_at
fix_rip_at p off a m = if read32 m a == off then add32_at m a (diff32 p.org p.at) else m

-- `jMax = saved_code_len - 4; for(j=jMax-2; j<=jMax; j++)`. With a saved code of 5 bytes the first
-- place is the byte before the trampoline.
fix_rip : Patch → Memory → Memory
unfolding fix_rip_at
fix_rip p m = elim p.entry.offset_rip_var [
  | none ↦ m
  | some off ↦
      fix_rip_at p off (p.at + n - 4)
        (fix_rip_at p off (p.at + n - 5) (fix_rip_at p off (p.at + n - 6) m))
]
  where
    n : ℕ
    n = p.entry.saved_code_len

fix_with_jmp : Patch → Memory → Memory
unfolding add32_at
fix_with_jmp p m = elim p.entry.with_jmp [
  | none ↦ m
  | some w ↦ add32_at m (p.at + w) (diff32 p.org p.at)
]

fix_first_jmp : Patch → Memory → Memory
unfolding add32_at
fix_first_jmp p m = if m p.at == opcode_jmp then add32_at m (p.at + 1) (diff32 p.org p.at) else m

-- The jump behind the saved instructions.
abbrev pub resume_code : Patch → List ℕ
resume_code p = opcode_jmp ∷ le32 (diff32 p.org (p.at + jmp_instruction_len))

-- The way back to the original function: the saved instructions, then a jump behind them.
unfoldable pub write_trampoline : Patch → Memory → Memory
unfolding poke copy_bytes fix_rip fix_with_jmp fix_first_jmp
write_trampoline p m =
    fix_first_jmp p
      (fix_with_jmp p (fix_rip p (poke (copy_bytes m p.at p.org n) (p.at + n) (resume_code p))))
  where
    n : ℕ
    n = p.entry.saved_code_len

unfoldable pub write_bounce : Patch → Memory → Memory
unfolding poke
write_bounce p m = poke m (p.at + offset_bounce) (bounce_code p.new_addr)

-- `memcpy(org_code, addr_org_func, 5)`
unfoldable pub save_org_code : Patch → Memory → Memory
unfolding copy_bytes
save_org_code p m = copy_bytes m (p.at + offset_org_code) p.org 5

-- The entry of the function becomes a jump to `bounce`.
abbrev pub entry_code : Patch → List ℕ
entry_code p = opcode_jmp ∷ le32 (diff32 (p.at + offset_bounce) (p.org + jmp_instruction_len))

unfoldable pub write_entry : Patch → Memory → Memory
unfolding poke
write_entry p m = poke m p.org (entry_code p)

-- The writes of the loop body of `install_hook` for one function, in the order of the code.
unfoldable pub install_one : Patch → Memory → Memory
install_one p m = write_entry p (save_org_code p (write_trampoline p (write_bounce p m)))

-- `memcpy(addr_org_func, org_code, 5)`
unfoldable pub uninstall_one : Patch → Memory → Memory
unfolding copy_bytes
uninstall_one p m = copy_bytes m p.org (p.at + offset_org_code) 5

unfoldable pub install_all : List Patch → Memory → Memory
install_all [] m = m
install_all (p ∷ ps) m = install_all ps (install_one p m)

unfoldable pub uninstall_all : List Patch → Memory → Memory
uninstall_all [] m = m
uninstall_all (p ∷ ps) m = uninstall_all ps (uninstall_one p m)

-- Where `jmp rel32` at a goes: the offset is sign-extended and added to the next address.
abbrev pub sign_extend : ℕ → ℕ
sign_extend v = if ltb v (2 ^ 31) then v else v + (2 ^ 64 - 2 ^ 32)

abbrev pub jump_target : Memory → ℕ → ℕ
jump_target m a = (a + jmp_instruction_len + sign_extend (read32 m (a + 1))) % 2 ^ 64
