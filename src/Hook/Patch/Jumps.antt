-- ===== src/Hook/Patch/Jumps.antt =====
-- Where the code written by `install_hook` goes: from the function to its replacement, and from the
-- trampoline back into the function.
use ooops.Prelude.{
  ℕ, zero, suc, ◌+◌, ◌*◌, ◌/◌, ◌%◌, ◌^◌, ◌≤◌, ◌<◌, ◌≡◌, refl, ap, ◌∙◌, ◌⊎◌, List, ◌∷◌, length,
  get_or, arith,
}
use ooops.Hook.Patch.{
  Memory, Patch, copy_bytes, le32, read32, read64, diff32, write_trampoline, install_one,
  bounce_code, entry_code, resume_code, write_bounce, save_org_code, opcode_jmp,
  jmp_instruction_len, offset_bounce, offset_org_code, sign_extend, jump_target,
}
use ooops.Hook.Patch.Frame.{
  Outside, Fits, poke_in, write_trampoline_out, write_trampoline_frame, write_bounce_in,
  write_entry_out, write_entry_in, save_org_code_out,
}

-- The trampoline, with the byte before it, and the function's first five bytes do not meet, and
-- their addresses are user addresses closer than 2^31.
pub record Near (p : Patch) : Type 0 where
  pub apart : (p.org + 5 < p.at) ⊎ (p.at + 64 ≤ p.org)
  pub pos : 1 ≤ p.at
  pub user : (p.at + 64 ≤ 2 ^ 47) × (p.org + 64 ≤ 2 ^ 47)
  pub within : (p.at + 64 < p.org + 2 ^ 31) × (p.org + 64 < p.at + 2 ^ 31)

-- An offset written for a near target leads there.
sign_extend-diff32 :
    (a b n : ℕ)
    → a < 2 ^ 48
    → b < 2 ^ 48
    → n < 2 ^ 8
    → a < b + 2 ^ 31
    → b ≤ a + 2 ^ 31
    → (b + n + sign_extend (diff32 a b)) % 2 ^ 64 ≡ a + n
sign_extend-diff32 a b n ha hb hn near far = ground arith

le32_read :
    (v : ℕ)
    → v < 2 ^ 32
    → v % 256 + 256 * (v / 256 % 256) + 65536 * (v / 65536 % 256) + 16777216 * (v / 16777216 % 256)
      ≡ v
le32_read v h = omega arith

-- The code at a place as bytes.
abbrev pub HasCode : Memory → ℕ → List ℕ → Type 0
HasCode m a bs = (i : ℕ) → i < length bs → m (a + i) ≡ get_or bs i 0

read32-HasCode :
    (m : Memory) (a v : ℕ)
    → v < 2 ^ 32
    → m a ≡ v % 256
    → m (a + 1) ≡ v / 256 % 256
    → m (a + 2) ≡ v / 65536 % 256
    → m (a + 3) ≡ v / 16777216 % 256
    → read32 m a ≡ v
read32-HasCode m a v h e₀ e₁ e₂ e₃ = rw (e₀, e₁, e₂, e₃) (le32_read v h)

jump_target-HasCode :
    (m : Memory) (a v : ℕ)
    → v < 2 ^ 32
    → HasCode m a (opcode_jmp ∷ le32 v)
    → jump_target m a ≡ (a + 5 + sign_extend v) % 2 ^ 64
jump_target-HasCode m a v h code =
    ap (λ w. (a + 5 + sign_extend w) % 2 ^ 64)
      (read32-HasCode m (a + 1) v h (code 1 (omega arith))
        (ap m {x = a + 1 + 1} {y = a + 2} (omega arith) ∙ code 2 (omega arith))
        (ap m {x = a + 1 + 2} {y = a + 3} (omega arith) ∙ code 3 (omega arith))
        (ap m {x = a + 1 + 3} {y = a + 4} (omega arith) ∙ code 4 (omega arith)))

bounce_head : (v i : ℕ) → i < 6 → get_or (bounce_code v) i 0 ≡ get_or (bounce_code 0) i 0
bounce_head v zero h = refl
bounce_head v (suc zero) h = refl
bounce_head v (suc (suc zero)) h = refl
bounce_head v (suc (suc (suc zero))) h = refl
bounce_head v (suc (suc (suc (suc zero)))) h = refl
bounce_head v (suc (suc (suc (suc (suc zero))))) h = refl
bounce_head v (suc (suc (suc (suc (suc (suc i)))))) h = absurd (omega arith)

bounce_address :
    (m : Memory) (a v : ℕ) → v < 2 ^ 64 → HasCode m a (bounce_code v) → read64 m (a + 6) ≡ v
bounce_address m a v h code =
    rw
      (
        read32-HasCode m (a + 6) (v % 2 ^ 32) (omega arith) (code 6 (omega arith))
            (ap m {x = a + 6 + 1} {y = a + 7} (omega arith) ∙ code 7 (omega arith))
            (ap m {x = a + 6 + 2} {y = a + 8} (omega arith) ∙ code 8 (omega arith))
            (ap m {x = a + 6 + 3} {y = a + 9} (omega arith) ∙ code 9 (omega arith)),
        read32-HasCode m (a + 6 + 4) (v / 2 ^ 32) (omega arith)
            (ap m {x = a + 6 + 4} {y = a + 10} (omega arith) ∙ code 10 (omega arith))
            (ap m {x = a + 6 + 4 + 1} {y = a + 11} (omega arith) ∙ code 11 (omega arith))
            (ap m {x = a + 6 + 4 + 2} {y = a + 12} (omega arith) ∙ code 12 (omega arith))
            (ap m {x = a + 6 + 4 + 3} {y = a + 13} (omega arith) ∙ code 13 (omega arith)),
      )
      (omega arith)

module _ (p : Patch) (m : Memory) (fits : Fits p) (near : Near p) where
  block : Memory
  block = write_trampoline p (write_bounce p m)

  -- What stands where neither the entry nor the saved bytes are.
  install_one-block :
      (x : ℕ)
      → Outside p.org 5 x
      → Outside (p.at + offset_org_code) 5 x
      → install_one p m x ≡ block x
  unfolding install_one block
  install_one-block x h k =
      write_entry_out p (save_org_code p (write_trampoline p (write_bounce p m))) x h
      ∙ save_org_code_out p (write_trampoline p (write_bounce p m)) x k

  entry_in : HasCode (install_one p m) p.org (entry_code p)
  unfolding install_one
  entry_in i h = write_entry_in p (save_org_code p (write_trampoline p (write_bounce p m))) i h

  resume_in : HasCode (install_one p m) (p.at + p.entry.saved_code_len) (resume_code p)
  unfolding block
  resume_in i h =
      let n = p.entry.saved_code_len in
      install_one-block (p.at + n + i) (omega (arith, near.apart, fits.short))
        (omega (arith, fits.short))
      ∙ write_trampoline_out p fits near.pos (write_bounce p m) (p.at + n + i) (omega arith)
      ∙ poke_in (copy_bytes (write_bounce p m) p.at p.org n) (p.at + n) (resume_code p)
          (p.at + n + i) i refl h

  bounce_in : HasCode (install_one p m) (p.at + offset_bounce) (bounce_code p.new_addr)
  unfolding block
  bounce_in i h =
      install_one-block (p.at + offset_bounce + i) (omega (arith, near.apart)) (omega arith)
      ∙ write_trampoline_frame p fits near.pos (write_bounce p m) (p.at + offset_bounce + i)
          (omega arith)
      ∙ write_bounce_in p m i h

  -- Let the disassembler have found at least 5 and at most 15 bytes to save, and a jump that it
  -- found lie inside them; let the trampoline, with the byte before it, and the function's first
  -- five bytes not meet; and let both be user addresses closer than 2^31. After the install a call
  -- of the function runs a jump to `bounce`, which jumps to the address of the replacement; and
  -- the trampoline, behind the saved instructions, jumps to the instruction of the function that
  -- follows them.
  pub install_one_jumps :
      p.new_addr < 2 ^ 64
      → let m' = install_one p m in
        let n = p.entry.saved_code_len in
        (m' p.org ≡ opcode_jmp)
        × (jump_target m' p.org ≡ p.at + offset_bounce)
        × ((i : ℕ) → i < 6 → m' (p.at + offset_bounce + i) ≡ get_or (bounce_code 0) i 0)
        × (read64 m' (p.at + offset_bounce + 6) ≡ p.new_addr)
        × (m' (p.at + n) ≡ opcode_jmp)
        × (jump_target m' (p.at + n) ≡ p.org + n)
  install_one_jumps h = (
    ap (install_one p m) {x = p.org} {y = p.org + 0} (omega arith) ∙ entry_in 0 (omega arith),
    jump_target-HasCode (install_one p m) p.org
          (diff32 (p.at + offset_bounce) (p.org + jmp_instruction_len)) (omega arith) entry_in
        ∙ ap (λ (k : ℕ). (k + sign_extend (diff32 (p.at + 20) (p.org + 5))) % 2 ^ 64)
            {x = p.org + 5} {y = p.org + 5 + 0} (omega arith)
        ∙ sign_extend-diff32 (p.at + offset_bounce) (p.org + 5) 0 (omega (arith, near.user))
            (omega (arith, near.user)) (omega arith) (omega (arith, near.within))
            (omega (arith, near.within))
        ∙ omega arith,
    λ i small. bounce_in i (omega arith) ∙ bounce_head p.new_addr i small,
    bounce_address (install_one p m) (p.at + offset_bounce) p.new_addr h bounce_in,
    ap (install_one p m) {x = p.at + p.entry.saved_code_len} {y = p.at + p.entry.saved_code_len + 0}
          (omega arith)
        ∙ resume_in 0 (omega arith),
    jump_target-HasCode (install_one p m) (p.at + p.entry.saved_code_len)
          (diff32 p.org (p.at + jmp_instruction_len)) (omega arith) resume_in
        ∙ ap (λ (k : ℕ). (k + sign_extend (diff32 p.org (p.at + 5))) % 2 ^ 64)
            {x = p.at + p.entry.saved_code_len + 5} {y = p.at + 5 + p.entry.saved_code_len}
            (omega arith)
        ∙ sign_extend-diff32 p.org (p.at + 5) p.entry.saved_code_len (omega (arith, near.user))
            (omega (arith, near.user)) (omega (arith, fits.short)) (omega (arith, near.within))
            (omega (arith, near.within)),
  )
