-- ===== src/Hook/Patch/Frame.antt =====
-- Which bytes the writes of `install_hook` touch.
use ooops.Prelude.{
  ℕ, ◌+◌, ◌-◌, ◌%◌, ◌^◌, ◌≤◌, ◌<◌, ◌≡◌, ◌∙◌, refl, ◌⊎◌, inl, inr, Option, none, some, List, length,
  get_or, Option-cases, arith,
}
use ooops.Hook.Patch.{
  Memory, Patch, poke, copy_bytes, add32_at, le32, read32, diff32, fix_rip_at, fix_rip,
  fix_with_jmp, fix_first_jmp, write_trampoline, resume_code, bounce_code, entry_code, write_bounce,
  save_org_code, write_entry, offset_bounce, offset_org_code,
}

-- x is not among the n bytes from a on.
abbrev pub Outside : ℕ → ℕ → ℕ → Type 0
Outside a n x = (x < a) ⊎ (a + n ≤ x)

pub poke_out :
    (m : Memory) (a : ℕ) (bs : List ℕ) (x : ℕ) → Outside a (length bs) x → poke m a bs x ≡ m x
unfolding poke
poke_out m a bs x h = ground arith

pub poke_in :
    (m : Memory) (a : ℕ) (bs : List ℕ) (x i : ℕ)
    → x ≡ a + i
    → i < length bs
    → poke m a bs x ≡ get_or bs i 0
unfolding poke
poke_in m a bs x i e h = let j : x - a ≡ i = omega arith in ground (arith, j)

pub copy_bytes_out :
    (m : Memory) (dst src n x : ℕ) → Outside dst n x → copy_bytes m dst src n x ≡ m x
unfolding copy_bytes
copy_bytes_out m dst src n x h = ground arith

pub copy_bytes_in :
    (m : Memory) (dst src n x i : ℕ) → x ≡ dst + i → i < n → copy_bytes m dst src n x ≡ m (src + i)
unfolding copy_bytes
copy_bytes_in m dst src n x i e h = let j : x - dst ≡ i = omega arith in ground (arith, j)

add32_at_out : (m : Memory) (a d x : ℕ) → Outside a 4 x → add32_at m a d x ≡ m x
unfolding add32_at
add32_at_out m a d x h = poke_out m a (le32 ((read32 m a + d) % 2 ^ 32)) x h

abbrev JmpFits : Option ℕ → ℕ → Type 0
JmpFits none n = Unit {0}
JmpFits (some w) n = w + 4 ≤ n

-- The entry code that was copied is 5 to 15 bytes long, and a jump found in it lies inside.
pub record Fits (p : Patch) : Type 0 where
  pub long : 5 ≤ p.entry.saved_code_len
  pub short : p.entry.saved_code_len ≤ 15
  pub jmp : JmpFits p.entry.with_jmp p.entry.saved_code_len

module _ (p : Patch) (fits : Fits p) (pos : 1 ≤ p.at) where
  -- The bytes of the saved code, and the one before.
  abbrev Clear : ℕ → Type 0
  Clear x = (x + 1 < p.at) ⊎ (p.at + p.entry.saved_code_len ≤ x)

  fix_rip_at_out : (off a x : ℕ) (m : Memory) → Outside a 4 x → fix_rip_at p off a m x ≡ m x
  unfolding fix_rip_at
  fix_rip_at_out off a x m h = ground (arith, add32_at_out m a (diff32 p.org p.at) x h)

  fix_rip_out : (m : Memory) (x : ℕ) → Clear x → fix_rip p m x ≡ m x
  unfolding fix_rip
  fix_rip_out m x h = elim (Option-cases p.entry.offset_rip_var) [
    | inl e ↦ rw (e, fix_rip)
    | inr (off, e) ↦
        let n = p.entry.saved_code_len in
        let m₁ = fix_rip_at p off (p.at + n - 6) m in
        let m₂ = fix_rip_at p off (p.at + n - 5) m₁ in
        rw (e, fix_rip)
          (fix_rip_at_out off (p.at + n - 4) x m₂ (omega (arith, fits.long))
            ∙ fix_rip_at_out off (p.at + n - 5) x m₁ (omega (arith, fits.long))
            ∙ fix_rip_at_out off (p.at + n - 6) x m (omega (arith, fits.long)))
  ]

  fix_with_jmp_out : (m : Memory) (x : ℕ) → Clear x → fix_with_jmp p m x ≡ m x
  unfolding fix_with_jmp
  fix_with_jmp_out m x h = elim (Option-cases p.entry.with_jmp) [
    | inl e ↦ rw (e, fix_with_jmp)
    | inr (w, e) ↦
        let inside : w + 4 ≤ p.entry.saved_code_len = rw e at fits.jmp in
        rw (e, fix_with_jmp) (add32_at_out m (p.at + w) (diff32 p.org p.at) x (ground arith))
  ]

  fix_first_jmp_out : (m : Memory) (x : ℕ) → Clear x → fix_first_jmp p m x ≡ m x
  unfolding fix_first_jmp
  fix_first_jmp_out m x h =
      ground (arith, fits.long, add32_at_out m (p.at + 1) (diff32 p.org p.at) x)

  -- The corrections stay inside the saved code, so the jump behind it stands as written.
  pub write_trampoline_out :
      (m : Memory) (x : ℕ)
      → Clear x
      → write_trampoline p m x
        ≡ poke
            (copy_bytes m p.at p.org p.entry.saved_code_len)
            (p.at + p.entry.saved_code_len)
            (resume_code p)
            x
  unfolding write_trampoline
  write_trampoline_out m x h =
      let n = p.entry.saved_code_len in
      let m₁ = poke (copy_bytes m p.at p.org n) (p.at + n) (resume_code p) in
      let m₂ = fix_rip p m₁ in
      fix_first_jmp_out (fix_with_jmp p m₂) x h ∙ fix_with_jmp_out m₂ x h ∙ fix_rip_out m₁ x h

  -- Off the trampoline nothing changes.
  pub write_trampoline_frame :
      (m : Memory) (x : ℕ) → (x + 1 < p.at) ⊎ (p.at + 20 ≤ x) → write_trampoline p m x ≡ m x
  write_trampoline_frame m x h =
      let n = p.entry.saved_code_len in
      write_trampoline_out m x (omega (arith, fits.short))
      ∙ poke_out (copy_bytes m p.at p.org n) (p.at + n) (resume_code p) x
          (omega (arith, fits.short))
      ∙ copy_bytes_out m p.at p.org n x (omega (arith, fits.short))

-- The other writes, off their own bytes and on them.
module _ (p : Patch) (m : Memory) (x : ℕ) where
  pub write_bounce_out : Outside (p.at + offset_bounce) 14 x → write_bounce p m x ≡ m x
  unfolding write_bounce
  write_bounce_out h = poke_out m (p.at + offset_bounce) (bounce_code p.new_addr) x h

  pub save_org_code_out : Outside (p.at + offset_org_code) 5 x → save_org_code p m x ≡ m x
  unfolding save_org_code
  save_org_code_out h = copy_bytes_out m (p.at + offset_org_code) p.org 5 x h

  pub write_entry_out : Outside p.org 5 x → write_entry p m x ≡ m x
  unfolding write_entry
  write_entry_out h = poke_out m p.org (entry_code p) x h

module _ (p : Patch) (m : Memory) (i : ℕ) where
  pub write_bounce_in :
      i < 14 → write_bounce p m (p.at + offset_bounce + i) ≡ get_or (bounce_code p.new_addr) i 0
  unfolding write_bounce
  write_bounce_in h =
      poke_in m (p.at + offset_bounce) (bounce_code p.new_addr) (p.at + offset_bounce + i) i refl h

  pub save_org_code_in : i < 5 → save_org_code p m (p.at + offset_org_code + i) ≡ m (p.org + i)
  unfolding save_org_code
  save_org_code_in h =
      copy_bytes_in m (p.at + offset_org_code) p.org 5 (p.at + offset_org_code + i) i refl h

  pub write_entry_in : i < 5 → write_entry p m (p.org + i) ≡ get_or (entry_code p) i 0
  unfolding write_entry
  write_entry_in h = poke_in m p.org (entry_code p) (p.org + i) i refl h
