-- ===== src/Hook/Patch/Undo.antt =====
-- `uninstall_hook` undoes `install_hook`: all functions get their first bytes back.
use ooops.Prelude.{
  ℕ, ◌+◌, ◌-◌, ◌≤◌, ◌<◌, ◌≡◌, refl, ap, ◌∙◌, sym, ◌⊎◌, inl, inr, List, [], ◌∷◌, arith,
}
use native.Mathlib.Decide.{dec_lt}
use ooops.Hook.Patch.{
  Memory, Patch, write_trampoline, write_bounce, save_org_code, install_one, uninstall_one,
  install_all, uninstall_all, offset_org_code,
}
use ooops.Hook.Patch.Frame.{
  Outside, Fits, copy_bytes_out, copy_bytes_in, write_trampoline_frame, write_bounce_out,
  save_org_code_out, save_org_code_in, write_entry_out,
}

-- x is not in the trampoline, nor the byte before it.
abbrev pub OffBlock : Patch → ℕ → Type 0
OffBlock p x = (x + 1 < p.at) ⊎ (p.at + 64 ≤ x)

-- The entry of q, as a range, is off the trampoline of p.
abbrev pub EntryOff : Patch → Patch → Type 0
EntryOff p q = (q.org + 5 < p.at) ⊎ (p.at + 64 ≤ q.org)

pub record IsGood (p : Patch) : Type 0 where
  pub fits : Fits p
  pub pos : 1 ≤ p.at
  pub apart : EntryOff p p

-- Two patches that share no byte.
pub record Apart (p q : Patch) : Type 0 where
  pub blocks : (p.at + 64 ≤ q.at) ⊎ (q.at + 64 ≤ p.at)
  pub orgs : (p.org + 5 ≤ q.org) ⊎ (q.org + 5 ≤ p.org)
  pub left : EntryOff p q
  pub right : EntryOff q p

abbrev pub All : (Patch → Type 0) → List Patch → Type 0
All P [] = Unit {0}
All P (p ∷ ps) = P p × All P ps

abbrev pub AllApart : List Patch → Type 0
AllApart [] = Unit {0}
AllApart (p ∷ ps) = IsGood p × All (Apart p) ps × AllApart ps

abbrev Free : ℕ → Patch → Type 0
Free x q = IsGood q × Outside q.org 5 x × OffBlock q x

module _ (p : Patch) (m : Memory) where
  install_one_out : (x : ℕ) → Free x p → install_one p m x ≡ m x
  unfolding install_one
  install_one_out x (good, h, k) =
      write_entry_out p (save_org_code p (write_trampoline p (write_bounce p m))) x h
      ∙ save_org_code_out p (write_trampoline p (write_bounce p m)) x (omega arith)
      ∙ write_trampoline_frame p good.fits good.pos (write_bounce p m) x (omega arith)
      ∙ write_bounce_out p m x (omega arith)

  install_one_saved :
      IsGood p → (i : ℕ) → i < 5 → install_one p m (p.at + offset_org_code + i) ≡ m (p.org + i)
  unfolding install_one
  install_one_saved good i h =
      write_entry_out p (save_org_code p (write_trampoline p (write_bounce p m)))
        (p.at + offset_org_code + i) (omega (arith, good.apart))
      ∙ save_org_code_in p (write_trampoline p (write_bounce p m)) i h
      ∙ write_trampoline_frame p good.fits good.pos (write_bounce p m) (p.org + i)
          (omega (arith, good.apart))
      ∙ write_bounce_out p m (p.org + i) (omega (arith, good.apart))

  uninstall_one_out : (x : ℕ) → Outside p.org 5 x → uninstall_one p m x ≡ m x
  unfolding uninstall_one
  uninstall_one_out x h = copy_bytes_out m p.org (p.at + offset_org_code) 5 x h

  uninstall_one_in :
      (x i : ℕ) → x ≡ p.org + i → i < 5 → uninstall_one p m x ≡ m (p.at + offset_org_code + i)
  unfolding uninstall_one
  uninstall_one_in x i e h = copy_bytes_in m p.org (p.at + offset_org_code) 5 x i e h

-- Every place is in the entry, or outside.
entry_cases : (a x : ℕ) → ((i : ℕ) × (x ≡ a + i) × (i < 5)) ⊎ Outside a 5 x
entry_cases a x = elim (dec_lt x a) [
  | yes h ↦ inr (inl h)
  | no h ↦ elim (dec_lt x (a + 5)) [
    | yes k ↦ inl (x - a, omega arith, omega arith)
    | no k ↦ inr (inr (omega arith))
  ]
]

install_all_out :
    (ps : List Patch) (m : Memory) (x : ℕ) → All (Free x) ps → install_all ps m x ≡ m x
unfolding install_all
install_all_out [] m x h = refl
install_all_out (p ∷ ps) m x h =
    install_all_out ps (install_one p m) x h.1 ∙ install_one_out p m x h.0

uninstall_all_out :
    (ps : List Patch) (m : Memory) (x : ℕ)
    → All (λ q. Outside q.org 5 x) ps
    → uninstall_all ps m x ≡ m x
unfolding uninstall_all
uninstall_all_out [] m x h = refl
uninstall_all_out (p ∷ ps) m x h =
    uninstall_all_out ps (uninstall_one p m) x h.1 ∙ uninstall_one_out p m x h.0

-- The undoing of other patches does not see the entry of p.
uninstall_one-agree :
    (p q : Patch) (a b : Memory)
    → Apart p q
    → ((y : ℕ) → Outside p.org 5 y → a y ≡ b y)
    → (y : ℕ) → Outside p.org 5 y
    → uninstall_one q a y ≡ uninstall_one q b y
uninstall_one-agree p q a b apart same y out = elim (entry_cases q.org y) [
  | inl (i, e, h) ↦
      uninstall_one_in q a y i e h
      ∙ same (q.at + offset_org_code + i) (omega (arith, apart.right))
      ∙ sym (uninstall_one_in q b y i e h)
  | inr off ↦ uninstall_one_out q a y off ∙ same y out ∙ sym (uninstall_one_out q b y off)
]

uninstall_all-agree :
    (p : Patch) (ps : List Patch) (a b : Memory)
    → All (Apart p) ps
    → ((y : ℕ) → Outside p.org 5 y → a y ≡ b y)
    → (y : ℕ) → Outside p.org 5 y
    → uninstall_all ps a y ≡ uninstall_all ps b y
unfolding uninstall_all
uninstall_all-agree p [] a b apart same y out = same y out
uninstall_all-agree p (q ∷ ps) a b apart same y out =
    uninstall_all-agree p ps (uninstall_one q a) (uninstall_one q b) apart.1
      (uninstall_one-agree p q a b apart.0 same) y out

-- The saved bytes of p are free of the patches made after it, and so is its entry.
saved_Free :
    (p : Patch) (ps : List Patch) (i : ℕ)
    → i < 5
    → All (Apart p) ps
    → AllApart ps
    → All (Free (p.at + offset_org_code + i)) ps
saved_Free p [] i h a g = tt
saved_Free p (q ∷ ps) i h a g = (
  (g.0, omega (arith, a.0.left, a.0.right), omega (arith, a.0.blocks)),
  saved_Free p ps i h a.1 g.2,
)

entry_out :
    (p : Patch) (ps : List Patch) (x i : ℕ)
    → x ≡ p.org + i
    → i < 5
    → All (Apart p) ps
    → All (λ q. Outside q.org 5 x) ps
entry_out p [] x i e h a = tt
entry_out p (q ∷ ps) x i e h a = (omega (arith, a.0.orgs), entry_out p ps x i e h a.1)

-- For any list of patches that share no byte: installing all and then uninstalling all leaves every
-- byte of memory as it was, but for those of the trampolines (and the byte before each).
pub uninstall_all-install_all :
    (ps : List Patch) (m : Memory) (x : ℕ)
    → AllApart ps
    → All (λ p. OffBlock p x) ps
    → uninstall_all ps (install_all ps m) x ≡ m x
unfolding install_all uninstall_all
uninstall_all-install_all [] m x g off = refl
uninstall_all-install_all (p ∷ ps) m x g off = elim (entry_cases p.org x) [
  | inl (i, e, h) ↦
      let n = install_all ps (install_one p m) in
      uninstall_all_out ps (uninstall_one p n) x (entry_out p ps x i e h g.1)
      ∙ uninstall_one_in p n x i e h
      ∙ install_all_out ps (install_one p m) (p.at + offset_org_code + i)
          (saved_Free p ps i h g.1 g.2)
      ∙ install_one_saved p m g.0 i h
      ∙ ap m (sym e)
  | inr out ↦
      let n = install_all ps (install_one p m) in
      uninstall_all-agree p ps (uninstall_one p n) n g.1 (uninstall_one_out p n) x out
      ∙ uninstall_all-install_all ps (install_one p m) x g.2 off.1
      ∙ install_one_out p m x (g.0, out, off.0)
]
