-- ===== src/Params/Setup/Phases.antt =====
-- What every reachable state of the start has: one process that makes the page, and the others that
-- wait or have taken it over.
use native.Mathlib.Decide.{ℕ_discrete}
use ooops.Prelude.{
  ℕ, ◌≡◌, ◌≢◌, refl, sym, ap, ◌∙◌, Bool, true, false, update, update_self, update_ne, arith,
  Bool-cases, ◌==◌, ◌⊎◌, inl, inr,
}
use ooops.Floats.{Floats}
use ooops.State.{Page, State}
use ooops.Params.{publish_parameters, update_parameters}
use ooops.Params.Setup.{
  Stage, Pc, start, missing, collided, stopped, created, publishing, opened, faulted, updating,
  running, blank_page, World, move_to,
}
use ooops.Params.Setup.Stores.{page_at}

-- Before the process has seen the page, or tried to create it.
abbrev pub is_early : Pc → Bool
is_early start = true
is_early missing = true
is_early _ = false

-- Outside of the making of the page, and not behind the wait.
abbrev pub is_outside : Pc → Bool
is_outside start = true
is_outside missing = true
is_outside collided = true
is_outside opened = true
is_outside faulted = true
is_outside _ = false

abbrev pub is_settled : Pc → Bool
is_settled updating = true
is_settled running = true
is_settled p = is_outside p

-- Who makes the page, and how far it is.
pub data Phase : Type 0 where
  nobody : Phase
  made : (k : ℕ) → Phase
  filling : (k : ℕ) (st : Stage) → Phase
  done : (k : ℕ) → Phase

pub early_outside : (p : Pc) → is_early p ≡ true → is_outside p ≡ true
early_outside start e = refl
early_outside missing e = refl
early_outside collided e = absurd (cc)
early_outside stopped e = absurd (cc)
early_outside created e = absurd (cc)
early_outside (publishing st) e = absurd (cc)
early_outside opened e = absurd (cc)
early_outside faulted e = absurd (cc)
early_outside updating e = absurd (cc)
early_outside running e = absurd (cc)

pub outside_settled : (p : Pc) → is_outside p ≡ true → is_settled p ≡ true
outside_settled start e = refl
outside_settled missing e = refl
outside_settled collided e = refl
outside_settled opened e = refl
outside_settled faulted e = refl
outside_settled stopped e = e
outside_settled created e = e
outside_settled (publishing st) e = e
outside_settled updating e = refl
outside_settled running e = refl

-- Every process but those of a family, and one more.
pub all_update :
    (g : Pc → Bool) (only : ℕ → Type 0) (f : ℕ → Pc) (i : ℕ) (p : Pc)
    → ((j : ℕ) → only j → g (f j) ≡ true)
    → g p ≡ true
    → (j : ℕ) → only j
    → g (update f i p j) ≡ true
all_update g only f i p h e j o = elim (Bool-cases (j == i)) [
  | inl same ↦ rw same e
  | inr other ↦ rw other (h j o)
]

pub update_at : (f : ℕ → Pc) (i j : ℕ) (p : Pc) → j ≡ i → update f i p j ≡ p
update_at f i j p e = ground arith

-- The only process that is not outside.
pub lone :
    (f : ℕ → Pc) (i k : ℕ) (c : Pc)
    → ((j : ℕ) → j ≢ k → is_outside (f j) ≡ true)
    → f i ≡ c
    → is_outside c ≡ false
    → i ≡ k
lone f i k c others e o = elim (ℕ_discrete i k) [
  | yes same ↦ same
  | no other ↦ absurd (clash (others i other))
]
  where
    clash : ¬ (is_outside (f i) ≡ true)
    clash h = cc

-- Two processes stand at places of which one is outside.
pub apart :
    (f : ℕ → Pc) (i k : ℕ) (q c : Pc)
    → f i ≡ q
    → is_outside q ≡ true
    → f k ≡ c
    → is_outside c ≡ false
    → k ≢ i
apart f i k q c e o h n same = cc

module _ (fl : Floats) (tsc : ℕ → ℕ) (config before : ℕ → State fl) where
  -- The page that process k publishes.
  abbrev pub full_page : ℕ → Page fl
  full_page k = (publish_parameters fl (tsc k) (config k) (blank_page fl)).0

  -- The state of a running process, when k has made the page.
  abbrev pub IsTaken : ℕ → State fl → Type 0
  IsTaken k s =
      (s ≡ record (config k) { active = true })
      ⊎ ((i : ℕ) × (s ≡ update_parameters fl (full_page k) (before i)))

  abbrev OthersOutside : ℕ → World fl → Type 0
  OthersOutside k w = (i : ℕ) → i ≢ k → is_outside (w.pc i) ≡ true

  abbrev pub Agrees : Phase → World fl → Type 0
  Agrees nobody w = (w.found ≡ false) × (w.sized ≡ false) × ((i : ℕ) → is_early (w.pc i) ≡ true)
  Agrees (made k) w = (w.found ≡ true) × (w.sized ≡ false) × (w.pc k ≡ created) × OthersOutside k w
  Agrees (filling k st) w =
      (w.found ≡ true)
      × (w.sized ≡ true)
      × (w.page ≡ page_at fl (tsc k) (config k) st)
      × (w.pc k ≡ publishing st)
      × OthersOutside k w
  Agrees (done k) w =
      (w.found ≡ true)
      × (w.sized ≡ true)
      × (w.page ≡ full_page k)
      × ((i : ℕ) → is_settled (w.pc i) ≡ true)
      × ((i : ℕ) → w.pc i ≡ running → IsTaken k (w.state i))

  abbrev pub Inv : World fl → Type 0
  Inv w = (ph : Phase) × Agrees ph w

  pub state_at : (w : World fl) (i j : ℕ) (s : State fl) → j ≡ i → update w.state i s j ≡ s
  state_at w i j s e = ap (update w.state i s) e ∙ update_self w.state i s

  pub not_running : (p : Pc) → is_outside p ≡ true → ¬ (p ≡ running)
  not_running p o e = cc

  pub go_done :
      (k : ℕ) (w : World fl) (i : ℕ) (p : Pc)
      → is_settled p ≡ true
      → p ≢ running
      → Agrees (done k) w
      → Agrees (done k) (move_to fl tsc config before w i p)
  go_done k w i p o ne (g, z, page, all, taken) = (
    g,
    z,
    page,
    λ j. all_update is_settled (λ x. Unit {0}) w.pc i p (λ x u. all x) o j tt,
    λ j r. elim (ℕ_discrete j i) [
      | yes same ↦ absurd (ne (sym (update_at w.pc i j p same) ∙ r))
      | no other ↦ taken j (sym (update_ne w.pc i j p other) ∙ r)
    ],
  )

  -- A process that is outside moves to a place outside.
  pub go_outside :
      (ph : Phase) (w : World fl) (i : ℕ) (q p : Pc)
      → w.pc i ≡ q
      → is_outside q ≡ true
      → is_outside p ≡ true
      → w.found ≡ true
      → Agrees ph w
      → Agrees ph (move_to fl tsc config before w i p)
  go_outside nobody w i q p e o o' f a = absurd (cc)
  go_outside (made k) w i q p e o o' f (g, z, at, others) = (
    g,
    z,
    update_ne w.pc i k p (apart w.pc i k q created e o at refl) ∙ at,
    all_update is_outside (λ j. j ≢ k) w.pc i p others o',
  )
  go_outside (filling k st) w i q p e o o' f (g, z, page, at, others) = (
    g,
    z,
    page,
    update_ne w.pc i k p (apart w.pc i k q (publishing st) e o at refl) ∙ at,
    all_update is_outside (λ j. j ≢ k) w.pc i p others o',
  )
  go_outside (done k) w i q p e o o' f a =
      go_done k w i p (outside_settled p o') (λ r. absurd (cc)) a
