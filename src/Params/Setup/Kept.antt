-- ===== src/Params/Setup/Kept.antt =====
-- Every step of a process keeps what the phases say; what follows for the processes that run.
use native.Mathlib.Decide.{ℕ_discrete}
use ooops.Prelude.{
  ℕ, ◌≡◌, ◌≢◌, refl, sym, ap, subst, ◌∙◌, true, false, update_self, update_ne, Bool-cases, inl, inr,
}
use ooops.Floats.{Floats}
use ooops.State.{Page, State}
use ooops.Params.{update_parameters}
use ooops.Params.Setup.{
  Stage, at_stamp, at_ready, Pc, start, missing, collided, stopped, created, publishing, opened,
  faulted, updating, running, World, Store, Step, open_found, open_missing, create, create_fails,
  reopen, reopen_fails, truncate, store, ready, fault, nap, see_ready, take_over, Reach, new, later,
}
use ooops.Params.Setup.Stores.{page_at_ready, Store-page_at, publish-page_at}
use ooops.Params.Setup.Phases.{
  is_early, is_outside, is_settled, Phase, nobody, made, filling, done, early_outside,
  outside_settled, all_update, update_at, lone, IsTaken, Agrees, Inv, state_at, not_running,
  go_done, go_outside,
}

module _ (fl : Floats) (tsc : ℕ → ℕ) (config before : ℕ → State fl) where
  -- The page is not ready while it is filled, so that a process that sees it ready sees all of it.
  when_ready :
      (ph : Phase) (w : World fl)
      → w.sized ≡ true
      → w.page.ready ≢ 0
      → Agrees fl tsc config before ph w
      → (k : ℕ) × Agrees fl tsc config before (done k) w
  when_ready nobody w z r (g, y, e) = absurd (cc)
  when_ready (made k) w z r (g, y, e, o) = absurd (cc)
  when_ready (filling k st) w z r (g, y, page, e, o) =
      absurd (r (ap (λ x. x.ready) page ∙ page_at_ready fl (tsc k) (config k) st))
  when_ready (done k) w z r a = (k, a)

  when_missing :
      (ph : Phase) (w : World fl)
      → w.found ≡ false
      → Agrees fl tsc config before ph w
      → Agrees fl tsc config before nobody w
  when_missing nobody w f a = a
  when_missing (made k) w f (g, z, e, o) = absurd (cc)
  when_missing (filling k st) w f (g, z, p, e, o) = absurd (cc)
  when_missing (done k) w f (g, z, p, l, t) = absurd (cc)

  when_created :
      (ph : Phase) (w : World fl) (i : ℕ)
      → w.pc i ≡ created
      → Agrees fl tsc config before ph w
      → Agrees fl tsc config before (made i) w
  when_created nobody w i e (g, z, all) = let early = all i in absurd (cc)
  when_created (made k) w i e (g, z, at, others) =
      subst (λ j. Agrees fl tsc config before (made j) w)
        (sym (lone w.pc i k created others e refl)) (g, z, at, others)
  when_created (filling k st) w i e (g, z, page, at, others) =
      absurd (not_both (sym at ∙ ap w.pc (sym (lone w.pc i k created others e refl)) ∙ e))
    where
      not_both : ¬ (publishing st ≡ created)
      not_both x = cc
  when_created (done k) w i e (g, z, page, all, taken) = let settled = all i in absurd (cc)

  stage_same : (st next : Stage) → publishing st ≡ publishing next → st ≡ next
  stage_same st next e = cc

  when_publishing :
      (ph : Phase) (w : World fl) (i : ℕ) (st : Stage)
      → w.pc i ≡ publishing st
      → Agrees fl tsc config before ph w
      → Agrees fl tsc config before (filling i st) w
  when_publishing nobody w i st e (g, z, all) = let early = all i in absurd (cc)
  when_publishing (made k) w i st e (g, z, at, others) =
      absurd (not_both (sym at ∙ ap w.pc (sym (lone w.pc i k (publishing st) others e refl)) ∙ e))
    where
      not_both : ¬ (created ≡ publishing st)
      not_both x = cc
  when_publishing (filling k now) w i st e (g, z, page, at, others) =
      let same = lone w.pc i k (publishing st) others e refl in
      let at_i : w.pc i ≡ publishing now = ap w.pc same ∙ at in
      let stage = stage_same now st (sym at_i ∙ e) in
      subst (λ x. Agrees fl tsc config before (filling i x) w) stage
        (subst (λ j. Agrees fl tsc config before (filling j now) w) (sym same)
          (g, z, page, at, others))
  when_publishing (done k) w i st e (g, z, page, all, taken) = let settled = all i in absurd (cc)

  -- A process behind the wait, or behind the making of the page.
  when_behind :
      (ph : Phase) (w : World fl) (i : ℕ) (c : Pc)
      → w.pc i ≡ c
      → is_outside c ≡ false
      → created ≢ c
      → ((st : Stage) → publishing st ≢ c)
      → Agrees fl tsc config before ph w
      → (k : ℕ) × Agrees fl tsc config before (done k) w
  when_behind nobody w i c e o nc np (g, z, all) =
      let outside = early_outside (w.pc i) (all i) in absurd (cc)
  when_behind (made k) w i c e o nc np (g, z, at, others) =
      absurd (nc (sym at ∙ ap w.pc (sym (lone w.pc i k c others e o)) ∙ e))
  when_behind (filling k st) w i c e o nc np (g, z, page, at, others) =
      absurd (np st (sym at ∙ ap w.pc (sym (lone w.pc i k c others e o)) ∙ e))
  when_behind (done k) w i c e o nc np a = (k, a)

  keep :
      {w : World fl} {i : ℕ} {v : World fl}
      → (ph : Phase) → Agrees fl tsc config before ph w
      → Step fl tsc config before w i v
      → Inv fl tsc config before v
  keep {w} {i} ph a (open_found e f) =
      (ph, go_outside fl tsc config before ph w i start opened e refl refl f a)
  keep {w} {i} ph a (create_fails e f) =
      (ph, go_outside fl tsc config before ph w i missing collided e refl refl f a)
  keep {w} {i} ph a (reopen e f) =
      (ph, go_outside fl tsc config before ph w i collided opened e refl refl f a)
  keep {w} {i} ph a (nap e z r) = (ph, a)
  keep {w} {i} ph a (open_missing e f) =
      let (g, z, all) = when_missing ph w f a in
      (
        nobody,
        (g, z, λ j. all_update is_early (λ x. Unit {0}) w.pc i missing (λ x u. all x) refl j tt),
      )
  keep {w} {i} ph a (create e f) =
      let (g, z, all) = when_missing ph w f a in
      (
        made i,
        (
          refl,
          z,
          update_self w.pc i created,
          λ j ne. ap is_outside (update_ne w.pc i j created ne) ∙ early_outside (w.pc j) (all j),
        ),
      )
  keep {w} {i} ph a (reopen_fails e f) = let early = (when_missing ph w f a).2 i in absurd (cc)
  keep {w} {i} ph a (truncate e) =
      let (g, z, at, others) = when_created ph w i e a in
      (
        filling i at_stamp,
        (
          g,
          refl,
          refl,
          update_self w.pc i (publishing at_stamp),
          λ j ne. ap is_outside (update_ne w.pc i j (publishing at_stamp) ne) ∙ others j ne,
        ),
      )
  keep {w} {i} ph a (store {st} {next} {page} e st_page) =
      let (g, z, same, at, others) = when_publishing ph w i st e a in
      (
        filling i next,
        (
          g,
          z,
          Store-page_at fl (tsc i) (config i)
              (subst (λ x. Store fl (tsc i) (config i) x st page next) same st_page),
          update_self w.pc i (publishing next),
          λ j ne. ap is_outside (update_ne w.pc i j (publishing next) ne) ∙ others j ne,
        ),
      )
  keep {w} {i} ph a (ready e) =
      let (g, z, same, at, others) = when_publishing ph w i at_ready e a in
      (
        done i,
        (
          g,
          z,
          ap {A = Page fl} (λ x. record x { ready = 1 }) same
              ∙ sym (publish-page_at fl (tsc i) (config i)),
          λ j. elim (ℕ_discrete j i) [
            | yes is ↦ ap is_settled (update_at w.pc i j running is)
            | no ne ↦
                ap is_settled (update_ne w.pc i j running ne)
                ∙ outside_settled (w.pc j) (others j ne)
          ],
          λ j r. elim (ℕ_discrete j i) [
            | yes is ↦
                inl (state_at fl tsc config before w i j (record (config i) { active = true }) is)
            | no ne ↦ absurd (
                not_running fl tsc config before (w.pc j) (others j ne)
                  (sym (update_ne w.pc i j running ne) ∙ r))
          ],
        ),
      )
  keep {w} {i} ph a (fault e z) = elim (Bool-cases w.found) [
    | inl f ↦ (ph, go_outside fl tsc config before ph w i opened faulted e refl refl f a)
    | inr f ↦ absurd (not_early ((when_missing ph w f a).2 i))
  ]
    where
      not_early : ¬ (is_early (w.pc i) ≡ true)
      not_early x = cc
  keep {w} {i} ph a (see_ready e z r) =
      let (k, b) = when_ready ph w z r a in
      (done k, go_done fl tsc config before k w i updating refl (λ x. absurd (cc)) b)
  keep {w} {i} ph a (take_over e) =
      let (k, (g, z, page, all, taken)) =
        when_behind ph w i updating e refl (λ x. cc) (λ st x. cc) a in
      let s = update_parameters fl w.page (before i) in
      (
        done k,
        (
          g,
          z,
          page,
          λ j. all_update is_settled (λ x. Unit {0}) w.pc i running (λ x u. all x) refl j tt,
          λ j r. elim (ℕ_discrete j i) [
            | yes is ↦ inr (
              i,
              state_at fl tsc config before w i j s is
                  ∙ ap (λ x. update_parameters fl x (before i)) page,
            )
            | no ne ↦
                subst (IsTaken fl tsc config before k) (sym (update_ne w.state i j s ne))
                  (taken j (sym (update_ne w.pc i j running ne) ∙ r))
          ],
        ),
      )

  pub Reach-Inv : {w : World fl} → Reach fl tsc config before w → Inv fl tsc config before w
  Reach-Inv new = (nobody, (refl, refl, λ i. refl))
  Reach-Inv (later r st) = let (ph, a) = Reach-Inv r in keep ph a st

  -- A process runs only when the page has been made, and it has the state of that page.
  pub Reach-running :
      {w : World fl} (i : ℕ)
      → Reach fl tsc config before w
      → w.pc i ≡ running
      → (k : ℕ) × Agrees fl tsc config before (done k) w
  Reach-running {w} i r e =
      let (ph, a) = Reach-Inv r in when_behind ph w i running e refl (λ x. cc) (λ st x. cc) a

  pub Reach-not_stopped : {w : World fl} (i : ℕ) → Reach fl tsc config before w → w.pc i ≢ stopped
  Reach-not_stopped {w} i r e =
      let (ph, a) = Reach-Inv r in
      let (k, (g, z, page, all, taken)) =
        when_behind ph w i stopped e refl (λ x. cc) (λ st x. cc) a in
      absurd (clash (all i))
    where
      clash : ¬ (is_settled (w.pc i) ≡ true)
      clash h = cc
