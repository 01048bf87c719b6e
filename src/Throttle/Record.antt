-- ===== src/Throttle/Record.antt =====
-- The ring of the last 512 time stamps: what `pace` finds in it and what it leaves.
use ooops.Prelude.{
  ℕ, suc, ◌+◌, ◌-◌, ◌%◌, ◌^◌, ◌≤◌, ◌<◌, ◌≡◌, ◌≢◌, ◌∙◌, ap, true, if◌then◌else◌, inl, inr,
  Bool-cases, Option, none, some, List, ◌∷◌, length, get_or, set, length-set, get_or-set_self,
  get_or-set_ne, set-set, arith,
}
use native.Mathlib.Decide.{ℕ_discrete}
use ooops.Floats.{Floats}
use ooops.State.{Timeval, Lane}
use ooops.Throttle.{Timespec, Now, epoch, max_rec, has_sample, idx_prev, time_to_sleep, pace}

-- The stamp that a call leaves: that of its return, or that of the end of its nap.
abbrev pub stamp_of : Option Timespec → Now → Timeval
stamp_of none now = now.stamp
stamp_of (some r) now = now.woken

module _ (fl : Floats) where
  -- A lane that has seen the calls of `hist`, the last one first. Call number m is `hist` at
  -- `length hist - 1 - m`; the last 512 are in the ring.
  pub record Recorded (hist : List Timeval) (l : Lane fl) : Type 0 where
    pub size : length l.stamps ≡ 512
    pub counted : l.count ≡ length hist % 2 ^ 32
    pub kept :
        (m : ℕ)
        → m < length hist
        → length hist ≤ m + 512
        → get_or l.stamps (m % 512) epoch ≡ get_or hist (length hist - 1 - m) epoch

  module _ (freq : fl.Single) (threshold began tid : ℕ) (now : Now) (l : Lane fl) where
    stamps-pace :
        let (nap, l') = pace fl freq threshold began tid now l in
        l'.stamps ≡ set l.stamps (l.count % max_rec) (stamp_of nap now)
    unfolding pace
    stamps-pace = ground (arith, set-set l.stamps (l.count % max_rec) now.stamp now.woken)

    count-pace : (pace fl freq threshold began tid now l).1.count ≡ (l.count + 1) % 2 ^ 32
    unfolding pace
    count-pace = ground arith

  Recorded-push :
      (hist : List Timeval) (l l' : Lane fl) (x : Timeval)
      → Recorded hist l
      → l'.stamps ≡ set l.stamps (l.count % max_rec) x
      → l'.count ≡ (l.count + 1) % 2 ^ 32
      → Recorded (x ∷ hist) l'
  Recorded-push hist l l' x r e c = record {
    size = rw (e, length-set) r.size;
    counted = omega (arith, c, r.counted);
    kept = λ m h k. rw e (kept' m h k);
  }
    where
      slot : l.count % 512 ≡ length hist % 512
      slot = omega (arith, r.counted)

      kept' :
          (m : ℕ)
          → m < suc (length hist)
          → suc (length hist) ≤ m + 512
          → get_or (set l.stamps (l.count % max_rec) x) (m % 512) epoch
            ≡ get_or (x ∷ hist) (suc (length hist) - 1 - m) epoch
      kept' m h k = elim (ℕ_discrete m (length hist)) [
        | yes q ↦
            let here : m % 512 ≡ l.count % 512 = omega (arith, slot, ap (λ (t : ℕ). t % 512) q) in
            let first : suc (length hist) - 1 - m ≡ 0 = omega arith in
            rw (here, first)
              (get_or-set_self l.stamps (l.count % 512) x epoch (omega (arith, r.size)))
        | no q ↦
            let next : suc (length hist) - 1 - m ≡ suc (length hist - 1 - m) = omega arith in
            let away : l.count % 512 ≢ m % 512 = omega (arith, slot) in
            rw next (
              get_or-set_ne l.stamps (l.count % 512) (m % 512) x epoch away
              ∙ r.kept m (omega arith) (omega arith))
      ]

  -- Each call is added to the record: a lane that holds the history of its calls holds, after
  -- `pace`, that history with the new call, at the stamp of its return or of the end of its nap.
  pub pace-Recorded :
      (hist : List Timeval) (freq : fl.Single) (threshold began tid : ℕ) (now : Now) (l : Lane fl)
      → Recorded hist l
      → let (nap, l') = pace fl freq threshold began tid now l in
        Recorded (stamp_of nap now ∷ hist) l'
  pace-Recorded hist freq threshold began tid now l r =
      Recorded-push hist l _ _ r (stamps-pace freq threshold began tid now l)
        (count-pace freq threshold began tid now l)

  to_sleep-pace_sampled :
      (hist : List Timeval) (freq : fl.Single) (threshold began tid : ℕ) (now : Now) (l : Lane fl)
      → Recorded hist l
      → has_sample l.count ≡ true
      → (pace fl freq threshold began tid now l).1.to_sleep ≡ (
          if has_sample l.count
          then time_to_sleep fl freq now.stamp (get_or hist 2 epoch)
          else fl.decimal 0 0)
  unfolding pace
  to_sleep-pace_sampled hist freq threshold began tid now l r h =
      let slot : idx_prev l.count ≡ (length hist - 3) % 512 = omega (arith, r.counted, many) in
      let third : length hist - 1 - (length hist - 3) ≡ 2 = omega (arith, r.counted, many) in
      let apart : l.count % 512 ≢ (length hist - 3) % 512 = omega (arith, r.counted, many) in
      let old : get_or l.stamps ((length hist - 3) % 512) epoch ≡ get_or hist 2 epoch =
        rw (← third) (r.kept (length hist - 3) (omega (arith, r.counted, many)) (omega arith)) in
      let same : get_or (set l.stamps (l.count % 512) now.stamp) (idx_prev l.count) epoch
          ≡ get_or hist 2 epoch =
        rw slot (
          get_or-set_ne l.stamps (l.count % 512) ((length hist - 3) % 512) now.stamp epoch apart
          ∙ old) in
      rw (h, same) (ground arith)
    where
      many : 3 < l.count
      many = ground arith

  -- The wait that a call leaves. Where the counter before it, as an `int`, is more than three, so
  -- less than 2^31, it is reckoned from the call three before this one, also where the 32 bits have
  -- wrapped before; where it is at most three, or negative as an `int`, it is zero.
  pub to_sleep-pace :
      (hist : List Timeval) (freq : fl.Single) (threshold began tid : ℕ) (now : Now) (l : Lane fl)
      → Recorded hist l
      → (pace fl freq threshold began tid now l).1.to_sleep ≡ (
          if has_sample l.count
          then time_to_sleep fl freq now.stamp (get_or hist 2 epoch)
          else fl.decimal 0 0)
  unfolding pace
  to_sleep-pace hist freq threshold began tid now l r = elim (Bool-cases (has_sample l.count)) [
    | inl h ↦ to_sleep-pace_sampled hist freq threshold began tid now l r h
    | inr h ↦ rw h (ground arith)
  ]
