-- ===== src/Throttle/Nap.antt =====
-- The nap of a paced call: when it is taken, what is counted, and what `nanosleep` is handed.
use ooops.Prelude.{
  ℕ, zero, suc, ◌+◌, ◌-◌, ◌/◌, ◌%◌, ◌^◌, ◌<◌, ◌≡◌, refl, ap, subst, ◌∙◌, true, false, none, some,
  pos, negsuc, neg, ltb, ◌&&◌, ◌||◌, inl, inr, ◌⊎◌, ◌↔◌, ℤ, arith,
}
use ooops.Floats.{Floats}
use ooops.State.{Lane}
use ooops.Throttle.{Timespec, Now, has_sample, nap_of, to_ns, pace}

-- What `nanosleep` accepts: no negative part, and less than a second of nanoseconds.
abbrev pub Accepted : Timespec → Type 0
Accepted r = (s : ℕ) × (n : ℕ) × (r.tv_sec ≡ pos s) × (r.tv_nsec ≡ pos n) × (n < 1000000000)

Accepted-nap_of : (n : ℕ) → Accepted (nap_of (pos n))
Accepted-nap_of n = (n / 1000000000, n % 1000000000, refl, refl, omega arith)

neg-eq-pos : (k s : ℕ) → neg k ≡ pos s → k ≡ 0
neg-eq-pos zero s e = refl
neg-eq-pos (suc k) s e = cc

-- A negative duration is never accepted.
nap_of_negative : (n : ℕ) → ¬ Accepted (nap_of (negsuc n))
nap_of_negative n (s, m, e, f, h) =
    let q : suc n / 1000000000 ≡ 0 = neg-eq-pos _ s e in
    let r : suc n % 1000000000 ≡ 0 = neg-eq-pos _ m f in omega arith

Accepted_iff : (z : ℤ) → Accepted (nap_of z) ↔ ((n : ℕ) × (z ≡ pos n))
Accepted_iff (pos n) = (λ a. (n, refl), λ e. Accepted-nap_of n)
Accepted_iff (negsuc n) = (λ a. absurd (nap_of_negative n a), λ e. absurd (cc))

module _ (fl : Floats) where
  -- The ticks between the two readings of the counter, which wraps.
  abbrev pub elapsed : ℕ → Now → ℕ
  elapsed began now = (now.tsc + 2 ^ 64 - began) % 2 ^ 64

  module _ (freq : fl.Single) (threshold began tid : ℕ) (now : Now) (l : Lane fl) where
    -- Every call is counted once, in the shared counter and in that of the process, and counts as
    -- delayed, in both, exactly if it naps; a call naps exactly if more than three calls have
    -- been counted (as an `int`) and the call took more ticks than the threshold or the wait that
    -- it leaves in `to_sleep` is more than 1e-7.
    pub pace_counts :
        let (nap, l') = pace fl freq threshold began tid now l in
        let naps =
          has_sample l.count
          && (ltb threshold (elapsed began now) || fl.gt l'.to_sleep (fl.decimal 1 7)) in
        (l'.count ≡ (l.count + 1) % 2 ^ 32)
        × (l'.calls ≡ (l.calls + 1) % 2 ^ 64)
        × (((naps ≡ true)
              × (nap ≡ some (nap_of (to_ns fl l'.to_sleep)))
              × (l'.delayed ≡ (l.delayed + 1) % 2 ^ 32)
              × (l'.n_delayed ≡ (l.n_delayed + 1) % 2 ^ 64))
            ⊎ ((naps ≡ false)
                × (nap ≡ none)
                × (l'.delayed ≡ l.delayed)
                × (l'.n_delayed ≡ l.n_delayed)))
    unfolding pace
    pace_counts = ground arith

    -- A nap is what `nanosleep` accepts exactly if the wait that the call leaves in `to_sleep`,
    -- converted to nanoseconds as a `long`, is not negative.
    pub pace-Accepted :
        (r : Timespec)
        → (pace fl freq threshold began tid now l).0 ≡ some r
        → Accepted r
          ↔ ((n : ℕ) × (to_ns fl (pace fl freq threshold began tid now l).1.to_sleep ≡ pos n))
    pace-Accepted r e = elim pace_counts.2 [
      | inl (naps, nap, _, _) ↦
          let made : nap_of (to_ns fl (pace fl freq threshold began tid now l).1.to_sleep) ≡ r =
            ground arith in
          subst
            (λ t.
              Accepted t
              ↔ ((n : ℕ) × (to_ns fl (pace fl freq threshold began tid now l).1.to_sleep ≡ pos n)))
            made (Accepted_iff (to_ns fl (pace fl freq threshold began tid now l).1.to_sleep))
      | inr (_, nap, _, _) ↦ absurd (cc)
    ]

    -- A slow call that keeps to its rate, so that the wait left is negative, is handed to
    -- `nanosleep` with a duration that it refuses: the call does not sleep, and is counted as
    -- delayed all the same.
    pub pace_slow :
        (m : ℕ)
        → has_sample l.count ≡ true
        → ltb threshold (elapsed began now) ≡ true
        → to_ns fl (pace fl freq threshold began tid now l).1.to_sleep ≡ negsuc m
        → let (nap, l') = pace fl freq threshold began tid now l in
          ((r : Timespec) × (nap ≡ some r) × ¬ Accepted r) × (l'.delayed ≡ (l.delayed + 1) % 2 ^ 32)
    pace_slow m many slow neg_wait = elim pace_counts.2 [
      | inl (_, nap, delayed, _) ↦ (
        (nap_of (negsuc m), nap ∙ ap (λ t. some (nap_of t)) neg_wait, nap_of_negative m),
        delayed,
      )
      | inr (naps, _, _, _) ↦ absurd (ground arith)
    ]
