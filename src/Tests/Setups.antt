-- ===== src/Tests/Setups.antt =====
-- Two processes that start at once: process 0 makes the page, process 1 waits for it. And a run in
-- which process 1 maps the page before it has its size.
use ooops.Prelude.{ℕ, ◌+◌, ◌∷◌, replicate, ◌≡◌, ◌≢◌, refl, false, arith}
use ooops.State.{State}
use ooops.Params.Share.{Sized}
use ooops.Params.Setup.{
  running, stopped, faulted, World, Reach, new, later, open_found, open_missing, create, truncate,
  store, ready, fault, nap, see_ready, take_over, stamp, enable, clear, cleared, copy_one, copied,
  put_freq,
}
use ooops.Params.Setup.Agree.{Same, Configured, Reach-Same}
use ooops.Tests.Fixed.{fixed_point}
use ooops.Tests.Places.{process, in_work, limit}

abbrev tsc : ℕ → ℕ
tsc i = 100 + i

abbrev config : ℕ → State fixed_point
config i = record process {
  place = record in_work { n_fs_server = 1 };
  limits = limit 100 ∷ replicate 7 (limit 0);
}

abbrev before : ℕ → State fixed_point
before i = record process { active = false; limits = replicate 8 (limit 0) }

abbrev Reachable : World fixed_point → Type 0
Reachable w = Reach fixed_point tsc config before w

-- Process 0 has made the page; process 1 has looked at it once before, and takes it over.
abbrev created_page : (w : World fixed_point) × Reachable w
created_page = (_, later {i = 0} (later {i = 0} new (open_missing refl refl)) (create refl refl))

abbrev found_page : (w : World fixed_point) × Reachable w
found_page =
    (_, later {i = 1} (later {i = 0} created_page.1 (truncate refl)) (open_found refl refl))

abbrev stamped_page : (w : World fixed_point) × Reachable w
stamped_page =
    (_, later {i = 0} (later {i = 1} found_page.1 (nap refl refl refl)) (store refl stamp))

abbrev cleared_page : (w : World fixed_point) × Reachable w
cleared_page = (
  _,
  later {i = 0} (later {i = 0} stamped_page.1 (store refl enable))
      (store refl (clear (omega arith))),
)

abbrev copied_page : (w : World fixed_point) × Reachable w
copied_page = (
  _,
  later {i = 0} (later {i = 0} cleared_page.1 (store refl (cleared refl)))
      (store refl (copy_one (omega arith))),
)

abbrev stored_page : (w : World fixed_point) × Reachable w
stored_page = (
  _,
  later {i = 0} (later {i = 0} copied_page.1 (store refl (copied refl))) (store refl put_freq),
)

abbrev seen_page : (w : World fixed_point) × Reachable w
seen_page = (
  _,
  later {i = 1} (later {i = 0} stored_page.1 (ready refl))
      (see_ready refl refl (λ e. absurd (omega arith))),
)

abbrev both_run : (w : World fixed_point) × Reachable w
both_run = (_, later {i = 1} seen_page.1 (take_over refl))

both_running : (both_run.0.pc 0 ≡ running) × (both_run.0.pc 1 ≡ running)
both_running = (refl, refl)

-- A page of no size is mapped: its first byte is not there.
one_faults : (w : World fixed_point) × Reachable w × (w.pc 1 ≡ faulted)
one_faults =
    let a = later {i = 0} (later {i = 0} new (open_missing refl refl)) (create refl refl) in
    (_, later {i = 1} (later {i = 1} a (open_found refl refl)) (fault refl refl), refl)

configured : (i : ℕ) → Configured fixed_point (config i)
configured i = record {
  few = omega arith;
  filled = (λ e. cc, tt);
  arrays = record { tags = omega arith; limits = omega arith };
}

sized : (i : ℕ) → Sized fixed_point 8 (before i)
sized i = record { tags = omega arith; limits = omega arith }

Reach-Same_example :
    ((i : ℕ) → both_run.0.pc i ≢ stopped)
    × ((i : ℕ)
        → both_run.0.pc i ≡ running
        → (k : ℕ) × ((j : ℕ)
            → both_run.0.pc j ≡ running
            → Same fixed_point 1 (config k) (both_run.0.state j)))
Reach-Same_example = Reach-Same fixed_point tsc config before configured sized both_run.0 both_run.1
