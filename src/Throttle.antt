-- ===== src/Throttle.antt =====
-- The pacing of open and stat calls of src/ooops.c: `post_lxstat`, `Update_open_Count`, `GetTime`,
-- `pre_lxstat` and the wrappers around the real calls.
-- An `int` counter is its 32-bit pattern and wraps as the machine does. The mutexes make the update
-- of a counter and the nap single steps; the model runs each call to its end.
pub mod Record
pub mod Nap
use ooops.Prelude.{
  ℕ, ◌+◌, ◌-◌, ◌%◌, ◌^◌, Bool, ◌&&◌, ◌||◌, Option, none, some, List, ℤ, pos, sub_ℕ, quot_ℤ, rem_ℤ,
  ltb, if◌then◌else◌, get_or, set,
}
use ooops.Floats.{Floats}
use ooops.State.{Limits, Timeval, Lane, Started, State}

abbrev pub max_rec : ℕ
max_rec = 512

abbrev pub n_sample_for_avg : ℕ
n_sample_for_avg = 3

-- The duration given to `nanosleep`.
pub record Timespec : Type 0 where
  pub tv_sec : ℤ
  pub tv_nsec : ℤ

-- What the machine answers during a call: `rdtscp`, `gettimeofday` on return and after the nap, and
-- `gettid`.
pub record Now : Type 0 where
  pub tsc : ℕ
  pub stamp : Timeval
  pub woken : Timeval
  pub gettid : ℕ

abbrev pub epoch : Timeval
epoch = record { sec = 0; usec = 0 }

-- `n > N_SAMPLE_FOR_AVG` on an `int`
abbrev pub has_sample : ℕ → Bool
has_sample n = ltb n_sample_for_avg n && ltb n (2 ^ 31)

-- `t_ns/1000000000` and `t_ns % 1000000000`
abbrev pub nap_of : ℤ → Timespec
nap_of t_ns = record { tv_sec = quot_ℤ t_ns 1000000000; tv_nsec = rem_ℤ t_ns 1000000000 }

-- The place of the record of the call three calls ago.
abbrev pub idx_prev : ℕ → ℕ
idx_prev n = (n + 2 ^ 32 - n_sample_for_avg) % 2 ^ 32 % max_rec

abbrev pub not_started : Started
not_started = record { open_at = 0; stat_at = 0 }

module _ (fl : Floats) where
  open fl use {
    Single, Double, single, double, widen, decimal, div_single, add, sub, mul, gt, to_long,
  }

  -- `(N / freq) - ((cur.tv_sec - prev.tv_sec) + (cur.tv_usec - prev.tv_usec) * 0.000001)`
  unfoldable pub time_to_sleep : Single → Timeval → Timeval → Double
  time_to_sleep freq cur prev = sub (widen (div_single (single (pos n_sample_for_avg)) freq)) (
      add (double (sub_ℕ cur.sec prev.sec)) (mul (double (sub_ℕ cur.usec prev.usec)) (decimal 1 6)))

  unfoldable pub to_ns : Double → ℤ
  to_ns t = to_long (mul (decimal 1000000000 0) t)

  -- The counters go up and the record of this call is made.
  unfoldable pub count_call : ℕ → Timeval → Lane fl → Lane fl
  count_call tid stamp l = record l {
    count = (l.count + 1) % 2 ^ 32;
    calls = (l.calls + 1) % 2 ^ 64;
    stamps = set l.stamps (l.count % max_rec) stamp;
    tids = set l.tids (l.count % max_rec) tid;
    to_sleep = decimal 0 0;
  }

  -- The nap: the counts of delayed calls go up, and the record is made anew.
  unfoldable pub count_nap : ℕ → Timeval → Lane fl → Lane fl
  count_nap idx_cur woken l = record l {
    n_delayed = (l.n_delayed + 1) % 2 ^ 64;
    delayed = (l.delayed + 1) % 2 ^ 32;
    stamps = set l.stamps idx_cur woken;
  }

  -- The common part of `post_lxstat` and `Update_open_Count`: the rate limit, the threshold in
  -- ticks, the tick at which the call began. The option is the argument of `nanosleep`.
  unfoldable pub pace : Single → ℕ → ℕ → ℕ → Now → Lane fl → Option Timespec × Lane fl
  unfolding count_call count_nap time_to_sleep to_ns
  pace max_freq threshold began tid now l =
      if has_sample n
      then if ltb threshold dt || gt delay (decimal 1 7)
        then (some (nap_of (to_ns delay)), count_nap idx_cur now.woken l₂)
        else (none, l₂)
      else (none, l₁)
    where
      n : ℕ
      n = l.count

      dt : ℕ
      dt = (now.tsc + 2 ^ 64 - began) % 2 ^ 64

      idx_cur : ℕ
      idx_cur = n % max_rec

      l₁ : Lane fl
      l₁ = count_call tid now.stamp l

      delay : Double
      delay = time_to_sleep max_freq now.stamp (get_or l₁.stamps (idx_prev n) epoch)

      l₂ : Lane fl
      l₂ = record l₁ { to_sleep = delay }

  abbrev pub no_lane : Lane fl
  no_lane = record {
    count = 0;
    delayed = 0;
    stamps = List.[];
    tids = List.[];
    to_sleep = decimal 0 0;
    calls = 0;
    n_delayed = 0;
  }

  abbrev pub no_limits : Limits fl
  no_limits = record {
    threshold_open = 0;
    threshold_lxstat = 0;
    max_open_freq = single (pos 0);
    max_lxstat_freq = single (pos 0);
  }
