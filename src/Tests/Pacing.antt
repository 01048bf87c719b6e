-- ===== src/Tests/Pacing.antt =====
-- The pacing of calls, run over fixed-point numbers.
use ooops.Prelude.{
  str_eq, ℕ, ◌+◌, strn_eq, ◌-◌, ◌%◌, ◌≡◌, ◌≢◌, refl, ◌<◌, ◌≤◌, ◌⊎◌, ◌↔◌, if◌then◌else◌, ◌&&◌, ◌||◌,
  true, false, Option, none, some, List, [], ◌∷◌, Text, codes, ℤ, pos, ltb, get_or, replicate,
  arith,
}
use ooops.State.{Timeval, Lane, Page, State}
use ooops.Throttle.{has_sample, Timespec, Now, epoch, nap_of, time_to_sleep, to_ns, pace, no_lane}
use ooops.Throttle.Record.{Recorded, stamp_of, pace-Recorded, to_sleep-pace}
use ooops.Throttle.Nap.{Accepted, pace_counts, pace-Accepted, pace_slow}
use ooops.FileServer.{check_fs_server, scan}
use ooops.Params.{refresh}
use ooops.Intercept.{pre_lxstat, paced_stat, post_lxstat, my_stat, my_open}
use ooops.Intercept.Disabled.{
  Call, stat_call, open_call, run_calls, real_calls, run_calls-set_io_param,
}
use ooops.SetParam.{set_io_param}
use ooops.Config.Defaults.{read_defaults}
use ooops.Intercept.Wrappers.{server_of, my_stat_frame, my_open_frame}
use ooops.Tests.Fixed.{fixed_point}
use ooops.Tests.Places.{process}

abbrev at : ℕ → Timeval
at t = record { sec = 10; usec = t }

-- Four calls, 100 us apart.
abbrev hist : List Timeval
hist = at 300 ∷ at 200 ∷ at 100 ∷ at 0 ∷ []

abbrev lane : Lane fixed_point
lane = record {
  count = 4;
  delayed = 0;
  stamps = at 0 ∷ at 100 ∷ at 200 ∷ at 300 ∷ replicate 508 epoch;
  tids = replicate 512 1;
  to_sleep = pos 0;
  calls = 4;
  n_delayed = 0;
}

-- A fast call 100 us later, and a slow one half a second later.
abbrev soon : Now
soon = record { tsc = 1050; stamp = at 400; woken = at 3100; gettid = 1 }

abbrev late : Now
late = record { tsc = 9000; stamp = at 500000; woken = at 500000; gettid = 1 }

-- 1000 calls a second: 3 ms for three calls.
abbrev freq : ℤ
freq = pos 1000000000000

lane-Recorded : Recorded fixed_point hist lane
lane-Recorded = record { size = refl; counted = refl; kept = kept }
  where
    kept :
        (m : ℕ)
        → m < 4
        → 4 ≤ m + 512
        → get_or lane.stamps (m % 512) epoch ≡ get_or hist (4 - 1 - m) epoch
    kept ℕ.zero h k = refl
    kept (ℕ.suc ℕ.zero) h k = refl
    kept (ℕ.suc (ℕ.suc ℕ.zero)) h k = refl
    kept (ℕ.suc (ℕ.suc (ℕ.suc ℕ.zero))) h k = refl
    kept (ℕ.suc (ℕ.suc (ℕ.suc (ℕ.suc m)))) h k = absurd (omega arith)

-- The wait is 3 ms less the 300 us since the call three before.
pace_waits :
    (pace fixed_point freq 100 1000 1 soon lane).0
    ≡ some (record { tv_sec = pos 0; tv_nsec = pos 2700000 })
unfolding pace
pace_waits = refl

pace-Recorded_example :
    let (nap, l') = pace fixed_point freq 100 1000 1 soon lane in
    Recorded fixed_point (stamp_of nap soon ∷ hist) l'
pace-Recorded_example = pace-Recorded fixed_point hist freq 100 1000 1 soon lane lane-Recorded

to_sleep-pace_example : (pace fixed_point freq 100 1000 1 soon lane).1.to_sleep ≡ (
    if has_sample 4
    then time_to_sleep fixed_point freq (at 400) (at 100)
    else fixed_point.decimal 0 0)
to_sleep-pace_example = to_sleep-pace fixed_point hist freq 100 1000 1 soon lane lane-Recorded

pace_counts_example :
    let (nap, l') = pace fixed_point freq 100 1000 1 soon lane in
    let naps = true && (ltb 100 50 || fixed_point.gt l'.to_sleep (pos 100)) in
    (l'.count ≡ 5)
    × (l'.calls ≡ 5)
    × (((naps ≡ true)
          × (nap ≡ some (nap_of (to_ns fixed_point l'.to_sleep)))
          × (l'.delayed ≡ 1)
          × (l'.n_delayed ≡ 1))
        ⊎ ((naps ≡ false) × (nap ≡ none) × (l'.delayed ≡ 0) × (l'.n_delayed ≡ 0)))
pace_counts_example = pace_counts fixed_point freq 100 1000 1 soon lane

pace-Accepted_example : Accepted (record { tv_sec = pos 0; tv_nsec = pos 2700000 }) ↔ (
    (n : ℕ) × (to_ns fixed_point (pace fixed_point freq 100 1000 1 soon lane).1.to_sleep ≡ pos n))
unfolding pace
pace-Accepted_example =
    pace-Accepted fixed_point freq 100 1000 1 soon lane
      (record { tv_sec = pos 0; tv_nsec = pos 2700000 }) refl

pace_slow_example :
    let (nap, l') = pace fixed_point freq 100 1000 1 late lane in
    ((r : Timespec) × (nap ≡ some r) × ¬ Accepted r) × (l'.delayed ≡ 1)
unfolding pace
pace_slow_example = pace_slow fixed_point freq 100 1000 1 late lane 496899999 refl refl refl

abbrev off_page : Page fixed_point
off_page = record { t_updated = 8; disabled = 1; ready = 1; freq = pos 0; tags = []; limits = [] }

-- A real function that counts its calls and answers with the length of the path.
abbrev real_stat : Text → ℕ → ℤ × ℕ
real_stat name w = (pos 3, w + 1)

abbrev real_open : Text → ℕ → Option ℕ → ℕ → ℤ × ℕ
real_open name oflags mode w = (pos 4, w + 1)

abbrev paced : State fixed_point
paced = record process { opens = lane ∷ lane ∷ []; stats = lane ∷ lane ∷ [] }

abbrev on_page : Page fixed_point
on_page = record off_page { t_updated = 7; disabled = 0 }

my_stat_counts :
    (get_or
      (my_stat fixed_point real_stat 1000 on_page soon (codes "/work/f") 0 paced).state.stats
      1
      (no_lane fixed_point)).count
    ≡ 5
unfolding my_stat pre_lxstat post_lxstat refresh paced_stat pace check_fs_server scan strn_eq
my_stat_counts = refl

-- A stat and an open of a tracked path, and an open of another one.
abbrev calls : List (Call ℕ)
calls =
    stat_call real_stat 1000 soon (codes "/work/f")
    ∷ open_call real_open late soon (codes "/work/f") 66 420
    ∷ open_call real_open late soon (codes "/tmp/f") 2 0
    ∷ []

turned_off : set_io_param fixed_point (pos 0) none (codes "0" ∷ []) 8 on_page ≡ some off_page
unfolding set_io_param str_eq read_defaults
turned_off = refl

run_calls-set_io_param_example :
    let (rs, w', s') = run_calls fixed_point off_page calls 0 paced in
    ((rs, w') ≡ real_calls fixed_point calls 0)
    × (s'.opens ≡ paced.opens)
    × (s'.stats ≡ paced.stats)
run_calls-set_io_param_example =
    run_calls-set_io_param fixed_point (pos 0) none 8 on_page off_page calls 0 paced turned_off
      (λ e. cc)

my_stat_frame_example :
    let o = my_stat fixed_point real_stat 1000 on_page soon (codes "/work/f") 0 paced in
    ((o.ret, o.world) ≡ real_stat (codes "/work/f") 0)
    × (o.state.opens ≡ paced.opens)
    × ((j : ℕ)
        → server_of fixed_point (codes "/work/f") paced ≢ some j
        → get_or o.state.stats j (no_lane fixed_point) ≡ get_or paced.stats j (no_lane fixed_point))
my_stat_frame_example =
    my_stat_frame fixed_point on_page soon 0 paced real_stat 1000 (codes "/work/f")

my_open_frame_example :
    let o = my_open fixed_point real_open late on_page soon (codes "/work/f") 66 420 0 paced in
    ((o.ret, o.world) ≡ real_open (codes "/work/f") 66 (some 420) 0)
    × (o.state.stats ≡ paced.stats)
    × ((j : ℕ)
        → server_of fixed_point (codes "/work/f") paced ≢ some j
        → get_or o.state.opens j (no_lane fixed_point) ≡ get_or paced.opens j (no_lane fixed_point))
my_open_frame_example =
    my_open_frame fixed_point on_page soon 0 paced real_open late (codes "/work/f") 66 420
