-- ===== src/Intercept.antt =====
-- The intercepted calls of src/ooops.c: `GetTime`, `pre_lxstat`, `post_lxstat`,
-- `Update_open_Count`, and the wrappers of the stat and open functions around the real ones.
pub mod Gates
pub mod Disabled
pub mod Wrappers
pub mod Shell
use ooops.Prelude.{
  ℕ, zero, suc, ◌+◌, ◌/◌, ◌%◌, Bool, true, false, not, ◌&&◌, ◌||◌, Option, none, some, List, Text,
  ℤ, pos, ltb, ◌==◌, if◌then◌else◌, get_or, set, str_eq,
}
use ooops.Floats.{Floats}
use ooops.FileServer.{Place, check_fs_server}
use ooops.State.{Limits, Page, Lane, Started, State}
use ooops.Params.{refresh}
use ooops.Throttle.{Timespec, Now, pace, no_lane, no_limits, not_started}

-- `Is_in_Init_Bash`, `szBatchScriptName_Org` and `szBatchScriptName_New`
pub record Script : Type 0 where
  pub is_in_init_bash : Bool
  pub name_org : Text
  pub name_new : Text

-- `oflags & O_CREAT`
abbrev pub has_creat : ℕ → Bool
has_creat oflags = oflags / 64 % 2 == 1

module _ (fl : Floats) where
  -- `if(tid < 0) tid = syscall(SYS_gettid);`
  abbrev pub thread_id : State fl → Now → ℕ
  thread_id s now = elim s.tid [ none ↦ now.gettid | some t ↦ t ]

  -- The body of `post_lxstat` behind its guards, on the file system i.
  unfoldable pub paced_stat : ℕ → Now → State fl → Option Timespec × State fl
  paced_stat i now s =
      let limit = get_or s.limits i (no_limits fl) in
      let (nap, l) =
        pace fl limit.max_lxstat_freq limit.threshold_lxstat
          (get_or s.started i not_started).stat_at (thread_id s now) now
          (get_or s.stats i (no_lane fl)) in
      (nap, record s { stats = set s.stats i l; tid = some (thread_id s now) })

  -- The body of `Update_open_Count` behind its guards.
  unfoldable pub paced_open : ℕ → Now → State fl → Option Timespec × State fl
  paced_open i now s =
      let limit = get_or s.limits i (no_limits fl) in
      let (nap, l) =
        pace fl limit.max_open_freq limit.threshold_open (get_or s.started i not_started).open_at
          (thread_id s now) now (get_or s.opens i (no_lane fl)) in
      (nap, record s { opens = set s.opens i l; tid = some (thread_id s now) })

  unfoldable pub pre_lxstat : ℕ → State fl → State fl
  pre_lxstat tsc s = elim s.place.idx_fs_server [
    | none ↦ s
    | some i ↦ record s {
      started = set s.started i (record (get_or s.started i not_started) { stat_at = tsc });
    }
  ]

  unfoldable pub post_lxstat : Page fl → Now → State fl → Option Timespec × State fl
  post_lxstat page now s =
      let s' = refresh fl page s in
      if not s'.active then (none, s') else elim s'.place.idx_fs_server [
        | none ↦ (none, s')
        | some i ↦ if not s'.shm_ready then (none, s') else paced_stat i now s'
      ]

  unfoldable pub update_open_count : Page fl → Now → State fl → Option Timespec × State fl
  update_open_count page now s =
      let s' = refresh fl page s in
      if not s'.active
      then (none, s')
      else if not s'.shm_ready
      then (none, s')
      else elim s'.place.idx_fs_server [ none ↦ (none, s') | some i ↦ paced_open i now s' ]

  -- `GetTime(0)` before the real call and `GetTime(1)` after it; the index of the function is 0.
  unfoldable pub get_time : ℕ → Page fl → Now → State fl → Option Timespec × State fl
  get_time idx page now s = elim s.place.idx_fs_server [
    | none ↦ (none, s)
    | some i ↦
        if ltb s.place.n_fs_server 1
        then (none, s)
        else if idx % 2 == 1
        then update_open_count page now s
        else (
          none,
          record s {
            started =
                set s.started i (record (get_or s.started i not_started) { open_at = now.tsc });
          },
        )
  ]

  -- What the caller gets, the nap taken on the way, and the new states.
  pub record Outcome (W : Type 0) : Type 0 where
    pub ret : ℤ
    pub nap : Option Timespec
    pub world : W
    pub state : State fl

  module _ {W : Type 0} where
    -- `my_lxstat_ld`, `my_lxstat_libc`, `my_xstat_ld`, `my_xstat_libc`: one text around four real
    -- functions. `before` is the time of `pre_lxstat`; `page` is the shared page on return.
    unfoldable pub my_stat :
        (Text → W → ℤ × W) → ℕ → Page fl → Now → Text → W → State fl → Outcome W
    my_stat real before page now filename w s =
        let s₁ = pre_lxstat before (record s { place = check_fs_server filename s.place }) in
        let (ret, w') = real filename w in
        let (nap, s₂) = post_lxstat page now s₁ in
        record { ret = ret; nap = nap; world = w'; state = s₂ }

    -- `my_open_ld`, `my_open_pthread`, `my_open64_ld`, `my_open64_pthread`: the mode goes to the
    -- real function only with `O_CREAT`.
    unfoldable pub my_open :
        (Text → ℕ → Option ℕ → W → ℤ × W)
        → Now
        → Page fl
        → Now
        → Text
        → ℕ
        → ℕ
        → W
        → State fl
        → Outcome W
    my_open real before page now pathname oflags mode w s =
        let (_, s₁) =
          get_time 0 page before (record s { place = check_fs_server pathname s.place }) in
        let (ret, w') = real pathname oflags (if has_creat oflags then some mode else none) w in
        let (nap, s₂) = get_time 1 page now s₁ in
        record { ret = ret; nap = nap; world = w'; state = s₂ }

    -- `my_open_libc`, `my_open64_libc`: the shell that runs a batch script is given the script's
    -- copy, and that call is not accounted for.
    unfoldable pub my_open_libc :
        Script
        → (Text → ℕ → Option ℕ → W → ℤ × W)
        → Now
        → Page fl
        → Now
        → Text
        → ℕ
        → ℕ
        → W
        → State fl
        → Outcome W
    my_open_libc sc real before page now pathname oflags mode w s =
        if sc.is_in_init_bash && str_eq pathname sc.name_org
        then (let (ret, w') =
              real sc.name_new oflags (if has_creat oflags then some mode else none) w in
            record { ret = ret; nap = none; world = w'; state = s })
        else my_open real before page now pathname oflags mode w s
