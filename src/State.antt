-- ===== src/State.antt =====
-- The globals of src/ooops.c: the parameters, the call counters of each file system, and the page
-- that all processes of a user share (`/my_io_param_<uid>`).
use ooops.Prelude.{ℕ, Bool, Option, List}
use ooops.Floats.{Floats}
use ooops.FileServer.{Tag, Place}

-- One entry of `t_threshold_open_int64`, `t_threshold_lxstat_int64`, `Max_open_Freq` and
-- `Max_lxstat_Freq`.
pub record Limits (fl : Floats) : Type 0 where
  pub threshold_open : ℕ
  pub threshold_lxstat : ℕ
  pub max_open_freq : fl.Single
  pub max_lxstat_freq : fl.Single

-- The shared parameters. `tags` is `p_FS_Tag_List` with `p_FS_Tag_Len`.
pub record Page (fl : Floats) : Type 0 where
  pub t_updated : ℕ
  pub disabled : ℕ
  pub ready : ℕ
  pub freq : fl.Single
  pub tags : List Tag
  pub limits : List (Limits fl)

-- `struct timeval`
pub record Timeval : Type 0 where
  pub sec : ℕ
  pub usec : ℕ

-- What is kept of one kind of call (open or stat) on one file system. `count`, `delayed`, `stamps`,
-- `tids` and `to_sleep` are in shared memory; `calls` (`CallCount`) and `n_delayed` are the
-- process's own.
pub record Lane (fl : Floats) : Type 0 where
  pub count : ℕ
  pub delayed : ℕ
  pub stamps : List Timeval
  pub tids : List ℕ
  pub to_sleep : fl.Double
  pub calls : ℕ
  pub n_delayed : ℕ

-- `t_list[i][0]` and `t_list[i][1]`: when the call in progress began.
pub record Started : Type 0 where
  pub open_at : ℕ
  pub stat_at : ℕ

pub record State (fl : Floats) : Type 0 where
  pub place : Place
  pub limits : List (Limits fl)
  pub freq : fl.Single
  pub active : Bool
  pub shm_ready : Bool
  pub t_updated : ℕ
  pub tid : Option ℕ
  pub started : List Started
  pub opens : List (Lane fl)
  pub stats : List (Lane fl)
