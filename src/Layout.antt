-- ===== src/Layout.antt =====
-- Where things stand in shared memory: `Init_Shared_Mutex` of src/ooops.c, and the programs that map
-- the same objects: src/set_io_param.c, src/server.c, src/client.c and src/mpi_aggregator.c. Sizes
-- are those of x86-64; that of `pthread_mutex_t` and of `DATA_SLEEP` are arguments.
pub mod Fit
use ooops.Prelude.{ℕ, zero, suc, ◌+◌, ◌*◌, ◌≤◌, ◌<◌, ◌⊎◌}
use ooops.Config.{max_fs_server, max_len_fs_name}
use ooops.Throttle.{max_rec}

-- `struct timeval`
abbrev pub sizeof_timeval : ℕ
sizeof_timeval = 16

-- A stretch of bytes.
pub record Extent : Type 0 where
  pub offset : ℕ
  pub size : ℕ

abbrev pub Inside : ℕ → Extent → Type 0
Inside total e = e.offset + e.size ≤ total

abbrev pub Apart : Extent → Extent → Type 0
Apart a b = (a.offset + a.size ≤ b.offset) ⊎ (b.offset + b.size ≤ a.offset)

-- "/my_mutex_<uid>"
pub data Part : Type 0 where
  futex_open : Part
  futex_lxstat : Part
  open_count : (i : ℕ) → Part
  open_delayed_count : (i : ℕ) → Part
  lxstat_count : (i : ℕ) → Part
  lxstat_delayed_count : (i : ℕ) → Part
  t_list_open : (i : ℕ) → Part
  t_list_lxstat : (i : ℕ) → Part

-- `nSize_Shared_Data`
abbrev pub size_shared_data : ℕ → ℕ
size_shared_data m = m * 2 + 8 * max_fs_server * 4 + sizeof_timeval * max_rec * max_fs_server * 2

-- The pointers; m is the size of a mutex. A counter is an `int` in a slot of eight bytes.
unfoldable pub place : ℕ → Part → Extent
place m Part.futex_open = record { offset = 0; size = m }
place m Part.futex_lxstat = record { offset = m; size = m }
place m (Part.open_count i) = record { offset = m * 2 + 8 * i; size = 8 }
place m (Part.open_delayed_count i) = record {
  offset = m * 2 + 8 * i + max_fs_server * 8;
  size = 8;
}
place m (Part.lxstat_count i) = record { offset = m * 2 + 8 * i + max_fs_server * 8 * 2; size = 8 }
place m (Part.lxstat_delayed_count i) = record {
  offset = m * 2 + 8 * i + max_fs_server * 8 * 3;
  size = 8;
}
place m (Part.t_list_open i) = record {
  offset = m * 2 + 8 * max_fs_server * 4 + sizeof_timeval * max_rec * i;
  size = sizeof_timeval * max_rec;
}
place m (Part.t_list_lxstat i) = record {
  offset = m * 2 + 8 * max_fs_server * 4 + sizeof_timeval * max_rec * (i + max_fs_server);
  size = sizeof_timeval * max_rec;
}

-- `p_Local_Data` of src/server.c, `p_Data` of src/client.c: counter number c of a node.
abbrev pub local_data : ℕ → ℕ → Extent
local_data m c = record { offset = m * 2 + 8 * c; size = 8 }

-- Row k of `CounterSum` in src/server.c, column i.
abbrev pub counter : ℕ → ℕ → Part
counter zero i = Part.open_count i
counter (suc zero) i = Part.open_delayed_count i
counter (suc (suc zero)) i = Part.lxstat_count i
counter _ i = Part.lxstat_delayed_count i

-- "/my_dt_<uid>"; d is the size of `DATA_SLEEP`.
pub data SleepPart : Type 0 where
  tid_open_list : (i : ℕ) → SleepPart
  tid_stat_list : (i : ℕ) → SleepPart
  data_sleep : SleepPart

abbrev pub size_shared_dt : ℕ → ℕ
size_shared_dt d = 4 * max_rec * 2 * max_fs_server + d

unfoldable pub sleep_place : ℕ → SleepPart → Extent
sleep_place d (SleepPart.tid_open_list i) = record { offset = 4 * max_rec * i; size = 4 * max_rec }
sleep_place d (SleepPart.tid_stat_list i) = record {
  offset = 4 * max_rec * (i + max_fs_server);
  size = 4 * max_rec;
}
sleep_place d SleepPart.data_sleep = record { offset = 4 * max_rec * 2 * max_fs_server; size = d }

-- "/my_io_param_<uid>"
pub data ParamPart : Type 0 where
  t_updated_param : ParamPart
  t_threshold_open : (i : ℕ) → ParamPart
  t_threshold_lxstat : (i : ℕ) → ParamPart
  max_open_freq : (i : ℕ) → ParamPart
  max_lxstat_freq : (i : ℕ) → ParamPart
  disabled : ParamPart
  param_mem_ready : ParamPart
  fs_tag : (i : ℕ) → ParamPart
  fs_tag_len : (i : ℕ) → ParamPart
  param_freq : ParamPart

-- What the library maps, and what the tool and the daemon map.
abbrev pub size_shared_param : ℕ
size_shared_param =
    8 * (max_fs_server * 4 + 2 + 1) + (max_len_fs_name + 4) * max_fs_server + (4 + 4 * 7)

abbrev pub size_tool_param : ℕ
size_tool_param = 8 * (max_fs_server * 4 + 2 + 1) + (max_len_fs_name + 4) * max_fs_server

unfoldable pub param_place : ParamPart → Extent
param_place ParamPart.t_updated_param = record { offset = 0; size = 8 }
param_place (ParamPart.t_threshold_open i) = record { offset = 8 + 8 * i; size = 8 }
param_place (ParamPart.t_threshold_lxstat i) = record {
  offset = 8 + 8 * max_fs_server + 8 * i;
  size = 8;
}
param_place (ParamPart.max_open_freq i) = record {
  offset = 8 + 8 * max_fs_server * 2 + 4 * i;
  size = 4;
}
param_place (ParamPart.max_lxstat_freq i) = record {
  offset = 8 + 8 * max_fs_server * 3 + 4 * i;
  size = 4;
}
param_place ParamPart.disabled = record { offset = 8 + 8 * max_fs_server * 4; size = 8 }
param_place ParamPart.param_mem_ready = record { offset = 16 + 8 * max_fs_server * 4; size = 8 }
param_place (ParamPart.fs_tag i) = record {
  offset = 16 + 8 * max_fs_server * 4 + 8 + i * max_len_fs_name;
  size = max_len_fs_name;
}
param_place (ParamPart.fs_tag_len i) = record {
  offset = 16 + 8 * max_fs_server * 4 + 8 + max_fs_server * max_len_fs_name + 4 * i;
  size = 4;
}
param_place ParamPart.param_freq = record {
  offset = 16 + 8 * max_fs_server * 4 + 8 + max_fs_server * max_len_fs_name + max_fs_server * 4;
  size = 4;
}
