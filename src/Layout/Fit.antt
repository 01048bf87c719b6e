-- ===== src/Layout/Fit.antt =====
-- Everything fits into its mapping, and nothing overlaps.
use ooops.Prelude.{ℕ, zero, suc, ◌+◌, ◌*◌, ◌<◌, ◌≡◌, ◌≢◌, refl, ap, arith}
use ooops.Config.{max_fs_server}
use ooops.Layout.{
  Extent, Inside, Apart, Part, futex_open, futex_lxstat, open_count, open_delayed_count,
  lxstat_count, lxstat_delayed_count, t_list_open, t_list_lxstat, size_shared_data, place,
  local_data, counter, SleepPart, size_shared_dt, sleep_place, tid_open_list, tid_stat_list,
  data_sleep, ParamPart, t_updated_param, t_threshold_open, t_threshold_lxstat, max_open_freq,
  max_lxstat_freq, disabled, param_mem_ready, fs_tag, fs_tag_len, param_freq, size_shared_param,
  size_tool_param, param_place,
}

-- The file system of a part is one of the eight.
abbrev pub Served : Part → Type 0
Served futex_open = Unit
Served futex_lxstat = Unit
Served (open_count i) = i < max_fs_server
Served (open_delayed_count i) = i < max_fs_server
Served (lxstat_count i) = i < max_fs_server
Served (lxstat_delayed_count i) = i < max_fs_server
Served (t_list_open i) = i < max_fs_server
Served (t_list_lxstat i) = i < max_fs_server

place-Inside : (m : ℕ) (p : Part) → Served p → Inside (size_shared_data m) (place m p)
unfolding place
place-Inside m futex_open h = omega arith
place-Inside m p h = omega arith

place-Apart : (m : ℕ) (p q : Part) → Served p → Served q → p ≢ q → Apart (place m p) (place m q)
unfolding place
place-Apart m futex_open q h k ne = ground arith
place-Apart m p q h k ne = ground arith

abbrev pub SleepServed : SleepPart → Type 0
SleepServed (tid_open_list i) = i < max_fs_server
SleepServed (tid_stat_list i) = i < max_fs_server
SleepServed data_sleep = Unit

sleep_place-Inside :
    (d : ℕ) (p : SleepPart) → SleepServed p → Inside (size_shared_dt d) (sleep_place d p)
unfolding sleep_place
sleep_place-Inside d data_sleep h = omega arith
sleep_place-Inside d p h = omega arith

sleep_place-Apart :
    (d : ℕ) (p q : SleepPart)
    → SleepServed p
    → SleepServed q
    → p ≢ q
    → Apart (sleep_place d p) (sleep_place d q)
unfolding sleep_place
sleep_place-Apart d data_sleep q h k ne = ground arith
sleep_place-Apart d p q h k ne = ground arith

abbrev pub ParamServed : ParamPart → Type 0
ParamServed t_updated_param = Unit
ParamServed (t_threshold_open i) = i < max_fs_server
ParamServed (t_threshold_lxstat i) = i < max_fs_server
ParamServed (max_open_freq i) = i < max_fs_server
ParamServed (max_lxstat_freq i) = i < max_fs_server
ParamServed disabled = Unit
ParamServed param_mem_ready = Unit
ParamServed (fs_tag i) = i < max_fs_server
ParamServed (fs_tag_len i) = i < max_fs_server
ParamServed param_freq = Unit

param_place-Inside :
    (p : ParamPart)
    → ParamServed p
    → Inside size_shared_param (param_place p)
      × (p ≢ param_freq → Inside size_tool_param (param_place p))
unfolding param_place
param_place-Inside param_freq h = (omega arith, λ ne. absurd (ne refl))
param_place-Inside p h = (omega arith, λ ne. omega arith)

param_place-Apart :
    (p q : ParamPart)
    → ParamServed p
    → ParamServed q
    → p ≢ q
    → Apart (param_place p) (param_place q)
unfolding param_place
param_place-Apart param_freq q h k ne = ground arith
param_place-Apart p q h k ne = ground arith

abbrev slot : ℕ → Extent
slot o = record { offset = o; size = 8 }

at : {a b : ℕ} → a ≡ b → slot a ≡ slot b
at e = ap slot e

-- Number 8 * k + i of the data that the daemon and the client read from a node's shared memory is
-- the counter of kind k (opens, delayed opens, stats, delayed stats) of file system i, as the
-- library maps it: the same bytes, wherever a mutex ends.
local_data-place :
    (m k i : ℕ) → k < 4 → local_data m (max_fs_server * k + i) ≡ place m (counter k i)
unfolding place
local_data-place m zero i h = at (omega arith)
local_data-place m (suc zero) i h = at (omega arith)
local_data-place m (suc (suc zero)) i h = at (omega arith)
local_data-place m (suc (suc (suc zero))) i h = at (omega arith)
local_data-place m (suc (suc (suc (suc k)))) i h = absurd (omega arith)

-- For every size of a mutex and of `DATA_SLEEP`, each part of the three shared objects, with the
-- index of a file system below eight, lies within the object that the library maps; so do those of
-- the parameters, the frequency apart, in what the tool and the daemon map; and two different
-- parts of one object have no byte in common. And number 8 * k + i of the counters that the daemon
-- and the client read is the counter of kind k (opens, delayed opens, stats, delayed stats) of
-- file system i, at the bytes where the library has it.
pub layout_sound :
    (m d : ℕ) (p q : Part) (a b : SleepPart) (x y : ParamPart) (k i : ℕ)
    → Served p
    → Served q
    → p ≢ q
    → SleepServed a
    → SleepServed b
    → a ≢ b
    → ParamServed x
    → ParamServed y
    → x ≢ y
    → x ≢ param_freq
    → k < 4
    → (Inside (size_shared_data m) (place m p) × Apart (place m p) (place m q))
      × (Inside (size_shared_dt d) (sleep_place d a) × Apart (sleep_place d a) (sleep_place d b))
      × (Inside size_shared_param (param_place y)
          × Inside size_tool_param (param_place x)
          × Apart (param_place x) (param_place y))
      × (local_data m (max_fs_server * k + i) ≡ place m (counter k i))
layout_sound m d p q a b x y k i hp hq pq ha hb ab hx hy xy nf kind = (
  (place-Inside m p hp, place-Apart m p q hp hq pq),
  (sleep_place-Inside d a ha, sleep_place-Apart d a b ha hb ab),
  ((param_place-Inside y hy).0, (param_place-Inside x hx).1 nf, param_place-Apart x y hx hy xy),
  local_data-place m k i kind,
)
