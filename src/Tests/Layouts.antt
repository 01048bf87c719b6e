-- ===== src/Tests/Layouts.antt =====
-- Parts of the shared objects, with a mutex of 40 bytes and `DATA_SLEEP` of 256.
use ooops.Prelude.{◌+◌, ◌*◌, ◌≡◌, arith}
use ooops.Config.{max_fs_server}
use ooops.Layout.{
  Inside, Apart, Part, SleepPart, ParamPart, size_shared_data, size_shared_dt, size_shared_param,
  size_tool_param, place, sleep_place, param_place, local_data, counter,
}
use ooops.Layout.Fit.{layout_sound}

abbrev last_stamps : Part
last_stamps = Part.t_list_lxstat 7

abbrev first_count : Part
first_count = Part.open_count 0

layout_sound_example :
    (Inside (size_shared_data 40) (place 40 last_stamps)
      × Apart (place 40 last_stamps) (place 40 first_count))
    × (Inside (size_shared_dt 256) (sleep_place 256 SleepPart.data_sleep)
        × Apart
            (sleep_place 256 SleepPart.data_sleep)
            (sleep_place 256 (SleepPart.tid_stat_list 7)))
    × (Inside size_shared_param (param_place ParamPart.param_freq)
        × Inside size_tool_param (param_place (ParamPart.fs_tag_len 7))
        × Apart (param_place (ParamPart.fs_tag_len 7)) (param_place ParamPart.param_freq))
    × (local_data 40 (max_fs_server * 2 + 3) ≡ place 40 (counter 2 3))
layout_sound_example =
    layout_sound 40 256 last_stamps first_count SleepPart.data_sleep (SleepPart.tid_stat_list 7)
      (ParamPart.fs_tag_len 7) ParamPart.param_freq 2 3 (omega arith) (omega arith) (λ e. cc) tt
      (omega arith) (λ e. cc) (omega arith) tt (λ e. cc) (λ e. cc) (omega arith)
