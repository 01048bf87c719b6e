-- ===== src/SetParam.antt =====
-- src/set_io_param.c: the tool that shows or changes the limits of a running job, or turns the
-- pacing off and on. Its reports go to the terminal and are left out. `none` is the end of the
-- process with an error, or an index outside of the arrays.
pub mod Settings
pub mod Effect
use ooops.Prelude.{
  ℕ, zero, suc, ◌+◌, ◌-◌, ◌*◌, ◌%◌, Bool, true, false, ◌&&◌, ◌||◌, Option, none, some, List, [],
  ◌∷◌, ℤ, pos, neg, Text, codes, ltb, leb, ◌==◌, if◌then◌else◌, str_eq, length, get_or, set,
  replicate,
}
use ooops.Floats.{Floats}
use ooops.State.{Limits, Page}
use ooops.Config.{File, max_fs_server, number, to_ticks}
use ooops.Config.Defaults.{Default, read_defaults}

-- `atoi`, of a text that begins with a digit or a minus sign
unfoldable pub digits : Text → ℕ → ℕ
digits [] n = n
digits (c ∷ cs) n =
    let rest = digits cs (n * 10 + (c - b'0')) in if leb b'0' c && leb c b'9' then rest else n

unfoldable pub atoi : Text → ℤ
unfolding digits
atoi [] = pos 0
atoi (c ∷ cs) = if c == b'-' then neg (digits cs 0) else pos (digits (c ∷ cs) 0)

-- `fs_idx`, where it is an index of the arrays
abbrev pub fs_idx : Text → Option ℕ
fs_idx s = elim (atoi s) [ pos k ↦ if ltb k max_fs_server then some k else none | _ ↦ none ]

module _ (fl : Floats) where
  -- `UpdateFlag[i]`, `t_threshold_open[i]`, `Max_open_Freq[i]`, `t_threshold_lxstat[i]` and
  -- `Max_lxstat_Freq[i]`
  pub record Setting : Type 0 where
    pub update_flag : Bool
    pub value : Default fl

  abbrev pub zero_default : Default fl
  zero_default = record {
    t_threshold_open = fl.single (pos 0);
    max_open_freq = fl.single (pos 0);
    t_threshold_lxstat = fl.single (pos 0);
    max_lxstat_freq = fl.single (pos 0);
  }

  abbrev pub no_setting : Setting
  no_setting = record { update_flag = false; value = zero_default }

  -- What the arguments ask for.
  pub data Command : Type 0 where
    report : Command
    enable : Command
    disable : Command
    change : List Setting → Command

  -- `[ server_idx, t_open, max_open_freq, t_lxstat, max_stat_freq ]`, any number of times
  unfoldable pub set_groups : List Text → List Setting → Option (List Setting)
  set_groups (i ∷ a ∷ b ∷ c ∷ d ∷ rest) ss = elim (fs_idx i) [
    | none ↦ none
    | some k ↦ set_groups rest (
        set ss k (record {
          update_flag = true;
          value = record {
            t_threshold_open = number fl a;
            max_open_freq = number fl b;
            t_threshold_lxstat = number fl c;
            max_lxstat_freq = number fl d;
          };
        }))
  ]
  set_groups _ ss = some ss

  -- `scale`
  abbrev pub scale_of : Text → fl.Single
  scale_of level =
      if str_eq level (codes "low")
      then fl.narrow (fl.decimal 2 1)
      else (if str_eq level (codes "medium")
          then fl.narrow (fl.decimal 5 1)
          else if str_eq level (codes "unlimit")
          then fl.single (pos 50)
          else fl.single (pos 1))

  -- The default of a server, scaled by the level.
  unfoldable pub set_level : Text → Default fl → Default fl
  set_level level d =
      let unlimit = str_eq level (codes "unlimit") in
      record {
        t_threshold_open = if unlimit then fl.single (pos 1000000) else d.t_threshold_open;
        max_open_freq = fl.mul_single d.max_open_freq (scale_of level);
        t_threshold_lxstat = if unlimit then fl.single (pos 1000000) else d.t_threshold_lxstat;
        max_lxstat_freq = fl.mul_single d.max_lxstat_freq (scale_of level);
      }

  abbrev pub no_settings : List Setting
  no_settings = replicate max_fs_server no_setting

  -- The first part of `main`. The Boolean tells whether `IO_LIMIT_CONFIG` is set.
  unfoldable pub parse_args : Bool → List (Default fl) → List Text → Option Command
  unfolding set_groups set_level
  parse_args has_config defaults [] = some report
  parse_args has_config defaults (s ∷ []) =
      if str_eq s (codes "0")
      then some disable
      else if str_eq s (codes "1")
      then some enable
      else none
  parse_args has_config defaults (s ∷ level ∷ []) =
      if has_config
      then (elim (fs_idx s) [
        | none ↦ none
        | some k ↦ some (
            change (
              set no_settings k (record {
                update_flag = true;
                value = set_level level (get_or defaults k zero_default);
              })))
      ])
      else none
  parse_args has_config defaults args =
      if length args % 5 == 0
      then (elim (set_groups args no_settings) [ none ↦ none | some ss ↦ some (change ss) ])
      else none

  abbrev pub limits_from : fl.Single → Default fl → Limits fl
  limits_from freq d = record {
    threshold_open = fl.to_uint64 (to_ticks fl freq d.t_threshold_open);
    threshold_lxstat = fl.to_uint64 (to_ticks fl freq d.t_threshold_lxstat);
    max_open_freq = d.max_open_freq;
    max_lxstat_freq = d.max_lxstat_freq;
  }

  -- The loop of `Publish_Parameters`.
  unfoldable pub publish_settings : fl.Single → List Setting → List (Limits fl) → List (Limits fl)
  publish_settings freq [] ls = ls
  publish_settings freq (s ∷ ss) [] = []
  publish_settings freq (s ∷ ss) (l ∷ ls) =
      (if s.update_flag then limits_from freq s.value else l) ∷ publish_settings freq ss ls

  -- The second part of `main`, on the shared page; `tsc` is the time stamp.
  unfoldable pub run_command : fl.Single → ℕ → Command → Page fl → Page fl
  unfolding publish_settings
  run_command freq tsc report page = page
  run_command freq tsc enable page = record page { disabled = 0; t_updated = tsc }
  run_command freq tsc disable page = record page { disabled = 1; t_updated = tsc }
  run_command freq tsc (change ss) page = record page {
    disabled = 0;
    t_updated = tsc;
    limits = publish_settings freq ss page.limits;
  }

  -- `main`; `freq` is what `Get_Freq` returns.
  unfoldable pub set_io_param : fl.Single → File → List Text → ℕ → Page fl → Option (Page fl)
  unfolding parse_args run_command
  set_io_param freq file args tsc page = elim (read_defaults fl freq file) [
    | none ↦ none
    | some defaults ↦ elim (parse_args (elim file [ none ↦ false | some _ ↦ true ]) defaults args) [
      | none ↦ none
      | some c ↦ some (run_command freq tsc c page)
    ]
  ]
