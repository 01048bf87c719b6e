-- ===== src/Config/Defaults.antt =====
-- `Read_Default_Param` of src/set_io_param.c and of src/server.c, which read the configuration by the
-- steps of `Read_Config`.
use ooops.Prelude.{ℕ, ◌/◌, Option, none, some, List, [], map, length}
use ooops.Floats.{Floats}
use ooops.Config.{Item, File, number, giga, read_items, records, n_item_per_rec}

module _ (fl : Floats) where
  -- `Read_Default_Param` of src/set_io_param.c: the defaults, in the units of the file.
  pub record Default : Type 0 where
    pub t_threshold_open : fl.Single
    pub max_open_freq : fl.Single
    pub t_threshold_lxstat : fl.Single
    pub max_lxstat_freq : fl.Single

  abbrev pub default_of : Item → Default
  default_of r = record {
    t_threshold_open = number fl r.t_open;
    max_open_freq = number fl r.open_freq;
    t_threshold_lxstat = number fl r.t_lxstat;
    max_lxstat_freq = number fl r.lxstat_freq;
  }

  unfoldable pub read_defaults : fl.Single → File → Option (List Default)
  unfolding read_items records
  read_defaults freq none = some []
  read_defaults freq (some none) = some []
  read_defaults freq (some (some (buf, num_read))) =
      elim (read_items fl 80 (giga fl freq) buf num_read) [
        | none ↦ none
        | some items ↦ some (map default_of (records items))
      ]

  -- `Read_Default_Param` of src/server.c: the number of file systems. A missing variable is the end
  -- of the process, `none`; and 40 items are read.
  unfoldable pub count_servers : fl.Single → File → Option ℕ
  unfolding read_items
  count_servers freq none = none
  count_servers freq (some none) = some 0
  count_servers freq (some (some (buf, num_read))) =
      elim (read_items fl 40 (giga fl freq) buf num_read) [
        | none ↦ none
        | some items ↦ some (length items / n_item_per_rec)
      ]
