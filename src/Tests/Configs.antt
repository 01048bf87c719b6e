-- ===== src/Tests/Configs.antt =====
-- A configuration file with two sections, and a run of the tool.
use ooops.Prelude.{
  map, get_elem?, ℕ, ◌≡◌, refl, true, false, Option, none, some, List, [], ◌∷◌, ◌++◌, Text, codes,
  ℤ, pos, length, min, strn_eq, arith, replicate, get_or, if◌then◌else◌, ◌==◌,
}
use ooops.FileServer.{Tag}
use ooops.State.{Page, State}
use ooops.Config.Sections.{Section, records_of, load_file, WellFormed, NoSectionNearer, text_of}
use ooops.Config.Sections.Nearest.{read_config-nearest}
use ooops.Config.{
  words, records, all_fit, distance, giga, set_servers, no_servers, read_config, File, Item, choose,
  first_choice,
}
use ooops.Config.Defaults.{read_defaults, default_of, count_servers}
use ooops.Config.Nearest.{Ordered}
use ooops.SetParam.{set_io_param, fs_idx, atoi, limits_from, Setting}
use ooops.SetParam.Settings.{setting}
use ooops.SetParam.Effect.{refresh-set_io_param}
use ooops.Params.{refresh}
use ooops.Tests.Places.{process, limit, new_page}
use ooops.Tests.Fixed.{fixed_point}

fixed_point-Ordered : Ordered fixed_point
fixed_point-Ordered = record {
  irreflexive = λ a. ground arith;
  transitive = λ a b c h k. ground arith;
}

abbrev frequencies : List (Option ℤ)
frequencies =
    some (pos 2700000000) ∷ none ∷ some (pos 2100000000) ∷ none ∷ some (pos 1400000000) ∷ none ∷ []

abbrev system_freq : ℤ
system_freq = pos 2000000000

chosen_section :
    (choose fixed_point system_freq 0 frequencies (first_choice fixed_point)).config_use ≡ some 2
unfolding choose
chosen_section = refl

abbrev scratch : Item
scratch = record {
  fs_tag = codes "/scratch";
  t_open = codes "500";
  open_freq = codes "1000";
  t_lxstat = codes "300";
  lxstat_freq = codes "2000";
}

-- The two sections of src/config, of 2 GHz and of 1 GHz as the fixed-point numbers read them.
abbrev fast_body : Text
fast_body =
    codes "\nFILE_SYS_TAG_0        /scratch\nT_THRESHOLD_OPEN_0    467.97\n"
    ++ codes "MAX_OPEN_FREQ_0       1000\nT_THRESHOLD_LXSTAT_0  247.37\n"
    ++ codes "MAX_STAT_FREQ_0       2000\n\nFILE_SYS_TAG_1        /work\n"
    ++ codes "T_THRESHOLD_OPEN_1    907.14\nMAX_OPEN_FREQ_1       500\n"
    ++ codes "T_THRESHOLD_LXSTAT_1  481.52\nMAX_STAT_FREQ_1       1000\n\n"
    ++ codes "FILE_SYS_TAG_2        /home\nT_THRESHOLD_OPEN_2    317.94\n"
    ++ codes "MAX_OPEN_FREQ_2       1500\nT_THRESHOLD_LXSTAT_2  205.43\n"
    ++ codes "MAX_STAT_FREQ_2       2500\n"

abbrev slow_body : Text
slow_body =
    codes "\nFILE_SYS_TAG_0        /scratch\nT_THRESHOLD_OPEN_0    1198.67\n"
    ++ codes "MAX_OPEN_FREQ_0       500\nT_THRESHOLD_LXSTAT_0  821.79\n"
    ++ codes "MAX_STAT_FREQ_0       800\n\nFILE_SYS_TAG_1        /work\n"
    ++ codes "T_THRESHOLD_OPEN_1    1948.61\nMAX_OPEN_FREQ_1       300\n"
    ++ codes "T_THRESHOLD_LXSTAT_1  1206.11\nMAX_STAT_FREQ_1       500\n\n"
    ++ codes "FILE_SYS_TAG_2        /home\nT_THRESHOLD_OPEN_2    1248.75\n"
    ++ codes "MAX_OPEN_FREQ_2       400\nT_THRESHOLD_LXSTAT_2  731.82\n"
    ++ codes "MAX_STAT_FREQ_2       700\n"

abbrev fast : Section fixed_point
fast = record { freq = codes "2.6>"; value = pos 2000000000; body = fast_body; gap = codes "\n\n" }

abbrev slow : Section fixed_point
slow = record { freq = codes "1.4>"; value = pos 1000000000; body = slow_body; gap = codes "\n" }

abbrev two_sections : Text
two_sections = text_of fixed_point (fast ∷ slow ∷ [])

its_length : length two_sections ≡ 892
its_length = refl

abbrev config_file : File
config_file = load_file two_sections

-- The processor runs at 1 GHz: the second section.
abbrev one_ghz : ℤ
one_ghz = pos 1000000000000000000

its_tags :
    map (λ r. r.fs_tag) (records_of fixed_point slow)
    ≡ codes "/scratch" ∷ codes "/work" ∷ codes "/home" ∷ []
unfolding words records
its_tags = refl

three_servers : count_servers fixed_point one_ghz config_file ≡ some 3
unfolding count_servers load_file strn_eq
three_servers = refl

abbrev state_of_eight : State fixed_point
state_of_eight = record process { limits = replicate 8 (limit 100) }

abbrev eight_tags : List Tag
eight_tags = replicate 8 (record { name = codes "/work"; len = 5 })

abbrev shared_page : Page fixed_point
shared_page = record new_page { tags = eight_tags; limits = replicate 8 (limit 200) }

fast-WellFormed : WellFormed fixed_point fast
unfolding all_fit words
fast-WellFormed = record {
  reads = λ rest. refl;
  line = ground arith;
  no_tag = ground arith;
  no_tag_inside = ground arith;
  no_nul = ground arith;
  no_tag_behind = ground arith;
  fit = refl;
  few = omega arith;
}

slow-WellFormed : WellFormed fixed_point slow
unfolding all_fit words
slow-WellFormed = record {
  reads = λ rest. refl;
  line = ground arith;
  no_tag = ground arith;
  no_tag_inside = ground arith;
  no_nul = ground arith;
  no_tag_behind = ground arith;
  fit = refl;
  few = omega arith;
}

read_config-nearest_example :
    let text = text_of fixed_point (fast ∷ slow ∷ []) in
    let file = load_file text in
    (k : ℕ) × (t : Section fixed_point) × (get_elem? (fast ∷ slow ∷ []) k ≡ some t)
    × NoSectionNearer fixed_point
        (giga fixed_point one_ghz)
        (distance fixed_point (giga fixed_point one_ghz) t.value)
        (fast ∷ slow ∷ [])
    × (read_config fixed_point one_ghz file state_of_eight
        ≡ some (
            set_servers fixed_point
              (records_of fixed_point t)
              (record (no_servers fixed_point state_of_eight) { freq = one_ghz })))
    × (read_defaults fixed_point one_ghz file
        ≡ some (map (default_of fixed_point) (records_of fixed_point t)))
    × (count_servers fixed_point one_ghz file ≡ some (min 4 (length (records_of fixed_point t))))
read_config-nearest_example =
    read_config-nearest fixed_point one_ghz fast (slow ∷ []) state_of_eight fixed_point-Ordered
      (fast-WellFormed, (slow-WellFormed, tt)) (omega arith) (omega arith) refl

-- The limits of server 1 are set at time stamp 50; server 2 keeps those of the page.
no_file : read_defaults fixed_point one_ghz none ≡ some []
unfolding read_defaults
no_file = refl

server_one : fs_idx (codes "1") ≡ some 1
unfolding atoi
server_one = refl

abbrev new_setting : Setting fixed_point
new_setting = setting fixed_point (codes "500") (codes "1000") (codes "300") (codes "2000")

refresh-set_io_param_example :
    ((p : Page fixed_point) × (set_io_param fixed_point one_ghz none
          (codes "1" ∷ codes "500" ∷ codes "1000" ∷ codes "300" ∷ codes "2000" ∷ [])
          50
          shared_page
        ≡ some p)
      × ((refresh fixed_point p state_of_eight).active ≡ true)
      × (get_or (refresh fixed_point p state_of_eight).limits 2 (limit 0) ≡ (
          if 2 == 1
          then limits_from fixed_point one_ghz new_setting.value
          else get_or shared_page.limits 2 (limit 0))))
    × ((p : Page fixed_point) × (set_io_param fixed_point one_ghz none
            (codes "0" ∷ [])
            50
            shared_page
          ≡ some p)
        × ((refresh fixed_point p state_of_eight).active ≡ false))
    × ((p : Page fixed_point) × (set_io_param fixed_point one_ghz none
            (codes "1" ∷ [])
            50
            shared_page
          ≡ some p)
        × ((refresh fixed_point p state_of_eight).active ≡ true)
        × (get_or (refresh fixed_point p state_of_eight).limits 2 (limit 0)
            ≡ get_or shared_page.limits 2 (limit 0)))
refresh-set_io_param_example =
    refresh-set_io_param fixed_point one_ghz none [] (codes "1") (codes "500") (codes "1000")
      (codes "300") (codes "2000") 1 2 50 shared_page state_of_eight (limit 0) no_file server_one
      (omega arith) (omega arith) (λ e. cc) (λ e. cc)
      (record { tags = refl; shared = refl; own = refl })
