-- ===== src/Daemon/Logs.antt =====
-- src/server.c, the log of each file system: the line that `periodic` writes, and how
-- `Create_Chart_Reports` reads it. A line is shorter than the buffers. `%7.1lf` and the `%lf` of
-- sscanf are arguments; of `%d`, only numbers without sign below 2^31 are read here, and any other
-- one is `outside`.
pub mod Decimal
pub mod Lines
pub mod RoundTrip
pub mod Run
use ooops.Prelude.{
  ℕ, zero, suc, ◌+◌, ◌-◌, ◌*◌, ◌/◌, ◌%◌, ◌^◌, Bool, ◌&&◌, ◌||◌, Option, none, some, ℤ, pos, negsuc,
  pos_part, neg_part, sub_ℕ, List, [], ◌∷◌, ◌++◌, Text, length, replicate, ltb, leb, ◌==◌,
  if◌then◌else◌, update, codes, neg,
}
use ooops.Floats.{Floats}
use ooops.Daemon.{Daemon, Counters, for_range, periodic, max_fs_server}
use ooops.Daemon.Reports.{Row, Log}

-- The decimal digits of a number, k of them at most.
unfoldable pub digits : ℕ → ℕ → Text
digits zero n = []
digits (suc k) n =
    let front = digits k (n / 10) in
    if ltb n 10 then (b'0' + n) ∷ [] else front ++ (b'0' + n % 10) ∷ []

-- `%6d` and `%6ld`
abbrev pub pad : Text → Text
pad s = replicate (6 - length s) b' ' ++ s

unfoldable pub print_long : ℤ → Text
print_long (pos n) = pad (digits 20 n)
print_long (negsuc k) = pad (b'-' ∷ digits 20 (k + 1))

-- 64 bits as a `long int`
abbrev pub signed : ℕ → ℤ
signed n = if ltb n (2 ^ 63) then pos n else negsuc (2 ^ 64 - 1 - n)

-- Words with a blank between them, and a line feed.
abbrev pub line_of : Text → List Text → Text
line_of w [] = w ++ b'\n' ∷ []
line_of w (v ∷ vs) = w ++ b' ' ∷ line_of v vs

-- What a conversion of sscanf gives.
pub data Scan (A : Type 0) : Type 0 where
  absent : Scan A
  outside : Scan A
  got : (value : A) (rest : Text) → Scan A

abbrev pub is_blank : ℕ → Bool
is_blank c = c == b' ' || (leb 9 c && leb c 13)

abbrev pub is_digit : ℕ → Bool
is_digit c = leb b'0' c && leb c b'9'

unfoldable pub skip_blank : Text → Text
skip_blank [] = []
skip_blank (c ∷ cs) = let rest = skip_blank cs in if is_blank c then rest else c ∷ cs

unfoldable pub scan_digits : ℕ → Text → ℕ × Text
scan_digits n [] = (n, [])
scan_digits n (c ∷ cs) =
    let more = scan_digits (n * 10 + (c - b'0')) cs in if is_digit c then more else (n, c ∷ cs)

abbrev pub in_range : ℕ × Text → Scan ℕ
in_range (n, rest) = if ltb n (2 ^ 31) then Scan.got n rest else Scan.outside

abbrev pub scan_number : Text → Scan ℕ
scan_number [] = Scan.absent
scan_number (c ∷ cs) =
    if is_digit c
    then in_range (scan_digits 0 (c ∷ cs))
    else if c == b'-' || c == b'+'
    then Scan.outside
    else Scan.absent

-- `%d`
unfoldable pub scan_int : Text → Scan ℕ
scan_int s = scan_number (skip_blank s)

-- The next conversions, after this one.
abbrev pub and_then : {A : Type 0} → Scan A → (Text → Scan (List A)) → Scan (List A)
and_then Scan.absent f = Scan.absent
and_then Scan.outside f = Scan.outside
and_then (Scan.got a rest) f = elim (f rest) [
  | absent ↦ Scan.absent
  | outside ↦ Scan.outside
  | got others after ↦ Scan.got (a ∷ others) after
]

unfoldable pub scan_many : {A : Type 0} → (Text → Scan A) → ℕ → Text → Scan (List A)
scan_many item zero s = Scan.got [] s
scan_many item (suc n) s = and_then (item s) (scan_many item n)

-- `fgets`: the lines with their line feeds.
abbrev pub push : ℕ → List Text → List Text
push c [] = (c ∷ []) ∷ []
push c (l ∷ ls) = (c ∷ l) ∷ ls

unfoldable pub lines_of : Text → List Text
lines_of [] = []
lines_of (c ∷ cs) = let rest = lines_of cs in if c == b'\n' then (c ∷ []) ∷ rest else push c rest

-- The first line of a log.
abbrev pub title_words : Text
title_words =
    codes
      "time   n_open  n_open_delayed   n_stat  n_stat_delayed  dn_open dn_open_delayed  dn_stat  dn_stat_delayed"

abbrev pub log_title : Text
log_title = title_words ++ b'\n' ∷ []

module _ (fl : Floats) (print_double : fl.Double → Text) (scan_double : Text → Scan fl.Double) where
  -- `t_now` and the text of each log.
  pub record Logs : Type 0 where
    pub t_now : ℤ
    pub log_text : ℕ → Text

  -- `dn * t_inv`
  abbrev pub rate : fl.Double → ℕ → Text
  rate t_inv dn = print_double (fl.mul (fl.double (signed dn)) t_inv)

  -- `nOpen_Count` and the other counts of file system j, and their rates.
  abbrev pub sum_word : Daemon → ℕ → ℕ → Text
  sum_word d j i = print_long (signed (d.counter_sum (i * max_fs_server + j)))

  abbrev pub rate_word : ℕ → Daemon → ℕ → ℕ → Text
  rate_word interval d j i =
      rate (fl.div (fl.double (pos 1)) (fl.double (pos interval)))
        (d.delta_counter_sum (i * max_fs_server + j))

  abbrev pub four : (ℕ → Text) → List Text
  four f = f 0 ∷ f 1 ∷ f 2 ∷ f 3 ∷ []

  -- `if(t_now == 0)`
  abbrev pub last_words : ℤ → ℕ → Daemon → ℕ → List Text
  last_words (pos zero) interval d j = four (sum_word d j)
  last_words (pos (suc n)) interval d j = four (rate_word interval d j)
  last_words (negsuc n) interval d j = four (rate_word interval d j)

  -- The line of file system j.
  unfoldable pub log_line : ℤ → ℕ → Daemon → ℕ → Text
  log_line t interval d j =
      line_of (print_long t) (four (sum_word d j) ++ last_words t interval d j)

  -- The lines of `periodic`.
  unfoldable pub write_logs : ℕ → Daemon → Logs → Logs
  unfolding log_line for_range
  write_logs interval d s =
      let t = sub_ℕ (pos_part s.t_now + interval) (neg_part s.t_now) in
      record {
        t_now = t;
        log_text =
            for_range d.n_fs_server (λ j f. update f j (f j ++ log_line t interval d j)) s.log_text;
      }

  -- `periodic`
  unfoldable pub periodic_logs : ℕ → Daemon → Logs → Daemon × Logs
  unfolding write_logs periodic
  periodic_logs interval d s = (periodic d, write_logs interval (periodic d) s)

  -- The log as `main` starts it, before the first alarm.
  abbrev pub new_logs : ℕ → Logs
  new_logs interval = record { t_now = neg interval; log_text = λ j. log_title }

  -- The alarms of the main loop: what the daemon is at each of them.
  unfoldable pub run_logs : ℕ → List Daemon → Logs → Logs
  unfolding periodic_logs
  run_logs interval [] s = s
  run_logs interval (d ∷ ds) s = run_logs interval ds (periodic_logs interval d s).1

  abbrev pub row_from : List ℕ → Scan (List fl.Double) → Scan (Row fl)
  row_from ns Scan.absent = Scan.absent
  row_from ns Scan.outside = Scan.outside
  row_from (t ∷ n0 ∷ n1 ∷ n2 ∷ n3 ∷ []) (Scan.got (dn0 ∷ dn1 ∷ dn2 ∷ dn3 ∷ []) rest) =
      Scan.got
        (record {
          time = t;
          open_count = n0;
          open_delayed = n1;
          stat_count = n2;
          stat_delayed = n3;
          open_rate = dn0;
          open_delay_rate = dn1;
          stat_rate = dn2;
          stat_delay_rate = dn3;
        })
        rest
  row_from ns (Scan.got xs rest) = Scan.absent

  -- `sscanf(szLine, "%d%d%d%d%d%lf%lf%lf%lf", ...)`
  unfoldable pub read_row : Text → Scan (Row fl)
  unfolding scan_many scan_int
  read_row s = elim (scan_many scan_int 5 s) [
    | absent ↦ Scan.absent
    | outside ↦ Scan.outside
    | got ns rest ↦ row_from ns (scan_many scan_double 4 rest)
  ]

  -- A row in front.
  abbrev pub add_row : Scan (Row fl) → Option (Log fl) → Option (Log fl)
  add_row r none = none
  add_row Scan.absent (some log) = some (none ∷ log)
  add_row Scan.outside (some log) = none
  add_row (Scan.got row rest) (some log) = some (some row ∷ log)

  unfoldable pub rows_of : List Text → Option (Log fl)
  unfolding read_row
  rows_of [] = some []
  rows_of (l ∷ ls) = add_row (read_row l) (rows_of ls)

  -- The loops over the lines of a log, behind the first one.
  unfoldable pub read_log : Text → Option (Log fl)
  unfolding rows_of lines_of
  read_log s = elim (lines_of s) [ [] ↦ some [] | l ∷ ls ↦ rows_of ls ]
