-- ===== src/Daemon/Logs/Run.antt =====
-- A run of the daemon: its logs, from the start on, as they are read for the report.
use ooops.Prelude.{
  ℕ, zero, suc, ◌+◌, ◌-◌, ◌^◌, ◌<◌, ◌≤◌, ◌≡◌, refl, sym, ap, subst, ◌∙◌, true, some, ℤ, pos, negsuc,
  List, [], ◌∷◌, ◌++◌, Text, ltb, leb, length, replicate, append_cons, append_nil, arith, sub_ℕ,
  pos_part, neg_part, neg,
}
use ooops.Floats.{Floats}
use ooops.Daemon.{Daemon, periodic}
use ooops.Daemon.Reports.{Log}
use ooops.Daemon.Logs.{
  digits, print_long, Scan, lines_of, Logs, log_line, four, sum_word, rate_word, last_words,
  write_logs, run_logs, new_logs, log_title, title_words, read_log,
}
use ooops.Daemon.Logs.Decimal.{AllDigits, digits-AllDigits}
use ooops.Daemon.Logs.Lines.{
  OneLine, AllOneLine, OneLine-append, IsEnded, line_of-IsEnded, lines_of-line_of,
}
use ooops.Daemon.Logs.RoundTrip.{
  Documented, IsSmall, row_at, behind, log_line-row_at, read_log-behind, for_range-update,
}

AllDigits-OneLine : (xs : Text) → AllDigits xs → OneLine xs
AllDigits-OneLine [] a = tt
AllDigits-OneLine (x ∷ xs) a =
    let d = a.0 in ((λ e. absurd (ground arith)), AllDigits-OneLine xs a.1)

blanks-OneLine : (n : ℕ) → OneLine (replicate n b' ')
blanks-OneLine zero = tt
blanks-OneLine (suc n) = ((λ e. cc), blanks-OneLine n)

pub print_long-OneLine : (z : ℤ) → OneLine (print_long z)
unfolding print_long
print_long-OneLine (pos n) =
    OneLine-append (replicate (6 - length (digits 20 n)) b' ') (digits 20 n) (blanks-OneLine _)
      (AllDigits-OneLine (digits 20 n) (digits-AllDigits 20 n))
print_long-OneLine (negsuc n) =
    OneLine-append (replicate (6 - length (b'-' ∷ digits 20 (n + 1))) b' ')
      (b'-' ∷ digits 20 (n + 1)) (blanks-OneLine _)
      ((λ e. cc), AllDigits-OneLine (digits 20 (n + 1)) (digits-AllDigits 20 (n + 1)))

sub_ℕ_pos : (a b : ℕ) → b ≤ a → sub_ℕ a b ≡ pos (a - b)
sub_ℕ_pos a b h = let le : leb b a ≡ true = ground arith in rw le refl

first_time :
    (interval : ℕ) → sub_ℕ (pos_part (neg interval) + interval) (neg_part (neg interval)) ≡ pos 0
first_time zero = refl
first_time (suc n) = sub_ℕ_pos (0 + suc n) (suc n) (omega arith) ∙ ap pos (omega arith)

module _ (fl : Floats) (print_double : fl.Double → Text) (scan_double : Text → Scan fl.Double)
    (rounded : fl.Double → fl.Double)
    (documented : Documented fl print_double scan_double rounded) where
  with_rates :
      (interval : ℕ) (d : Daemon) (j : ℕ)
      → AllOneLine (
          four fl print_double scan_double (sum_word fl print_double scan_double d j)
          ++ four fl print_double scan_double (rate_word fl print_double scan_double interval d j))
  with_rates interval d j =
      let w : (i : ℕ) → OneLine (sum_word fl print_double scan_double d j i) =
        λ i. print_long-OneLine _ in
      let r : (i : ℕ) → OneLine (rate_word fl print_double scan_double interval d j i) =
        λ i. documented.one_line _ in
      (w 0, (w 1, (w 2, (w 3, (r 0, (r 1, (r 2, (r 3, tt))))))))

  words-AllOneLine :
      (t : ℤ) (interval : ℕ) (d : Daemon) (j : ℕ)
      → AllOneLine (
          four fl print_double scan_double (sum_word fl print_double scan_double d j)
          ++ last_words fl print_double scan_double t interval d j)
  words-AllOneLine (pos zero) interval d j =
      let w : (i : ℕ) → OneLine (sum_word fl print_double scan_double d j i) =
        λ i. print_long-OneLine _ in
      (w 0, (w 1, (w 2, (w 3, (w 0, (w 1, (w 2, (w 3, tt))))))))
  words-AllOneLine (pos (suc n)) interval d j = with_rates interval d j
  words-AllOneLine (negsuc n) interval d j = with_rates interval d j

  log_line-lines :
      (t : ℤ) (interval : ℕ) (d : Daemon) (j : ℕ) (s : Text)
      → (lines_of (log_line fl print_double scan_double t interval d j)
          ≡ log_line fl print_double scan_double t interval d j ∷ [])
        × IsEnded (s ++ log_line fl print_double scan_double t interval d j)
  unfolding log_line
  log_line-lines t interval d j s =
      let words =
        four fl print_double scan_double (sum_word fl print_double scan_double d j)
        ++ last_words fl print_double scan_double t interval d j in
      (
        lines_of-line_of (print_long t) words (print_long-OneLine t)
            (words-AllOneLine t interval d j),
        line_of-IsEnded s (print_long t) words,
      )

  -- The rows of the alarms, the first one at time m.
  abbrev pub run_rows : ℕ → ℕ → List Daemon → ℕ → Log fl
  run_rows m interval [] j = []
  run_rows m interval (d ∷ ds) j =
      some (row_at fl print_double scan_double rounded m interval (periodic d) j)
      ∷ run_rows (m + interval) interval ds j

  -- At each alarm the file system exists, its counts and the time are less than 2^31.
  abbrev pub AllReady : ℕ → ℕ → List Daemon → ℕ → Type 0
  AllReady m interval [] j = Unit {0}
  AllReady m interval (d ∷ ds) j =
      ((m < 2 ^ 31)
        × (j < (periodic d).n_fs_server)
        × IsSmall fl print_double scan_double rounded (periodic d) j)
      × AllReady (m + interval) interval ds j

  -- One alarm: the time, and the log of one file system.
  write_logs_line :
      (interval : ℕ) (d : Daemon) (s : Logs fl print_double scan_double) (j m : ℕ)
      → sub_ℕ (pos_part s.t_now + interval) (neg_part s.t_now) ≡ pos m
      → j < d.n_fs_server
      → ((write_logs fl print_double scan_double interval d s).t_now ≡ pos m)
        × ((write_logs fl print_double scan_double interval d s).log_text j
            ≡ s.log_text j ++ log_line fl print_double scan_double (pos m) interval d j)
  unfolding write_logs
  write_logs_line interval d s j m time lt =
      let t = sub_ℕ (pos_part s.t_now + interval) (neg_part s.t_now) in
      let inside : ltb j d.n_fs_server ≡ true = ground arith in
      (
        time,
        for_range-update fl print_double scan_double rounded d.n_fs_server
              (log_line fl print_double scan_double t interval d) s.log_text j
            ∙ rw inside (
                ap (λ x. s.log_text j ++ log_line fl print_double scan_double x interval d j) time),
      )

  next_time :
      (z : ℤ) (m interval : ℕ)
      → z ≡ pos m
      → sub_ℕ (pos_part z + interval) (neg_part z) ≡ pos (m + interval)
  next_time z m interval e =
      ap (λ x. sub_ℕ (pos_part x + interval) (neg_part x)) e
      ∙ sub_ℕ_pos (m + interval) 0 (omega arith)
      ∙ ap pos (omega arith)

  -- The line of an alarm is read as its row, behind the rows before.
  read_log-line :
      (m interval : ℕ) (d : Daemon) (j : ℕ) (text : Text) (rows : Log fl)
      → m < 2 ^ 31
      → IsSmall fl print_double scan_double rounded d j
      → IsEnded text
      → read_log fl print_double scan_double text ≡ some rows
      → read_log fl print_double scan_double
          (text ++ log_line fl print_double scan_double (pos m) interval d j)
        ≡ some (rows ++ some (row_at fl print_double scan_double rounded m interval d j) ∷ [])
  read_log-line m interval d j text rows h small (xs, e) read =
      let line = log_line fl print_double scan_double (pos m) interval d j in
      let row = row_at fl print_double scan_double rounded m interval d j in
      ap (λ x. read_log fl print_double scan_double (x ++ line)) e
      ∙ read_log-behind fl print_double scan_double rounded xs line row (b'\n' ∷ [])
          (log_line-lines (pos m) interval d j []).0
          (log_line-row_at fl print_double scan_double rounded documented m interval d j h small)
      ∙ ap
          (λ x.
            behind fl print_double scan_double rounded row (read_log fl print_double scan_double x))
          (sym e)
      ∙ ap (behind fl print_double scan_double rounded row) read

  run_logs-run_rows :
      (interval : ℕ) (ds : List Daemon) (j m : ℕ) (s : Logs fl print_double scan_double)
      (rows : Log fl)
      → sub_ℕ (pos_part s.t_now + interval) (neg_part s.t_now) ≡ pos m
      → IsEnded (s.log_text j)
      → read_log fl print_double scan_double (s.log_text j) ≡ some rows
      → AllReady m interval ds j
      → read_log fl print_double scan_double
          ((run_logs fl print_double scan_double interval ds s).log_text j)
        ≡ some (rows ++ run_rows m interval ds j)
  unfolding run_logs
  run_logs-run_rows interval [] j m s rows time ended read ready =
      read ∙ ap some (sym (append_nil rows))
  run_logs-run_rows interval (d ∷ ds) j m s rows time ended read ready =
      let ((h, lt, small), later) = ready in
      let now = periodic d in
      let line = log_line fl print_double scan_double (pos m) interval now j in
      let (at, text) = write_logs_line interval now s j m time lt in
      let written = write_logs fl print_double scan_double interval now s in
      run_logs-run_rows interval ds j (m + interval) written
        (rows ++ some (row_at fl print_double scan_double rounded m interval now j) ∷ [])
        (next_time written.t_now m interval at)
        (subst IsEnded {x = s.log_text j ++ line} {y = written.log_text j} (sym text)
          (log_line-lines (pos m) interval now j (s.log_text j)).1)
        (ap (read_log fl print_double scan_double) text
          ∙ read_log-line m interval now j (s.log_text j) rows h small ended read)
        later
      ∙ ap some (
          append_cons rows (some (row_at fl print_double scan_double rounded m interval now j))
            (run_rows (m + interval) interval ds j))

  read_title : read_log fl print_double scan_double log_title ≡ some []
  unfolding read_log
  read_title = refl

  -- The daemon starts the log of each file system and writes a line at each alarm; sscanf reads
  -- with `%lf` what `%7.1lf` prints, rounded, and what `%6ld` prints. Where at each alarm the file
  -- system exists and its counts and the time are less than 2^31, the log is read for the report
  -- as one row for each alarm, in order: with the counts of that alarm, and in the place of the
  -- rates what the daemon then holds in `delta_CounterSum`, over the interval between two alarms,
  -- rounded; in the first row the counts stand there again.
  pub read_log-run_logs :
      (interval : ℕ) (ds : List Daemon) (j : ℕ)
      → AllReady 0 interval ds j
      → read_log fl print_double scan_double (
          (run_logs fl print_double scan_double interval ds
              (new_logs fl print_double scan_double interval)).log_text
            j)
        ≡ some (run_rows 0 interval ds j)
  read_log-run_logs interval ds j ready =
      run_logs-run_rows interval ds j 0 (new_logs fl print_double scan_double interval) []
        (first_time interval) (title_words, refl) read_title ready
