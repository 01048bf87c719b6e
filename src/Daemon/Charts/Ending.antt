-- ===== src/Daemon/Charts/Ending.antt =====
-- The reports of a job, by the counters of the daemon at its alarms.
use ooops.Prelude.{
  ℕ, suc, ◌+◌, ◌*◌, ◌≤◌, ◌<◌, ◌≡◌, refl, sym, ap, ◌∙◌, Bool, true, false, ◌&&◌, Option, none, some,
  List, [], ◌∷◌, ◌++◌, map, Text, length, leb, if◌then◌else◌, arith,
}
use ooops.Floats.{Floats}
use ooops.Daemon.{Daemon, periodic, max_fs_server}
use ooops.Daemon.Reports.{Log, last_counts, peak, zero_rate, high_io}
use ooops.Daemon.Reports.Busiest.{AllCounted, highest, high_io-busiest}
use ooops.Daemon.Logs.{Scan}
use ooops.Daemon.Logs.RoundTrip.{Documented}
use ooops.Daemon.Logs.Run.{run_rows}
use ooops.Daemon.Charts.Job.{
  Job, href_line, Ended, finished, warning, high_io_name, high_io_file, report_all,
  create_chart_reports, end_of_job,
}
use ooops.Daemon.Charts.Names.{AllTags, create_trimmed_name-AllTags}
use ooops.Daemon.Charts.Outcome.{
  numbered, get_elem?-numbered_all, numbered_bound, AllLogged, pages, rows, missing_log-none,
  read_logs-rows, write_reports-pages,
}

module _ (fl : Floats) (print_double : fl.Double → Text) (scan_double : Text → Scan fl.Double)
    (rounded : fl.Double → fl.Double) (documented : Documented fl print_double scan_double rounded)
    (fopen_read : Text → Option Text) (fopen_write : Text → Bool) where
  -- The opens and the stats of a file system at an alarm.
  abbrev pub counts_at : Daemon → ℕ → ℕ × ℕ
  counts_at d i = (
    (periodic d).counter_sum (0 * max_fs_server + i),
    (periodic d).counter_sum (2 * max_fs_server + i),
  )

  last_counts-run_rows :
      (m interval : ℕ) (ds : List Daemon) (d : Daemon) (i : ℕ) (last : Option (ℕ × ℕ))
      → last_counts fl
          (run_rows fl print_double scan_double rounded documented m interval (ds ++ d ∷ []) i)
          last
        ≡ some (counts_at d i)
  unfolding last_counts
  last_counts-run_rows m interval [] d i last = refl
  last_counts-run_rows m interval (e ∷ ds) d i last =
      last_counts-run_rows (m + interval) interval ds d i (some (counts_at e i))

  rows-AllCounted :
      (interval : ℕ) (ds : List Daemon) (d : Daemon) (i : ℕ) (names : List Text)
      → AllCounted fl
          (numbered
            (rows fl print_double scan_double rounded documented fopen_read fopen_write interval
              (ds ++ d ∷ []))
            i
            names)
          (numbered (counts_at d) i names)
  rows-AllCounted interval ds d i [] = tt
  rows-AllCounted interval ds d i (name ∷ names) =
      (last_counts-run_rows 0 interval ds d i none, rows-AllCounted interval ds d (suc i) names)

  -- The end of the daemon where reports are made for file system k.
  abbrev pub reported :
      Job fl print_double scan_double fopen_read fopen_write
      → ℕ
      → List Daemon
      → List Text
      → ℕ
      → ℕ
      → Ended
  reported job interval ds names k n_count_max =
      finished
        (high_io_file fl print_double scan_double fopen_read fopen_write names k n_count_max
          ∷ pages fl print_double scan_double rounded documented fopen_read fopen_write job
              (href_line job.job_id names) interval ds 0 names)
        (warning fl print_double scan_double fopen_read fopen_write job names k n_count_max)

  create_chart_reports-top :
      (job : Job fl print_double scan_double fopen_read fopen_write) (interval : ℕ)
      (ds : List Daemon) (names : List Text) (k n_count_max : ℕ) (made : Bool)
      → AllLogged fl print_double scan_double rounded documented fopen_read fopen_write job interval
          ds 0 names
      → fopen_write (high_io_name fl print_double scan_double fopen_read fopen_write) ≡ true
      → high_io fl job.n_call_threshold job.n_call_per_second_threshold (
          map some (
            numbered
              (rows fl print_double scan_double rounded documented fopen_read fopen_write interval
                ds)
              0
              names))
        ≡ some (if made then some (k, n_count_max) else none)
      → create_chart_reports fl print_double scan_double fopen_read fopen_write job names
        ≡ some (if made then reported job interval ds names k n_count_max else finished [] [])
  unfolding create_chart_reports report_all
  create_chart_reports-top job interval ds names k n_count_max true h write top =
      rw
        (
          create_chart_reports,
          missing_log-none fl print_double scan_double rounded documented fopen_read fopen_write job
              interval ds 0 names h,
          read_logs-rows fl print_double scan_double rounded documented fopen_read fopen_write job
              interval ds 0 names h,
          top,
          report_all,
          write,
          write_reports-pages fl print_double scan_double rounded documented fopen_read fopen_write
              job _ _ interval ds 0 names h,
        )
        refl
  create_chart_reports-top job interval ds names k n_count_max false h write top =
      rw
        (
          create_chart_reports,
          missing_log-none fl print_double scan_double rounded documented fopen_read fopen_write job
              interval ds 0 names h,
          read_logs-rows fl print_double scan_double rounded documented fopen_read fopen_write job
              interval ds 0 names h,
          top,
          report_all,
        )
        refl

  -- The daemon has had the alarms `ds` and then `d`; at each of them every file system is counted
  -- with counts and a time less than 2^31; the names are those of the tags, `/name` or `/name/`. The
  -- log of each name is the one that the daemon has written, high_io and the pages can be opened,
  -- and some file system has calls. Then there is a file system k that none exceeds in the higher of
  -- its opens and stats at the last alarm. Where that count reaches the threshold of counts and the
  -- highest rate in its log that of rates, the daemon writes high_io with the name of k and the
  -- count, and for each file system the page with one row for each alarm, with a comma between the
  -- rows and none behind the last one; otherwise it writes nothing.
  pub end_of_job-run_logs :
      (job : Job fl print_double scan_double fopen_read fopen_write) (interval : ℕ)
      (ds : List Daemon) (d : Daemon) (tags names : List Text) (j : ℕ)
      → AllTags tags names
      → AllLogged fl print_double scan_double rounded documented fopen_read fopen_write job interval
          (ds ++ d ∷ [])
          0
          names
      → fopen_write (high_io_name fl print_double scan_double fopen_read fopen_write) ≡ true
      → j < length names
      → 0 < highest fl (counts_at d j)
      → (k : ℕ) × (k < length names)
        × ((i : ℕ) → i < length names → highest fl (counts_at d i) ≤ highest fl (counts_at d k))
        × (end_of_job fl print_double scan_double fopen_read fopen_write job tags
            ≡ some (
                if leb job.n_call_threshold (highest fl (counts_at d k))
                  && fl.ge
                      (peak fl
                        (run_rows fl print_double scan_double rounded documented 0 interval
                          (ds ++ d ∷ [])
                          k)
                        (zero_rate fl))
                      job.n_call_per_second_threshold
                then reported job interval (ds ++ d ∷ []) names k (highest fl (counts_at d k))
                else finished [] []))
  unfolding end_of_job
  end_of_job-run_logs job interval ds d tags names j tagged h write inside busy =
      let (k, c, l, at, last, most, top) =
        high_io-busiest fl job.n_call_threshold job.n_call_per_second_threshold
          (numbered
            (rows fl print_double scan_double rounded documented fopen_read fopen_write interval
              (ds ++ d ∷ []))
            0 names)
          (numbered (counts_at d) 0 names) j (counts_at d j) (rows-AllCounted interval ds d 0 names)
          (get_elem?-numbered_all (counts_at d) j names inside) busy in
      let lt =
        numbered_bound
          (rows fl print_double scan_double rounded documented fopen_read fopen_write interval
            (ds ++ d ∷ []))
          k 0 names l at in
      let same_log =
        sym at
        ∙ get_elem?-numbered_all
            (rows fl print_double scan_double rounded documented fopen_read fopen_write interval
              (ds ++ d ∷ []))
            k names lt in
      let log : l
          ≡ rows fl print_double scan_double rounded documented fopen_read fopen_write interval
              (ds ++ d ∷ []) k =
        cc in
      let same_counts =
        sym last
        ∙ ap (λ x. last_counts fl x none) log
        ∙ last_counts-run_rows 0 interval ds d k none in
      let counts : c ≡ counts_at d k = cc in
      (
        k,
        lt,
        λ i less. omega (
          arith,
          most i (counts_at d i) (get_elem?-numbered_all (counts_at d) i names less),
          ap (highest fl) counts,
        ),
        rw (end_of_job, create_trimmed_name-AllTags tags names tagged)
            (create_chart_reports-top job interval (ds ++ d ∷ []) names k
              (highest fl (counts_at d k)) _ h write
              (top
                ∙ ap (λ m. some (choice k m c)) log
                ∙ ap
                    (λ e. some (
                      choice k
                        (rows fl print_double scan_double rounded documented fopen_read fopen_write
                          interval (ds ++ d ∷ []) k)
                        e))
                    counts)),
      )
    where
      choice : ℕ → Log fl → ℕ × ℕ → Option (ℕ × ℕ)
      choice k l c =
          if leb job.n_call_threshold (highest fl c)
            && fl.ge (peak fl l (zero_rate fl)) job.n_call_per_second_threshold
          then some (k, highest fl c)
          else none
