-- ===== src/Daemon/Charts/Outcome.antt =====
-- What a run of the daemon leaves at its end: the pages of all file systems.
use ooops.Prelude.{
  ℕ, zero, suc, ◌+◌, ◌<◌, ◌≡◌, refl, ap, ◌∙◌, Bool, true, Option, none, some, List, [], ◌∷◌, Text,
  length, get_elem?, arith,
}
use ooops.Floats.{Floats}
use ooops.Daemon.{Daemon}
use ooops.Daemon.Reports.{Log}
use ooops.Daemon.Logs.{Scan, run_logs, new_logs}
use ooops.Daemon.Logs.RoundTrip.{Documented}
use ooops.Daemon.Logs.Run.{run_rows, AllReady, read_log-run_logs}
use ooops.Daemon.Charts.Page.{page_of, write_page-page_of}
use ooops.Daemon.Charts.Job.{
  Job, log_name, report_path, finished, missing_log, read_logs, write_reports,
}

-- One element for each name.
abbrev pub numbered {ℓ} : {A : Type ℓ} → (ℕ → A) → ℕ → List Text → List A
numbered f i [] = []
numbered f i (name ∷ names) = f i ∷ numbered f (suc i) names

module _ {ℓ} {A : Type ℓ} (f : ℕ → A) where
  get_elem?-numbered :
      (k i : ℕ) (names : List Text)
      → k < length names
      → get_elem? (numbered f i names) k ≡ some (f (i + k))
  get_elem?-numbered k i [] h = absurd (omega arith)
  get_elem?-numbered zero i (name ∷ names) h = ap (λ n. some (f n)) (omega arith)
  get_elem?-numbered (suc k) i (name ∷ names) h =
      get_elem?-numbered k (suc i) names (omega arith) ∙ ap (λ n. some (f n)) (omega arith)

  pub get_elem?-numbered_all :
      (k : ℕ) (names : List Text) → k < length names → get_elem? (numbered f 0 names) k ≡ some (f k)
  get_elem?-numbered_all k names h =
      get_elem?-numbered k 0 names h ∙ ap (λ n. some (f n)) (omega arith)

  pub numbered_bound :
      (k i : ℕ) (names : List Text) (a : A)
      → get_elem? (numbered f i names) k ≡ some a
      → k < length names
  numbered_bound k i [] a h = absurd (cc)
  numbered_bound zero i (name ∷ names) a h = omega arith
  numbered_bound (suc k) i (name ∷ names) a h = omega (arith, numbered_bound k (suc i) names a h)

module _ (fl : Floats) (print_double : fl.Double → Text) (scan_double : Text → Scan fl.Double)
    (rounded : fl.Double → fl.Double) (documented : Documented fl print_double scan_double rounded)
    (fopen_read : Text → Option Text) (fopen_write : Text → Bool) where
  -- From file system i on: its log is the one that the daemon has written, its counts are small at
  -- each alarm, and its page can be written.
  abbrev pub AllLogged :
      Job fl print_double scan_double fopen_read fopen_write
      → ℕ
      → List Daemon
      → ℕ
      → List Text
      → Type 0
  AllLogged job interval ds i [] = Unit {0}
  AllLogged job interval ds i (name ∷ names) =
      ((fopen_read (log_name job.job_id name)
          ≡ some (
              (run_logs fl print_double scan_double interval ds
                  (new_logs fl print_double scan_double interval)).log_text
                i))
        × AllReady fl print_double scan_double rounded documented 0 interval ds i
        × (fopen_write (report_path fl print_double scan_double fopen_read fopen_write job name)
            ≡ true))
      × AllLogged job interval ds (suc i) names

  -- The page of each file system, from i on, with a row for each alarm.
  abbrev pub pages :
      Job fl print_double scan_double fopen_read fopen_write
      → Text
      → ℕ
      → List Daemon
      → ℕ
      → List Text
      → List (Text × Text)
  pages job href interval ds i [] = []
  pages job href interval ds i (name ∷ names) =
      (
        report_path fl print_double scan_double fopen_read fopen_write job name,
        page_of fl print_double href name
            (run_rows fl print_double scan_double rounded documented 0 interval ds i),
      )
      ∷ pages job href interval ds (suc i) names

  abbrev pub rows : ℕ → List Daemon → ℕ → Log fl
  rows interval ds i = run_rows fl print_double scan_double rounded documented 0 interval ds i

  pub missing_log-none :
      (job : Job fl print_double scan_double fopen_read fopen_write) (interval : ℕ)
      (ds : List Daemon) (i : ℕ) (names : List Text)
      → AllLogged job interval ds i names
      → missing_log fl print_double scan_double fopen_read fopen_write job.job_id names ≡ none
  unfolding missing_log
  missing_log-none job interval ds i [] h = refl
  missing_log-none job interval ds i (name ∷ names) h =
      rw (missing_log, h.0.0) (missing_log-none job interval ds (suc i) names h.1)

  pub read_logs-rows :
      (job : Job fl print_double scan_double fopen_read fopen_write) (interval : ℕ)
      (ds : List Daemon) (i : ℕ) (names : List Text)
      → AllLogged job interval ds i names
      → read_logs fl print_double scan_double fopen_read fopen_write job.job_id names
        ≡ some (numbered (rows interval ds) i names)
  unfolding read_logs
  read_logs-rows job interval ds i [] h = refl
  read_logs-rows job interval ds i (name ∷ names) h =
      rw
        (
          read_logs,
          h.0.0,
          read_log-run_logs fl print_double scan_double rounded documented interval ds i h.0.1,
          read_logs-rows job interval ds (suc i) names h.1,
        )
        refl

  pub write_reports-pages :
      (job : Job fl print_double scan_double fopen_read fopen_write) (href message : Text)
      (interval : ℕ) (ds : List Daemon) (i : ℕ) (names : List Text)
      → AllLogged job interval ds i names
      → write_reports fl print_double scan_double fopen_read fopen_write job href message names
          (numbered (rows interval ds) i names)
        ≡ finished (pages job href interval ds i names) message
  unfolding write_reports
  write_reports-pages job href message interval ds i [] h = refl
  write_reports-pages job href message interval ds i (name ∷ names) h =
      rw
        (
          write_reports,
          h.0.2,
          write_reports-pages job href message interval ds (suc i) names h.1,
          write_page-page_of fl print_double href name (rows interval ds i),
        )
        refl
