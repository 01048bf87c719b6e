-- ===== src/Daemon/Charts/Job.antt =====
-- src/server.c, `Create_Trimemd_Name` and all of `Create_Chart_Reports`: what is written for a job
-- at its end. Which files can be read and written is an argument; the texts fit the buffers.
use ooops.Prelude.{
  ℕ, ◌-◌, Bool, Option, none, some, List, [], ◌∷◌, ◌++◌, map, Text, length, get_elem?, get_or, take,
  ltb, ◌==◌, if◌then◌else◌, codes,
}
use ooops.Floats.{Floats}
use ooops.Daemon.Reports.{Log, high_io}
use ooops.Daemon.Logs.{digits, Scan, read_log}
use ooops.Daemon.Charts.{write_page}

-- `if(szFSNameTrimmed[i][k] == '/') szFSNameTrimmed[i][k] = 0`
unfoldable pub cut_at : ℕ → Text → Text
cut_at k s = elim (get_elem? s k) [ none ↦ s | some c ↦ if c == b'/' then take k s else s ]

abbrev pub behind_slash : Text → Text
behind_slash [] = []
behind_slash (c ∷ cs) = if c == b'/' then cs else c ∷ cs

-- The name of a tag. A tag of one byte or none is tested before the beginning of the name: `none`.
unfoldable pub trim_tag : Text → Option Text
trim_tag tag =
    let n = length tag in
    if ltb n 2 then none else some (cut_at (n - 2) (cut_at (n - 1) (behind_slash tag)))

-- `Create_Trimemd_Name`
unfoldable pub create_trimmed_name : List Text → Option (List Text)
unfolding trim_tag
create_trimmed_name [] = some []
create_trimmed_name (tag ∷ tags) = elim (trim_tag tag) [
  | none ↦ none
  | some name ↦ elim (create_trimmed_name tags) [ none ↦ none | some names ↦ some (name ∷ names) ]
]

abbrev pub ooops_dir : Text
ooops_dir = codes "/dev/shm/ooops/"

-- `szReportName` and `szLogName`
abbrev pub report_name : Text → Text → Text
report_name job_id name = codes "log_ooops_" ++ name ++ codes "_" ++ job_id ++ codes ".html"

abbrev pub log_name : Text → Text → Text
log_name job_id name = ooops_dir ++ codes "log_ooops_" ++ name ++ codes "_" ++ job_id

-- `szHrefLine`
unfoldable pub href_line : Text → List Text → Text
href_line job_id [] = []
href_line job_id (name ∷ names) =
    (codes "<a class=\"mytxt\" href=\""
      ++ report_name job_id name
      ++ codes "\">/"
      ++ name
      ++ codes "</a> ")
    ++ href_line job_id names

-- `szAllHtmlFile`
unfoldable pub all_html_file : Text → List Text → Text
all_html_file job_id [] = []
all_html_file job_id (name ∷ names) =
    (report_name job_id name ++ codes "\n") ++ all_html_file job_id names

abbrev pub fail_message : Text → Text
fail_message name = codes "Fail to open file " ++ name ++ codes "\nQuit\n"

-- How `Create_Chart_Reports` ends: with a message on the terminal, after these files.
pub data Ended : Type 0 where
  finished : (files : List (Text × Text)) (message : Text) → Ended
  -- `exit(1)`
  quit : (files : List (Text × Text)) (message : Text) → Ended

module _ (fl : Floats) (print_double : fl.Double → Text) (scan_double : Text → Scan fl.Double)
    (fopen_read : Text → Option Text) (fopen_write : Text → Bool) where
  -- The variables of the daemon.
  pub record Job : Type 0 where
    pub job_id : Text
    pub submit_dir : Text
    pub n_call_threshold : ℕ
    pub n_call_per_second_threshold : fl.Double

  -- The first log that cannot be opened.
  unfoldable pub missing_log : Text → List Text → Option Text
  missing_log job_id [] = none
  missing_log job_id (name ∷ names) = elim (fopen_read (log_name job_id name)) [
    | none ↦ some (log_name job_id name)
    | some text ↦ missing_log job_id names
  ]

  abbrev pub read_file : Option Text → Option (Log fl)
  read_file none = none
  read_file (some text) = read_log fl print_double scan_double text

  abbrev pub put_log : Option (Log fl) → Option (List (Log fl)) → Option (List (Log fl))
  put_log none logs = none
  put_log (some log) none = none
  put_log (some log) (some logs) = some (log ∷ logs)

  -- The logs of the file systems; `none` where a line is outside of what is read.
  unfoldable pub read_logs : Text → List Text → Option (List (Log fl))
  read_logs job_id [] = some []
  read_logs job_id (name ∷ names) =
      put_log (read_file (fopen_read (log_name job_id name))) (read_logs job_id names)

  -- The page of one file system, and its file.
  abbrev pub report_path : Job → Text → Text
  report_path job name = job.submit_dir ++ codes "/" ++ report_name job.job_id name

  abbrev pub page_file : Job → Text → Text → Log fl → Text × Text
  page_file job href name log =
      (report_path job name, (write_page fl print_double href name log).bytes)

  abbrev pub put_file : Text × Text → Ended → Ended
  put_file f (Ended.finished files message) = Ended.finished (f ∷ files) message
  put_file f (Ended.quit files message) = Ended.quit (f ∷ files) message

  -- The loop that writes the pages; behind it the message.
  unfoldable pub write_reports : Job → Text → Text → List Text → List (Log fl) → Ended
  unfolding write_page
  write_reports job href message [] logs = Ended.finished [] message
  write_reports job href message (name ∷ names) [] = Ended.finished [] message
  write_reports job href message (name ∷ names) (log ∷ logs) =
      let rest = write_reports job href message names logs in
      if fopen_write (report_path job name)
      then put_file (page_file job href name log) rest
      else Ended.quit [] (fail_message (report_path job name))

  unfoldable pub warning : Job → List Text → ℕ → ℕ → Text
  unfolding all_html_file
  warning job names idx n_count_max =
      codes "Warning: It seems that your job "
      ++ job.job_id
      ++ codes " might have intensive IO ("
      ++ digits 20 n_count_max
      ++ codes " open/stat calls) on /"
      ++ get_or names idx []
      ++ codes ".\nPlease check the following ooops reports for details.\n"
      ++ all_html_file job.job_id names
      ++ codes "under directory "
      ++ job.submit_dir
      ++ codes "\n"

  -- /dev/shm/ooops/high_io
  abbrev pub high_io_name : Text
  high_io_name = ooops_dir ++ codes "high_io"

  abbrev pub high_io_file : List Text → ℕ → ℕ → Text × Text
  high_io_file names idx n_count_max = (
    high_io_name,
    codes "/" ++ get_or names idx [] ++ codes "\n" ++ digits 20 n_count_max ++ codes "\n",
  )

  -- What follows the choice of the busiest file system.
  unfoldable pub report_all : Job → List Text → List (Log fl) → Option (ℕ × ℕ) → Ended
  unfolding write_reports href_line warning
  report_all job names logs none = Ended.finished [] []
  report_all job names logs (some (idx, n_count_max)) =
      if fopen_write high_io_name
      then put_file (high_io_file names idx n_count_max) (
          write_reports job (href_line job.job_id names) (warning job names idx n_count_max) names
            logs)
      else Ended.quit [] (codes "Fail to open file /dev/shm/ooops/high_io.\nQuit\n")

  -- `Create_Chart_Reports`; `none` where a log has numbers that are not read here, or counts that
  -- were never set are compared.
  unfoldable pub create_chart_reports : Job → List Text → Option Ended
  unfolding missing_log read_logs high_io report_all
  create_chart_reports job names = elim (missing_log job.job_id names) [
    | some name ↦ some (Ended.quit [] (fail_message name))
    | none ↦ elim (read_logs job.job_id names) [
      | none ↦ none
      | some logs ↦
          elim (high_io fl job.n_call_threshold job.n_call_per_second_threshold (map some logs)) [
            | none ↦ none
            | some top ↦ some (report_all job names logs top)
          ]
    ]
  ]

  -- `main`: the names are made at the start, and the reports where SIGTERM has come.
  unfoldable pub end_of_job : Job → List Text → Option Ended
  unfolding create_trimmed_name create_chart_reports
  end_of_job job tags = elim (create_trimmed_name tags) [
    | none ↦ none
    | some names ↦ create_chart_reports job names
  ]
