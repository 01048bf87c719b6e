-- ===== src/Tests/Charts.antt =====
-- The pages of the job whose logs are those of the two alarms.
use ooops.Prelude.{
  ℕ, ◌≡◌, ◌≤◌, ◌<◌, refl, inr, Bool, true, ◌&&◌, Option, none, some, [], ◌∷◌, Text, leb,
  if◌then◌else◌, codes, str_eq, pos, arith,
}
use ooops.Daemon.{periodic}
use ooops.Daemon.Reports.{Log, peak, zero_rate}
use ooops.Daemon.Reports.Busiest.{highest}
use ooops.Daemon.Logs.{digits, run_logs, new_logs}
use ooops.Daemon.Logs.Run.{run_rows}
use ooops.Daemon.Charts.{
  print_table, print_rows, fprintf, back_two, new_stream, count_cells, rate_cells,
}
use ooops.Daemon.Charts.Job.{
  Job, cut_at, trim_tag, create_trimmed_name, log_name, finished, end_of_job,
}
use ooops.Daemon.Charts.Outcome.{AllLogged}
use ooops.Daemon.Charts.Ending.{counts_at, reported, end_of_job-run_logs}
use ooops.Tests.Fixed.{fixed_point}
use ooops.Tests.LogRuns.{
  print_double, scan_double, rounded, documented, alarm, alarms, all_ready, run_row,
}

trimmed :
    create_trimmed_name (codes "/scratch" ∷ codes "/work/" ∷ codes "home1" ∷ [])
    ≡ some (codes "scratch" ∷ codes "work" ∷ codes "home1" ∷ [])
unfolding create_trimmed_name trim_tag cut_at
trimmed = refl

-- A tag without the first slash loses its last two bytes if one before the last is a slash.
trimmed_short : trim_tag (codes "home/1") ≡ some (codes "home")
unfolding trim_tag cut_at
trimmed_short = refl

abbrev rows : Log fixed_point
rows =
    some (run_row 0 7 3 (pos 7000000000) (pos 3000000000))
    ∷ none
    ∷ some (run_row 10 47 13 (pos 4000000000) (pos 0))
    ∷ []

table_of_rows :
    (print_table fixed_point print_double
      (codes "['t']")
      (count_cells fixed_point print_double)
      rows
      new_stream).bytes
    ≡ codes "['t'],\n[0,7,0,3,0],\n[10,47,0,13,0]\n]);\n"
unfolding print_table print_rows fprintf back_two count_cells digits
table_of_rows = refl

-- Without a row the comma of the first line is taken back.
table_of_none :
    (print_table fixed_point print_double
      (codes "['t']")
      (rate_cells fixed_point print_double)
      []
      new_stream).bytes
    ≡ codes "['t']\n]);\n"
unfolding print_table print_rows fprintf back_two
table_of_none = refl

abbrev job_number : Text
job_number = codes "4711"

abbrev work : Text
work = codes "work"

abbrev fopen_read : Text → Option Text
fopen_read name =
    if str_eq name (log_name job_number work)
    then some (
        (run_logs fixed_point print_double scan_double 10 alarms
            (new_logs fixed_point print_double scan_double 10)).log_text
          0)
    else none

abbrev fopen_write : Text → Bool
fopen_write name = true

abbrev job : Job fixed_point print_double scan_double fopen_read fopen_write
job = record {
  job_id = job_number;
  submit_dir = codes "/home/u";
  n_call_threshold = 40;
  n_call_per_second_threshold = pos 3000000000;
}

work-AllLogged :
    AllLogged fixed_point print_double scan_double rounded documented fopen_read fopen_write job 10
      alarms 0
      (work ∷ [])
unfolding str_eq
work-AllLogged = ((refl, all_ready, refl), tt)

end_of_job-run_logs_example :
    (k : ℕ) × (k < 1)
    × ((i : ℕ)
        → i < 1
        → highest fixed_point (
            counts_at fixed_point print_double scan_double rounded documented fopen_read fopen_write
              (alarm 47 13 40)
              i)
          ≤ highest fixed_point (
              counts_at fixed_point print_double scan_double rounded documented fopen_read
                fopen_write
                (alarm 47 13 40)
                k))
    × (end_of_job fixed_point print_double scan_double fopen_read fopen_write job
          (codes "/work/" ∷ [])
        ≡ some (
            if leb 40 (
                highest fixed_point (
                  counts_at fixed_point print_double scan_double rounded documented fopen_read
                    fopen_write
                    (alarm 47 13 40)
                    k))
              && fixed_point.ge
                  (peak fixed_point
                    (run_rows fixed_point print_double scan_double rounded documented 0 10 alarms k)
                    (zero_rate fixed_point))
                  (pos 3000000000)
            then reported fixed_point print_double scan_double rounded documented fopen_read
                fopen_write job 10 alarms
                (work ∷ [])
                k
                (highest fixed_point (
                  counts_at fixed_point print_double scan_double rounded documented fopen_read
                    fopen_write
                    (alarm 47 13 40)
                    k))
            else finished [] []))
end_of_job-run_logs_example =
    end_of_job-run_logs fixed_point print_double scan_double rounded documented fopen_read
      fopen_write job 10 (alarm 7 3 7 ∷ []) (alarm 47 13 40) (codes "/work/" ∷ []) (work ∷ []) 0
      (inr refl, tt) work-AllLogged refl (omega arith) (unfold periodic in omega arith)
