-- ===== src/Tests/LogRuns.antt =====
-- Two alarms of a daemon with one node: numbers are printed and read without their fractions.
use ooops.Prelude.{
  ℕ, ◌/◌, ◌%◌, ◌^◌, ◌<◌, ◌≡◌, refl, ap, ◌∙◌, ℤ, pos, pos_part, codes, some, List, [], ◌∷◌, ◌++◌,
  Text, ◌==◌, if◌then◌else◌, arith,
}
use ooops.Daemon.{Daemon, periodic}
use ooops.Daemon.Reports.{Row}
use ooops.Daemon.Logs.{
  print_long, digits, Scan, absent, outside, got, scan_int, new_logs, run_logs, read_log, log_line,
}
use ooops.Daemon.Logs.Decimal.{scan_int-print_long, scan_int-blank}
use ooops.Daemon.Logs.RoundTrip.{Documented, Reads, IsSmall}
use ooops.Daemon.Logs.Run.{print_long-OneLine, run_rows, AllReady, read_log-run_logs}
use ooops.Tests.Fixed.{fixed_point}

abbrev whole : ℤ → ℕ
whole x = pos_part x / 1000000000 % 1000000000

abbrev pub print_double : ℤ → Text
print_double x = print_long (pos (whole x))

abbrev as_double : Scan ℕ → Scan ℤ
as_double absent = absent
as_double outside = outside
as_double (got n rest) = got (fixed_point.double (pos n)) rest

abbrev pub scan_double : Text → Scan ℤ
scan_double s = as_double (scan_int s)

abbrev pub rounded : ℤ → ℤ
rounded x = fixed_point.double (pos (whole x))

print_long-Reads :
    (n : ℕ)
    → n < 2 ^ 31
    → Reads fixed_point print_double scan_double rounded
        (print_long (pos n))
        (fixed_point.double (pos n))
print_long-Reads n h c rest b = ap as_double (
    scan_int-blank (print_long (pos n) ++ c ∷ rest) ∙ scan_int-print_long n c rest h (ground arith))

pub documented : Documented fixed_point print_double scan_double rounded
documented = record {
  one_line = λ x. print_long-OneLine (pos (whole x));
  reads = λ x. print_long-Reads (whole x) (omega arith);
  reads_long = print_long-Reads;
}

-- 7 opens and 3 stats, then 47 and 13.
abbrev pub alarm : ℕ → ℕ → ℕ → Daemon
alarm opens stats more = record {
  counter_sum = λ i. if i == 0 then opens else if i == 16 then stats else 0;
  counter_sum_save = λ i. 0;
  delta_counter_sum = λ i. if i == 0 then more else 0;
  p_ooops_data_list = λ i. 0;
  p_local_data = λ i. 0;
  n_data_count = 0;
  gsize = 2;
  n_fs_server = 1;
}

abbrev pub alarms : List Daemon
alarms = alarm 7 3 7 ∷ alarm 47 13 40 ∷ []

alarm-IsSmall : IsSmall fixed_point print_double scan_double rounded (periodic (alarm 7 3 7)) 0
unfolding periodic
alarm-IsSmall i h = ground arith

alarm_next-IsSmall :
    IsSmall fixed_point print_double scan_double rounded (periodic (alarm 47 13 40)) 0
unfolding periodic
alarm_next-IsSmall i h = ground arith

pub all_ready : AllReady fixed_point print_double scan_double rounded documented 0 10 alarms 0
unfolding periodic
all_ready = (
  (omega arith, omega arith, alarm-IsSmall),
  ((omega arith, omega arith, alarm_next-IsSmall), tt),
)

read_log-run_logs_example :
    read_log fixed_point print_double scan_double (
      (run_logs fixed_point print_double scan_double 10 alarms
          (new_logs fixed_point print_double scan_double 10)).log_text
        0)
    ≡ some (run_rows fixed_point print_double scan_double rounded documented 0 10 alarms 0)
read_log-run_logs_example =
    read_log-run_logs fixed_point print_double scan_double rounded documented 10 alarms 0 all_ready

abbrev pub run_row : ℕ → ℕ → ℕ → ℤ → ℤ → Row fixed_point
run_row t opens stats x y = record {
  time = t;
  open_count = opens;
  open_delayed = 0;
  stat_count = stats;
  stat_delayed = 0;
  open_rate = x;
  open_delay_rate = pos 0;
  stat_rate = y;
  stat_delay_rate = pos 0;
}

-- The rows of the two alarms: the second one has 40 opens in 10 seconds.
rows_of_alarms :
    run_rows fixed_point print_double scan_double rounded documented 0 10 alarms 0
    ≡ some (run_row 0 7 3 (pos 7000000000) (pos 3000000000))
      ∷ some (run_row 10 47 13 (pos 4000000000) (pos 0))
      ∷ []
unfolding periodic
rows_of_alarms = refl

first_line :
    log_line fixed_point print_double scan_double (pos 0) 10 (alarm 7 3 7) 0
    ≡ codes "     0      7      0      3      0      7      0      3      0" ++ b'\n' ∷ []
unfolding log_line print_long digits
first_line = refl
