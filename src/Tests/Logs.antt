-- ===== src/Tests/Logs.antt =====
-- The logs of two file systems.
use ooops.Prelude.{ℕ, ◌≡◌, refl, none, some, List, [], ◌∷◌, map, pos, ℤ}
use ooops.Daemon.Reports.{Row, Log, last_counts, high_io}
use ooops.Tests.Fixed.{fixed_point}

abbrev row : ℕ → ℕ → ℤ → ℤ → Row fixed_point
row a b x y = record {
  time = 0;
  open_count = a;
  open_delayed = 0;
  stat_count = b;
  stat_delayed = 0;
  open_rate = x;
  open_delay_rate = pos 0;
  stat_rate = y;
  stat_delay_rate = pos 0;
}

abbrev quiet : Log fixed_point
quiet = some (row 1 2 (pos 10) (pos 20)) ∷ some (row 100 50 (pos 900) (pos 10)) ∷ []

abbrev loud : Log fixed_point
loud = none ∷ some (row 5 90 (pos 40) (pos 800)) ∷ some (row 7 90000 (pos 30) (pos 70)) ∷ []

abbrev logs : List (Log fixed_point)
logs = quiet ∷ loud ∷ []

reports_made : high_io fixed_point 80000 (pos 50) (map some logs) ≡ some (some (1, 90000))
unfolding high_io
reports_made = refl

counted : last_counts fixed_point quiet none ≡ some (100, 50)
unfolding last_counts
counted = refl

counted_loud : last_counts fixed_point loud none ≡ some (7, 90000)
unfolding last_counts
counted_loud = refl

abbrev counts : List (ℕ × ℕ)
counts = (100, 50) ∷ (7, 90000) ∷ []
