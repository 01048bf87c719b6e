-- ===== src/Daemon/Reports.antt =====
-- src/server.c, `Create_Chart_Reports`: which file system was the busiest by the log files of the
-- daemon, and whether reports are made. A log is its lines behind the first one, none where a line
-- does not have nine numbers; the counts are numbers without sign.
pub mod Busiest
use ooops.Prelude.{
  ℕ, zero, suc, Bool, ◌&&◌, Option, none, some, List, [], ◌∷◌, ltb, leb, if◌then◌else◌, get_or, pos,
}
use ooops.Floats.{Floats}

module _ (fl : Floats) where
  -- `t`, `n` and `dn`
  pub record Row : Type 0 where
    pub time : ℕ
    pub open_count : ℕ
    pub open_delayed : ℕ
    pub stat_count : ℕ
    pub stat_delayed : ℕ
    pub open_rate : fl.Double
    pub open_delay_rate : fl.Double
    pub stat_rate : fl.Double
    pub stat_delay_rate : fl.Double

  abbrev pub Log : Type 0
  Log = List (Option Row)

  -- `n0_last` and `n2_last`, which keep their values where a log has no row.
  unfoldable pub last_counts : Log → Option (ℕ × ℕ) → Option (ℕ × ℕ)
  last_counts [] last = last
  last_counts (none ∷ ls) last = last_counts ls last
  last_counts (some r ∷ ls) last = last_counts ls (some (r.open_count, r.stat_count))

  abbrev pub raise_rate : fl.Double → fl.Double → fl.Double
  raise_rate x m = if fl.gt x m then x else m

  -- `dnCountMax[i]`
  unfoldable pub peak : Log → fl.Double → fl.Double
  peak [] m = m
  peak (none ∷ ls) m = peak ls m
  peak (some r ∷ ls) m = peak ls (raise_rate r.stat_rate (raise_rate r.open_rate m))

  -- `nCountMax` and `idx_fs_high_IO`
  pub record Top : Type 0 where
    pub n_count_max : ℕ
    pub idx_fs_high_io : ℕ

  abbrev pub raise_count : ℕ → ℕ → Top → Top
  raise_count i n b =
      if ltb b.n_count_max n then record { n_count_max = n; idx_fs_high_io = i } else b

  abbrev pub zero_rate : fl.Double
  zero_rate = fl.double (pos 0)

  -- The loop over the file systems. A log that cannot be opened is the end of the process; counts
  -- that were never set are compared where the first logs have no row: `none`.
  unfoldable pub scan_logs :
      ℕ → List (Option Log) → Option (ℕ × ℕ) → Top → Option (Top × List fl.Double)
  unfolding last_counts peak
  scan_logs i [] last b = some (b, [])
  scan_logs i (none ∷ logs) last b = none
  scan_logs i (some log ∷ logs) last b = elim (last_counts log last) [
    | none ↦ none
    | some (n0, n2) ↦
        elim (scan_logs (suc i) logs (some (n0, n2)) (raise_count i n2 (raise_count i n0 b))) [
          | none ↦ none
          | some (top, rates) ↦ some (top, peak log zero_rate ∷ rates)
        ]
  ]

  -- Whether reports are made: with the file system and its count, which stand in
  -- /dev/shm/ooops/high_io.
  unfoldable pub high_io : ℕ → fl.Double → List (Option Log) → Option (Option (ℕ × ℕ))
  unfolding scan_logs
  high_io n_call_threshold per_second logs =
      elim (scan_logs 0 logs none (record { n_count_max = 0; idx_fs_high_io = 0 })) [
        | none ↦ none
        | some (top, rates) ↦ some (
            if leb n_call_threshold top.n_count_max
              && fl.ge (get_or rates top.idx_fs_high_io zero_rate) per_second
            then some (top.idx_fs_high_io, top.n_count_max)
            else none)
      ]
