-- ===== src/Daemon/Logs/RoundTrip.antt =====
-- The rows that the daemon writes to a log are those that it reads for its report.
use ooops.Prelude.{
  ℕ, zero, suc, ◌+◌, ◌*◌, ◌^◌, ◌<◌, ◌≡◌, refl, ap, ◌∙◌, true, false, Option, none, some, pos, List,
  [], ◌∷◌, ◌++◌, Text, ltb, if◌then◌else◌, update, append_cons, arith,
}
use ooops.Floats.{Floats}
use ooops.Daemon.{Daemon, for_range, max_fs_server}
use ooops.Daemon.Reports.{Row, Log}
use ooops.Daemon.Logs.{
  print_long, signed, line_of, Scan, absent, outside, got, is_blank, is_digit, scan_int, scan_many,
  lines_of, log_line, read_row, add_row, rows_of, read_log,
}
use ooops.Daemon.Logs.Decimal.{scan_int-print_long, scan_int-blank}
use ooops.Daemon.Logs.Lines.{OneLine, lines_of-append}

scan_none : {A : Type 0} (item : Text → Scan A) (s : Text) → scan_many item 0 s ≡ got [] s
unfolding scan_many
scan_none item s = refl

scan_more :
    {A : Type 0} (item : Text → Scan A) (n : ℕ) {s t u : Text} {a : A} {others : List A}
    → item s ≡ got a t
    → scan_many item n t ≡ got others u
    → scan_many item (suc n) s ≡ got (a ∷ others) u
unfolding scan_many
scan_more item n e f = rw (scan_many, e, f) refl

module _ (fl : Floats) (print_double : fl.Double → Text) (scan_double : Text → Scan fl.Double)
    (rounded : fl.Double → fl.Double) where
  -- A word that `%lf` reads, behind a blank, up to the next blank.
  abbrev pub Reads : Text → fl.Double → Type 0
  Reads w x =
      (c : ℕ) (rest : Text)
      → is_blank c ≡ true
      → scan_double (b' ' ∷ w ++ c ∷ rest) ≡ got x (c ∷ rest)

  -- What is printed with `%7.1lf` or with `%6ld` is read with `%lf`, the first one rounded.
  pub record Documented : Type 0 where
    pub one_line : (x : fl.Double) → OneLine (print_double x)
    pub reads : (x : fl.Double) → Reads (print_double x) (rounded x)
    pub reads_long : (n : ℕ) → n < 2 ^ 31 → Reads (print_long (pos n)) (fl.double (pos n))

  scan_int_next :
      (n : ℕ) (c : ℕ) (rest : Text)
      → n < 2 ^ 31
      → is_digit c ≡ false
      → scan_int (b' ' ∷ print_long (pos n) ++ c ∷ rest) ≡ got n (c ∷ rest)
  scan_int_next n c rest h e =
      scan_int-blank (print_long (pos n) ++ c ∷ rest) ∙ scan_int-print_long n c rest h e

  read_row-line_of :
      (m n0 n1 n2 n3 : ℕ) (w0 w1 w2 w3 : Text) (x0 x1 x2 x3 : fl.Double)
      → m < 2 ^ 31
      → n0 < 2 ^ 31
      → n1 < 2 ^ 31
      → n2 < 2 ^ 31
      → n3 < 2 ^ 31
      → Reads w0 x0
      → Reads w1 x1
      → Reads w2 x2
      → Reads w3 x3
      → read_row fl print_double scan_double (
          line_of (print_long (pos m)) (
            print_long (pos n0)
            ∷ print_long (pos n1)
            ∷ print_long (pos n2)
            ∷ print_long (pos n3)
            ∷ w0
            ∷ w1
            ∷ w2
            ∷ w3
            ∷ []))
        ≡ got
            (record {
              time = m;
              open_count = n0;
              open_delayed = n1;
              stat_count = n2;
              stat_delayed = n3;
              open_rate = x0;
              open_delay_rate = x1;
              stat_rate = x2;
              stat_delay_rate = x3;
            })
            (b'\n' ∷ [])
  unfolding read_row
  read_row-line_of m n0 n1 n2 n3 w0 w1 w2 w3 x0 x1 x2 x3 hm h0 h1 h2 h3 r0 r1 r2 r3 =
      rw (read_row, counts, doubles) refl
    where
      tail : Text
      tail = b' ' ∷ line_of w0 (w1 ∷ w2 ∷ w3 ∷ [])

      counts :
          scan_many scan_int 5 (
            line_of (print_long (pos m)) (
              print_long (pos n0)
              ∷ print_long (pos n1)
              ∷ print_long (pos n2)
              ∷ print_long (pos n3)
              ∷ w0
              ∷ w1
              ∷ w2
              ∷ w3
              ∷ []))
          ≡ got (m ∷ n0 ∷ n1 ∷ n2 ∷ n3 ∷ []) tail
      counts = scan_more scan_int 4 (scan_int-print_long m b' ' _ hm refl) (
          scan_more scan_int 3 (scan_int_next n0 b' ' _ h0 refl) (
            scan_more scan_int 2 (scan_int_next n1 b' ' _ h1 refl) (
              scan_more scan_int 1 (scan_int_next n2 b' ' _ h2 refl) (
                scan_more scan_int 0 (scan_int_next n3 b' ' _ h3 refl) (scan_none scan_int tail)))))

      doubles : scan_many scan_double 4 tail ≡ got (x0 ∷ x1 ∷ x2 ∷ x3 ∷ []) (b'\n' ∷ [])
      doubles = scan_more scan_double 3 (r0 b' ' _ refl) (
          scan_more scan_double 2 (r1 b' ' _ refl) (
            scan_more scan_double 1 (r2 b' ' _ refl)
              (scan_more scan_double 0 (r3 b'\n' _ refl) (scan_none scan_double (b'\n' ∷ [])))))

  -- A row behind the others.
  abbrev pub behind : Row fl → Option (Log fl) → Option (Log fl)
  behind r none = none
  behind r (some log) = some (log ++ some r ∷ [])

  add_row-behind :
      (x : Scan (Row fl)) (r : Row fl) (o : Option (Log fl))
      → add_row fl print_double scan_double x (behind r o)
        ≡ behind r (add_row fl print_double scan_double x o)
  add_row-behind absent r none = refl
  add_row-behind absent r (some log) = refl
  add_row-behind outside r none = refl
  add_row-behind outside r (some log) = refl
  add_row-behind (got row rest) r none = refl
  add_row-behind (got row rest) r (some log) = refl

  rows_of-behind :
      (ls : List Text) (l : Text) (r : Row fl) (rest : Text)
      → read_row fl print_double scan_double l ≡ got r rest
      → rows_of fl print_double scan_double (ls ++ l ∷ [])
        ≡ behind r (rows_of fl print_double scan_double ls)
  unfolding rows_of
  rows_of-behind [] l r rest e = rw e refl
  rows_of-behind (x ∷ ls) l r rest e =
      ap (add_row fl print_double scan_double (read_row fl print_double scan_double x))
        (rows_of-behind ls l r rest e)
      ∙ add_row-behind (read_row fl print_double scan_double x) r
          (rows_of fl print_double scan_double ls)

  -- A line is written behind a log that ends with a line feed.
  pub read_log-behind :
      (xs l : Text) (r : Row fl) (rest : Text)
      → lines_of l ≡ l ∷ []
      → read_row fl print_double scan_double l ≡ got r rest
      → read_log fl print_double scan_double ((xs ++ b'\n' ∷ []) ++ l)
        ≡ behind r (read_log fl print_double scan_double (xs ++ b'\n' ∷ []))
  unfolding read_log
  read_log-behind xs l r rest one e =
      let (first, ls, before, after) = lines_of-append xs l in
      rw (read_log, append_cons xs b'\n' l, after, one, before) (rows_of-behind ls l r rest e)

  pub for_range-update :
      (n : ℕ) (line : ℕ → Text) (f : ℕ → Text) (j : ℕ)
      → for_range n (λ i g. update g i (g i ++ line i)) f j
        ≡ (if ltb j n then f j ++ line j else f j)
  unfolding for_range
  for_range-update zero line f j = ground arith
  for_range-update (suc n) line f j =
      ground (arith, for_range-update n line f j, for_range-update n line f n)

  -- The rate of counter i: the counter itself in the first line.
  abbrev pub rate_at : ℕ → ℕ → Daemon → ℕ → ℕ → fl.Double
  rate_at zero interval d j i = fl.double (pos (d.counter_sum (i * max_fs_server + j)))
  rate_at (suc m) interval d j i = rounded (
      fl.mul (fl.double (signed (d.delta_counter_sum (i * max_fs_server + j))))
        (fl.div (fl.double (pos 1)) (fl.double (pos interval))))

  -- What the row of time m says of file system j.
  abbrev pub row_at : ℕ → ℕ → Daemon → ℕ → Row fl
  row_at m interval d j = record {
    time = m;
    open_count = d.counter_sum (0 * max_fs_server + j);
    open_delayed = d.counter_sum (1 * max_fs_server + j);
    stat_count = d.counter_sum (2 * max_fs_server + j);
    stat_delayed = d.counter_sum (3 * max_fs_server + j);
    open_rate = rate_at m interval d j 0;
    open_delay_rate = rate_at m interval d j 1;
    stat_rate = rate_at m interval d j 2;
    stat_delay_rate = rate_at m interval d j 3;
  }

  -- The four counters of file system j are less than 2^31.
  abbrev pub IsSmall : Daemon → ℕ → Type 0
  IsSmall d j = (i : ℕ) → i < 4 → d.counter_sum (i * max_fs_server + j) < 2 ^ 31

  signed_small : (n : ℕ) → n < 2 ^ 31 → signed n ≡ pos n
  signed_small n h = let small : ltb n (2 ^ 63) ≡ true = ground arith in rw small refl

  module _ (documented : Documented) where
    pub log_line-row_at :
        (m interval : ℕ) (d : Daemon) (j : ℕ)
        → m < 2 ^ 31
        → IsSmall d j
        → read_row fl print_double scan_double
            (log_line fl print_double scan_double (pos m) interval d j)
          ≡ got (row_at m interval d j) (b'\n' ∷ [])
    unfolding log_line
    log_line-row_at zero interval d j h small =
        rw
          (
            signed_small _ (small 0 (omega arith)),
            signed_small _ (small 1 (omega arith)),
            signed_small _ (small 2 (omega arith)),
            signed_small _ (small 3 (omega arith)),
          )
          (read_row-line_of 0 _ _ _ _ _ _ _ _ _ _ _ _ h (small 0 (omega arith))
            (small 1 (omega arith)) (small 2 (omega arith)) (small 3 (omega arith))
            (documented.reads_long _ (small 0 (omega arith)))
            (documented.reads_long _ (small 1 (omega arith)))
            (documented.reads_long _ (small 2 (omega arith)))
            (documented.reads_long _ (small 3 (omega arith))))
    log_line-row_at (suc m) interval d j h small =
        rw
          (
            signed_small _ (small 0 (omega arith)),
            signed_small _ (small 1 (omega arith)),
            signed_small _ (small 2 (omega arith)),
            signed_small _ (small 3 (omega arith)),
          )
          (read_row-line_of (suc m) _ _ _ _ _ _ _ _ _ _ _ _ h (small 0 (omega arith))
            (small 1 (omega arith)) (small 2 (omega arith)) (small 3 (omega arith))
            (documented.reads _) (documented.reads _) (documented.reads _) (documented.reads _))
