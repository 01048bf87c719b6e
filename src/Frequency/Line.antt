-- ===== src/Frequency/Line.antt =====
-- The first line that gives a frequency is the one that is returned.
use ooops.Prelude.{
  ℕ, zero, suc, ◌+◌, ◌≤◌, ◌<◌, ◌-◌, ◌≡◌, refl, ap, ◌∙◌, true, false, Option, none, some, List, [],
  ◌∷◌, ◌++◌, Text, length, drop, ltb, ◌==◌, strn_eq, pos, negsuc, length-append, arith,
}
use ooops.Floats.{Floats}
use ooops.Daemon.Logs.Lines.{OneLine}
use ooops.Frequency.{
  fgets, line_room, cpu_mhz, is_empty, mega, read_mhz, take_piece, scan_cpuinfo, get_freq,
}

-- A line that fits the buffer is read whole.
fgets-line :
    (k : ℕ) (l rest : Text)
    → OneLine l
    → length l < k
    → fgets k (l ++ b'\n' ∷ rest) ≡ record { line = l ++ b'\n' ∷ []; behind = rest; at_eof = false }
unfolding fgets
fgets-line zero l rest o h = absurd (omega arith)
fgets-line (suc k) [] rest o h = refl
fgets-line (suc k) (c ∷ cs) rest o h =
    let plain : (c == b'\n') ≡ false = ground arith in
    rw (fgets, plain, fgets-line k cs rest o.1 (omega arith)) refl

fgets_end : (k : ℕ) → 0 < k → fgets k [] ≡ record { line = []; behind = []; at_eof = true }
unfolding fgets
fgets_end zero h = absurd (omega arith)
fgets_end (suc k) h = refl

ended_nonempty : (l : Text) → is_empty (l ++ b'\n' ∷ []) ≡ false
ended_nonempty [] = refl
ended_nonempty (c ∷ cs) = refl

-- Lines one below the other, before a text.
abbrev pub above : List Text → Text → Text
above [] rest = rest
above (l ∷ ls) rest = l ++ b'\n' ∷ above ls rest

module _ (fl : Floats) where
  -- Short lines that give no frequency.
  abbrev pub AllSkipped : List Text → Type 0
  AllSkipped [] = Unit {0}
  AllSkipped (l ∷ ls) =
      (OneLine l × (length l < line_room) × (read_mhz fl (l ++ b'\n' ∷ []) ≡ none)) × AllSkipped ls

  scan_cpuinfo-line :
      (fuel : ℕ) (l rest : Text)
      → OneLine l
      → length l < line_room
      → scan_cpuinfo fl (suc fuel) (l ++ b'\n' ∷ rest)
        ≡ take_piece fl
            (record { line = l ++ b'\n' ∷ []; behind = rest; at_eof = false })
            (scan_cpuinfo fl fuel rest)
  unfolding scan_cpuinfo
  scan_cpuinfo-line fuel l rest o h =
      ap (λ p. take_piece fl p (scan_cpuinfo fl fuel p.behind)) (fgets-line line_room l rest o h)

  take_piece-skipped :
      (l rest : Text) (more : Option fl.Single)
      → read_mhz fl (l ++ b'\n' ∷ []) ≡ none
      → take_piece fl (record { line = l ++ b'\n' ∷ []; behind = rest; at_eof = false }) more ≡ more
  unfolding take_piece
  take_piece-skipped l rest more e = rw (take_piece, ended_nonempty l, e) refl

  take_piece-found :
      (l rest : Text) (more answer : Option fl.Single)
      → read_mhz fl (l ++ b'\n' ∷ []) ≡ some answer
      → take_piece fl (record { line = l ++ b'\n' ∷ []; behind = rest; at_eof = false }) more
        ≡ answer
  unfolding take_piece
  take_piece-found l rest more answer e = rw (take_piece, ended_nonempty l, e) refl

  -- The lines before are passed over, one turn for each.
  scan_cpuinfo-above :
      (ls : List Text) (fuel : ℕ) (rest : Text)
      → AllSkipped ls
      → scan_cpuinfo fl (length ls + fuel) (above ls rest) ≡ scan_cpuinfo fl fuel rest
  scan_cpuinfo-above [] fuel rest h = ap (λ n. scan_cpuinfo fl n rest) (omega arith)
  scan_cpuinfo-above (l ∷ ls) fuel rest h =
      let (one, fits, skip) = h.0 in
      ap (λ n. scan_cpuinfo fl n (above (l ∷ ls) rest)) (omega arith)
      ∙ scan_cpuinfo-line (length ls + fuel) l (above ls rest) one fits
      ∙ take_piece-skipped l (above ls rest) _ skip
      ∙ scan_cpuinfo-above ls fuel rest h.1

  length-above : (ls : List Text) (rest : Text) → length ls + length rest ≤ length (above ls rest)
  length-above [] rest = omega arith
  length-above (l ∷ ls) rest =
      omega (arith, length-append l (b'\n' ∷ above ls rest), length-above ls rest)

  fuel_left :
      (ls : List Text) (rest : Text)
      → (fuel : ℕ) × (suc (length (above ls rest)) ≡ length ls + suc fuel)
  fuel_left ls rest =
      let room = length-above ls rest in (length (above ls rest) - length ls, omega (arith, room))

  scan_cpuinfo_end : (fuel : ℕ) → scan_cpuinfo fl (suc fuel) [] ≡ some (fl.single (pos 0))
  unfolding scan_cpuinfo take_piece fgets
  scan_cpuinfo_end fuel = refl

  -- /proc/cpuinfo is lines of less than 158 bytes that give no frequency, then one that gives it, and
  -- then anything, long lines too. A line gives one if it begins with "cpu MHz" and `sscanf` reads a
  -- number f behind its tenth byte. Then `Get_Freq` returns f times a million. Where no line gives
  -- one and all are that short it returns 0, and where the file cannot be opened -1.
  pub get_freq_first :
      (ls : List Text) (l rest : Text) (f : fl.Single)
      → AllSkipped ls
      → OneLine l
      → length l < line_room
      → 9 ≤ length l
      → strn_eq (l ++ b'\n' ∷ []) cpu_mhz 7 ≡ true
      → fl.scan_single (drop 10 (l ++ b'\n' ∷ [])) ≡ some f
      → (get_freq fl (some (above ls (l ++ b'\n' ∷ rest))) ≡ some (mega fl f))
        × (get_freq fl (some (above ls [])) ≡ some (fl.single (pos 0)))
        × (get_freq fl none ≡ some (fl.single (negsuc 0)))
  unfolding get_freq read_mhz
  get_freq_first ls l rest f skipped one fits long begins reads =
      let text = l ++ b'\n' ∷ rest in
      let (fuel, e) = fuel_left ls text in
      let (fuel₀, e₀) = fuel_left ls [] in
      let enough : ltb (length (l ++ b'\n' ∷ [])) 10 ≡ false =
        ground (arith, length-append l (b'\n' ∷ [])) in
      let answer : read_mhz fl (l ++ b'\n' ∷ []) ≡ some (some (mega fl f)) =
        rw (read_mhz, begins, enough, reads) refl in
      (
        ap (λ n. scan_cpuinfo fl n (above ls text)) e
            ∙ scan_cpuinfo-above ls (suc fuel) text skipped
            ∙ scan_cpuinfo-line fuel l rest one fits
            ∙ take_piece-found l rest _ (some (mega fl f)) answer,
        ap (λ n. scan_cpuinfo fl n (above ls [])) e₀
            ∙ scan_cpuinfo-above ls (suc fuel₀) [] skipped
            ∙ scan_cpuinfo_end fuel₀,
        refl,
      )
