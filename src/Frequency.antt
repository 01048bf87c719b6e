-- ===== src/Frequency.antt =====
-- src/ooops.c, `Get_Freq`, which src/server.c and src/set_io_param.c have as well: the frequency of
-- the processor by the text of /proc/cpuinfo, without byte 0. Lines are read in pieces of at most 158
-- bytes; a piece of less than 10 bytes is not read on, since `sscanf` would start behind its end.
pub mod Line
use ooops.Prelude.{
  ℕ, zero, suc, Bool, true, false, Option, none, some, List, [], ◌∷◌, Text, length, drop, ltb, ◌==◌,
  if◌then◌else◌, strn_eq, codes, pos, negsuc,
}
use ooops.Floats.{Floats}

-- What `fgets` leaves: the piece, the text behind it, and `feof`.
pub record Piece : Type 0 where
  pub line : Text
  pub behind : Text
  pub at_eof : Bool

abbrev pub one_more : ℕ → Piece → Piece
one_more c p = record p { line = c ∷ p.line }

-- `fgets` with room for k bytes.
unfoldable pub fgets : ℕ → Text → Piece
fgets zero s = record { line = []; behind = s; at_eof = false }
fgets (suc k) [] = record { line = []; behind = []; at_eof = true }
fgets (suc k) (c ∷ cs) =
    let rest = fgets k cs in
    if c == b'\n' then record { line = c ∷ []; behind = cs; at_eof = false } else one_more c rest

-- `BUFF_SIZE-1`, with the NUL
abbrev pub line_room : ℕ
line_room = 158

abbrev pub cpu_mhz : Text
cpu_mhz = codes "cpu MHz"

abbrev pub is_empty : Text → Bool
is_empty [] = true
is_empty (c ∷ cs) = false

module _ (fl : Floats) where
  -- `freq*1.0E6`
  abbrev pub mega : fl.Single → fl.Single
  mega freq = fl.narrow (fl.mul (fl.widen freq) (fl.double (pos 1000000)))

  -- What the loop returns for a piece: `none` where it goes on, and `some none` where the piece is
  -- too short.
  unfoldable pub read_mhz : Text → Option (Option fl.Single)
  read_mhz line =
      if strn_eq line cpu_mhz 7
      then (if ltb (length line) 10 then some none else (elim (fl.scan_single (drop 10 line)) [
        | none ↦ none
        | some f ↦ some (some (mega f))
      ]))
      else none

  -- One turn of the loop, with what the next ones return.
  unfoldable pub take_piece : Piece → Option fl.Single → Option fl.Single
  unfolding read_mhz
  take_piece p rest =
      if is_empty p.line
      then some (fl.single (pos 0))
      else if p.at_eof
      then some (fl.single (pos 0))
      else (elim (read_mhz p.line) [ none ↦ rest | some answer ↦ answer ])

  -- The loop, which takes a byte at least of the text at each turn.
  unfoldable pub scan_cpuinfo : ℕ → Text → Option fl.Single
  unfolding fgets take_piece
  scan_cpuinfo zero s = some (fl.single (pos 0))
  scan_cpuinfo (suc fuel) s = let p = fgets line_room s in take_piece p (scan_cpuinfo fuel p.behind)

  -- `Get_Freq`: -1 where the file cannot be opened.
  unfoldable pub get_freq : Option Text → Option fl.Single
  unfolding scan_cpuinfo
  get_freq none = some (fl.single (negsuc 0))
  get_freq (some cpuinfo) = scan_cpuinfo (suc (length cpuinfo)) cpuinfo
