-- ===== src/Tests/Frequencies.antt =====
-- The text of /proc/cpuinfo of a processor of 2600 MHz.
use ooops.Prelude.{
  ◌≡◌, refl, none, some, List, [], ◌∷◌, ◌++◌, Text, codes, pos, negsuc, strn_eq, true, arith,
}
use ooops.Floats.{Floats}
use ooops.Daemon.Logs.{skip_blank}
use ooops.Frequency.{fgets, take_piece, read_mhz, scan_cpuinfo, mega, get_freq}
use ooops.Frequency.Line.{AllSkipped, above, get_freq_first}
use ooops.Tests.Fixed.{fixed_point}

-- Blanks before a number are read over.
abbrev over_blanks : Floats
over_blanks = record fixed_point { scan_single = λ s. fixed_point.scan_single (skip_blank s) }

abbrev lines_before : List Text
lines_before = codes "processor\t: 0" ∷ codes "cpu family\t: 6" ∷ codes "cpu MHz\t\t: -" ∷ []

abbrev mhz : Text
mhz = codes "cpu MHz\t\t: 2600"

abbrev flags : Text
flags = codes "flags\t\t: fpu vme\n"

before-AllSkipped : AllSkipped over_blanks lines_before
unfolding read_mhz strn_eq skip_blank
before-AllSkipped = ground arith

begins : strn_eq (mhz ++ b'\n' ∷ []) (codes "cpu MHz") 7 ≡ true
unfolding strn_eq
begins = refl

mhz_read : over_blanks.scan_single (codes " 2600\n") ≡ some (pos 2600000000000)
unfolding skip_blank
mhz_read = refl

-- Too short to be read on.
cut_short : get_freq over_blanks (some (codes "cpu MHz\n")) ≡ none
unfolding get_freq scan_cpuinfo take_piece fgets read_mhz strn_eq
cut_short = refl

get_freq_first_example :
    (get_freq over_blanks (some (above lines_before (mhz ++ b'\n' ∷ flags)))
      ≡ some (mega over_blanks (pos 2600000000000)))
    × (get_freq over_blanks (some (above lines_before [])) ≡ some (pos 0))
    × (get_freq over_blanks none ≡ some (over_blanks.single (negsuc 0)))
get_freq_first_example =
    get_freq_first over_blanks lines_before mhz flags (pos 2600000000000) before-AllSkipped
      (ground arith) (omega arith) (omega arith) begins mhz_read
