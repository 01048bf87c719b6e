-- ===== src/Dict/HostFile.antt =====
-- The table that the daemon makes of the text of the host file.
use ooops.Prelude.{
  ℕ, ◌<◌, ◌≤◌, ◌≡◌, ◌≢◌, refl, ap, ◌∙◌, false, none, some, List, [], ◌∷◌, ◌++◌, Text, ◌==◌, length,
  take_all, arith,
}
use ooops.Dict.{
  Dict, max_file_size, count_lines, end_lines, next_name, names_from, read_host_file, search,
}
use ooops.Dict.Hosts.{AllShort, last_rank, read_host_list_finds}

-- A text without line feeds and without ends of a string.
abbrev pub IsLine : Text → Type 0
IsLine [] = Unit {0}
IsLine (c ∷ cs) = ((c ≢ 0) × (c ≢ 10)) × IsLine cs

abbrev pub AllLines : List Text → Type 0
AllLines [] = Unit {0}
AllLines (x ∷ xs) = IsLine x × AllLines xs

-- A file of some lines, and what stands behind the last line feed.
abbrev pub host_file : List Text → Text → List ℕ
host_file [] tail = tail
host_file (x ∷ xs) tail = x ++ 10 ∷ host_file xs tail

count_lines-line : (x : Text) (cs : List ℕ) → IsLine x → count_lines (x ++ cs) ≡ count_lines cs
unfolding count_lines
count_lines-line [] cs l = refl
count_lines-line (c ∷ x) cs l = ground (arith, count_lines-line x cs l.1)

end_lines-line : (x : Text) (cs : List ℕ) → IsLine x → end_lines (x ++ cs) ≡ x ++ end_lines cs
unfolding end_lines
end_lines-line [] cs l = refl
end_lines-line (c ∷ x) cs l =
    let plain : (c == 10) ≡ false = ground arith in rw plain (ap (◌∷◌ c) (end_lines-line x cs l.1))

next_name-line : (x : Text) (cs : List ℕ) → IsLine x → next_name (x ++ 0 ∷ cs) ≡ some (x, cs)
unfolding next_name
next_name-line [] cs l = refl
next_name-line (c ∷ x) cs l =
    let plain : (c == 0) ≡ false = ground arith in rw (plain, next_name-line x cs l.1) refl

count_lines-tail : (tail : Text) → IsLine tail → count_lines tail ≡ 0
unfolding count_lines
count_lines-tail [] t = refl
count_lines-tail (c ∷ tail) t = ground (arith, count_lines-tail tail t.1)

count_lines-host_file :
    (xs : List Text) (tail : Text)
    → AllLines xs
    → IsLine tail
    → count_lines (host_file xs tail) ≡ length xs
unfolding count_lines
count_lines-host_file [] tail l t = count_lines-tail tail t
count_lines-host_file (x ∷ xs) tail l t =
    count_lines-line x (10 ∷ host_file xs tail) l.0
    ∙ ground (arith, count_lines-host_file xs tail l.1 t)

names_from-host_file :
    (xs : List Text) (tail : Text)
    → AllLines xs
    → names_from (length xs) (end_lines (host_file xs tail)) ≡ some xs
unfolding names_from end_lines
names_from-host_file [] tail l = refl
names_from-host_file (x ∷ xs) tail l =
    rw
      (
        names_from,
        end_lines-line x (10 ∷ host_file xs tail) l.0,
        next_name-line x (end_lines (host_file xs tail)) l.0,
        names_from-host_file xs tail l.1,
      )
      refl

module _ (hash : Text → ℕ) where
  -- Of a host file of one line or more, of at most 131072 bytes, where each line has at most 15
  -- bytes and none that is 0, `Read_Host_List` makes a table in which the name of each line is found
  -- with the number of the last line that has it, from 0 on, and nothing else is found. What stands
  -- behind the last line feed is no node.
  pub read_host_file_finds :
      (names : List Text) (tail : Text) (d : Dict)
      → AllShort names
      → AllLines names
      → IsLine tail
      → 0 < length names
      → length (host_file names tail) ≤ max_file_size
      → (d' : Dict) × (read_host_file hash (host_file names tail) d ≡ some d')
        × ((key : Text) → search hash d' key ≡ last_rank key names 0 none)
  unfolding read_host_file
  read_host_file_finds names tail d short lines plain some_name room =
      let filled = read_host_list_finds hash names d short some_name in
      (
        filled.0,
        rw
            (
              read_host_file,
              take_all max_file_size (host_file names tail) room,
              count_lines-host_file names tail lines plain,
              names_from-host_file names tail lines,
            )
            filled.1,
        filled.2,
      )
