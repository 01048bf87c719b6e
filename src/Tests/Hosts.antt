-- ===== src/Tests/Hosts.antt =====
-- A host file of three nodes, one of them twice.
use ooops.Prelude.{◌≡◌, refl, none, some, List, [], ◌∷◌, Text, codes, str_eq, length, arith}
use ooops.Dict.{Dict, search, read_host_list, read_host_file}
use ooops.Dict.HostFile.{host_file, read_host_file_finds}
use ooops.Dict.Hosts.{last_rank, AllShort}

abbrev pub memory : Dict
memory = record {
  size = 0;
  n = 0;
  first_av = none;
  ht_table = λ i. some 3;
  elt_list = λ i. record { next = none; value = 9; key = [] };
}

abbrev pub names : List Text
names = codes "c401" ∷ codes "c402" ∷ codes "c401" ∷ []

hosts_run :
    (elim (read_host_list length names memory) [
      | none ↦ none
      | some d ↦ search length d (codes "c402")
    ])
    ≡ some 1
unfolding read_host_list search str_eq
hosts_run = refl

abbrev rest : Text
rest = codes "c4"

short_names : AllShort names
short_names = (omega arith, (omega arith, (omega arith, tt)))

read_host_file_finds_example :
    (d' : Dict) × (read_host_file length (host_file names rest) memory ≡ some d')
    × ((key : Text) → search length d' key ≡ last_rank key names 0 none)
read_host_file_finds_example =
    read_host_file_finds length names rest memory short_names (ground arith) (ground arith)
      (omega arith) (omega arith)
