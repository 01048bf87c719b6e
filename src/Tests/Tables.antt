-- ===== src/Tests/Tables.antt =====
-- A table of three records, two of them with one key and in one bucket with the third.
use ooops.Prelude.{◌≡◌, refl, none, some, List, [], ◌∷◌, Text, codes, str_eq, length, arith}
use ooops.Dict.{Dict, create, search}
use ooops.Dict.Records.{newest}
use ooops.Dict.Calls.{
  Call, call_insert, call_delete, records_after, AllAllowed, run_calls, search-run_calls,
}
use ooops.Tests.Hosts.{memory}

abbrev calls : List Call
calls =
    call_insert (codes "c401") 1
    ∷ call_insert (codes "c402") 2
    ∷ call_insert (codes "c401") 3
    ∷ call_insert (codes "c403") 4
    ∷ call_delete (codes "c401")
    ∷ call_delete (codes "c402")
    ∷ []

records_left : records_after calls [] ≡ (codes "c403", 4) ∷ (codes "c401", 1) ∷ []
unfolding str_eq
records_left = refl

older_found :
    (elim (run_calls length calls (create 8 memory)) [
      | none ↦ none
      | some d ↦ search length d (codes "c401")
    ])
    ≡ some 1
unfolding run_calls create search str_eq
older_found = refl

calls-AllAllowed : AllAllowed 8 calls []
unfolding str_eq
calls-AllAllowed = (
  (omega arith, omega arith),
  (
    (omega arith, omega arith),
    ((omega arith, omega arith), ((omega arith, omega arith), ((3, refl), ((2, refl), tt)))),
  ),
)

search-run_calls_example :
    (d : Dict) × (run_calls length calls (create 8 memory) ≡ some d)
    × (d.n ≡ length (records_after calls []))
    × ((key : Text) → search length d key ≡ newest (records_after calls []) key)
search-run_calls_example = search-run_calls length 8 memory calls (omega arith) calls-AllAllowed
