-- ===== src/Aggregator.antt =====
-- src/mpi_aggregator.c: the program that sums the counters of all nodes and prints how many calls
-- were delayed. The reduction of MPI is an argument. A division by zero and a product that an `int`
-- does not hold are `none`.
pub mod Equal
use ooops.Prelude.{
  ℕ, zero, suc, ◌+◌, ◌-◌, ◌*◌, ◌/◌, ◌%◌, ◌^◌, Bool, true, false, ◌||◌, Option, none, some, ℤ, pos,
  negsuc, neg, pos_part, neg_part, quot_ℤ, List, [], ◌∷◌, Text, ltb, leb, ◌==◌, if◌then◌else◌,
}
use ooops.Daemon.{Counters, max_fs_server}

-- The low half of a count_of, as the `int` that is printed.
abbrev pub int_of : ℕ → ℤ
int_of n = if ltb (n % 2 ^ 32) (2 ^ 31) then pos (n % 2 ^ 32) else negsuc (2 ^ 32 - 1 - n % 2 ^ 32)

-- `100*n`
abbrev pub hundred : ℤ → Option ℤ
hundred (pos n) = if ltb (100 * n) (2 ^ 31) then some (pos (100 * n)) else none
hundred (negsuc n) = if leb (100 * (n + 1)) (2 ^ 31) then some (neg (100 * (n + 1))) else none

abbrev pub opposite : ℤ → ℤ
opposite (pos n) = neg n
opposite (negsuc n) = pos (n + 1)

-- Division in C.
abbrev pub divide : ℤ → ℤ → Option ℤ
divide a (pos zero) = none
divide a (pos (suc k)) = some (quot_ℤ a (suc k))
divide a (negsuc k) = some (opposite (quot_ℤ a (suc k)))

-- `100*delayed/count`
unfoldable pub percent : ℤ → ℤ → Option ℤ
percent delayed count = elim (hundred delayed) [ none ↦ none | some a ↦ divide a count ]

-- What is printed of a file system.
pub record Summary : Type 0 where
  pub server : ℕ
  pub tag : Text
  pub open_percent : ℤ
  pub open_count : ℤ
  pub open_delayed : ℤ
  pub stat_percent : ℤ
  pub stat_count : ℤ
  pub stat_delayed : ℤ

-- The four counters of file system i.
abbrev pub count_slot : Counters → ℕ → ℕ → ℕ
count_slot p_data i k = p_data (k * max_fs_server + i)

abbrev pub count_of : Counters → ℕ → ℕ → ℤ
count_of p_data i k = int_of (count_slot p_data i k)

abbrev pub is_positive : ℤ → Bool
is_positive (pos zero) = false
is_positive (pos (suc n)) = true
is_positive (negsuc n) = false

abbrev pub summary_of : Counters → (ℕ → Text) → ℕ → ℤ → ℤ → Summary
summary_of p_data tags i open_percent stat_percent = record {
  server = i;
  tag = tags i;
  open_percent = open_percent;
  open_count = count_of p_data i 0;
  open_delayed = count_of p_data i 1;
  stat_percent = stat_percent;
  stat_count = count_of p_data i 2;
  stat_delayed = count_of p_data i 3;
}

abbrev pub add_summary :
    Counters → (ℕ → Text) → ℕ → Option ℤ → Option ℤ → Option (List Summary) → Option (List Summary)
add_summary p_data tags i (some x) (some y) (some rest) = some (summary_of p_data tags i x y ∷ rest)
add_summary p_data tags i _ _ _ = none

-- `for(i=0; i<MAX_FS_SERVER; i++)`, n rounds from i on.
unfoldable pub print_servers : Counters → (ℕ → Text) → ℕ → ℕ → Option (List Summary)
unfolding percent
print_servers p_data tags zero i = some []
print_servers p_data tags (suc n) i =
    let rest = print_servers p_data tags n (suc i) in
    if is_positive (count_of p_data i 0) || is_positive (count_of p_data i 2)
    then add_summary p_data tags i (percent (count_of p_data i 1) (count_of p_data i 0))
        (percent (count_of p_data i 3) (count_of p_data i 2)) rest
    else rest

-- `main`, of one process: its rank, whether /dev/shm/ooops/high_io is there, the counters of all
-- processes and the tags of the file systems.
unfoldable pub aggregate :
    (ℕ → (ℕ → Counters) → Counters)
    → ℕ
    → ℕ
    → Bool
    → (ℕ → Counters)
    → (ℕ → Text)
    → Option (List Summary)
unfolding print_servers
aggregate reduce gsize rank high_io blocks tags =
    if rank == 0
    then (if high_io then print_servers (reduce gsize blocks) tags max_fs_server 0 else some [])
    else some []
