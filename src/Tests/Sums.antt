-- ===== src/Tests/Sums.antt =====
-- Two nodes with one file system: the summary of the MPI program.
use ooops.Prelude.{
  ℕ, zero, suc, ◌%◌, ◌<◌, ◌≡◌, refl, true, some, none, [], ◌∷◌, Text, codes, ◌==◌, if◌then◌else◌,
  pos, inl, arith,
}
use ooops.Daemon.{Daemon, Counters, word, print_summary}
use ooops.Aggregator.{aggregate, percent}
use ooops.Aggregator.Equal.{sum_of, IsSum, IsPlain, blocks_of, expected, aggregate-print_summary}

abbrev two_nodes : Daemon
two_nodes = record {
  counter_sum = λ x. 0;
  counter_sum_save = λ x. 0;
  delta_counter_sum = λ x. 0;
  p_ooops_data_list = λ x. if x % 8 == 0 then 10 else 0;
  p_local_data = λ x. 0;
  n_data_count = 0;
  gsize = 2;
  n_fs_server = 1;
}

abbrev reduce : ℕ → (ℕ → Counters) → Counters
reduce gsize blocks x = sum_of blocks gsize x % word

reduce-IsSum : IsSum reduce
reduce-IsSum gsize blocks x h = refl

abbrev tag_text : ℕ → Text
tag_text i = codes "/work"

summary-IsPlain : (j : ℕ) → j < 1 → IsPlain (print_summary two_nodes).counter_sum j
unfolding print_summary
summary-IsPlain zero h = (
  record { some_delayed = omega arith; small = omega arith },
  record { some_delayed = omega arith; small = omega arith },
  inl (omega arith, omega arith),
)
summary-IsPlain (suc j) h = absurd (omega arith)

aggregate-print_summary_example :
    aggregate reduce 2 0 true (blocks_of two_nodes) tag_text
    ≡ some (expected (print_summary two_nodes).counter_sum tag_text 1 8 0)
aggregate-print_summary_example =
    aggregate-print_summary reduce two_nodes tag_text reduce-IsSum (omega arith) (λ x. omega arith)
      summary-IsPlain (λ k x h. ground arith)

-- Both kinds of calls were delayed each time.
all_delayed :
    aggregate reduce 2 0 true (blocks_of two_nodes) tag_text
    ≡ some (
        record {
          server = 0;
          tag = codes "/work";
          open_percent = pos 100;
          open_count = pos 20;
          open_delayed = pos 20;
          stat_percent = pos 100;
          stat_count = pos 20;
          stat_delayed = pos 20;
        }
        ∷ [])
unfolding aggregate
all_delayed = refl

-- Opens without stats.
by_zero : percent (pos 0) (pos 0) ≡ none
unfolding percent
by_zero = refl
