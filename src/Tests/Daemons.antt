-- ===== src/Tests/Daemons.antt =====
-- A daemon of three nodes.
use ooops.Prelude.{List, [], ◌∷◌, ◌++◌, ◌+◌, ◌%◌, ◌≡◌, refl, some, arith}
use ooops.Daemon.{Daemon, word, print_summary}
use ooops.Daemon.Sums.{total, print_summary_sums}
use ooops.Daemon.Transfer.{
  Ret, Written, read_all, write_all, transfer_all_completes, transfer_all_stops,
}

abbrev pub three_nodes : Daemon
three_nodes = record {
  counter_sum = λ x. 0;
  counter_sum_save = λ x. 7;
  delta_counter_sum = λ x. 0;
  p_ooops_data_list = λ x. x;
  p_local_data = λ x. 100;
  n_data_count = 1;
  gsize = 3;
  n_fs_server = 2;
}

summary_runs : (print_summary three_nodes).counter_sum 9 ≡ 123
unfolding print_summary
summary_runs = refl

print_summary_sums_example :
    let d' = print_summary three_nodes in
    (d'.counter_sum 9 ≡ total (λ x. x) 3 9 % word)
    × (d'.counter_sum_save 9 ≡ d'.counter_sum 9)
    × ((7 + d'.delta_counter_sum 9) % word ≡ d'.counter_sum 9)
print_summary_sums_example =
    print_summary_sums three_nodes 1 1 (omega arith) (omega arith) (omega arith) (omega arith)

abbrev before : List Ret
before = Ret.moved 3 ∷ Ret.interrupted ∷ Ret.moved 2 ∷ []

transfer_all_completes_example :
    (read_all (before ++ (Ret.moved 5 ∷ Ret.failed ∷ [])) 10 0 ≡ some 10)
    × (write_all (before ++ (Ret.moved 5 ∷ Ret.failed ∷ [])) 10 0 ≡ some (Written.written 10))
transfer_all_completes_example = transfer_all_completes before (Ret.failed ∷ []) 5 tt (omega arith)

transfer_all_stops_example :
    (read_all (before ++ (Ret.ended ∷ [])) 10 0 ≡ some 5)
    × (read_all (before ++ (Ret.failed ∷ [])) 10 0 ≡ some 5)
    × (read_all (before ++ (Ret.no_space ∷ [])) 10 0 ≡ some 5)
    × (write_all (before ++ (Ret.ended ∷ [])) 10 0 ≡ some (Written.written 5))
    × (write_all (before ++ (Ret.failed ∷ [])) 10 0 ≡ some (Written.written 5))
    × (write_all (before ++ (Ret.no_space ∷ [])) 10 0 ≡ some Written.out_of_space)
transfer_all_stops_example = transfer_all_stops before [] 10 tt (omega arith)
