-- ===== src/Aggregator/Equal.antt =====
-- The summary of the MPI program and the sums of the daemon are the same numbers.
use ooops.Prelude.{
  ℕ, zero, suc, ◌+◌, ◌*◌, ◌/◌, ◌%◌, ◌^◌, ◌≤◌, ◌<◌, ◌≡◌, refl, sym, ap, ◌∙◌, true, false, ◌&&◌, ◌||◌,
  Option, some, pos, List, [], ◌∷◌, Text, ltb, if◌then◌else◌, Bool-cases, inl, inr, ◌⊎◌, arith,
}
use ooops.Daemon.{Daemon, Counters, block_len, max_fs_server, word, print_summary}
use ooops.Daemon.Sums.{total, print_summary_sums}
use ooops.Aggregator.{
  count_slot, add_summary, int_of, percent, Summary, summary_of, count_of, is_positive,
  print_servers, aggregate,
}

-- The count_of x of all nodes before k, summed up.
abbrev pub sum_of : (ℕ → Counters) → ℕ → ℕ → ℕ
sum_of blocks zero x = 0
sum_of blocks (suc k) x = sum_of blocks k x + blocks k x

-- `MPI_Reduce` of 32 `long int` with `MPI_SUM`
abbrev pub IsSum : (ℕ → (ℕ → Counters) → Counters) → Type 0
IsSum reduce =
    (gsize : ℕ) (blocks : ℕ → Counters) (x : ℕ)
    → x < block_len
    → reduce gsize blocks x ≡ sum_of blocks gsize x % word

-- The blocks of the nodes, as the daemon keeps them.
abbrev pub blocks_of : Daemon → ℕ → Counters
blocks_of d k x = d.p_ooops_data_list (block_len * k + x)

sum_of-total : (d : Daemon) (k x : ℕ) → sum_of (blocks_of d) k x ≡ total d.p_ooops_data_list k x
sum_of-total d zero x = refl
sum_of-total d (suc k) x =
    ap (λ n. n + d.p_ooops_data_list (block_len * k + x)) (sum_of-total d k x)

-- Counts of one kind: at most all calls are delayed, and a hundred times their number is an `int`.
pub record IsCount (count delayed : ℕ) : Type 0 where
  pub some_delayed : delayed ≤ count
  pub small : 100 * count < 2 ^ 31

-- There are opens and stats, or neither.
abbrev pub IsPlain : Counters → ℕ → Type 0
IsPlain f i =
    IsCount (count_slot f i 0) (count_slot f i 1)
    × IsCount (count_slot f i 2) (count_slot f i 3)
    × (((0 < count_slot f i 0) × (0 < count_slot f i 2))
        ⊎ ((count_slot f i 0 ≡ 0) × (count_slot f i 2 ≡ 0)))

-- The summary that the sums f make of file system i.
abbrev pub summary : Counters → (ℕ → Text) → ℕ → Summary
summary f tags i = record {
  server = i;
  tag = tags i;
  open_percent = pos (100 * count_slot f i 1 / count_slot f i 0);
  open_count = pos (count_slot f i 0);
  open_delayed = pos (count_slot f i 1);
  stat_percent = pos (100 * count_slot f i 3 / count_slot f i 2);
  stat_count = pos (count_slot f i 2);
  stat_delayed = pos (count_slot f i 3);
}

-- Those of k file systems from i on, of n in all, that were called.
abbrev pub expected : Counters → (ℕ → Text) → ℕ → ℕ → ℕ → List Summary
expected f tags n zero i = []
expected f tags n (suc k) i =
    let rest = expected f tags n k (suc i) in
    if ltb i n && ltb 0 (count_slot f i 0) then summary f tags i ∷ rest else rest

int_of_small : (n : ℕ) → n < 2 ^ 31 → int_of n ≡ pos n
int_of_small n h =
    let same : n % 2 ^ 32 ≡ n = omega arith in
    let small : ltb n (2 ^ 31) ≡ true = ground arith in rw (same, small) refl

percent_small :
    (count delayed : ℕ)
    → IsCount count delayed
    → 0 < count
    → percent (pos delayed) (pos count) ≡ some (pos (100 * delayed / count))
unfolding percent
percent_small zero delayed c h = absurd (omega arith)
percent_small (suc n) delayed c h =
    let low = c.some_delayed in
    let top = c.small in
    let small : ltb (100 * delayed) (2 ^ 31) ≡ true = ground arith in rw (percent, small) refl

is_positive_pos : (n : ℕ) → is_positive (pos n) ≡ ltb 0 n
is_positive_pos zero = refl
is_positive_pos (suc n) = sym (ground arith)

-- The numbers p of the program and f of the daemon for file system i.
abbrev Agree : Counters → Counters → ℕ → ℕ → Type 0
Agree p f n i =
    ((i < n)
      × (count_slot p i 0 ≡ count_slot f i 0)
      × (count_slot p i 1 ≡ count_slot f i 1)
      × (count_slot p i 2 ≡ count_slot f i 2)
      × (count_slot p i 3 ≡ count_slot f i 3)
      × IsPlain f i)
    ⊎ ((n ≤ i) × (count_slot p i 0 ≡ 0) × (count_slot p i 2 ≡ 0))

counter_small :
    (p f : Counters) (i k : ℕ)
    → count_slot p i k ≡ count_slot f i k
    → count_slot f i k < 2 ^ 31
    → count_of p i k ≡ pos (count_slot f i k)
counter_small p f i k e h = ap int_of e ∙ int_of_small (count_slot f i k) h

-- What one file system adds.
abbrev one : Counters → (ℕ → Text) → ℕ → List Summary → Option (List Summary)
one p tags i rest =
    if is_positive (count_of p i 0) || is_positive (count_of p i 2)
    then add_summary p tags i (percent (count_of p i 1) (count_of p i 0))
        (percent (count_of p i 3) (count_of p i 2)) (some rest)
    else some rest

abbrev one_expected : Counters → (ℕ → Text) → ℕ → ℕ → List Summary → List Summary
one_expected f tags n i rest =
    if ltb i n && ltb 0 (count_slot f i 0) then summary f tags i ∷ rest else rest

one-one_expected :
    (p f : Counters) (tags : ℕ → Text) (n i : ℕ) (rest : List Summary)
    → Agree p f n i
    → one p tags i rest ≡ some (one_expected f tags n i rest)
one-one_expected p f tags n i rest (inl (lt, e0, e1, e2, e3, (opens, stats, inl (po, ps)))) =
    let o = opens.small in
    let s = stats.small in
    let od = opens.some_delayed in
    let sd = stats.some_delayed in
    let inside : ltb i n ≡ true = ground arith in
    let called : ltb 0 (count_slot f i 0) ≡ true = ground arith in
    let c0 = counter_small p f i 0 e0 (omega arith) in
    let c1 = counter_small p f i 1 e1 (omega arith) in
    let c2 = counter_small p f i 2 e2 (omega arith) in
    let c3 = counter_small p f i 3 e3 (omega arith) in
    let as_summary : summary_of p tags i (pos (100 * count_slot f i 1 / count_slot f i 0))
          (pos (100 * count_slot f i 3 / count_slot f i 2))
        ≡ summary f tags i =
      λ t. record (summary f tags i) {
        open_count = c0 t;
        open_delayed = c1 t;
        stat_count = c2 t;
        stat_delayed = c3 t;
      } in
    rw
      (
        c0,
        c1,
        c2,
        c3,
        is_positive_pos (count_slot f i 0),
        inside,
        called,
        percent_small (count_slot f i 0) (count_slot f i 1) opens po,
        percent_small (count_slot f i 2) (count_slot f i 3) stats ps,
      )
      (ap (λ x. some (x ∷ rest)) as_summary)
one-one_expected p f tags n i rest (inl (lt, e0, e1, e2, e3, (opens, stats, inr (z0, z2)))) =
    let none_called : ltb 0 (count_slot f i 0) ≡ false = ground arith in
    let outside : (ltb i n && ltb 0 (count_slot f i 0)) ≡ false = ground arith in
    rw (ap int_of (e0 ∙ z0), ap int_of (e2 ∙ z2), outside) refl
one-one_expected p f tags n i rest (inr (le, z0, z2)) =
    let outside : ltb i n ≡ false = ground arith in rw (ap int_of z0, ap int_of z2, outside) refl

print_servers-expected :
    (p f : Counters) (tags : ℕ → Text) (n k i : ℕ)
    → ((j : ℕ) → i ≤ j → j < i + k → Agree p f n j)
    → print_servers p tags k i ≡ some (expected f tags n k i)
unfolding print_servers
print_servers-expected p f tags n zero i agree = refl
print_servers-expected p f tags n (suc k) i agree =
    let rest =
      print_servers-expected p f tags n k (suc i)
        (λ j le lt. agree j (omega arith) (omega arith)) in
    rw rest (
      one-one_expected p f tags n i (expected f tags n k (suc i))
        (agree i (omega arith) (omega arith)))

-- The job has at most 8 file systems and the daemon holds the counters of all nodes; the counters
-- of the other file systems are 0. Of each file system there are opens and stats or neither, at most
-- all of them were delayed, and a hundred times their number is less than 2^31. Then the program, as
-- rank 0, with the sum of all nodes that MPI_Reduce gives it, where the file high_io is there, prints
-- exactly the file systems that were called, each with the sums that `Print_Summary` of the daemon
-- has, and with the percentages of delayed calls, rounded down; nothing is divided by zero.
pub aggregate-print_summary :
    (reduce : ℕ → (ℕ → Counters) → Counters) (d : Daemon) (tags : ℕ → Text)
    → IsSum reduce
    → d.n_fs_server ≤ max_fs_server
    → ((x : ℕ) → d.counter_sum_save x < word)
    → ((j : ℕ) → j < d.n_fs_server → IsPlain (print_summary d).counter_sum j)
    → ((k x : ℕ) → d.n_fs_server ≤ x % max_fs_server → blocks_of d k x ≡ 0)
    → aggregate reduce d.gsize 0 true (blocks_of d) tags
      ≡ some (expected (print_summary d).counter_sum tags d.n_fs_server max_fs_server 0)
unfolding aggregate
aggregate-print_summary reduce d tags is_sum few saved plain unused =
    print_servers-expected p f tags d.n_fs_server max_fs_server 0 agree
  where
    p : Counters
    p = reduce d.gsize (blocks_of d)

    f : Counters
    f = (print_summary d).counter_sum

    same : (k j : ℕ) → k < 4 → j < d.n_fs_server → count_slot p j k ≡ count_slot f j k
    same k j hk hj =
        is_sum d.gsize (blocks_of d) (k * max_fs_server + j) (omega arith)
        ∙ ap (λ n. n % word) (sum_of-total d d.gsize (k * max_fs_server + j))
        ∙ sym (print_summary_sums d k j few hk hj (saved (k * max_fs_server + j))).0

    zero_sum : (g x : ℕ) → d.n_fs_server ≤ x % max_fs_server → sum_of (blocks_of d) g x ≡ 0
    zero_sum zero x h = refl
    zero_sum (suc g) x h = let before = zero_sum g x h in let block = unused g x h in omega arith

    zero_slot : (k j : ℕ) → k < 4 → j < 8 → d.n_fs_server ≤ j → count_slot p j k ≡ 0
    zero_slot k j hk hj h =
        is_sum d.gsize (blocks_of d) (k * max_fs_server + j) (omega arith)
        ∙ ap (λ n. n % word) (zero_sum d.gsize (k * max_fs_server + j) (omega arith))

    agree : (j : ℕ) → 0 ≤ j → j < 8 → Agree p f d.n_fs_server j
    agree j low high = elim (Bool-cases (ltb j d.n_fs_server)) [
      | inl e ↦
          let lt : j < d.n_fs_server = ground arith in
          inl (
            lt,
            same 0 j (omega arith) lt,
            same 1 j (omega arith) lt,
            same 2 j (omega arith) lt,
            same 3 j (omega arith) lt,
            plain j lt,
          )
      | inr e ↦
          let le : d.n_fs_server ≤ j = ground arith in
          inr (le, zero_slot 0 j (omega arith) high le, zero_slot 2 j (omega arith) high le)
    ]
