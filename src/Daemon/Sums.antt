-- ===== src/Daemon/Sums.antt =====
-- What `Print_Summary` leaves in the sums, the differences and the saved sums.
use ooops.Prelude.{
  ℕ, zero, suc, ◌+◌, ◌-◌, ◌*◌, ◌%◌, ◌≤◌, ◌<◌, ◌≡◌, refl, ◌∙◌, Bool, true, ◌&&◌, ltb, leb,
  if◌then◌else◌, arith,
}
use ooops.Daemon.{
  Daemon, Counters, word, block_len, max_fs_server, store, for_range, for_counters, clear_sums,
  add_node, add_nodes, set_delta, set_save, print_summary,
}

-- Whether the loops pass the index.
abbrev pub is_counted : ℕ → ℕ → Bool
is_counted n x = ltb x block_len && ltb (x % max_fs_server) n

-- A loop that rewrites each counter from its own value.
module _ (g : ℕ → ℕ → ℕ) where
  abbrev pass : ℕ → ℕ → Counters → Counters
  pass n b f = for_range n (λ j h. store h (b + j) (g (b + j) (h (b + j)))) f

  row :
      (n b : ℕ) (f : Counters) (x : ℕ)
      → pass n b f x ≡ (if leb b x && ltb x (b + n) then g x (f x) else f x)
  unfolding for_range
  row zero b f x = ground arith
  row (suc n) b f x = ground (arith, row n b f x, row n b f (b + n))

  pub for_counters_at :
      (n : ℕ) (f : Counters) (x : ℕ)
      → n ≤ max_fs_server
      → for_counters n (λ idx h. store h idx (g idx (h idx))) f x
        ≡ (if is_counted n x then g x (f x) else f x)
  unfolding for_counters
  for_counters_at n f x h =
      row n 24 (pass n 16 (pass n 8 (pass n 0 f))) x
      ∙ split (row n 16 (pass n 8 (pass n 0 f)) x, row n 8 (pass n 0 f) x, row n 0 f x)
    where
      split :
          (pass n 16 (pass n 8 (pass n 0 f)) x ≡ (
              if leb 16 x && ltb x (16 + n)
              then g x (pass n 8 (pass n 0 f) x)
              else pass n 8 (pass n 0 f) x))
            × (pass n 8 (pass n 0 f) x
                ≡ (if leb 8 x && ltb x (8 + n) then g x (pass n 0 f x) else pass n 0 f x))
            × (pass n 0 f x ≡ (if leb 0 x && ltb x (0 + n) then g x (f x) else f x))
          → (if leb 24 x && ltb x (24 + n)
              then g x (pass n 16 (pass n 8 (pass n 0 f)) x)
              else pass n 16 (pass n 8 (pass n 0 f)) x)
            ≡ (if is_counted n x then g x (f x) else f x)
      split e = ground arith

-- `x` of the nodes before k, summed up
abbrev pub total : Counters → ℕ → ℕ → ℕ
total list zero x = 0
total list (suc k) x = total list k x + list (block_len * k + x)

clear_sums_at :
    (n : ℕ) (sum : Counters) (x : ℕ)
    → n ≤ max_fs_server
    → clear_sums n sum x ≡ (if is_counted n x then 0 else sum x)
unfolding clear_sums
clear_sums_at n sum x h = for_counters_at (λ idx v. 0) n sum x h

add_node_at :
    (n : ℕ) (list : Counters) (k : ℕ) (sum : Counters) (x : ℕ)
    → n ≤ max_fs_server
    → add_node n list k sum x
      ≡ (if is_counted n x then (sum x + list (block_len * k + x)) % word else sum x)
unfolding add_node
add_node_at n list k sum x h =
    for_counters_at (λ idx v. (v + list (block_len * k + idx)) % word) n sum x h

add_nodes_at :
    (n gsize : ℕ) (list sum : Counters) (x : ℕ)
    → n ≤ max_fs_server
    → is_counted n x ≡ true
    → sum x ≡ 0
    → add_nodes n gsize list sum x ≡ total list gsize x % word
unfolding add_nodes
add_nodes_at n zero list sum x h c z = z
add_nodes_at n (suc k) list sum x h c z =
    add_node_at n list k (add_nodes n k list sum) x h
    ∙ rw (c, add_nodes_at n k list sum x h c z) (omega arith)

regained :
    (old new diff all : ℕ)
    → old < word
    → new ≡ all % word
    → diff ≡ (new + word - old) % word
    → (old + diff) % word ≡ new
regained old new diff all h e f = omega arith

-- After `Print_Summary`, with at most 8 file servers, each counter of a file server is the sum of
-- that counter over all nodes, 64 bits of it; the saved sum is the same; and the difference, added
-- to the sum saved before, gives the new one.
pub print_summary_sums :
    (d : Daemon) (i j : ℕ)
    → d.n_fs_server ≤ max_fs_server
    → i < 4
    → j < d.n_fs_server
    → d.counter_sum_save (i * max_fs_server + j) < word
    → let x = i * max_fs_server + j in
      let d' = print_summary d in
      (d'.counter_sum x ≡ total d.p_ooops_data_list d.gsize x % word)
      × (d'.counter_sum_save x ≡ d'.counter_sum x)
      × ((d.counter_sum_save x + d'.delta_counter_sum x) % word ≡ d'.counter_sum x)
unfolding print_summary set_delta set_save
print_summary_sums d i j h hi hj hs = (summed, saved, change)
  where
    x : ℕ
    x = i * max_fs_server + j

    n : ℕ
    n = d.n_fs_server

    sum : Counters
    sum = add_nodes n d.gsize d.p_ooops_data_list (clear_sums n d.counter_sum)

    counted : is_counted n x ≡ true
    counted = ground arith

    summed : sum x ≡ total d.p_ooops_data_list d.gsize x % word
    summed =
        add_nodes_at n d.gsize d.p_ooops_data_list (clear_sums n d.counter_sum) x h counted
          (clear_sums_at n d.counter_sum x h ∙ rw counted refl)

    saved : set_save n sum d.counter_sum_save x ≡ sum x
    saved = for_counters_at (λ idx v. sum idx) n d.counter_sum_save x h ∙ rw counted refl

    differs :
        set_delta n sum d.counter_sum_save d.delta_counter_sum x
        ≡ (sum x + word - d.counter_sum_save x) % word
    differs =
        for_counters_at (λ idx v. (sum idx + word - d.counter_sum_save idx) % word) n
          d.delta_counter_sum x h
        ∙ rw counted refl

    change :
        (d.counter_sum_save x + set_delta n sum d.counter_sum_save d.delta_counter_sum x) % word
        ≡ sum x
    change = regained (d.counter_sum_save x) (sum x) _ _ hs summed differs
