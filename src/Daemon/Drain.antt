-- ===== src/Daemon/Drain.antt =====
-- What the daemon has after a message of a node.
use ooops.Prelude.{
  leb, ℕ, zero, suc, ◌+◌, ◌-◌, ◌*◌, ◌%◌, ◌<◌, ◌≡◌, ◌≢◌, refl, ◌∙◌, ap, ◌⊎◌, inl, inr, false, some,
  pos, ◌==◌, Bool-cases, arith,
}
use ooops.Daemon.{
  Daemon, Counters, block_len, copy_block, submit, print_summary, take_data, drain_client,
}

-- The block of node k is a given one, from index 0 on.
abbrev pub Holds : Counters → ℕ → Counters → Type 0
Holds list k block = (x : ℕ) → x < block_len → list (block_len * k + x) ≡ block x

copy_block-Holds :
    (list : Counters) (k : ℕ) (block : Counters) → Holds (copy_block list k block) k block
copy_block-Holds list k block x h =
    let back : block_len * k + x - block_len * k ≡ x = omega arith in ground (arith, ap block back)

copy_block_other :
    (list : Counters) (k j : ℕ) (block : Counters) (x : ℕ)
    → j ≢ k
    → x < block_len
    → copy_block list k block (block_len * j + x) ≡ list (block_len * j + x)
copy_block_other list k j block x ne h = ground arith

-- A message of node k, neither 0 nor out of range, of two nodes or more: it is counted, its counters
-- are the block of node k, and those of the nodes other than 0 and k stay. If the count is now a
-- multiple of the number of other nodes, block 0 is the local one and the sums are those of
-- `Print_Summary`; if not, block 0 and the sums stay.
pub drain_client_stores :
    (d : Daemon) (k : ℕ) (counter : Counters)
    → 0 < k
    → k < d.gsize
    → (d' : Daemon) × (drain_client d (record { rank = pos k; counter = counter }) ≡ some d')
      × (d'.n_data_count ≡ d.n_data_count + 1)
      × (d'.gsize ≡ d.gsize)
      × Holds d'.p_ooops_data_list k counter
      × ((j x : ℕ)
          → j ≢ 0
          → j ≢ k
          → x < block_len
          → d'.p_ooops_data_list (block_len * j + x) ≡ d.p_ooops_data_list (block_len * j + x))
      × (((d'.n_data_count % (d.gsize - 1) ≡ 0)
            × Holds d'.p_ooops_data_list 0 d.p_local_data
            × (d'.counter_sum
                ≡ (print_summary
                    (record d { p_ooops_data_list = d'.p_ooops_data_list })).counter_sum))
          ⊎ ((d'.n_data_count % (d.gsize - 1) ≢ 0)
              × ((x : ℕ) → x < block_len → d'.p_ooops_data_list x ≡ d.p_ooops_data_list x)
              × (d'.counter_sum ≡ d.counter_sum)))
unfolding drain_client take_data submit print_summary
drain_client_stores d zero counter pos_k in_range = absurd (omega arith)
drain_client_stores d (suc k) counter pos_k in_range =
    elim (Bool-cases ((d.n_data_count + 1) % (d.gsize - 1) == 0)) [
      | inl round ↦ (
        submit stored,
        rw (drain_client, take_data, within, more, round) refl,
        refl,
        refl,
        λ x h.
            copy_block_other placed 0 (suc k) d.p_local_data x (omega arith) h
            ∙ copy_block-Holds d.p_ooops_data_list (suc k) counter x h,
        λ j x nz ne h.
            copy_block_other placed 0 j d.p_local_data x nz h
            ∙ copy_block_other d.p_ooops_data_list (suc k) j counter x ne h,
        inl (ground arith, copy_block-Holds placed 0 d.p_local_data, refl),
      )
      | inr partial ↦ (
        stored,
        rw (drain_client, take_data, within, more, partial) refl,
        refl,
        refl,
        copy_block-Holds d.p_ooops_data_list (suc k) counter,
        λ j x nz ne h. copy_block_other d.p_ooops_data_list (suc k) j counter x ne h,
        inr (λ e. absurd (ground arith), λ x h. ground arith, refl),
      )
    ]
  where
    placed : Counters
    placed = copy_block d.p_ooops_data_list (suc k) counter

    stored : Daemon
    stored = record d { p_ooops_data_list = placed; n_data_count = d.n_data_count + 1 }

    within : leb d.gsize (suc k) ≡ false
    within = ground arith

    more : (d.gsize == 1) ≡ false
    more = ground arith
