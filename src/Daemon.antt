-- ===== src/Daemon.antt =====
-- src/server.c: the daemon that gathers the counters of the nodes (`drain_client`, `Print_Summary`,
-- the first lines of `periodic`). Counters are `long int`: 64 bits that wrap. A buffer of counters
-- is a function of the index.
pub mod Sums
pub mod Charts
pub mod Drain
pub mod Transfer
pub mod Server
pub mod Reports
pub mod Logs
use ooops.Prelude.{
  ℕ, zero, suc, ◌+◌, ◌-◌, ◌*◌, ◌/◌, ◌%◌, ◌^◌, Bool, true, false, not, ◌&&◌, Option, none, some, ℤ,
  pos, negsuc, ltb, leb, ◌==◌, if◌then◌else◌,
}

abbrev pub max_fs_server : ℕ
max_fs_server = 8

-- `MAX_FS_SERVER*4`
abbrev pub block_len : ℕ
block_len = 32

abbrev pub word : ℕ
word = 2 ^ 64

abbrev pub Counters : Type 0
Counters = ℕ → ℕ

abbrev pub store : Counters → ℕ → ℕ → Counters
store f idx v x = if x == idx then v else f x

-- The static variables. `p_ooops_data_list` holds one block of 32 counters for each node.
pub record Daemon : Type 0 where
  pub counter_sum : Counters
  pub counter_sum_save : Counters
  pub delta_counter_sum : Counters
  pub p_ooops_data_list : Counters
  pub p_local_data : Counters
  pub n_data_count : ℕ
  pub gsize : ℕ
  pub n_fs_server : ℕ

-- `for(i=0; i<n; i++)`
unfoldable pub for_range {ℓ} : {S : Type ℓ} → ℕ → (ℕ → S → S) → S → S
for_range zero body s = s
for_range (suc n) body s = body n (for_range n body s)

-- `for(i=0; i<4; i++) for(j=0; j<n_fs_server; j++)`, with `idx = i*MAX_FS_SERVER + j`
unfoldable pub for_counters {ℓ} : {S : Type ℓ} → ℕ → (ℕ → S → S) → S → S
unfolding for_range
for_counters n body s = for_range 4 (λ i. for_range n (λ j. body (i * max_fs_server + j))) s

unfoldable pub clear_sums : ℕ → Counters → Counters
unfolding for_counters
clear_sums n sum = for_counters n (λ idx f. store f idx 0) sum

-- The block of one node is added.
unfoldable pub add_node : ℕ → Counters → ℕ → Counters → Counters
unfolding for_counters
add_node n list k sum =
    for_counters n (λ idx f. store f idx ((f idx + list (block_len * k + idx)) % word)) sum

unfoldable pub add_nodes : ℕ → ℕ → Counters → Counters → Counters
unfolding for_range add_node
add_nodes n gsize list sum = for_range gsize (add_node n list) sum

unfoldable pub set_delta : ℕ → Counters → Counters → Counters → Counters
unfolding for_counters
set_delta n sum save delta =
    for_counters n (λ idx f. store f idx ((sum idx + word - save idx) % word)) delta

unfoldable pub set_save : ℕ → Counters → Counters → Counters
unfolding for_counters
set_save n sum save = for_counters n (λ idx f. store f idx (sum idx)) save

-- The last loop sets the difference at an index before it saves the sum there.
unfoldable pub print_summary : Daemon → Daemon
unfolding clear_sums add_nodes set_delta set_save
print_summary d =
    let sum =
      add_nodes d.n_fs_server d.gsize d.p_ooops_data_list
        (clear_sums d.n_fs_server d.counter_sum) in
    record d {
      counter_sum = sum;
      counter_sum_save = set_save d.n_fs_server sum d.counter_sum_save;
      delta_counter_sum = set_delta d.n_fs_server sum d.counter_sum_save d.delta_counter_sum;
    }

-- `memcpy` of a block
abbrev pub copy_block : Counters → ℕ → Counters → Counters
copy_block list k block x =
    if leb (block_len * k) x && ltb x (block_len * k + block_len)
    then block (x - block_len * k)
    else list x

-- `OOOPSDATA`, with the right tag
pub record Data : Type 0 where
  pub rank : ℤ
  pub counter : Counters

-- The local block in place, then the sums.
unfoldable pub submit : Daemon → Daemon
unfolding print_summary
submit d =
    print_summary (record d { p_ooops_data_list = copy_block d.p_ooops_data_list 0 d.p_local_data })

-- The data of a node other than 0. The list has a block for each of `gsize` nodes: a rank from
-- there on addresses memory behind it, `none`; and with no other node the remainder would divide by
-- zero.
unfoldable pub take_data : Daemon → ℕ → Counters → Option Daemon
unfolding submit
take_data d k counter =
    let stored = record d {
      p_ooops_data_list = copy_block d.p_ooops_data_list k counter;
      n_data_count = d.n_data_count + 1;
    } in
    if leb d.gsize k
    then none
    else if d.gsize == 1
    then none
    else (if (d.n_data_count + 1) % (d.gsize - 1) == 0 then some (submit stored) else some stored)

-- What `drain_client` does of a message. A negative rank, which a node gets that is not in the host
-- file, addresses memory before the list: `none`.
unfoldable pub drain_client : Daemon → Data → Option Daemon
unfolding take_data
drain_client d m = elim m.rank [
  | pos zero ↦ some d
  | pos (suc k) ↦ take_data d (suc k) m.counter
  | negsuc k ↦ none
]

-- `periodic`, of a job of one node
unfoldable pub periodic : Daemon → Daemon
unfolding submit
periodic d = if d.gsize == 1 then submit d else d
