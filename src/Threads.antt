-- ===== src/Threads.antt =====
-- src/ooops.c, `post_lxstat` and `Update_open_Count`: the threads and processes of a user that count
-- their calls of one kind on one file system, interleaved in any order. The mutex covers the counter
-- and the nap; the time stamp is written after the mutex is released. That another process starts,
-- and sets the mutex up anew, is not a step here.
pub mod Numbers
pub mod Progress
use ooops.Prelude.{
  ℕ, ◌+◌, ◌%◌, ◌^◌, ◌<◌, ◌≡◌, ◌==◌, if◌then◌else◌, Bool, true, false, Option, none, some, update,
}
use ooops.Throttle.{max_rec}

-- The shared memory: the owner of the mutex, the two counters and the ring of stamps. `issued` and
-- `naps` are the true numbers of counted calls and of naps, which the program does not keep.
pub record Shared : Type 0 where
  pub owner : Option ℕ
  pub count : ℕ
  pub delayed : ℕ
  pub stamps : ℕ → ℕ
  pub issued : ℕ
  pub naps : ℕ

-- Where a thread stands. The local variable `nCall_New` is n; m is the true number of the call.
pub data Pc : Type 0 where
  idle : Pc
  locked : Pc
  loaded : (n : ℕ) → Pc
  stored : (n m : ℕ) → Pc
  counted : (n m : ℕ) → Pc
  stamped : (n m : ℕ) → Pc
  napping : (n m : ℕ) → Pc
  nap_loaded : (n m k : ℕ) → Pc
  nap_stored : (n m : ℕ) → Pc
  woken : (n m : ℕ) → Pc

-- One step of thread i.
pub data Move (i : ℕ) (s : Shared) : Pc → Shared → Pc → Type 0 where
  lock : s.owner ≡ none → Move i s Pc.idle (record s { owner = some i }) Pc.locked
  load : Move i s Pc.locked s (Pc.loaded s.count)
  bump :
      {n : ℕ}
      → Move i s
          (Pc.loaded n)
          (record s { count = (n + 1) % 2 ^ 32; issued = s.issued + 1 })
          (Pc.stored n s.issued)
  unlock : {n m : ℕ} → Move i s (Pc.stored n m) (record s { owner = none }) (Pc.counted n m)
  stamp :
      {n m : ℕ} (t : ℕ)
      → Move i s
          (Pc.counted n m)
          (record s { stamps = update s.stamps (n % max_rec) t })
          (Pc.stamped n m)
  return : {n m : ℕ} → Move i s (Pc.stamped n m) s Pc.idle
  lock_nap :
      {n m : ℕ}
      → s.owner ≡ none
      → Move i s (Pc.stamped n m) (record s { owner = some i }) (Pc.napping n m)
  load_nap : {n m : ℕ} → Move i s (Pc.napping n m) s (Pc.nap_loaded n m s.delayed)
  bump_nap :
      {n m k : ℕ}
      → Move i s
          (Pc.nap_loaded n m k)
          (record s { delayed = (k + 1) % 2 ^ 32; naps = s.naps + 1 })
          (Pc.nap_stored n m)
  unlock_nap : {n m : ℕ} → Move i s (Pc.nap_stored n m) (record s { owner = none }) (Pc.woken n m)
  stamp_nap :
      {n m : ℕ} (t : ℕ)
      → Move i s (Pc.woken n m) (record s { stamps = update s.stamps (n % max_rec) t }) Pc.idle

pub record System : Type 0 where
  pub mem : Shared
  pub pc : ℕ → Pc

pub data Step (threads : ℕ) (s : System) : System → Type 0 where
  pick :
      (i : ℕ) {m : Shared} {p : Pc}
      → i < threads
      → Move i s.mem (s.pc i) m p
      → Step threads s (record { mem = m; pc = update s.pc i p })

-- A new shared memory, all zero.
abbrev pub init : System
init = record {
  mem = record { owner = none; count = 0; delayed = 0; stamps = λ _. 0; issued = 0; naps = 0 };
  pc = λ _. Pc.idle;
}

pub data Reach (threads : ℕ) : System → Type 0 where
  start : Reach threads init
  later : {s t : System} → Reach threads s → Step threads s t → Reach threads t
