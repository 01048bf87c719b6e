-- ===== src/Params/Setup.antt =====
-- src/ooops.c, `Init_Shared_Mutex` from the shared page of parameters on: several processes of a user
-- that start at once. One of them creates the page and publishes its configuration, the others wait
-- for it. A step is a call of the system, a test, or the stores of one entry of an array; stores are
-- seen in their order. ftruncate and mmap do not fail, and nobody removes the page or changes it.
pub mod Stores
pub mod Phases
pub mod Kept
pub mod Agree
use ooops.Prelude.{
  ℕ, zero, suc, ◌+◌, ◌<◌, ◌≡◌, ◌≢◌, Bool, true, false, List, [], ◌∷◌, take, replicate, pos, update,
}
use ooops.Floats.{Floats}
use ooops.FileServer.{Tag}
use ooops.State.{Limits, Page, State}
use ooops.Params.{update_parameters}

-- `p_FS_Tag_Len[i] = 0`
abbrev pub clear_len : ℕ → List Tag → List Tag
clear_len i [] = []
clear_len zero (t ∷ ts) = record t { len = 0 } ∷ ts
clear_len (suc i) (t ∷ ts) = t ∷ clear_len i ts

-- `strncpy(p_FS_Tag_List[i], szFSTag[i], FS_Tag_Len[i])` with its length and its NUL
abbrev pub store_tag : ℕ → List Tag → List Tag → List Tag
store_tag i [] shared = shared
store_tag i (t ∷ ts) [] = []
store_tag zero (t ∷ ts) (u ∷ us) = record t { name = take t.len t.name } ∷ us
store_tag (suc i) (t ∷ ts) (u ∷ us) = u ∷ store_tag i ts us

-- Entry i of an array is copied.
abbrev pub store_entry {ℓ} : {A : Type ℓ} → ℕ → List A → List A → List A
store_entry i [] to = to
store_entry i (x ∷ xs) [] = []
store_entry zero (x ∷ xs) (y ∷ ys) = x ∷ ys
store_entry (suc i) (x ∷ xs) (y ∷ ys) = y ∷ store_entry i xs ys

-- Where `Publish_Parameters` stands: before the store of the time stamp, before `*p_Disabled = 0`, at
-- entry i of the two loops, before the frequency, before `*p_Param_Mem_Ready = 1`.
pub data Stage : Type 0 where
  at_stamp : Stage
  at_disabled : Stage
  clearing : (i : ℕ) → Stage
  copying : (i : ℕ) → Stage
  at_freq : Stage
  at_ready : Stage

-- Where a process stands. `collided` is behind the second `shm_open`, when it has failed; `opened` is
-- in the loop that waits, `updating` behind it.
pub data Pc : Type 0 where
  start : Pc
  missing : Pc
  collided : Pc
  stopped : Pc
  created : Pc
  publishing : (st : Stage) → Pc
  opened : Pc
  faulted : Pc
  updating : Pc
  running : Pc

module _ (fl : Floats) where
  -- What ftruncate makes: zero bytes.
  abbrev pub blank_page : Page fl
  blank_page = record {
    t_updated = 0;
    disabled = 0;
    ready = 0;
    freq = fl.single (pos 0);
    tags = replicate 8 (record { name = []; len = 0 });
    limits = replicate 8 (record {
      threshold_open = 0;
      threshold_lxstat = 0;
      max_open_freq = fl.single (pos 0);
      max_lxstat_freq = fl.single (pos 0);
    });
  }

  -- The shared memory object, whether it has its size, and what the processes have.
  pub record World : Type 0 where
    pub found : Bool
    pub sized : Bool
    pub page : Page fl
    pub pc : ℕ → Pc
    pub state : ℕ → State fl

  -- One store of `Publish_Parameters`, with the configuration and the time stamp of the process.
  pub data Store (tsc : ℕ) (s : State fl) (page : Page fl) : Stage → Page fl → Stage → Type 0 where
    stamp : Store tsc s page Stage.at_stamp (record page { t_updated = tsc }) Stage.at_disabled
    enable : Store tsc s page Stage.at_disabled (record page { disabled = 0 }) (Stage.clearing 0)
    clear :
        {i : ℕ}
        → i < s.place.n_fs_server
        → Store tsc s page
            (Stage.clearing i)
            (record page { tags = clear_len i page.tags })
            (Stage.clearing (suc i))
    cleared :
        {i : ℕ}
        → i ≡ s.place.n_fs_server
        → Store tsc s page (Stage.clearing i) page (Stage.copying 0)
    copy_one :
        {i : ℕ}
        → i < s.place.n_fs_server
        → Store tsc s page
            (Stage.copying i)
            (record page {
              tags = store_tag i s.place.tags page.tags;
              limits = store_entry i s.limits page.limits;
            })
            (Stage.copying (suc i))
    copied :
        {i : ℕ} → i ≡ s.place.n_fs_server → Store tsc s page (Stage.copying i) page Stage.at_freq
    put_freq : Store tsc s page Stage.at_freq (record page { freq = s.freq }) Stage.at_ready

  module _ (tsc : ℕ → ℕ) (config before : ℕ → State fl) where
    abbrev pub move_to : World → ℕ → Pc → World
    move_to w i p = record w { pc = update w.pc i p }

    abbrev pub run_with : World → ℕ → State fl → World
    run_with w i s = record (move_to w i Pc.running) { state = update w.state i s }

    -- One step of process i. `config i` is what it has after `Read_Config`, where it creates the
    -- page.
    pub data Step (w : World) (i : ℕ) : World → Type 0 where
      open_found : w.pc i ≡ Pc.start → w.found ≡ true → Step w i (move_to w i Pc.opened)
      open_missing : w.pc i ≡ Pc.start → w.found ≡ false → Step w i (move_to w i Pc.missing)
      create :
          w.pc i ≡ Pc.missing
          → w.found ≡ false
          → Step w i (record (move_to w i Pc.created) { found = true })
      create_fails : w.pc i ≡ Pc.missing → w.found ≡ true → Step w i (move_to w i Pc.collided)
      reopen : w.pc i ≡ Pc.collided → w.found ≡ true → Step w i (move_to w i Pc.opened)
      reopen_fails : w.pc i ≡ Pc.collided → w.found ≡ false → Step w i (move_to w i Pc.stopped)
      truncate :
          w.pc i ≡ Pc.created
          → Step w i (record (move_to w i (Pc.publishing Stage.at_stamp)) {
            sized = true;
            page = blank_page;
          })
      store :
          {st next : Stage} {page : Page fl}
          → w.pc i ≡ Pc.publishing st
          → Store (tsc i) (config i) w.page st page next
          → Step w i (record (move_to w i (Pc.publishing next)) { page = page })
      ready :
          w.pc i ≡ Pc.publishing Stage.at_ready
          → Step w i (record (run_with w i (record (config i) { active = true })) {
            page = record w.page { ready = 1 };
          })
      fault : w.pc i ≡ Pc.opened → w.sized ≡ false → Step w i (move_to w i Pc.faulted)
      nap : w.pc i ≡ Pc.opened → w.sized ≡ true → w.page.ready ≡ 0 → Step w i w
      see_ready :
          w.pc i ≡ Pc.opened
          → w.sized ≡ true
          → w.page.ready ≢ 0
          → Step w i (move_to w i Pc.updating)
      take_over :
          w.pc i ≡ Pc.updating → Step w i (run_with w i (update_parameters fl w.page (before i)))

    abbrev pub new_world : World
    new_world = record {
      found = false;
      sized = false;
      page = blank_page;
      pc = λ _. Pc.start;
      state = before;
    }

    pub data Reach : World → Type 0 where
      new : Reach new_world
      later : {w v : World} {i : ℕ} → Reach w → Step w i v → Reach v
