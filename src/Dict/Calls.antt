-- ===== src/Dict/Calls.antt =====
-- Any sequence of calls on a new table.
use ooops.Prelude.{
  ℕ, ◌+◌, ◌*◌, ◌<◌, ◌≡◌, refl, ◌∙◌, false, Option, none, some, List, [], ◌∷◌, Text, ◌==◌, length,
  arith,
}
use ooops.Dict.{Dict, max_name_len, create, insert, delete, search}
use ooops.Dict.Lookup.{Bucket}
use ooops.Dict.Hosts.{create-Valid}
use ooops.Dict.Records.{Records, newest, drop_newest}
use ooops.Dict.Refine.{Filled, Represents, search-newest, insert-Represents}
use ooops.Dict.Deletion.{delete-Represents}

-- `DictInsert` and `DictDelete`
pub data Call : Type 0 where
  call_insert : (key : Text) (value : ℕ) → Call
  call_delete : (key : Text) → Call

-- What the calls do to the records.
abbrev pub records_after : List Call → Records → Records
records_after [] m = m
records_after (call_insert key value ∷ cs) m = records_after cs ((key, value) ∷ m)
records_after (call_delete key ∷ cs) m = records_after cs (drop_newest key m)

-- Each key that is inserted has at most 15 bytes, the table stays below its load factor, and a key
-- that is deleted has a record.
abbrev pub AllAllowed : ℕ → List Call → Records → Type 0
AllAllowed size [] m = Unit {0}
AllAllowed size (call_insert key value ∷ cs) m =
    ((length key < max_name_len) × (5 * (length m + 1) < 4 * size))
    × AllAllowed size cs ((key, value) ∷ m)
AllAllowed size (call_delete key ∷ cs) m =
    ((v : ℕ) × (newest m key ≡ some v)) × AllAllowed size cs (drop_newest key m)

module _ (hash : Text → ℕ) where
  unfoldable pub run_calls : List Call → Dict → Option Dict
  unfolding insert delete
  run_calls [] d = some d
  run_calls (call_insert key value ∷ cs) d = elim (insert hash d key value) [
    | none ↦ none
    | some (i, d') ↦ run_calls cs d'
  ]
  run_calls (call_delete key ∷ cs) d = elim (delete hash d key) [
    | none ↦ none
    | some d' ↦ run_calls cs d'
  ]

  empty-Bucket :
      (d : Dict) (free : List ℕ) (h : ℕ) → d.n ≡ 0 → Bucket d free h → Filled hash d free h []
  empty-Bucket d free h e ([], c, a, l) = ([], c, a, tt, refl)
  empty-Bucket d free h e (j ∷ js, c, a, l) = absurd (omega (arith, e))

  n-create : (m : ℕ) (d : Dict) → 0 < m → (create m d).n ≡ 0
  unfolding create
  n-create m d h = let some_size : (m == 0) ≡ false = ground arith in rw (create, some_size) refl

  size-create : (m : ℕ) (d : Dict) → 0 < m → (create m d).size ≡ m
  unfolding create
  size-create m d h = let some_size : (m == 0) ≡ false = ground arith in rw (create, some_size) refl

  create-Represents : (m : ℕ) (d : Dict) → 0 < m → Represents hash (create m d) []
  create-Represents m d h =
      let (free, c, di, count, some_size, buckets) = create-Valid m d h in
      record {
        free = free;
        chain = c;
        distinct = di;
        count = count;
        some_size = some_size;
        counted = n-create m d h;
        buckets = λ x lt. empty-Bucket (create m d) free x (n-create m d h) (buckets x lt);
      }

  run_calls-Represents :
      (cs : List Call) (d : Dict) (m : Records) (size : ℕ)
      → d.size ≡ size
      → Represents hash d m
      → AllAllowed size cs m
      → (d' : Dict) × (run_calls cs d ≡ some d') × Represents hash d' (records_after cs m)
  unfolding run_calls
  run_calls-Represents [] d m size e r a = (d, refl, r)
  run_calls-Represents (call_insert key value ∷ cs) d m size e r ((short, room), a) =
      let (i, d₁, run, same, r₁) =
        insert-Represents hash d m key value r short (omega (arith, e)) in
      let (d₂, rest, r₂) = run_calls-Represents cs d₁ ((key, value) ∷ m) size (same ∙ e) r₁ a in
      (d₂, rw (run_calls, run) rest, r₂)
  run_calls-Represents (call_delete key ∷ cs) d m size e r ((v, found), a) =
      let (d₁, run, same, r₁) = delete-Represents hash d m key v r found in
      let (d₂, rest, r₂) = run_calls-Represents cs d₁ (drop_newest key m) size (same ∙ e) r₁ a in
      (d₂, rw (run_calls, run) rest, r₂)

  -- On a new table of one element or more, any sequence of inserts and deletes in which each key has
  -- at most 15 bytes, the table stays below its load factor and only keys that have a record are
  -- deleted: no call fails, and then the table is a list of records, on which an insert puts one in
  -- front and from which a delete takes the newest one of its key, so that an older one is found
  -- again. A search gives the value of the newest record of its key, or nothing where there is none.
  pub search-run_calls :
      (size : ℕ) (memory : Dict) (cs : List Call)
      → 0 < size
      → AllAllowed size cs []
      → (d : Dict) × (run_calls cs (create size memory) ≡ some d)
        × (d.n ≡ length (records_after cs []))
        × ((key : Text) → search hash d key ≡ newest (records_after cs []) key)
  search-run_calls size memory cs h a =
      let (d, run, r) =
        run_calls-Represents cs (create size memory) [] size (size-create size memory h)
          (create-Represents size memory h) a in
      (d, run, r.counted, λ key. search-newest hash d (records_after cs []) key r)
