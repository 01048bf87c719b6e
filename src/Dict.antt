-- ===== src/Dict.antt =====
-- src/dict.c: the hash table that finds the rank of a node by its name, and the part of
-- `Read_Host_List` of src/server.c that fills it. The buffers are functions of the index, an index
-- of -1 is `none`; an access at -1, a key longer than its field and `exit(1)` are `none` results.
pub mod Chains
pub mod Lookup
pub mod Records
pub mod Unlink
pub mod Refine
pub mod Deletion
pub mod Calls
pub mod Hosts
pub mod HostFile
use ooops.Prelude.{
  take, ℕ, zero, suc, ◌+◌, ◌-◌, ◌*◌, ◌%◌, Bool, true, false, Option, none, some, List, [], ◌∷◌,
  Text, ltb, leb, ◌==◌, if◌then◌else◌, str_eq, length,
}

-- `struct elt`
pub record Elt : Type 0 where
  pub next : Option ℕ
  pub value : ℕ
  pub key : Text

-- `struct dict`, `ht_table` and `elt_list`
pub record Dict : Type 0 where
  pub size : ℕ
  pub n : ℕ
  pub first_av : Option ℕ
  pub ht_table : ℕ → Option ℕ
  pub elt_list : ℕ → Elt

abbrev pub max_name_len : ℕ
max_name_len = 16

abbrev pub write {ℓ} : {A : Type ℓ} → (ℕ → A) → ℕ → A → ℕ → A
write f i v x = if x == i then v else f x

-- `d->n >= (d->size * MAX_LOAD_FACTOR)`, with 0.80, whose product with an `int` rounds to the
-- integer where the exact one is an integer
abbrev pub is_full : ℕ → ℕ → Bool
is_full size n = leb (4 * size) (5 * n)

abbrev pub free_elt : ℕ → (ℕ → Elt) → ℕ → Elt
free_elt size elts i =
    if ltb i size
    then record (elts i) { next = if i + 1 == size then none else some (i + 1) }
    else elts i

-- With `nSize` 0 the table in the memory is taken as it is.
unfoldable pub create : ℕ → Dict → Dict
create n_size d = if n_size == 0 then d else record {
  size = n_size;
  n = 0;
  first_av = some 0;
  ht_table = λ i. if ltb i n_size then none else d.ht_table i;
  elt_list = free_elt n_size d.elt_list;
}

-- The walk along a bucket, from `idx` on; `none` is -1.
unfoldable pub search_from : ℕ → (ℕ → Elt) → Option ℕ → Text → Option ℕ
search_from fuel elts none key = none
search_from zero elts (some i) key = none
search_from (suc fuel) elts (some i) key =
    let rest = search_from fuel elts (elts i).next key in
    if str_eq (elts i).key key then some (elts i).value else rest

-- Element i goes back to the front of the free ones.
abbrev pub release : Dict → ℕ → (ℕ → Option ℕ) → (ℕ → Elt) → Dict
release d i table elts = record d {
  n = d.n - 1;
  first_av = some i;
  ht_table = table;
  elt_list = write elts i (record (elts i) { next = d.first_av });
}

-- The walk behind element idx.
unfoldable pub delete_from : ℕ → Dict → ℕ → Text → Dict
delete_from zero d idx key = d
delete_from (suc fuel) d idx key = elim (d.elt_list idx).next [
  | none ↦ d
  | some i ↦
      let rest = delete_from fuel d i key in
      if str_eq (d.elt_list i).key key
      then release d i d.ht_table
          (write d.elt_list idx (record (d.elt_list idx) { next = (d.elt_list i).next }))
      else rest
]

-- `MAX_CLIENTS * MAX_NODE_NAME_LEN`, what `fread` takes at most.
abbrev pub max_file_size : ℕ
max_file_size = 131072

-- `gsize`: the line feeds of the buffer.
unfoldable pub count_lines : List ℕ → ℕ
count_lines [] = 0
count_lines (c ∷ cs) = (if c == 10 then 1 else 0) + count_lines cs

-- Each line feed becomes the end of a string.
unfoldable pub end_lines : List ℕ → List ℕ
end_lines [] = []
end_lines (c ∷ cs) = (if c == 10 then 0 else c) ∷ end_lines cs

-- One more byte in front of a string.
abbrev pub in_name : ℕ → Option (Text × List ℕ) → Option (Text × List ℕ)
in_name c none = none
in_name c (some (name, rest)) = some (c ∷ name, rest)

-- The string at `pNewLine`, and where the next one is; `none` where it does not end in the buffer.
unfoldable pub next_name : List ℕ → Option (Text × List ℕ)
next_name [] = none
next_name (c ∷ cs) = if c == 0 then some ([], cs) else in_name c (next_name cs)

-- The names of `gsize` lines.
unfoldable pub names_from : ℕ → List ℕ → Option (List Text)
unfolding next_name
names_from zero buff = some []
names_from (suc n) buff = elim (next_name buff) [
  | none ↦ none
  | some (name, rest) ↦ elim (names_from n rest) [ none ↦ none | some names ↦ some (name ∷ names) ]
]

-- `XXH64`, of the whole key with seed 0, is `hash`.
module _ (hash : Text → ℕ) where
  abbrev pub bucket : Dict → Text → ℕ
  bucket d key = hash key % d.size

  -- The table with element i, the first of the free ones, put in front of its bucket.
  abbrev pub put : Dict → ℕ → Text → ℕ → Dict
  put d i key value =
      let h = bucket d key in
      record d {
        n = d.n + 1;
        first_av = (d.elt_list i).next;
        ht_table = write d.ht_table h (some i);
        elt_list = write d.elt_list i (record { next = d.ht_table h; value = value; key = key });
      }

  -- Gives the element used, too.
  unfoldable pub insert : Dict → Text → ℕ → Option (ℕ × Dict)
  insert d key value = if leb max_name_len (length key) then none else (elim d.first_av [
    | none ↦ none
    | some i ↦ if is_full d.size (d.n + 1) then none else some (i, put d i key value)
  ])

  -- `DictInsertAuto`: the value is the index of the element.
  unfoldable pub insert_auto : Dict → Text → Option (ℕ × Dict)
  unfolding insert
  insert_auto d key = elim d.first_av [ none ↦ none | some i ↦ insert d key i ]

  -- No bucket has more than n elements.
  unfoldable pub search : Dict → Text → Option ℕ
  unfolding search_from
  search d key =
      if d.n == 0 then none else search_from d.n d.elt_list (d.ht_table (bucket d key)) key

  -- An empty bucket is element -1.
  unfoldable pub delete : Dict → Text → Option Dict
  unfolding delete_from
  delete d key = elim (d.ht_table (bucket d key)) [
    | none ↦ none
    | some i ↦ some (
        if str_eq (d.elt_list i).key key
        then release d i (write d.ht_table (bucket d key) (d.elt_list i).next) d.elt_list
        else delete_from d.n d i key)
  ]

  -- `while(NodeIdx < gsize)`: the names get their positions.
  unfoldable pub insert_names : List Text → ℕ → Dict → Option Dict
  unfolding insert
  insert_names [] node_idx d = some d
  insert_names (name ∷ names) node_idx d = elim (insert d name node_idx) [
    | none ↦ none
    | some (i, d') ↦ insert_names names (node_idx + 1) d'
  ]

  -- `Read_Host_List`, from the names of the lines on: twice as many elements as nodes.
  unfoldable pub read_host_list : List Text → Dict → Option Dict
  unfolding create insert_names
  read_host_list names d = insert_names names 0 (create (length names * 2) d)

  -- `Read_Host_List`, from the bytes of the host file on.
  unfoldable pub read_host_file : List ℕ → Dict → Option Dict
  unfolding count_lines end_lines names_from read_host_list
  read_host_file file d =
      let buff = take max_file_size file in
      elim (names_from (count_lines buff) (end_lines buff)) [
        | none ↦ none
        | some names ↦ read_host_list names d
      ]
