-- ===== src/Dict/Hosts.antt =====
-- The table of the node names that the daemon makes of the host file.
use ooops.Prelude.{
  ℕ, zero, suc, ◌+◌, ◌*◌, ◌<◌, ◌≡◌, refl, sym, ap, subst, ◌∙◌, false, Option, none, some, List, [],
  ◌∷◌, Text, ltb, ◌==◌, if◌then◌else◌, str_eq, length, arith,
}
use ooops.Dict.{Dict, Elt, max_name_len, create, search, insert_names, read_host_list, free_elt}
use ooops.Dict.Chains.{Chain, Fresh, Apart, Distinct}
use ooops.Dict.Lookup.{Valid, search-insert}

abbrev pub range : ℕ → ℕ → List ℕ
range i zero = []
range i (suc k) = i ∷ range (i + 1) k

length-range : (i k : ℕ) → length (range i k) ≡ k
length-range i zero = refl
length-range i (suc k) = ap suc (length-range (i + 1) k)

range-Fresh : (j i k : ℕ) → j < i → Fresh j (range i k)
range-Fresh j i zero h = tt
range-Fresh j i (suc k) h = (omega arith, range-Fresh j (i + 1) k (omega arith))

range-Distinct : (i k : ℕ) → Distinct (range i k)
range-Distinct i zero = tt
range-Distinct i (suc k) = (range-Fresh i (i + 1) k (omega arith), range-Distinct (i + 1) k)

Apart-nil : (js : List ℕ) → Apart js []
Apart-nil [] = tt
Apart-nil (j ∷ js) = (tt, Apart-nil js)

range-Chain :
    (m i k : ℕ) (elts : ℕ → Elt)
    → i + k ≡ m
    → Chain (free_elt m elts) (if i == m then none else some i) (range i k)
range-Chain m i zero elts e = ground arith
range-Chain m i (suc k) elts e = (
  ground arith,
  subst (λ o. Chain (free_elt m elts) o (range (i + 1) k))
      {x = if i + 1 == m then none else some (i + 1)} {y = (free_elt m elts i).next} (ground arith)
      (range-Chain m (i + 1) k elts (omega arith)),
)

abbrev created : ℕ → Dict → Dict
created m d = record {
  size = m;
  n = 0;
  first_av = some 0;
  ht_table = λ i. if ltb i m then none else d.ht_table i;
  elt_list = free_elt m d.elt_list;
}

created_eq : (m : ℕ) (d : Dict) → 0 < m → create m d ≡ created m d
unfolding create
created_eq m d h = let some_size : (m == 0) ≡ false = ground arith in rw (create, some_size) refl

pub create-Valid : (m : ℕ) (d : Dict) → 0 < m → Valid (create m d)
unfolding create
create-Valid m d h = subst Valid {x = created m d} {y = create m d} (sym (created_eq m d h)) (
  range 0 m,
  subst (λ o. Chain (free_elt m d.elt_list) o (range 0 m)) {x = if 0 == m then none else some 0}
      (ground arith) (range-Chain m 0 m d.elt_list (omega arith)),
  range-Distinct 0 m,
  (rw (length-range 0 m) (omega arith)),
  h,
  λ i lt. ([], ground arith, Apart-nil (range 0 m), omega arith),
)

-- The position of the last name that is the key.
abbrev pub last_rank : Text → List Text → ℕ → Option ℕ → Option ℕ
last_rank key [] i found = found
last_rank key (x ∷ xs) i found = last_rank key xs (i + 1) (if str_eq x key then some i else found)

abbrev pub AllShort : List Text → Type 0
AllShort [] = Unit {0}
AllShort (x ∷ xs) = (length x < max_name_len) × AllShort xs

module _ (hash : Text → ℕ) where
  create_empty : (m : ℕ) (d : Dict) (key : Text) → 0 < m → search hash (create m d) key ≡ none
  unfolding create search
  create_empty m d key h = ground arith

  insert_names_finds :
      (names : List Text) (i : ℕ) (d : Dict)
      → Valid d
      → AllShort names
      → 5 * (d.n + length names) < 4 * d.size
      → (d' : Dict) × (insert_names hash names i d ≡ some d')
        × ((key : Text) → search hash d' key ≡ last_rank key names i (search hash d key))
  unfolding insert_names
  insert_names_finds [] i d v short room = (d, refl, λ key. refl)
  insert_names_finds (x ∷ xs) i d v short room =
      let first = search-insert hash d x i v short.0 (omega arith) in
      let rest =
        insert_names_finds xs (i + 1) first.1 first.3 short.1 (omega (arith, first.4, first.5)) in
      (
        rest.0,
        rw (insert_names, first.2) rest.1,
        λ key. rest.2 key ∙ ap (last_rank key xs (i + 1)) (first.6 key),
      )

  -- Of one name or more, each of at most 15 bytes, `Read_Host_List` makes a table without filling
  -- it up, in which each key is found with the position of its last occurrence among the
  -- names, and no other key is found.
  pub read_host_list_finds :
      (names : List Text) (d : Dict)
      → AllShort names
      → 0 < length names
      → (d' : Dict) × (read_host_list hash names d ≡ some d')
        × ((key : Text) → search hash d' key ≡ last_rank key names 0 none)
  unfolding read_host_list create
  read_host_list_finds names d short some_name =
      let made = create (length names * 2) d in
      let filled =
        insert_names_finds names 0 made (create-Valid (length names * 2) d (omega arith)) short
          (ground arith) in
      (
        filled.0,
        filled.1,
        λ key.
            filled.2 key
            ∙ ap (last_rank key names 0) (create_empty (length names * 2) d key (omega arith)),
      )
