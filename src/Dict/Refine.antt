-- ===== src/Dict/Refine.antt =====
-- The table as a list of records, on which `DictInsert` puts one in front and from which `DictDelete`
-- takes the newest one of a key.
use ooops.Prelude.{
  ℕ, ◌+◌, ◌*◌, ◌≤◌, ◌<◌, ◌≡◌, refl, ap, subst, ◌∙◌, false, some, List, [], ◌∷◌, Text, leb, ◌==◌,
  length, inl, inr, Bool-cases, arith,
}
use ooops.Dict.{Dict, Elt, max_name_len, is_full, insert, put, search, bucket}
use ooops.Dict.Chains.{Chain, Fresh, Apart, Distinct, Chain-write, write_self}
use ooops.Dict.Lookup.{Bucket, put_same, put_other, search-lookup}
use ooops.Dict.Records.{
  Records, entries, newest, lookup-entries, length-entries, in_bucket, newest-in_bucket,
  length-in_bucket,
}
use ooops.Dict.Unlink.{entries-write}

module _ (hash : Text → ℕ) where
  -- Bucket h has the records of its keys, in their order; no element is there twice or free.
  abbrev pub Filled : Dict → List ℕ → ℕ → Records → Type 0
  Filled d free h m =
      (is : List ℕ) × Chain d.elt_list (d.ht_table h) is
      × Apart free is
      × Distinct is
      × (entries d.elt_list is ≡ in_bucket hash d.size h m)

  pub record Represents (d : Dict) (m : Records) : Type 0 where
    pub free : List ℕ
    pub chain : Chain d.elt_list d.first_av free
    pub distinct : Distinct free
    pub count : length free + d.n ≡ d.size
    pub some_size : 0 < d.size
    pub counted : d.n ≡ length m
    pub buckets : (h : ℕ) → h < d.size → Filled d free h m

  pub short_bucket :
      (d : Dict) (m : Records) (is : List ℕ) (h : ℕ)
      → d.n ≡ length m
      → entries d.elt_list is ≡ in_bucket hash d.size h m
      → length is ≤ d.n
  short_bucket d m is h counted e =
      omega (arith, length-entries d.elt_list is, ap length e, length-in_bucket hash d.size h m)

  pub search-newest :
      (d : Dict) (m : Records) (key : Text) → Represents d m → search hash d key ≡ newest m key
  search-newest d m key r =
      let (is, c, apart, di, e) = r.buckets (bucket hash d key) (omega (arith, r.some_size)) in
      search-lookup hash d key is c (short_bucket d m is (bucket hash d key) r.counted e)
      ∙ lookup-entries d.elt_list is key
      ∙ ap (λ x. newest x key) e
      ∙ newest-in_bucket hash d.size m key

  put-Filled :
      (d : Dict) (m : Records) (j : ℕ) (js : List ℕ) (k : Text) (v h : ℕ)
      → Fresh j js
      → d.n ≡ length m
      → Filled d (j ∷ js) h m
      → Filled (put hash d j k v) js h ((k, v) ∷ m)
  put-Filled d m j js k v h f counted (is, c, a, di, e) = elim (Bool-cases (h == bucket hash d k)) [
    | inl t ↦
        let now = put_same hash d j js k v h t f b in
        (j ∷ is, now.0, now.1, (a.0, di), rw (write_self d.elt_list j elt, left, t) refl)
    | inr t ↦ let now = put_other hash d j js k v h t b in (is, now.0, now.1, di, rw (left, t) refl)
  ]
    where
      elt : Elt
      elt = record { next = d.ht_table (bucket hash d k); value = v; key = k }

      b : Bucket d (j ∷ js) h
      b = (is, c, a, short_bucket d m is h counted e)

      left : entries (put hash d j k v).elt_list is ≡ in_bucket hash d.size h m
      left = entries-write d.elt_list j elt is a.0 ∙ e

  put-Represents :
      (d : Dict) (m : Records) (k : Text) (v : ℕ) (r : Represents d m) (j : ℕ) (js : List ℕ)
      → r.free ≡ j ∷ js
      → (d.first_av ≡ some j) × Represents (put hash d j k v) ((k, v) ∷ m)
  put-Represents d m k v r j js e =
      let c = subst (Chain d.elt_list d.first_av) e r.chain in
      let di = subst Distinct e r.distinct in
      (
        c.0,
        record {
          free = js;
          chain = Chain-write d.elt_list j _ (d.elt_list j).next js di.0 c.1;
          distinct = di.1;
          count = omega (arith, r.count, ap length e);
          some_size = r.some_size;
          counted = omega (arith, r.counted);
          buckets = λ h lt.
              put-Filled d m j js k v h di.0 r.counted
                (subst (λ f. Filled d f h m) e (r.buckets h lt));
        },
      )

  some_free :
      (d : Dict) (m : Records) (r : Represents d m)
      → length m < d.size
      → (j : ℕ) × (js : List ℕ) × (r.free ≡ j ∷ js)
  some_free d m r room = free_cases r.free (omega (arith, r.count, r.counted))
    where
      free_cases : (f : List ℕ) → 0 < length f → (j : ℕ) × (js : List ℕ) × (f ≡ j ∷ js)
      free_cases [] h = absurd (omega arith)
      free_cases (j ∷ js) h = (j, js, refl)

  pub insert-Represents :
      (d : Dict) (m : Records) (k : Text) (v : ℕ)
      → Represents d m
      → length k < max_name_len
      → 5 * (length m + 1) < 4 * d.size
      → (i : ℕ) × (d' : Dict) × (insert hash d k v ≡ some (i, d'))
        × (d'.size ≡ d.size)
        × Represents d' ((k, v) ∷ m)
  unfolding insert
  insert-Represents d m k v r short room =
      let (j, js, e) = some_free d m r (omega arith) in
      let (first, after) = put-Represents d m k v r j js e in
      let fits : leb max_name_len (length k) ≡ false = ground arith in
      let free : is_full d.size (d.n + 1) ≡ false = ground (arith, r.counted) in
      (j, put hash d j k v, rw (insert, fits, first, free) refl, refl, after)
