-- ===== src/Dict/Lookup.antt =====
-- The table as a finite map: what `DictSearch` gives after `DictCreate` and `DictInsert`.
use ooops.Prelude.{
  ℕ, ◌+◌, ◌*◌, ◌≤◌, ◌<◌, ◌≡◌, refl, sym, ap, subst, ◌∙◌, true, false, none, some, List, [], ◌∷◌,
  Text, leb, ◌==◌, if◌then◌else◌, str_eq, str_eq_iff, ==_iff, length, inl, inr, Bool-cases, arith,
}
use ooops.Dict.{Dict, Elt, max_name_len, is_full, insert, bucket, put, search}
use ooops.Dict.Chains.{
  Chain, Fresh, Apart, Distinct, lookup, Chain-write, lookup-write, search_from-lookup, write_self,
}

-- Bucket h: its elements, none of them free, at most n.
abbrev pub Bucket : Dict → List ℕ → ℕ → Type 0
Bucket d free h =
    (is : List ℕ) × Chain d.elt_list (d.ht_table h) is × Apart free is × (length is ≤ d.n)

-- Each element is free or counted, and the buckets hold none of the free ones.
abbrev pub Valid : Dict → Type 0
Valid d =
    (free : List ℕ) × Chain d.elt_list d.first_av free
    × Distinct free
    × (length free + d.n ≡ d.size)
    × (0 < d.size)
    × ((h : ℕ) → h < d.size → Bucket d free h)

Apart-cons : (j : ℕ) (js is : List ℕ) → Fresh j js → Apart js is → Apart js (j ∷ is)
Apart-cons j [] is f a = tt
Apart-cons j (k ∷ ks) is f a = ((λ e. f.0 (sym e), a.0), Apart-cons j ks is f.1 a.1)

empty_lookup :
    (elts : ℕ → Elt) (is : List ℕ) (key : Text) → length is ≤ 0 → none ≡ lookup elts is key
empty_lookup elts [] key h = refl
empty_lookup elts (j ∷ js) key h = absurd (omega arith)

module _ (hash : Text → ℕ) where
  pub search-lookup :
      (d : Dict) (key : Text) (is : List ℕ)
      → Chain d.elt_list (d.ht_table (bucket hash d key)) is
      → length is ≤ d.n
      → search hash d key ≡ lookup d.elt_list is key
  unfolding search
  search-lookup d key is c h = elim (Bool-cases (d.n == 0)) [
    | inl z ↦ rw z (empty_lookup d.elt_list is key (ground arith))
    | inr p ↦ rw p (search_from-lookup d.n d.elt_list (d.ht_table (bucket hash d key)) is key c h)
  ]

  -- The bucket of the key gets the element at its front.
  pub put_same :
      (d : Dict) (j : ℕ) (js : List ℕ) (key : Text) (value h : ℕ)
      → (h == bucket hash d key) ≡ true
      → Fresh j js
      → (b : Bucket d (j ∷ js) h)
      → Chain (put hash d j key value).elt_list ((put hash d j key value).ht_table h) (j ∷ b.0)
        × Apart js (j ∷ b.0)
        × (length (j ∷ b.0) ≤ d.n + 1)
  put_same d j js key value h e f (is, c, a, l) = (
    (
      rw e refl,
      rw (write_self d.elt_list j _) (
          Chain-write d.elt_list j _ (d.ht_table (bucket hash d key)) is a.0
            (subst (λ x. Chain d.elt_list (d.ht_table x) is) ((==_iff h _).0 e) c)),
    ),
    Apart-cons j js is f a.1,
    omega arith,
  )

  -- Another bucket stays.
  pub put_other :
      (d : Dict) (j : ℕ) (js : List ℕ) (key : Text) (value h : ℕ)
      → (h == bucket hash d key) ≡ false
      → (b : Bucket d (j ∷ js) h)
      → Chain (put hash d j key value).elt_list ((put hash d j key value).ht_table h) b.0
        × Apart js b.0
        × (length b.0 ≤ d.n + 1)
  put_other d j js key value h e (is, c, a, l) =
      (rw e (Chain-write d.elt_list j _ (d.ht_table h) is a.0 c), a.1, omega arith)

  pub put-Valid :
      (d : Dict) (j : ℕ) (js : List ℕ) (key : Text) (value : ℕ)
      → Chain d.elt_list d.first_av (j ∷ js)
      → Distinct (j ∷ js)
      → length (j ∷ js) + d.n ≡ d.size
      → ((h : ℕ) → h < d.size → Bucket d (j ∷ js) h)
      → Valid (put hash d j key value)
  put-Valid d j js key value c di count buckets = (
    js,
    Chain-write d.elt_list j _ (d.elt_list j).next js di.0 c.1,
    di.1,
    omega arith,
    omega arith,
    λ h lt. elim (Bool-cases (h == bucket hash d key)) [
      | inl e ↦
          let now = put_same d j js key value h e di.0 (buckets h lt) in
          (j ∷ (buckets h lt).0, now.0, now.1, now.2)
      | inr e ↦
          let now = put_other d j js key value h e (buckets h lt) in
          ((buckets h lt).0, now.0, now.1, now.2)
    ],
  )

  pub search-put :
      (d : Dict) (j : ℕ) (js : List ℕ) (k key : Text) (value : ℕ)
      → Distinct (j ∷ js)
      → 0 < d.size
      → ((h : ℕ) → h < d.size → Bucket d (j ∷ js) h)
      → search hash (put hash d j k value) key
        ≡ (if str_eq k key then some value else search hash d key)
  search-put d j js k key value di pos buckets = elim (Bool-cases (x == bucket hash d k)) [
    | inl e ↦
        let now = put_same d j js k value x e di.0 b in
        search-lookup (put hash d j k value) key (j ∷ b.0) now.0 now.2
        ∙ rw (write_self d.elt_list j elt, lookup-write d.elt_list j elt b.0 key b.2.0, before) refl
    | inr e ↦
        let now = put_other d j js k value x e b in
        search-lookup (put hash d j k value) key b.0 now.0 now.2
        ∙ lookup-write d.elt_list j _ b.0 key b.2.0
        ∙ sym before
        ∙ rw (other e) refl
  ]
    where
      elt : Elt
      elt = record { next = d.ht_table (bucket hash d k); value = value; key = k }

      x : ℕ
      x = bucket hash d key

      b : Bucket d (j ∷ js) x
      b = buckets x (omega arith)

      before : search hash d key ≡ lookup d.elt_list b.0 key
      before = search-lookup d key b.0 b.1 b.3

      other : (x == bucket hash d k) ≡ false → str_eq k key ≡ false
      other e = elim (Bool-cases (str_eq k key)) [
        | inl t ↦ absurd (
            let same = ap (bucket hash d) (sym ((str_eq_iff k key).0 t)) in
            let q = (==_iff x (bucket hash d k)).1 same in cc)
        | inr f ↦ f
      ]

  -- With a key of at most 15 bytes and below the load factor, `DictInsert` puts it in: the table
  -- stays valid with one element more, the key is found with its value, and every other key as it
  -- was before.
  pub search-insert :
      (d : Dict) (k : Text) (value : ℕ)
      → Valid d
      → length k < max_name_len
      → 5 * (d.n + 1) < 4 * d.size
      → (i : ℕ) × (d' : Dict) × (insert hash d k value ≡ some (i, d'))
        × Valid d'
        × (d'.n ≡ d.n + 1)
        × (d'.size ≡ d.size)
        × ((key : Text)
            → search hash d' key ≡ (if str_eq k key then some value else search hash d key))
  unfolding insert
  search-insert d k value ([], c, di, count, pos, buckets) short room = absurd (omega arith)
  search-insert d k value (j ∷ js, c, di, count, pos, buckets) short room = (
    j,
    put hash d j k value,
    rw (insert, fits, c.0, free) refl,
    put-Valid d j js k value c di count buckets,
    refl,
    refl,
    λ key. search-put d j js k key value di pos buckets,
  )
    where
      fits : leb max_name_len (length k) ≡ false
      fits = ground arith

      free : is_full d.size (d.n + 1) ≡ false
      free = ground arith
