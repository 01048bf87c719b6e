-- ===== src/Params/Share.antt =====
-- What one process publishes is what another one takes over.
use ooops.Prelude.{
  ℕ, zero, suc, ◌≤◌, ◌≡◌, ◌≢◌, refl, ap, true, List, [], ◌∷◌, Text, map, length, take, strn_eq,
  strn_eq_iff, arith,
}
use ooops.Floats.{Floats}
use ooops.FileServer.{Tag, scan, tracked}
use ooops.State.{Page, State}
use ooops.Params.{
  clear_tags, publish_tags, copy, fetch, count_tags, publish_parameters, update_parameters,
}

-- The first n entries are there and hold a tag.
abbrev pub FilledTo : ℕ → List Tag → Type 0
FilledTo zero ts = Unit {0}
FilledTo (suc n) [] = ⊥
FilledTo (suc n) (t ∷ ts) = (t.len ≢ 0) × FilledTo n ts

-- The entries from n on hold no tag, as in a new page.
abbrev pub EmptyFrom : ℕ → List Tag → Type 0
EmptyFrom n [] = Unit {0}
EmptyFrom zero (t ∷ ts) = (t.len ≡ 0) × EmptyFrom zero ts
EmptyFrom (suc n) (t ∷ ts) = EmptyFrom n ts

-- A tag as the page holds it: the bytes that comparisons look at.
abbrev pub shorten : Tag → Tag
shorten t = record t { name = take t.len t.name }

abbrev shared : ℕ → List Tag → List Tag → List Tag
shared n ts us = publish_tags n ts (clear_tags n us)

count_tags_empty : (us : List Tag) → EmptyFrom zero us → count_tags us ≡ 0
unfolding count_tags
count_tags_empty [] h = refl
count_tags_empty (u ∷ us) h = ground (arith, count_tags_empty us h.1)

count_tags-shared :
    (n : ℕ) (ts us : List Tag)
    → FilledTo n ts
    → EmptyFrom n us
    → n ≤ length us
    → count_tags (shared n ts us) ≡ n
unfolding count_tags publish_tags clear_tags
count_tags-shared zero ts us f e h = count_tags_empty us e
count_tags-shared (suc n) [] us f e h = absurd f
count_tags-shared (suc n) (t ∷ ts) [] f e h = absurd (omega arith)
count_tags-shared (suc n) (t ∷ ts) (u ∷ us) f e h =
    ground (arith, count_tags-shared n ts us f.1 e, f.0)

take-fetch-shared :
    (n : ℕ) (ts us vs : List Tag)
    → FilledTo n ts
    → n ≤ length us
    → n ≤ length vs
    → take n (fetch (shared n ts us) (shared n ts us) vs) ≡ map shorten (take n ts)
unfolding fetch publish_tags clear_tags
take-fetch-shared zero ts us vs f h k = refl
take-fetch-shared (suc n) [] us vs f h k = absurd f
take-fetch-shared (suc n) (t ∷ ts) [] vs f h k = absurd (omega arith)
take-fetch-shared (suc n) (t ∷ ts) (u ∷ us) [] f h k = absurd (omega arith)
take-fetch-shared (suc n) (t ∷ ts) (u ∷ us) (v ∷ vs) f h k =
    ground (arith, take-fetch-shared n ts us vs f.1, f.0)

take-fetch-copy :
    {A : Type 0} (n : ℕ) (ts us : List Tag) (xs ys zs : List A)
    → FilledTo n ts
    → n ≤ length us
    → n ≤ length xs
    → n ≤ length ys
    → n ≤ length zs
    → take n (fetch (shared n ts us) (copy n xs ys) zs) ≡ take n xs
unfolding fetch publish_tags clear_tags copy
take-fetch-copy zero ts us xs ys zs f h i j k = refl
take-fetch-copy (suc n) [] us xs ys zs f h i j k = absurd f
take-fetch-copy (suc n) (t ∷ ts) [] xs ys zs f h i j k = absurd (omega arith)
take-fetch-copy (suc n) (t ∷ ts) (u ∷ us) [] ys zs f h i j k = absurd (omega arith)
take-fetch-copy (suc n) (t ∷ ts) (u ∷ us) (x ∷ xs) [] zs f h i j k = absurd (omega arith)
take-fetch-copy (suc n) (t ∷ ts) (u ∷ us) (x ∷ xs) (y ∷ ys) [] f h i j k = absurd (omega arith)
take-fetch-copy (suc n) (t ∷ ts) (u ∷ us) (x ∷ xs) (y ∷ ys) (z ∷ zs) f h i j k =
    ground (arith, take-fetch-copy n ts us xs ys zs f.1, f.0)

-- Comparisons with a shortened tag come out as with the tag.
take-take : (n : ℕ) (xs : Text) → take n (take n xs) ≡ take n xs
take-take zero xs = refl
take-take (suc n) [] = refl
take-take (suc n) (x ∷ xs) = ap (◌∷◌ x) (take-take n xs)

strn_eq-shorten : (name tag : Text) (n : ℕ) → strn_eq name (take n tag) n ≡ strn_eq name tag n
strn_eq-shorten name tag n =
    ground (arith, strn_eq_iff n name (take n tag), strn_eq_iff n name tag, take-take n tag)

scan-shorten : (name : Text) (ts : List Tag) (i : ℕ) → scan name (map shorten ts) i ≡ scan name ts i
unfolding scan
scan-shorten name [] i = refl
scan-shorten name (t ∷ ts) i =
    ground (arith, strn_eq-shorten name t.name t.len, scan-shorten name ts (suc i))

module _ (fl : Floats) where
  -- The arrays have one length, at least n.
  pub record Sized (n : ℕ) (s : State fl) : Type 0 where
    pub tags : n ≤ length s.place.tags
    pub limits : n ≤ length s.limits

  -- A process publishes its parameters in a new page, and another process of the user updates from
  -- it. Then the second one is active, has the same limits for the same number of file systems,
  -- holds the same time stamp and frequency, and assigns every path to the file system to which
  -- the first one assigns it.
  pub update-publish :
      (tsc : ℕ) (s r : State fl) (page : Page fl)
      → let n = s.place.n_fs_server in
        FilledTo n s.place.tags
        → EmptyFrom n page.tags
        → n ≤ length page.tags
        → n ≤ length page.limits
        → Sized n s
        → Sized n r
        → let q = update_parameters fl (publish_parameters fl tsc s page).0 r in
          (q.active ≡ true)
          × (q.place.n_fs_server ≡ n)
          × (take n q.limits ≡ take n s.limits)
          × (q.freq ≡ s.freq)
          × (q.t_updated ≡ tsc)
          × ((name : Text) → scan name (tracked q.place) 0 ≡ scan name (tracked s.place) 0)
  unfolding publish_parameters update_parameters
  update-publish tsc s r page f e h k ss rs = (
    refl,
    count_tags-shared s.place.n_fs_server s.place.tags page.tags f e h,
    take-fetch-copy s.place.n_fs_server s.place.tags page.tags s.limits page.limits r.limits f h
        ss.limits k rs.limits,
    refl,
    refl,
    λ name.
        rw
          (
            count_tags-shared s.place.n_fs_server s.place.tags page.tags f e h,
            take-fetch-shared s.place.n_fs_server s.place.tags page.tags r.place.tags f h rs.tags,
          )
          (scan-shorten name (tracked s.place) 0),
  )
