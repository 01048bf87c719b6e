-- ===== src/Dict/Deletion.antt =====
-- `DictDelete` on the table as a list of records.
use ooops.Prelude.{
  ℕ, ◌≤◌, ◌≡◌, ◌≢◌, refl, sym, ap, subst, ◌∙◌, true, false, some, List, [], ◌∷◌, Text, ◌==◌, ==_iff,
  str_eq, length, inl, inr, Bool-cases, arith,
}
use ooops.Dict.{Dict, write, release, bucket, delete, delete_from}
use ooops.Dict.Chains.{Chain, Fresh, Apart, Distinct, Chain-write, write_self, write_ne}
use ooops.Dict.Records.{
  Records, entries, newest, drop_newest, length-drop_newest, entries-frame, Chain-frame, in_bucket,
  newest-in_bucket, in_bucket-drop_newest, in_bucket-drop_other, AllHome, in_bucket-AllHome,
  Apart-AllHome,
}
use ooops.Dict.Unlink.{Freed, Unlinked, entries-write, delete_from-Unlinked}
use ooops.Dict.Refine.{Filled, Represents, short_bucket}

Fresh-Apart : (i : ℕ) (is js : List ℕ) → ((j : ℕ) → Fresh j is → j ≢ i) → Apart js is → Fresh i js
Fresh-Apart i is [] ne a = tt
Fresh-Apart i is (j ∷ js) ne a = ((λ e. ne j a.0 (sym e)), Fresh-Apart i is js ne a.1)

Apart-mono :
    (free is js : List ℕ) → ((j : ℕ) → Fresh j is → Fresh j js) → Apart free is → Apart free js
Apart-mono [] is js f a = tt
Apart-mono (k ∷ ks) is js f a = (f k a.0, Apart-mono ks is js f a.1)

module _ (hash : Text → ℕ) where
  -- One record of bucket h is taken out.
  record Deleted (d d' : Dict) (key : Text) (is : List ℕ) : Type 0 where
    freed : Freed d d' key is
    chain : Chain d'.elt_list (d'.ht_table (bucket hash d key)) freed.js
    others : (h : ℕ) → (h == bucket hash d key) ≡ false → d'.ht_table h ≡ d.ht_table h
    frame : (j : ℕ) → Fresh j is → d'.elt_list j ≡ d.elt_list j

  -- The first element of the bucket has the key.
  release-Deleted :
      (d : Dict) (key : Text) (i : ℕ) (js : List ℕ)
      → Chain d.elt_list (d.elt_list i).next js
      → Distinct (i ∷ js)
      → str_eq (d.elt_list i).key key ≡ true
      → Deleted d
          (release d i (write d.ht_table (bucket hash d key) (d.elt_list i).next) d.elt_list)
          key
          (i ∷ js)
  release-Deleted d key i js c di found = record {
    freed = record {
      i = i;
      js = js;
      count = refl;
      size = refl;
      first = refl;
      link = ap (λ e. e.next) (write_self d.elt_list i _);
      left = entries-write d.elt_list i _ js di.0 ∙ rw found refl;
      fresh = λ j f. f;
      gone = di.0;
      distinct = di.1;
    };
    chain =
        rw (write_self d.ht_table (bucket hash d key) (d.elt_list i).next)
          (Chain-write d.elt_list i _ (d.elt_list i).next js di.0 c);
    others = λ h e. rw e refl;
    frame = λ j f. write_ne d.elt_list i j _ (λ e. f.0 (sym e));
  }

  -- Another one has it.
  behind-Deleted :
      (d d' : Dict) (key : Text) (i : ℕ) (js : List ℕ)
      → d.ht_table (bucket hash d key) ≡ some i
      → Distinct (i ∷ js)
      → str_eq (d.elt_list i).key key ≡ false
      → Unlinked d d' i key js
      → Deleted d d' key (i ∷ js)
  behind-Deleted d d' key i js head di other u = record {
    freed = record {
      i = u.freed.i;
      js = i ∷ u.freed.js;
      count = u.freed.count;
      size = u.freed.size;
      first = u.freed.first;
      link = u.freed.link;
      left = rw (other, u.kept.0, u.kept.1, u.freed.left) refl;
      fresh = λ j f. ((u.freed.fresh j f.1).0, (f.0, (u.freed.fresh j f.1).1));
      gone = (λ e. (u.freed.fresh i di.0).0 (sym e), u.freed.gone);
      distinct = ((u.freed.fresh i di.0).1, u.freed.distinct);
    };
    chain = (u.table (bucket hash d key) ∙ head, u.chain);
    others = λ h e. u.table h;
    frame = λ j f. u.frame j f;
  }

  delete-Deleted :
      (d : Dict) (key : Text) (is : List ℕ) (v : ℕ)
      → Chain d.elt_list (d.ht_table (bucket hash d key)) is
      → length is ≤ d.n
      → Distinct is
      → newest (entries d.elt_list is) key ≡ some v
      → (d' : Dict) × (delete hash d key ≡ some d') × Deleted d d' key is
  unfolding delete
  delete-Deleted d key [] v c l di h = absurd (cc)
  delete-Deleted d key (i ∷ js) v c l di h = elim (Bool-cases (str_eq (d.elt_list i).key key)) [
    | inl e ↦ (_, rw (delete, c.0, e) refl, release-Deleted d key i js c.1 di e)
    | inr e ↦ (
      _,
      rw (delete, c.0, e) refl,
      behind-Deleted d (delete_from d.n d i key) key i js c.0 di e
          (delete_from-Unlinked d.n d i key js v c.1 (omega arith) di (rw e at h)),
    )
  ]

  -- Every bucket, where one record is taken out.
  Deleted-Filled :
      (d d' : Dict) (key : Text) (is : List ℕ) (m : Records) (free : List ℕ)
      → Apart free is
      → entries d.elt_list is ≡ in_bucket hash d.size (bucket hash d key) m
      → (w : Deleted d d' key is) → (h : ℕ) → Filled hash d free h m
      → Filled hash d' (w.freed.i ∷ free) h (drop_newest key m)
  Deleted-Filled d d' key is m free apart e w h (ks, c, a, di, same) =
      elim (Bool-cases (h == bucket hash d key)) [
        | inl t ↦
            subst (λ x. Filled hash d' (w.freed.i ∷ free) x (drop_newest key m))
              (sym ((==_iff h (bucket hash d key)).0 t))
              (
                w.freed.js,
                w.chain,
                (w.freed.gone, Apart-mono free is w.freed.js (λ j f. (w.freed.fresh j f).1) apart),
                w.freed.distinct,
                w.freed.left
                    ∙ ap (drop_newest key) e
                    ∙ sym (in_bucket-drop_newest hash d.size m key)
                    ∙ ap (λ z. in_bucket hash z (bucket hash d key) (drop_newest key m))
                        (sym w.freed.size),
              )
        | inr t ↦
            let ne : bucket hash d key ≢ h =
              λ q. (let u = (==_iff h (bucket hash d key)).1 (sym q) in cc) in
            let away =
              Apart-AllHome hash d.size d.elt_list (bucket hash d key) h is ks ne
                (subst (AllHome hash d.size (bucket hash d key)) (sym e)
                  (in_bucket-AllHome hash d.size (bucket hash d key) m))
                (subst (AllHome hash d.size h) (sym same) (in_bucket-AllHome hash d.size h m)) in
            (
              ks,
              subst (λ x. Chain d'.elt_list x ks) (sym (w.others h t))
                  (Chain-frame d.elt_list d'.elt_list is ks (d.ht_table h) w.frame away c),
              (Fresh-Apart w.freed.i is ks (λ j f. (w.freed.fresh j f).0) away, a),
              di,
              entries-frame d.elt_list d'.elt_list is ks w.frame away
                  ∙ same
                  ∙ sym (in_bucket-drop_other hash d.size m key h t)
                  ∙ ap (λ z. in_bucket hash z h (drop_newest key m)) (sym w.freed.size),
            )
      ]

  pub delete-Represents :
      (d : Dict) (m : Records) (key : Text) (v : ℕ)
      → Represents hash d m
      → newest m key ≡ some v
      → (d' : Dict) × (delete hash d key ≡ some d')
        × (d'.size ≡ d.size)
        × Represents hash d' (drop_newest key m)
  delete-Represents d m key v r found =
      let b = bucket hash d key in
      let (is, c, apart, di, e) = r.buckets b (omega (arith, r.some_size)) in
      let here : newest (entries d.elt_list is) key ≡ some v =
        ap (λ x. newest x key) e ∙ newest-in_bucket hash d.size m key ∙ found in
      let (d', run, w) =
        delete-Deleted d key is v c (short_bucket hash d m is b r.counted e) di here in
      let gone = Fresh-Apart w.freed.i is r.free (λ j f. (w.freed.fresh j f).0) apart in
      let one = length-drop_newest m key v found in
      (
        d',
        run,
        w.freed.size,
        record {
          free = w.freed.i ∷ r.free;
          chain = (
            w.freed.first,
            subst (λ x. Chain d'.elt_list x r.free) (sym w.freed.link)
                (Chain-frame d.elt_list d'.elt_list is r.free d.first_av w.frame apart r.chain),
          );
          distinct = (gone, r.distinct);
          count = omega (arith, r.count, r.counted, w.freed.count, w.freed.size, one);
          some_size = omega (arith, r.some_size, w.freed.size);
          counted = omega (arith, r.counted, w.freed.count, one);
          buckets = λ h lt.
              Deleted-Filled d d' key is m r.free apart e w h
                (r.buckets h (omega (arith, w.freed.size)));
        },
      )
