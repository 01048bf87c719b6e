-- ===== src/Dict/Unlink.antt =====
-- What `DictDelete` takes out of a bucket.
use ooops.Prelude.{
  ℕ, zero, suc, ◌-◌, ◌≤◌, ◌≡◌, ◌≢◌, refl, sym, ap, ◌∙◌, true, false, some, List, [], ◌∷◌, Text,
  str_eq, length, inl, inr, Bool-cases, arith,
}
use ooops.Dict.{Dict, Elt, write, release, delete_from}
use ooops.Dict.Chains.{Chain, Fresh, Distinct, Chain-write, write_ne, write_self}
use ooops.Dict.Records.{entries, newest, drop_newest}

-- The element i of `is` with the key is free now, and `js` are the others.
pub record Freed (d d' : Dict) (key : Text) (is : List ℕ) : Type 0 where
  pub i : ℕ
  pub js : List ℕ
  pub count : d'.n ≡ d.n - 1
  pub size : d'.size ≡ d.size
  pub first : d'.first_av ≡ some i
  pub link : (d'.elt_list i).next ≡ d.first_av
  pub left : entries d'.elt_list js ≡ drop_newest key (entries d.elt_list is)
  pub fresh : (j : ℕ) → Fresh j is → (j ≢ i) × Fresh j js
  pub gone : Fresh i js
  pub distinct : Distinct js

-- Behind element idx, which keeps its record.
pub record Unlinked (d d' : Dict) (idx : ℕ) (key : Text) (is : List ℕ) : Type 0 where
  pub freed : Freed d d' key is
  pub table : (h : ℕ) → d'.ht_table h ≡ d.ht_table h
  pub chain : Chain d'.elt_list (d'.elt_list idx).next freed.js
  pub frame : (j : ℕ) → Fresh j (idx ∷ is) → d'.elt_list j ≡ d.elt_list j
  pub kept :
      ((d'.elt_list idx).key ≡ (d.elt_list idx).key)
      × ((d'.elt_list idx).value ≡ (d.elt_list idx).value)

pub entries-write :
    (elts : ℕ → Elt) (i : ℕ) (e : Elt) (is : List ℕ)
    → Fresh i is
    → entries (write elts i e) is ≡ entries elts is
entries-write elts i e [] f = refl
entries-write elts i e (j ∷ js) f = rw (write_ne elts i j e f.0, entries-write elts i e js f.1) refl

module _ (d : Dict) (idx i : ℕ) (js : List ℕ) (key : Text) where
  abbrev unlinked : ℕ → Elt
  unlinked = write d.elt_list idx (record (d.elt_list idx) { next = (d.elt_list i).next })

  abbrev after : Dict
  after = release d i d.ht_table unlinked

  at_idx : idx ≢ i → after.elt_list idx ≡ record (d.elt_list idx) { next = (d.elt_list i).next }
  at_idx ne = write_ne unlinked i idx _ (λ e. ne (sym e)) ∙ write_self d.elt_list idx _

  -- The element behind idx has the key.
  release-Unlinked :
      Chain d.elt_list (d.elt_list i).next js
      → Distinct (idx ∷ i ∷ js)
      → str_eq (d.elt_list i).key key ≡ true
      → Unlinked d after idx key (i ∷ js)
  release-Unlinked c di found = record {
    freed = record {
      i = i;
      js = js;
      count = refl;
      size = refl;
      first = refl;
      link = ap (λ e. e.next) (write_self unlinked i _);
      left =
          entries-write unlinked i _ js di.1.0
          ∙ entries-write d.elt_list idx _ js di.0.1
          ∙ rw found refl;
      fresh = λ j f. f;
      gone = di.1.0;
      distinct = di.1.1;
    };
    table = λ h. refl;
    chain = rw (at_idx di.0.0) (
        Chain-write unlinked i _ (d.elt_list i).next js di.1.0
          (Chain-write d.elt_list idx _ (d.elt_list i).next js di.0.1 c));
    frame = λ j f.
        write_ne unlinked i j _ (λ e. f.1.0 (sym e))
        ∙ write_ne d.elt_list idx j _ (λ e. f.0 (sym e));
    kept = (ap (λ e. e.key) (at_idx di.0.0), ap (λ e. e.value) (at_idx di.0.0));
  }

  -- An element behind the next one has it.
  behind-Unlinked :
      (d' : Dict)
      → (d.elt_list idx).next ≡ some i
      → Distinct (idx ∷ i ∷ js)
      → str_eq (d.elt_list i).key key ≡ false
      → Unlinked d d' i key js
      → Unlinked d d' idx key (i ∷ js)
  behind-Unlinked d' next di other u =
      let same = u.frame idx di.0 in
      record {
        freed = record {
          i = u.freed.i;
          js = i ∷ u.freed.js;
          count = u.freed.count;
          size = u.freed.size;
          first = u.freed.first;
          link = u.freed.link;
          left = rw (other, u.kept.0, u.kept.1, u.freed.left) refl;
          fresh = λ j f. ((u.freed.fresh j f.1).0, (f.0, (u.freed.fresh j f.1).1));
          gone = (λ e. (u.freed.fresh i di.1.0).0 (sym e), u.freed.gone);
          distinct = ((u.freed.fresh i di.1.0).1, u.freed.distinct);
        };
        table = u.table;
        chain = (ap (λ e. e.next) same ∙ next, u.chain);
        frame = λ j f. u.frame j f.1;
        kept = (ap (λ e. e.key) same, ap (λ e. e.value) same);
      }

pub delete_from-Unlinked :
    (fuel : ℕ) (d : Dict) (idx : ℕ) (key : Text) (is : List ℕ) (v : ℕ)
    → Chain d.elt_list (d.elt_list idx).next is
    → length is ≤ fuel
    → Distinct (idx ∷ is)
    → newest (entries d.elt_list is) key ≡ some v
    → Unlinked d (delete_from fuel d idx key) idx key is
unfolding delete_from
delete_from-Unlinked fuel d idx key [] v c l di h = absurd (cc)
delete_from-Unlinked zero d idx key (i ∷ js) v c l di h = absurd (omega arith)
delete_from-Unlinked (suc fuel) d idx key (i ∷ js) v c l di h =
    elim (Bool-cases (str_eq (d.elt_list i).key key)) [
      | inl e ↦ rw (delete_from, c.0, e) (release-Unlinked d idx i js key c.1 di e)
      | inr e ↦
          rw (delete_from, c.0, e)
            (behind-Unlinked d idx i js key (delete_from fuel d i key) c.0 di e
              (delete_from-Unlinked fuel d i key js v c.1 (omega arith) di.1 (rw e at h)))
    ]
