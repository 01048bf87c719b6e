-- ===== src/FileServer/Scan.antt =====
-- `Check_FS_Server`: the classification of a path by the configured tags.
use ooops.Prelude.{
  ℕ, zero, suc, ◌+◌, ◌<◌, ◌≡◌, refl, ap, subst, ◌∙◌, ◌⊎◌, inl, inr, Option, none, some, List, [],
  ◌∷◌, Text, if◌then◌else◌, strn_eq, strn_eq_iff, Bool-cases, get_elem?, take, arith,
}
use ooops.FileServer.{Tag, Place, scan, tracked, is_absolute, check_fs_server}

-- The first `len` bytes of the path are those of the tag.
abbrev pub HasTag : Text → Tag → Type 0
HasTag name t = take t.len name ≡ take t.len t.name

abbrev pub NoTag : Text → List Tag → Type 0
NoTag name ts = (j : ℕ) (t : Tag) → get_elem? ts j ≡ some t → ¬ HasTag name t

-- `i` is the first place whose tag the path has.
abbrev pub FirstTag : Text → List Tag → ℕ → Type 0
FirstTag name ts i =
    ((t : Tag) × (get_elem? ts i ≡ some t) × HasTag name t)
    × ((j : ℕ) (t : Tag) → j < i → get_elem? ts j ≡ some t → ¬ HasTag name t)

-- Every path has a first tag or none.
abbrev pub Classified : Text → List Tag → ℕ → Option ℕ → Type 0
Classified name ts k r =
    ((i : ℕ) × FirstTag name ts i × (r ≡ some (k + i))) ⊎ (NoTag name ts × (r ≡ none))

cons_before :
    (name : Text) (t : Tag) (ts : List Tag) (i : ℕ)
    → ¬ HasTag name t
    → ((j : ℕ) (u : Tag) → j < i → get_elem? ts j ≡ some u → ¬ HasTag name u)
    → (j : ℕ) (u : Tag) → j < suc i
    → get_elem? (t ∷ ts) j ≡ some u
    → ¬ HasTag name u
cons_before name t ts i miss before zero u h e has =
    miss (subst (HasTag name) {x = u} {y = t} (cc) has)
cons_before name t ts i miss before (suc j) u h e has = before j u (omega arith) e has

cons-NoTag :
    (name : Text) (t : Tag) (ts : List Tag) → ¬ HasTag name t → NoTag name ts → NoTag name (t ∷ ts)
cons-NoTag name t ts miss nope zero u e has = miss (subst (HasTag name) {x = u} {y = t} (cc) has)
cons-NoTag name t ts miss nope (suc j) u e has = nope j u e has

cons-Classified :
    (name : Text) (t : Tag) (ts : List Tag) (k : ℕ) (r : Option ℕ)
    → ¬ HasTag name t
    → Classified name ts (suc k) r
    → Classified name (t ∷ ts) k r
cons-Classified name t ts k r miss (inl (i, (here, before), e)) =
    inl (suc i, (here, cons_before name t ts i miss before), e ∙ ap some (omega arith))
cons-Classified name t ts k r miss (inr (nope, e)) = inr (cons-NoTag name t ts miss nope, e)

pub scan-Classified : (name : Text) (ts : List Tag) (k : ℕ) → Classified name ts k (scan name ts k)
unfolding scan
scan-Classified name [] k = inr ((λ j t e _. cc), refl)
scan-Classified name (t ∷ ts) k = elim (Bool-cases (strn_eq name t.name t.len)) [
  | inl hit ↦ inl (
    0,
    ((t, refl, (strn_eq_iff t.len name t.name).0 hit), λ j u h. elim h [ ]),
    rw hit (ap some (omega arith)),
  )
  | inr miss ↦ rw miss (
      cons-Classified name t ts k (scan name ts (suc k))
        (λ has. ground (arith, (strn_eq_iff t.len name t.name).1 has))
        (scan-Classified name ts (suc k)))
]

-- `Check_FS_Server` on every path: a path that has the tag of a tracked system is given the first
-- such system; any other absolute path is given none, and any other relative one the system of the
-- working directory. Nothing but `Idx_fs_Server` changes.
pub check_fs_server-Classified :
    (name : Text) (p : Place)
    → let q = check_fs_server name p in
      (((i : ℕ) × FirstTag name (tracked p) i × (q.idx_fs_server ≡ some i))
        ⊎ (NoTag name (tracked p)
            × (q.idx_fs_server ≡ (if is_absolute name then none else p.idx_fs_server_cwd))))
      × (record q { idx_fs_server = p.idx_fs_server } ≡ p)
unfolding check_fs_server
check_fs_server-Classified name p = elim (scan-Classified name (tracked p) 0) [
  | inl (i, first, e) ↦ (inl (i, first, rw (e, check_fs_server) (ap some (omega arith))), refl)
  | inr (nope, e) ↦ (inr (nope, rw (e, check_fs_server)), refl)
]
