-- ===== src/Config/Sections/Regions.antt =====
-- The region of each section of a file is its body.
use ooops.Prelude.{
  ℕ, zero, suc, ◌+◌, ◌*◌, ◌-◌, ◌≡◌, refl, ap, ◌∙◌, subst, false, some, List, [], ◌∷◌, ◌++◌, Text,
  length, drop, set, get_elem?, ◌==◌, arith,
}
use ooops.Floats.{Floats}
use ooops.Config.{after_newline, c_string, pair_at, region, freq_list}
use ooops.Config.Nearest.{NoneNearer}
use ooops.Config.Sections.{
  Without, Section, opening, closing, text_of, closing_at, next_at, WellFormed, AllWellFormed,
  positions, NoSectionNearer,
}

drop-append : (m n : ℕ) (xs ys : Text) → m ≡ length xs + n → drop m (xs ++ ys) ≡ drop n ys
drop-append m n [] ys e = ap (λ k. drop k ys) (omega (arith, e))
drop-append zero n (x ∷ xs) ys e = absurd (omega (arith, e))
drop-append (suc m) n (x ∷ xs) ys e = drop-append m n xs ys (omega (arith, e))

drop-set : (u m k : ℕ) (xs : Text) (v : ℕ) → m ≡ u + k → drop u (set xs m v) ≡ set (drop u xs) k v
drop-set zero m k xs v e = ap (λ j. set xs j v) (omega (arith, e))
drop-set (suc u) zero k xs v e = absurd (omega (arith, e))
drop-set (suc u) (suc m) k [] v e = refl
drop-set (suc u) (suc m) k (x ∷ xs) v e = drop-set u m k xs v (omega (arith, e))

set-append :
    (xs : Text) (x : ℕ) (ys : Text) (v : ℕ) → set (xs ++ x ∷ ys) (length xs) v ≡ xs ++ v ∷ ys
set-append [] x ys v = refl
set-append (z ∷ xs) x ys v = ap (◌∷◌ z) (set-append xs x ys v)

after_newline-Without :
    (i j : ℕ) (xs ys : Text)
    → Without 0xA xs
    → j ≡ i + length xs + 1
    → after_newline i (xs ++ 0xA ∷ ys) ≡ some j
unfolding after_newline
after_newline-Without i j [] ys h e = ap some (omega (arith, e))
after_newline-Without i j (x ∷ xs) ys h e =
    let other : (x == 0xA) ≡ false = ground (arith, h.0) in
    rw other (after_newline-Without (suc i) j xs ys h.1 (omega (arith, e)))

c_string-Without : (xs ys : Text) → Without 0 xs → c_string (xs ++ 0 ∷ ys) ≡ xs
unfolding c_string
c_string-Without [] ys h = refl
c_string-Without (x ∷ xs) ys h =
    let other : (x == 0) ≡ false = ground (arith, h.0) in
    rw other (ap (◌∷◌ x) (c_string-Without xs ys h.1))

-- From place i on, the buffer is a given text.
abbrev pub At : Text → ℕ → Text → Type 0
At buf i t = (m n : ℕ) → m ≡ i + n → drop m buf ≡ drop n t

At-append :
    (buf : Text) (i j : ℕ) (xs ys : Text) → At buf i (xs ++ ys) → j ≡ i + length xs → At buf j ys
At-append buf i j xs ys h e m n q =
    h m (length xs + n) (omega (arith, e, q)) ∙ drop-append (length xs + n) n xs ys refl

module _ (fl : Floats) (buf : Text) where
  module _ (i : ℕ) (s : Section fl) (ss : List (Section fl))
      (at : At buf i (text_of fl (s ∷ ss))) where
    At-freq :
        At buf (i + 6) (s.freq ++ 0xA ∷ (s.body ++ 0xA ∷ (closing fl ++ (s.gap ++ text_of fl ss))))
    At-freq = At-append buf i (i + 6) (opening fl) _ at refl

    At-body :
        At buf
          (i + 6 + length s.freq + 1)
          (s.body ++ 0xA ∷ (closing fl ++ (s.gap ++ text_of fl ss)))
    At-body =
        At-append buf (i + 6 + length s.freq) (i + 6 + length s.freq + 1) (0xA ∷ []) _
          (At-append buf (i + 6) (i + 6 + length s.freq) s.freq _ At-freq refl) refl

    At-gap : At buf (closing_at fl i s + 8) (s.gap ++ text_of fl ss)
    At-gap =
        At-append buf (closing_at fl i s) (closing_at fl i s + 8) (closing fl) _
          (At-append buf (i + 6 + length s.freq + 1 + length s.body) (closing_at fl i s) (0xA ∷ [])
            _
            (At-append buf (i + 6 + length s.freq + 1) (i + 6 + length s.freq + 1 + length s.body)
              s.body _ At-body refl)
            refl)
          refl

    At-rest : At buf (next_at fl i s) (text_of fl ss)
    At-rest = At-append buf (closing_at fl i s + 8) (next_at fl i s) s.gap _ At-gap refl

    region-first : WellFormed fl s → region fl buf (i, closing_at fl i s) ≡ some s.body
    unfolding region
    region-first w = rw (region, line, ended) (ap some (c_string-Without s.body _ w.no_nul))
      where
        rest : Text
        rest = closing fl ++ (s.gap ++ text_of fl ss)

        line : after_newline (i + 6) (drop (i + 6) buf) ≡ some (i + 6 + length s.freq + 1)
        line =
            ap (after_newline (i + 6)) (At-freq (i + 6) 0 (omega arith))
            ∙ after_newline-Without (i + 6) (i + 6 + length s.freq + 1) s.freq _ w.line refl

        ended :
            drop (i + 6 + length s.freq + 1) (set buf (closing_at fl i s - 1) 0)
            ≡ s.body ++ 0 ∷ rest
        ended =
            drop-set (i + 6 + length s.freq + 1) (closing_at fl i s - 1) (length s.body) buf 0
              (omega arith)
            ∙ ap (λ t. set t (length s.body) 0)
                (At-body (i + 6 + length s.freq + 1) 0 (omega arith))
            ∙ set-append s.body 0xA rest 0

  -- The k-th opening tag and its closing tag enclose the k-th section.
  pub region-section :
      (k i : ℕ) (ss : List (Section fl)) (s : Section fl)
      → AllWellFormed fl ss
      → At buf i (text_of fl ss)
      → get_elem? ss k ≡ some s
      → (pq : ℕ × ℕ) × (pair_at fl (2 * k) (positions fl i ss) ≡ some pq)
        × (region fl buf pq ≡ some s.body)
  unfolding pair_at
  region-section k i [] s h at e = absurd (cc)
  region-section zero i (x ∷ ss) s h at e = (
    (i, closing_at fl i x),
    refl,
    subst (λ y. region fl buf (i, closing_at fl i x) ≡ some y.body) {x = x} {y = s} (cc)
        (region-first i x ss at h.0),
  )
  region-section (suc k) i (x ∷ ss) s h at e =
      let (pq, found, inside) = region-section k (next_at fl i x) ss s h.1 (At-rest i x ss at) e in
      (
        pq,
        ap (λ j. pair_at fl j (positions fl i (x ∷ ss))) {y = suc (suc (2 * k))} (omega arith)
            ∙ found,
        inside,
      )

  -- What is read at the k-th opening tag is the frequency of the k-th section.
  scan_first :
      (i : ℕ) (s : Section fl) (ss : List (Section fl))
      → At buf i (text_of fl (s ∷ ss))
      → WellFormed fl s
      → fl.scan_single (drop (i + 6) buf) ≡ some s.value
  scan_first i s ss at w = ap fl.scan_single (At-freq i s ss at (i + 6) 0 (omega arith)) ∙ w.reads _

  pub freq_list-section :
      (k i : ℕ) (ss : List (Section fl)) (f : fl.Single)
      → AllWellFormed fl ss
      → At buf i (text_of fl ss)
      → get_elem? (freq_list fl buf (positions fl i ss)) (2 * k) ≡ some (some f)
      → (s : Section fl) × (get_elem? ss k ≡ some s) × (s.value ≡ f)
  unfolding freq_list
  freq_list-section k i [] f h at e = absurd (cc)
  freq_list-section zero i (s ∷ ss) f h at e = (s, refl, let w = scan_first i s ss at h.0 in cc)
  freq_list-section (suc k) i (s ∷ ss) f h at e =
      freq_list-section k (next_at fl i s) ss f h.1 (At-rest i s ss at) (
        ap (get_elem? (freq_list fl buf (positions fl i (s ∷ ss)))) {x = suc (suc (2 * k))}
          {y = 2 * suc k} (omega arith)
        ∙ e)

  pub nearer-section :
      (f_sys m : fl.Single) (i : ℕ) (ss : List (Section fl))
      → AllWellFormed fl ss
      → At buf i (text_of fl ss)
      → NoneNearer fl f_sys m (freq_list fl buf (positions fl i ss))
      → NoSectionNearer fl f_sys m ss
  unfolding freq_list
  nearer-section f_sys m i [] h at e = tt
  nearer-section f_sys m i (s ∷ ss) h at e =
      let near =
        subst
          (λ x. NoneNearer fl f_sys m (
            x
            ∷ fl.scan_single (drop (closing_at fl i s + 6) buf)
            ∷ freq_list fl buf (positions fl (next_at fl i s) ss)))
          (scan_first i s ss at h.0) e in
      (near.0, nearer-section f_sys m (next_at fl i s) ss h.1 (At-rest i s ss at) near.1)
