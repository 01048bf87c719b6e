-- ===== src/Config/Sections/Places.antt =====
-- The tags of a file are found at the places where its sections begin and end.
use ooops.Prelude.{
  ℕ, suc, ◌+◌, ◌≡◌, ◌≢◌, refl, ap, ◌∙◌, false, List, [], ◌∷◌, ◌++◌, Text, length, strn_eq, arith,
}
use ooops.Floats.{Floats}
use ooops.Config.{is_tag, find_tags}
use ooops.Config.Sections.{
  Without, Section, opening, closing, text_of, closing_at, next_at, AllWellFormed, positions,
}

is_tag-other : (x : ℕ) (xs : Text) → x ≢ b'<' → is_tag (x ∷ xs) ≡ false
unfolding strn_eq
is_tag-other x xs ne = ground arith

-- The tags of a text that begins at place i.
abbrev tags : ℕ → Text → List ℕ
tags i xs = find_tags (length xs) i xs

tags-Without :
    (i j : ℕ) (xs ys : Text) → Without b'<' xs → j ≡ i + length xs → tags i (xs ++ ys) ≡ tags j ys
unfolding find_tags
tags-Without i j [] ys h e = ap (λ k. tags k ys) (omega (arith, e))
tags-Without i j (x ∷ xs) ys h e =
    rw (is_tag-other x (xs ++ ys) h.0) (tags-Without (suc i) j xs ys h.1 (omega (arith, e)))

module _ (fl : Floats) where
  tags-opening : (i j : ℕ) (ys : Text) → j ≡ i + 6 → tags i (opening fl ++ ys) ≡ i ∷ tags j ys
  unfolding find_tags strn_eq
  tags-opening i j ys e =
      ap (λ k. i ∷ tags k ys) {x = suc (suc (suc (suc (suc (suc i)))))} (omega (arith, e))

  tags-closing : (i j : ℕ) (ys : Text) → j ≡ i + 8 → tags i (closing fl ++ ys) ≡ i ∷ tags j ys
  unfolding find_tags strn_eq
  tags-closing i j ys e =
      ap (λ k. i ∷ tags k ys) {x = suc (suc (suc (suc (suc (suc (suc (suc i)))))))}
        (omega (arith, e))

  pub tags-text_of :
      (i : ℕ) (ss : List (Section fl))
      → AllWellFormed fl ss
      → tags i (text_of fl ss) ≡ positions fl i ss
  unfolding find_tags
  tags-text_of i [] h = refl
  tags-text_of i (s ∷ ss) h =
      tags-opening i (i + 6) _ refl
      ∙ ap (◌∷◌ i) (
          tags-Without (i + 6) (i + 6 + length s.freq) s.freq _ h.0.no_tag refl
          ∙ tags-Without (i + 6 + length s.freq) (i + 6 + length s.freq + 1) (0xA ∷ []) _
              ((λ e. absurd (omega arith)), tt) refl
          ∙ tags-Without (i + 6 + length s.freq + 1) (i + 6 + length s.freq + 1 + length s.body)
              s.body _ h.0.no_tag_inside refl
          ∙ tags-Without (i + 6 + length s.freq + 1 + length s.body) (closing_at fl i s) (0xA ∷ [])
              _ ((λ e. absurd (omega arith)), tt) refl
          ∙ tags-closing (closing_at fl i s) _ (s.gap ++ text_of fl ss) refl
          ∙ ap (◌∷◌ (closing_at fl i s)) (
              tags-Without (closing_at fl i s + 8) (next_at fl i s) s.gap _ h.0.no_tag_behind refl
              ∙ tags-text_of (next_at fl i s) ss h.1))
