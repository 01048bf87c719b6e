-- ===== src/Hook/Maps/NextLine.antt =====
-- The search for the next line of the memory map, with enough fuel.
use ooops.Prelude.{
  ℕ, zero, suc, ◌+◌, ◌≤◌, ◌<◌, ◌≡◌, ◌≢◌, refl, subst, ◌⊎◌, inl, inr, Option, none, some, List, ltb,
  leb, ◌==◌, ==_iff, get_or, Bool-cases, arith,
}
use native.Mathlib.Decide.{dec_lt}
use ooops.Hook.Maps.{get_position_of_next_line}

abbrev pub line_feed : ℕ
line_feed = 0xA

-- No line feed from i on, before the place `stop`.
abbrev pub NoFeed : List ℕ → ℕ → ℕ → Type 0
NoFeed buff i stop = (j : ℕ) → i ≤ j → j < stop → get_or buff j 0 ≢ line_feed

NoFeed-cons :
    (buff : List ℕ) (i stop : ℕ)
    → get_or buff i 0 ≢ line_feed
    → NoFeed buff (i + 1) stop
    → NoFeed buff i stop
NoFeed-cons buff i stop h rest j le lt = elim (dec_lt i j) [
  | yes t ↦ rest j (omega arith) lt
  | no n ↦ let same : i ≡ j = omega arith in subst (λ k. get_or buff k 0 ≢ line_feed) same h
]

abbrev pub NextLine : List ℕ → ℕ → ℕ → Option ℕ → Type 0
NextLine buff i size r =
    ((q : ℕ) × (r ≡ some (q + 1))
      × (i ≤ q)
      × (q + 1 < size)
      × (get_or buff q 0 ≡ line_feed)
      × NoFeed buff i q)
    ⊎ ((r ≡ none) × ((j : ℕ) → i ≤ j → j + 1 < size → get_or buff j 0 ≢ line_feed))

-- With fuel for the bytes that are left, `get_position_of_next_line` gives the place behind the
-- first line feed from its start on, if that is still in the buffer; -1 if the buffer has no line
-- feed there, but for its last byte.
pub get_position_of_next_line-NextLine :
    (fuel : ℕ) (buff : List ℕ) (i size : ℕ)
    → size ≤ i + fuel
    → NextLine buff i size (get_position_of_next_line fuel buff i size)
unfolding get_position_of_next_line
get_position_of_next_line-NextLine zero buff i size h = inr (refl, λ j le lt. absurd (omega arith))
get_position_of_next_line-NextLine (suc fuel) buff i size h = elim (Bool-cases (ltb i size)) [
  | inr out ↦ rw out (inr (refl, λ j le lt. absurd (ground arith)))
  | inl within ↦ elim (Bool-cases (get_or buff i 0 == line_feed)) [
    | inl feed ↦ elim (Bool-cases (leb size (i + 1))) [
      | inl last ↦ rw (within, feed, last) (inr (refl, λ j le lt. absurd (ground arith)))
      | inr more ↦
          rw (within, feed, more)
            (inl (
              i,
              refl,
              omega arith,
              ground arith,
              (==_iff _ _).0 feed,
              λ j le lt. absurd (omega arith),
            ))
    ]
    | inr other ↦
        let differs : get_or buff i 0 ≢ line_feed = λ e. absurd (let q = (==_iff _ _).1 e in cc) in
        rw (within, other)
          (later differs (get_position_of_next_line-NextLine fuel buff (i + 1) size (omega arith)))
  ]
]
  where
    later :
        get_or buff i 0 ≢ line_feed
        → NextLine buff (i + 1) size (get_position_of_next_line fuel buff (i + 1) size)
        → NextLine buff i size (get_position_of_next_line fuel buff (i + 1) size)
    later differs (inl (q, e, le, lt, feed, rest)) =
        inl (q, e, omega arith, lt, feed, NoFeed-cons buff i q differs rest)
    later differs (inr (e, rest)) = inr (
      e,
      λ j le lt.
          NoFeed-cons buff i (j + 1) differs (λ k le' lt'. rest k le' (omega arith)) j le
            (omega arith),
    )
