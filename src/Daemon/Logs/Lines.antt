-- ===== src/Daemon/Logs/Lines.antt =====
-- The lines of a text to which a line is added.
use ooops.Prelude.{
  ◌≡◌, ◌≢◌, refl, sym, ap, ◌∙◌, false, List, [], ◌∷◌, ◌++◌, Text, ◌==◌, Bool-cases, inl, inr, arith,
}
use ooops.Daemon.Logs.{lines_of, line_of}

-- No line feed.
abbrev pub OneLine : Text → Type 0
OneLine [] = Unit {0}
OneLine (c ∷ cs) = (c ≢ b'\n') × OneLine cs

abbrev pub AllOneLine : List Text → Type 0
AllOneLine [] = Unit {0}
AllOneLine (w ∷ ws) = OneLine w × AllOneLine ws

pub OneLine-append : (xs ys : Text) → OneLine xs → OneLine ys → OneLine (xs ++ ys)
OneLine-append [] ys a b = b
OneLine-append (x ∷ xs) ys a b = (a.0, OneLine-append xs ys a.1 b)

-- A text with a line feed at its end, and what is behind it.
pub lines_of-append :
    (xs ys : Text)
    → (l : Text) × (ls : List Text) × (lines_of (xs ++ b'\n' ∷ []) ≡ l ∷ ls)
      × (lines_of (xs ++ b'\n' ∷ ys) ≡ l ∷ (ls ++ lines_of ys))
unfolding lines_of
lines_of-append [] ys = (b'\n' ∷ [], [], refl, refl)
lines_of-append (c ∷ xs) ys =
    let (l, ls, one, more) = lines_of-append xs ys in
    elim (Bool-cases (c == b'\n')) [
      | inl e ↦ (c ∷ [], l ∷ ls, rw (e, one) refl, rw (e, more) refl)
      | inr e ↦ (c ∷ l, ls, rw (e, one) refl, rw (e, more) refl)
    ]

lines_of-one : (xs : Text) → OneLine xs → lines_of (xs ++ b'\n' ∷ []) ≡ (xs ++ b'\n' ∷ []) ∷ []
unfolding lines_of
lines_of-one [] h = refl
lines_of-one (c ∷ xs) h =
    let plain : (c == b'\n') ≡ false = ground arith in rw (plain, lines_of-one xs h.1) refl

-- The words of a line, without its line feed.
abbrev pub body_of : Text → List Text → Text
body_of w [] = w
body_of w (v ∷ vs) = w ++ b' ' ∷ body_of v vs

pub append_assoc : (xs ys zs : Text) → xs ++ (ys ++ zs) ≡ (xs ++ ys) ++ zs
append_assoc [] ys zs = refl
append_assoc (x ∷ xs) ys zs = ap (◌∷◌ x) (append_assoc xs ys zs)

pub line_of-body_of : (w : Text) (ws : List Text) → line_of w ws ≡ body_of w ws ++ b'\n' ∷ []
line_of-body_of w [] = refl
line_of-body_of w (v ∷ vs) =
    ap (λ x. w ++ b' ' ∷ x) (line_of-body_of v vs)
    ∙ append_assoc w (b' ' ∷ body_of v vs) (b'\n' ∷ [])

body_of-OneLine : (w : Text) (ws : List Text) → OneLine w → AllOneLine ws → OneLine (body_of w ws)
body_of-OneLine w [] a b = a
body_of-OneLine w (v ∷ vs) a b =
    OneLine-append w (b' ' ∷ body_of v vs) a ((λ e. cc), body_of-OneLine v vs b.0 b.1)

-- A line of words is one line.
pub lines_of-line_of :
    (w : Text) (ws : List Text)
    → OneLine w
    → AllOneLine ws
    → lines_of (line_of w ws) ≡ line_of w ws ∷ []
lines_of-line_of w ws a b =
    ap lines_of (line_of-body_of w ws)
    ∙ lines_of-one (body_of w ws) (body_of-OneLine w ws a b)
    ∙ ap (λ x. x ∷ []) (sym (line_of-body_of w ws))

-- A text that ends with a line feed.
abbrev pub IsEnded : Text → Type 0
IsEnded s = (xs : Text) × (s ≡ xs ++ b'\n' ∷ [])

pub line_of-IsEnded : (s w : Text) (ws : List Text) → IsEnded (s ++ line_of w ws)
line_of-IsEnded s w ws = (
  s ++ body_of w ws,
  ap (λ x. s ++ x) (line_of-body_of w ws) ∙ append_assoc s (body_of w ws) (b'\n' ∷ []),
)
