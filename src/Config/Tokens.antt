-- ===== src/Config/Tokens.antt =====
-- A word, as `%s` of `sscanf` reads it.
use ooops.Prelude.{◌≡◌, false, [], ◌∷◌, Text}
use ooops.Config.{is_space}

-- A word: not empty, without white space.
abbrev pub NoSpace : Text → Type 0
NoSpace [] = Unit {0}
NoSpace (c ∷ cs) = (is_space c ≡ false) × NoSpace cs

abbrev pub IsWord : Text → Type 0
IsWord [] = ⊥
IsWord (c ∷ cs) = NoSpace (c ∷ cs)
