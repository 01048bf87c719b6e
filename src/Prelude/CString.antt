-- ===== src/Prelude/CString.antt =====
-- C strings: the bytes before the terminating NUL. Equality tests of the C library on them.
use Prim.Native.Nat.{ℕ, zero, suc}
use Prim.Native.Char.{code}
use Prim.Native.String.{String}
use mathlib.Core.Path.{◌≡◌}
use mathlib.Core.Logic.{◌↔◌}
use mathlib.Core.Bool.{Bool, true, false, ◌&&◌}
use mathlib.Core.List.{List, [], ◌∷◌}
use native.Mathlib.Omega.{arith}
use ooops.Prelude.Tests.{◌==◌}
use ooops.Prelude.Lists.{take}

abbrev pub Text : Type 0
Text = List ℕ

abbrev pub codes : String → Text
codes String.[] = []
codes (String.◌∷◌ c s) = code c ∷ codes s

-- `strcmp(a, b) == 0`
unfoldable pub str_eq : Text → Text → Bool
str_eq [] [] = true
str_eq [] (y ∷ ys) = false
str_eq (x ∷ xs) [] = false
str_eq (x ∷ xs) (y ∷ ys) = x == y && str_eq xs ys

-- `strncmp(a, b, n) == 0`
unfoldable pub strn_eq : Text → Text → ℕ → Bool
strn_eq xs ys zero = true
strn_eq [] [] (suc n) = true
strn_eq [] (y ∷ ys) (suc n) = false
strn_eq (x ∷ xs) [] (suc n) = false
strn_eq (x ∷ xs) (y ∷ ys) (suc n) = x == y && strn_eq xs ys n

pub str_eq_iff : (xs ys : Text) → (str_eq xs ys ≡ true) ↔ (xs ≡ ys)
unfolding str_eq
str_eq_iff [] [] = ground arith
str_eq_iff [] (y ∷ ys) = ground arith
str_eq_iff (x ∷ xs) [] = ground arith
str_eq_iff (x ∷ xs) (y ∷ ys) = ground (arith, str_eq_iff xs ys)

-- The bounded comparison compares the first `n` bytes, a shorter text whole.
pub strn_eq_iff : (n : ℕ) (xs ys : Text) → (strn_eq xs ys n ≡ true) ↔ (take n xs ≡ take n ys)
unfolding strn_eq
strn_eq_iff zero xs ys = ground arith
strn_eq_iff (suc n) [] [] = ground arith
strn_eq_iff (suc n) [] (y ∷ ys) = ground arith
strn_eq_iff (suc n) (x ∷ xs) [] = ground arith
strn_eq_iff (suc n) (x ∷ xs) (y ∷ ys) = ground (arith, strn_eq_iff n xs ys)
