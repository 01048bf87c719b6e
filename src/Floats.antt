-- ===== src/Floats.antt =====
-- The floating-point types and operations of C that the program uses. They are a parameter of the
-- model: nothing is assumed of them but what a theorem names.
use ooops.Prelude.{ℕ, Bool, ℤ, Option, Text}

pub record Floats : Type 1 where
  -- `float` and `double`
  pub Single : Type 0
  pub Double : Type 0
  -- `(float)n`, `(double)n`, `(double)x`
  pub single : ℤ → Single
  pub double : ℤ → Double
  pub widen : Single → Double
  -- the literal `m * 10^-k`
  pub decimal : ℕ → ℕ → Double
  pub div_single : Single → Single → Single
  pub add : Double → Double → Double
  pub sub : Double → Double → Double
  pub mul : Double → Double → Double
  pub div : Double → Double → Double
  pub gt : Double → Double → Bool
  pub ge : Double → Double → Bool
  -- `(long int)x`
  pub to_long : Double → ℤ
  -- `(float)x`, and the operations on `float`
  pub narrow : Double → Single
  pub sub_single : Single → Single → Single
  pub mul_single : Single → Single → Single
  pub gt_single : Single → Single → Bool
  -- `(uint64_t)x`
  pub to_uint64 : Single → ℕ
  -- `sscanf(s, "%f", &x)`, where it reads one item, and `atof(s)`
  pub scan_single : Text → Option Single
  pub atof : Text → Double
