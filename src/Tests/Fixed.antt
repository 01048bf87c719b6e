-- ===== src/Tests/Fixed.antt =====
-- Floating-point numbers as integer multiples of 10^-9, for running the definitions.
use ooops.Prelude.{
  ℕ, ◌-◌, [], ◌∷◌, Text, Bool, ◌&&◌, leb, some, none, get_or, if◌then◌else◌, ◌+◌, ◌*◌, ◌/◌, ◌^◌, ℤ,
  pos, pos_part, neg_part, sub_ℕ, quot_ℤ, ltb,
}
use ooops.Floats.{Floats}

abbrev add_ℤ : ℤ → ℤ → ℤ
add_ℤ a b = sub_ℕ (pos_part a + pos_part b) (neg_part a + neg_part b)

abbrev subtract_ℤ : ℤ → ℤ → ℤ
subtract_ℤ a b = sub_ℕ (pos_part a + neg_part b) (neg_part a + pos_part b)

abbrev mul_ℤ : ℤ → ℤ → ℤ
mul_ℤ a b =
    sub_ℕ (pos_part a * pos_part b + neg_part a * neg_part b)
      (pos_part a * neg_part b + neg_part a * pos_part b)

abbrev is_digit : ℕ → Bool
is_digit c = leb b'0' c && leb c b'9'

-- The digits at the front of a text.
abbrev read_digits : Text → ℕ → ℕ
read_digits [] n = n
read_digits (c ∷ cs) n =
    let rest = read_digits cs (n * 10 + (c - b'0')) in if is_digit c then rest else n

abbrev pub fixed_point : Floats
fixed_point = record {
  Single = ℤ;
  Double = ℤ;
  single = λ n. mul_ℤ n (pos 1000000000);
  double = λ n. mul_ℤ n (pos 1000000000);
  widen = λ a. a;
  decimal = λ m k. pos (m * 1000000000 / 10 ^ k);
  div_single = λ a b. quot_ℤ (mul_ℤ a (pos 1000000000)) (pos_part b);
  add = add_ℤ;
  sub = subtract_ℤ;
  div = λ a b. quot_ℤ (mul_ℤ a (pos 1000000000)) (pos_part b);
  mul = λ a b. quot_ℤ (mul_ℤ a b) 1000000000;
  gt = λ a b. ltb (pos_part b + neg_part a) (pos_part a + neg_part b);
  ge = λ a b. leb (pos_part b + neg_part a) (pos_part a + neg_part b);
  to_long = λ a. quot_ℤ a 1000000000;
  narrow = λ a. a;
  sub_single = subtract_ℤ;
  mul_single = λ a b. quot_ℤ (mul_ℤ a b) 1000000000;
  gt_single = λ a b. ltb (pos_part b + neg_part a) (pos_part a + neg_part b);
  to_uint64 = λ a. pos_part a / 1000000000;
  scan_single =
      λ s. if is_digit (get_or s 0 0) then some (pos (read_digits s 0 * 1000000000)) else none;
  atof = λ s. pos (read_digits s 0 * 1000000000);
}
