-- ===== src/Daemon/Logs/Decimal.antt =====
-- A number that is printed and read again.
use ooops.Prelude.{
  ℕ, zero, suc, ◌+◌, ◌-◌, ◌*◌, ◌/◌, ◌%◌, ◌^◌, ◌<◌, ◌≡◌, refl, sym, ap, subst, ◌∙◌, true, false, [],
  ◌∷◌, ◌++◌, Text, length, replicate, ltb, pos, arith, Bool-cases, inl, inr,
}
use ooops.Daemon.Logs.{
  digits, pad, print_long, Scan, is_blank, is_digit, skip_blank, scan_digits, scan_number, scan_int,
}

abbrev pub AllDigits : Text → Type 0
AllDigits [] = Unit {0}
AllDigits (c ∷ cs) = (is_digit c ≡ true) × AllDigits cs

abbrev value : ℕ → Text → ℕ
value n [] = n
value n (c ∷ cs) = value (n * 10 + (c - b'0')) cs

value-snoc : (n : ℕ) (xs : Text) (c : ℕ) → value n (xs ++ c ∷ []) ≡ value n xs * 10 + (c - b'0')
value-snoc n [] c = refl
value-snoc n (x ∷ xs) c = value-snoc (n * 10 + (x - b'0')) xs c

AllDigits-snoc : (xs : Text) (c : ℕ) → AllDigits xs → is_digit c ≡ true → AllDigits (xs ++ c ∷ [])
AllDigits-snoc [] c a d = (d, tt)
AllDigits-snoc (x ∷ xs) c a d = (a.0, AllDigits-snoc xs c a.1 d)

pub digits-AllDigits : (k n : ℕ) → AllDigits (digits k n)
unfolding digits
digits-AllDigits zero n = tt
digits-AllDigits (suc k) n = elim (Bool-cases (ltb n 10)) [
  | inl e ↦ rw e (ground arith, tt)
  | inr e ↦ rw e (
      AllDigits-snoc (digits k (n / 10)) (b'0' + n % 10) (digits-AllDigits k (n / 10))
        (ground arith))
]

snoc-cons : (xs : Text) (x : ℕ) → (c : ℕ) × (cs : Text) × (xs ++ x ∷ [] ≡ c ∷ cs)
snoc-cons [] x = (x, [], refl)
snoc-cons (y ∷ ys) x = (y, ys ++ x ∷ [], refl)

value-digits : (k n : ℕ) → n < 10 ^ k → value 0 (digits k n) ≡ n
unfolding digits
value-digits zero n h = omega arith
value-digits (suc k) n h = elim (Bool-cases (ltb n 10)) [
  | inl e ↦ rw (digits, e) (omega arith)
  | inr e ↦
      let front : value 0 (digits k (n / 10)) ≡ n / 10 = value-digits k (n / 10) (omega arith) in
      rw (digits, e) (value-snoc 0 (digits k (n / 10)) (b'0' + n % 10) ∙ rw front (omega arith))
]

-- The first byte of what is printed is a digit.
digits-cons : (k n : ℕ) → (c : ℕ) × (cs : Text) × (digits (suc k) n ≡ c ∷ cs)
unfolding digits
digits-cons k n = elim (Bool-cases (ltb n 10)) [
  | inl e ↦ (b'0' + n, [], rw (digits, e) refl)
  | inr e ↦
      let (c, cs, eq) = snoc-cons (digits k (n / 10)) (b'0' + n % 10) in (c, cs, rw (digits, e) eq)
]

scan_digits-digits :
    (n : ℕ) (xs : Text) (c : ℕ) (rest : Text)
    → AllDigits xs
    → is_digit c ≡ false
    → scan_digits n (xs ++ c ∷ rest) ≡ (value n xs, c ∷ rest)
unfolding scan_digits
scan_digits-digits n [] c rest a e = rw e refl
scan_digits-digits n (x ∷ xs) c rest a e =
    rw (a.0) (scan_digits-digits (n * 10 + (x - b'0')) xs c rest a.1 e)

skip_blank-replicate :
    (m : ℕ) (xs ys : Text) → skip_blank ((replicate m b' ' ++ xs) ++ ys) ≡ skip_blank (xs ++ ys)
unfolding skip_blank
skip_blank-replicate zero xs ys = refl
skip_blank-replicate (suc m) xs ys = skip_blank-replicate m xs ys

scan_number-digits :
    (n : ℕ) (xs : Text) (d : ℕ) (ds : Text) (c : ℕ) (rest : Text)
    → xs ≡ d ∷ ds
    → AllDigits xs
    → value 0 xs ≡ n
    → n < 2 ^ 31
    → is_digit c ≡ false
    → scan_int (pad xs ++ c ∷ rest) ≡ Scan.got n (c ∷ rest)
unfolding scan_int skip_blank
scan_number-digits n xs d ds c rest cons all is_n small e =
    ap scan_number (skip_blank-replicate (6 - length xs) xs (c ∷ rest))
    ∙ ap (λ x. scan_number (skip_blank (x ++ c ∷ rest))) cons
    ∙ first
  where
    digit : is_digit d ≡ true
    digit = (subst AllDigits cons all).0

    no_blank : is_blank d ≡ false
    no_blank = ground arith

    below : ltb n (2 ^ 31) ≡ true
    below = ground arith

    read : scan_digits 0 (d ∷ ds ++ c ∷ rest) ≡ (n, c ∷ rest)
    read =
        ap (λ x. scan_digits 0 (x ++ c ∷ rest)) (sym cons)
        ∙ scan_digits-digits 0 xs c rest all e
        ∙ ap (λ v. (v, c ∷ rest)) is_n

    first : scan_number (skip_blank (d ∷ ds ++ c ∷ rest)) ≡ Scan.got n (c ∷ rest)
    first = rw (skip_blank, no_blank, digit, read, below) refl

-- What `%6ld` prints of a number below 2^31 is read by `%d`, where another byte than a digit follows.
pub scan_int-print_long :
    (n : ℕ) (c : ℕ) (rest : Text)
    → n < 2 ^ 31
    → is_digit c ≡ false
    → scan_int (print_long (pos n) ++ c ∷ rest) ≡ Scan.got n (c ∷ rest)
unfolding print_long
scan_int-print_long n c rest h e =
    let (d, ds, cons) = digits-cons 19 n in
    scan_number-digits n (digits 20 n) d ds c rest cons (digits-AllDigits 20 n)
      (value-digits 20 n (omega arith)) h e

-- A blank in front is skipped.
pub scan_int-blank : (s : Text) → scan_int (b' ' ∷ s) ≡ scan_int s
unfolding scan_int skip_blank
scan_int-blank s = refl
