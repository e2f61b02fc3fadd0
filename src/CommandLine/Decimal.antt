-- ===== src/CommandLine/Decimal.antt =====
-- Numbers in decimal: the C++ conversions read back what is written with decimal digits.
use af_xdp_reimpl.Prelude.{
  ℕ, zero, suc, ◌+◌, ◌-◌, ◌*◌, ◌/◌, ◌%◌, ◌^◌, ◌<◌, ◌≡◌, refl, arith, [], ◌∷◌, true, false, Option,
  some, ltb, leb, ◌==◌, ◌∙◌, if_false, Text, digits, decimal, ℤ, pos, negsuc, Bool-cases, inl, inr,
  ap,
}
use af_xdp_reimpl.CommandLine.{
  returns, is_digit, is_space, read_digits, skip_space, magnitude, number, stoul, stoi, stoul_of,
  stoi_of,
}

abbrev pub signed_decimal : ℤ → Text
signed_decimal (pos n) = decimal n
signed_decimal (negsuc n) = b'-' ∷ decimal (suc n)

-- One more digit is read.
read_digit :
    (acc d : ℕ) (s : Text)
    → d < 10
    → read_digits acc ((b'0' + d) ∷ s) ≡ read_digits (acc * 10 + d) s
unfolding read_digits
read_digit acc d s h =
    let test : is_digit (b'0' + d) ≡ true = ground arith in
    let same : b'0' + d - b'0' ≡ d = omega arith in rw (test, same) refl

read_digits-digits : (f n : ℕ) (s : Text) → n < f → read_digits 0 (digits f n s) ≡ read_digits n s
read_digits-digits zero n s h = absurd (omega arith)
read_digits-digits (suc f) n s h = elim (Bool-cases (ltb n 10)) [
  | inl one ↦
      rw one (read_digit 0 n s (ground arith) ∙ ap (λ (m : ℕ). read_digits m s) (omega arith))
  | inr more ↦ rw more (
      read_digits-digits f (n / 10) ((b'0' + n % 10) ∷ s) (ground arith)
      ∙ read_digit (n / 10) (n % 10) s (omega arith)
      ∙ ap (λ (m : ℕ). read_digits m s) (omega arith))
]

-- A text that starts with a digit.
abbrev Starts : Text → Type 0
Starts s = (d : ℕ) × (t : Text) × (d < 10) × (s ≡ (b'0' + d) ∷ t)

digits-Starts : (f n : ℕ) (s : Text) → n < f → Starts (digits f n s)
digits-Starts zero n s h = absurd (omega arith)
digits-Starts (suc f) n s h = elim (Bool-cases (ltb n 10)) [
  | inl one ↦ rw one (n, s, ground arith, refl)
  | inr more ↦ rw more (digits-Starts f (n / 10) ((b'0' + n % 10) ∷ s) (ground arith))
]

-- In front of digits there is neither space nor sign.
number-Starts : (s : Text) → Starts s → number s ≡ (false, some (read_digits 0 s))
unfolding skip_space
number-Starts s (d, t, h, e) =
    let space : is_space (b'0' + d) ≡ false = ground arith in
    let minus : (b'0' + d == b'-') ≡ false = ground arith in
    let plus : (b'0' + d == b'+') ≡ false = ground arith in
    let digit : is_digit (b'0' + d) ≡ true = ground arith in
    rw e (rw space (rw (minus, plus) (rw digit refl)))

number-decimal : (n : ℕ) → number (decimal n) ≡ (false, some n)
unfolding read_digits
number-decimal n =
    number-Starts (decimal n) (digits-Starts (suc n) n [] (omega arith))
    ∙ ap (λ (m : ℕ). (false, some m)) (read_digits-digits (suc n) n [] (omega arith))

magnitude-Starts : (s : Text) → Starts s → magnitude s ≡ some (read_digits 0 s)
magnitude-Starts s (d, t, h, e) =
    let digit : is_digit (b'0' + d) ≡ true = ground arith in rw e (rw digit refl)

number-minus : (n : ℕ) → number (b'-' ∷ decimal n) ≡ (true, some n)
unfolding skip_space read_digits
number-minus n =
    ap (λ (o : Option ℕ). (true, o))
      (magnitude-Starts (decimal n) (digits-Starts (suc n) n [] (omega arith))
        ∙ ap some (read_digits-digits (suc n) n [] (omega arith)))

-- What an `int` holds.
abbrev pub FitsInt : ℤ → Type 0
FitsInt (pos n) = n < 2 ^ 31
FitsInt (negsuc n) = n < 2 ^ 31

pub stoul-decimal : (n : ℕ) → n < 2 ^ 64 → stoul (decimal n) ≡ returns n
unfolding stoul
stoul-decimal n h =
    let test : leb (2 ^ 64) n ≡ false = ground arith in
    ap stoul_of (number-decimal n) ∙ if_false _ _ test

pub stoi-signed_decimal : (z : ℤ) → FitsInt z → stoi (signed_decimal z) ≡ returns z
unfolding stoi
stoi-signed_decimal (pos n) h =
    let test : ltb (2 ^ 31 - 1) n ≡ false = ground arith in
    ap stoi_of (number-decimal n) ∙ if_false _ _ test
stoi-signed_decimal (negsuc n) h =
    let test : ltb (2 ^ 31) (suc n) ≡ false = ground arith in
    ap stoi_of (number-minus (suc n)) ∙ if_false _ _ test
