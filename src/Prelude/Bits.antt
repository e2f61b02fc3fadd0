-- ===== src/Prelude/Bits.antt =====
-- `&` with a mask of low ones, and with a mask of high ones, as arithmetic.
use Prim.Native.Nat.{
  ℕ, zero, suc, ◌+◌, ◌-◌, ◌*◌, ◌/◌, ◌%◌, ◌^◌, ◌≤◌, ◌<◌, min, bit_and, digits, bit_and-bitwise,
}
use mathlib.Core.Path.{◌≡◌, refl, ap, sym, ◌∙◌}
use native.Mathlib.Nat.{
  pow-succ', one-le-pow, div-div-eq-div-mul, div-add-mod, mul-one, div-one, add-zero,
  div-lt_iff_lt-mul, mod-eq_of_lt, suc-mul,
}
use native.Mathlib.Omega.{arith}

-- The digit recursion behind `bit_and`, with its count of digits as an argument.
abbrev and_digits : ℕ → ℕ → ℕ → ℕ
and_digits = digits (λ _. zero) min

and_digits_enough : (m n a b : ℕ) → a ≤ n → a ≤ m → and_digits n a b ≡ and_digits m a b
and_digits_enough zero zero a b p q = refl
and_digits_enough (suc m) zero zero b p q = refl
and_digits_enough (suc m) zero (suc a) b p q = absurd (omega arith)
and_digits_enough zero (suc n) zero b p q = refl
and_digits_enough zero (suc n) (suc a) b p q = absurd (omega arith)
and_digits_enough (suc m) (suc n) zero b p q = refl
and_digits_enough (suc m) (suc n) (suc a) b p q =
    omega (arith, and_digits_enough m n (suc a / 2) (b / 2) (omega arith) (omega arith))

bit_and-zero_left : (b : ℕ) → bit_and 0 b ≡ 0
bit_and-zero_left b = bit_and-bitwise 0 b

-- The lowest digit, and the rest.
bit_and-halves : (a b : ℕ) → bit_and a b ≡ 2 * bit_and (a / 2) (b / 2) + min (a % 2) (b % 2)
bit_and-halves zero b = omega (arith, bit_and-zero_left b, bit_and-zero_left (b / 2))
bit_and-halves (suc a) b = omega (
  arith,
  bit_and-bitwise (suc a) b,
  bit_and-bitwise (suc a / 2) (b / 2),
  and_digits_enough (suc a / 2) a (suc a / 2) (b / 2) (omega arith) (omega arith),
)

bit_and-zero_upto : (n a : ℕ) → a ≤ n → bit_and a 0 ≡ 0
bit_and-zero_upto n zero h = refl
bit_and-zero_upto zero (suc a) h = absurd (omega arith)
bit_and-zero_upto (suc n) (suc a) h =
    omega (arith, bit_and-halves (suc a) 0, bit_and-zero_upto n (suc a / 2) (omega arith))

mod-double : (p a : ℕ) → a % (2 * p) ≡ 2 * (a / 2 % p) + a % 2
mod-double p a =
    let q : a / 2 / p ≡ a / (2 * p) = div-div-eq-div-mul a 2 p in
    let whole : 2 * p * (a / (2 * p)) + a % (2 * p) ≡ a = div-add-mod a (2 * p) in
    let half : p * (a / 2 / p) + a / 2 % p ≡ a / 2 = div-add-mod (a / 2) p in
    omega (arith, ap (λ (t : ℕ). p * t) q)

halve : (k : ℕ) → (2 ^ suc k - 1) / 2 ≡ 2 ^ k - 1
halve k = omega (arith, pow-succ' 2 k, one-le-pow k 2)

-- A mask of `k` low ones keeps the remainder by `2 ^ k`.
pub bit_and_low : (k a : ℕ) → bit_and a (2 ^ k - 1) ≡ a % 2 ^ k
bit_and_low zero a = omega (arith, bit_and-zero_upto a a (omega arith))
bit_and_low (suc k) a = omega (
  arith,
  pow-succ' 2 k,
  one-le-pow k 2,
  bit_and-halves a (2 ^ suc k - 1),
  ap (bit_and (a / 2)) (halve k),
  bit_and_low k (a / 2),
  mod-double (2 ^ k) a,
  ap (λ (t : ℕ). a % t) (pow-succ' 2 k),
)

double_half : (x y : ℕ) → x ≡ 2 * y → x / 2 ≡ y
double_half x y h = omega arith

halved : (k a : ℕ) → a / 2 / 2 ^ k ≡ a / 2 ^ suc k
halved k a = div-div-eq-div-mul a 2 (2 ^ k) ∙ ap (λ (t : ℕ). a / t) (sym (pow-succ' 2 k))

-- Zeros at the `k` low places of a mask clear those places.
pub bit_and_high : (k a m : ℕ) → bit_and a (m * 2 ^ k) ≡ bit_and (a / 2 ^ k) m * 2 ^ k
bit_and_high zero a m =
    omega (arith, ap (bit_and a) (mul-one m), ap (λ (t : ℕ). bit_and t m) (div-one a))
bit_and_high (suc k) a m =
    let grown : m * 2 ^ suc k ≡ 2 * (m * 2 ^ k) =
      omega (arith, ap (λ (t : ℕ). m * t) (pow-succ' 2 k)) in
    let digit : ℕ = bit_and (a / 2 ^ suc k) m in
    omega (
      arith,
      grown,
      bit_and-halves a (m * 2 ^ suc k),
      ap (bit_and (a / 2)) (double_half (m * 2 ^ suc k) (m * 2 ^ k) grown),
      bit_and_high k (a / 2) m,
      ap (λ (t : ℕ). bit_and t m * 2 ^ k) (halved k a),
      ap (λ (t : ℕ). digit * t) (pow-succ' 2 k),
    )

pub pow_add : (j k : ℕ) → 2 ^ (j + k) ≡ 2 ^ j * 2 ^ k
pow_add j zero = ap (λ (t : ℕ). 2 ^ t) (add-zero j) ∙ sym (mul-one (2 ^ j))
pow_add j (suc k) =
    let e : j + suc k ≡ suc (j + k) = omega arith in
    omega (
      arith,
      ap (λ (t : ℕ). 2 ^ t) e,
      pow-succ' 2 (j + k),
      pow_add j k,
      ap (λ (t : ℕ). 2 ^ j * t) (pow-succ' 2 k),
    )

complement : (p q : ℕ) → 0 < p → 0 < q → p * q ≡ 2 ^ 64 → 2 ^ 64 - 1 - (q - 1) ≡ (p - 1) * q
complement zero q hp hq e = absurd (omega arith)
complement (suc p) q hp hq e =
    let less : suc p - 1 ≡ p = omega arith in omega (arith, ap (λ (t : ℕ). t * q) less, suc-mul p q)

-- `addr & ~(size - 1)` in 64 bits, for `size` the power `2 ^ k`: the start of the chunk.
pub bit_and_chunk :
    (j k a : ℕ) → j + k ≡ 64 → a < 2 ^ 64 → bit_and a (2 ^ 64 - 1 - (2 ^ k - 1)) ≡ a - a % 2 ^ k
bit_and_chunk j k a e ha =
    let whole : 2 ^ j * 2 ^ k ≡ 2 ^ 64 = sym (pow_add j k) ∙ ap (λ (t : ℕ). 2 ^ t) e in
    let mask : 2 ^ 64 - 1 - (2 ^ k - 1) ≡ (2 ^ j - 1) * 2 ^ k =
      complement (2 ^ j) (2 ^ k) (one-le-pow j 2 (omega arith)) (one-le-pow k 2 (omega arith))
        whole in
    let small : a / 2 ^ k < 2 ^ j =
      (div-lt_iff_lt-mul (one-le-pow k 2 (omega arith))).1 (omega (arith, whole)) in
    omega (
      arith,
      ap (bit_and a) mask,
      bit_and_high k a (2 ^ j - 1),
      ap (λ (t : ℕ). t * 2 ^ k) (bit_and_low j (a / 2 ^ k) ∙ mod-eq_of_lt small),
      div-add-mod a (2 ^ k),
    )

bit_and_again_upto : (n a b : ℕ) → a ≤ n → bit_and (bit_and a b) b ≡ bit_and a b
bit_and_again_upto zero a b h =
    let nothing : a ≡ 0 = omega arith in
    let empty : bit_and a b ≡ 0 = ap (λ (t : ℕ). bit_and t b) nothing ∙ bit_and-zero_left b in
    ap (λ (t : ℕ). bit_and t b) (empty ∙ sym nothing)
bit_and_again_upto (suc n) zero b h = ap (λ (t : ℕ). bit_and t b) (bit_and-zero_left b)
bit_and_again_upto (suc n) (suc a) b h =
    let c = bit_and (suc a) b in
    let q = bit_and (suc a / 2) (b / 2) in
    let digits : c ≡ 2 * q + min (suc a % 2) (b % 2) = bit_and-halves (suc a) b in
    let half : c / 2 ≡ q = omega arith in
    omega (
      arith,
      bit_and-halves c b,
      ap (λ (t : ℕ). bit_and t (b / 2)) half,
      bit_and_again_upto n (suc a / 2) (b / 2) (omega arith),
    )

-- Masking twice is masking once.
pub bit_and_again : (a b : ℕ) → bit_and (bit_and a b) b ≡ bit_and a b
bit_and_again a b = bit_and_again_upto a a b (omega arith)

split_halves : (k m : ℕ) → (m * 2 ^ suc k + (2 ^ suc k - 1)) / 2 ≡ m * 2 ^ k + (2 ^ k - 1)
split_halves k m =
    omega (arith, pow-succ' 2 k, one-le-pow k 2, ap (λ (t : ℕ). m * t) (pow-succ' 2 k))

split_odd : (k m : ℕ) → (m * 2 ^ suc k + (2 ^ suc k - 1)) % 2 ≡ 1
split_odd k m = omega (arith, pow-succ' 2 k, one-le-pow k 2, ap (λ (t : ℕ). m * t) (pow-succ' 2 k))

-- Ones at the `k` low places of a mask keep those places.
pub bit_and_split :
    (k a m : ℕ) → bit_and a (m * 2 ^ k + (2 ^ k - 1)) ≡ bit_and (a / 2 ^ k) m * 2 ^ k + a % 2 ^ k
bit_and_split zero a m =
    let whole : m * 2 ^ 0 + (2 ^ 0 - 1) ≡ m = omega arith in
    omega (arith, ap (bit_and a) whole, ap (λ (t : ℕ). bit_and t m) (div-one a))
bit_and_split (suc k) a m =
    let digit : ℕ = bit_and (a / 2 ^ suc k) m in
    omega (
      arith,
      bit_and-halves a (m * 2 ^ suc k + (2 ^ suc k - 1)),
      split_odd k m,
      ap (bit_and (a / 2)) (split_halves k m),
      bit_and_split k (a / 2) m,
      ap (λ (t : ℕ). bit_and t m * 2 ^ k) (halved k a),
      ap (λ (t : ℕ). digit * t) (pow-succ' 2 k),
      mod-double (2 ^ k) a,
      ap (λ (t : ℕ). a % t) (pow-succ' 2 k),
    )
