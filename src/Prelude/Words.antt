-- ===== src/Prelude/Words.antt =====
-- Unsigned machine arithmetic with its wrap-around written out, and memory by index.
use Prim.Native.Nat.{ℕ, ◌+◌, ◌-◌, ◌%◌, ◌^◌, ◌≤◌, ◌<◌, ◌∣◌, bit_and}
use mathlib.Core.Path.{◌≡◌, ap, sym, ◌∙◌, subst}
use mathlib.Core.Logic.{◌≢◌}
use native.Mathlib.Nat.{mod-mod_of_dvd, div-add-mod, dvd-mul_left, one-le-pow, pow-le-pow_right}
use native.Mathlib.Omega.{arith}
use af_xdp_reimpl.Prelude.Bits.{pow_add, bit_and_low}
use af_xdp_reimpl.Prelude.Tests.{◌==◌, if◌then◌else◌}

-- `std::uint32_t` and `std::uint64_t` sums and differences.
abbrev pub add32 : ℕ → ℕ → ℕ
add32 a b = (a + b) % 2 ^ 32

abbrev pub sub32 : ℕ → ℕ → ℕ
sub32 a b = (a + 2 ^ 32 - b) % 2 ^ 32

abbrev pub add64 : ℕ → ℕ → ℕ
add64 a b = (a + b) % 2 ^ 64

abbrev pub sub64 : ℕ → ℕ → ℕ
sub64 a b = (a + 2 ^ 64 - b) % 2 ^ 64

-- An array or a mapped region: what stands at each index, and a write at one.
abbrev pub store {ℓ} : {A : Type ℓ} → (ℕ → A) → ℕ → A → ℕ → A
store f i v j = if i == j then v else f j

pub store_other {ℓ} : {A : Type ℓ} (f : ℕ → A) (i j : ℕ) (v : A) → i ≢ j → store f i v j ≡ f j
store_other f i j v h = ground arith

pub store_self {ℓ} : {A : Type ℓ} (f : ℕ → A) (i : ℕ) (v : A) → store f i v i ≡ v
store_self f i v = ground arith

-- Numbers less than `n` apart have different remainders by `n`.
pub mod_ne : (a b n : ℕ) → a < b → b < a + n → a % n ≢ b % n
mod_ne a b n h k e = grind (arith, div-add-mod a n, div-add-mod b n)

pub two-pow-dvd : (k : ℕ) → k ≤ 32 → 2 ^ k ∣ 2 ^ 32
two-pow-dvd k h =
    let sum : 32 - k + k ≡ 32 = omega arith in
    subst (λ (t : ℕ). 2 ^ k ∣ t) (sym (pow_add (32 - k) k) ∙ ap (λ (t : ℕ). 2 ^ t) sum)
      (dvd-mul_left (2 ^ k) (2 ^ (32 - k)))

-- `i & mask` at a wrapped index, for a size that is a power of two: the wrap does not show.
pub slot_of_sum : (k a : ℕ) → k ≤ 32 → bit_and (a % 2 ^ 32) (2 ^ k - 1) ≡ a % 2 ^ k
slot_of_sum k a h = bit_and_low k (a % 2 ^ 32) ∙ mod-mod_of_dvd (2 ^ k) a (two-pow-dvd k h)

pub two-pow-small : (k : ℕ) → k ≤ 31 → (0 < 2 ^ k) × (2 ^ k ≤ 2 ^ 31)
two-pow-small k h = (one-le-pow k 2 (omega arith), pow-le-pow_right (omega arith) h)
