-- ===== src/Ring/Window.antt =====
-- The entries of a ring from an index on, as a list: how a range of slots splits, moves on, and
-- changes when one slot is written.
use af_xdp_reimpl.Prelude.{
  ℕ, zero, suc, ◌+◌, ◌-◌, ◌^◌, ◌≤◌, ◌<◌, ◌≡◌, ◌≢◌, refl, ap, ap₂, sym, ◌∙◌, List, [], ◌∷◌, ◌++◌,
  arith, add32, store, store_other, store_self, bit_and, mod_ne, slot_of_sum, length, take, drop,
}

module _ {ℓ} {A : Type ℓ} (descs : ℕ → A) (mask : ℕ) where
  -- The `n` descriptors `desc_at(start + i)`, `desc_at(start + i + 1)`, ….
  abbrev pub window : ℕ → ℕ → ℕ → List A
  window start i zero = []
  window start i (suc n) = descs (bit_and (add32 start i) mask) ∷ window start (i + 1) n

  pub length-window : (s i n : ℕ) → length (window s i n) ≡ n
  length-window s i zero = refl
  length-window s i (suc n) = ap suc (length-window s (i + 1) n)

  pub window_split : (s i n m : ℕ) → window s i (n + m) ≡ window s i n ++ window s (i + n) m
  window_split s i zero m =
      let e : i ≡ i + 0 = omega arith in
      let same : 0 + m ≡ m = omega arith in ap (window s i) same ∙ ap (λ (t : ℕ). window s t m) e
  window_split s i (suc n) m =
      let e : i + 1 + n ≡ i + suc n = omega arith in
      let longer : suc n + m ≡ suc (n + m) = omega arith in
      ap (window s i) longer
      ∙ ap (◌∷◌ (descs (bit_and (add32 s i) mask)))
          (window_split s (i + 1) n m ∙ ap (λ (t : ℕ). window s (i + 1) n ++ window s t m) e)

  pub window_shift : (s j i n : ℕ) → window (add32 s j) i n ≡ window s (j + i) n
  window_shift s j i zero = refl
  window_shift s j i (suc n) =
      let first : add32 (add32 s j) i ≡ add32 s (j + i) = omega arith in
      let next : j + (i + 1) ≡ j + i + 1 = omega arith in
      ap₂ ◌∷◌ (ap (λ (t : ℕ). descs (bit_and t mask)) first)
        (window_shift s j (i + 1) n ∙ ap (λ (t : ℕ). window s t n) next)

  pub take-window : (s i j n : ℕ) → j ≤ n → take j (window s i n) ≡ window s i j
  take-window s i zero n h = refl
  take-window s i (suc j) zero h = absurd (omega arith)
  take-window s i (suc j) (suc n) h =
      ap (◌∷◌ (descs (bit_and (add32 s i) mask))) (take-window s (i + 1) j n (omega arith))

  pub drop-window : (s i j n : ℕ) → j ≤ n → drop j (window s i n) ≡ window s (i + j) (n - j)
  drop-window s i zero n h =
      let e : i ≡ i + 0 = omega arith in let all : n ≡ n - 0 = omega arith in ap₂ (window s) e all
  drop-window s i (suc j) zero h = absurd (omega arith)
  drop-window s i (suc j) (suc n) h =
      let e : i + 1 + j ≡ i + suc j = omega arith in
      let left : n - j ≡ suc n - suc j = omega arith in
      drop-window s (i + 1) j n (omega arith) ∙ ap₂ (window s) e left

  -- Slots of indices less than `2 ^ k` apart differ.
  pub slot_ne :
      (k s i j : ℕ)
      → k ≤ 32
      → mask ≡ 2 ^ k - 1
      → i < j
      → j < i + 2 ^ k
      → bit_and (add32 s j) mask ≢ bit_and (add32 s i) mask
  slot_ne k s i j hk hm h h' e = mod_ne (s + i) (s + j) (2 ^ k) (omega arith) (omega arith) (
      sym (slot_of_sum k (s + i) hk)
      ∙ ap (bit_and (add32 s i)) (sym hm)
      ∙ sym e
      ∙ ap (bit_and (add32 s j)) hm
      ∙ slot_of_sum k (s + j) hk)

-- A write beside the range leaves it, and a write just past it appends to it.
pub window-store_outside {ℓ} :
    {A : Type ℓ} (descs : ℕ → A) (mask k s i n j : ℕ) (v : A)
    → k ≤ 32
    → mask ≡ 2 ^ k - 1
    → i + n ≤ j
    → j < i + 2 ^ k
    → window (store descs (bit_and (add32 s j) mask) v) mask s i n ≡ window descs mask s i n
window-store_outside descs mask k s i zero j v hk hm h h' = refl
window-store_outside descs mask k s i (suc n) j v hk hm h h' =
    ap₂ ◌∷◌
      (store_other descs (bit_and (add32 s j) mask) (bit_and (add32 s i) mask) v
        (slot_ne descs mask k s i j hk hm (omega arith) (omega arith)))
      (window-store_outside descs mask k s (i + 1) n j v hk hm (omega arith) (omega arith))

pub window-store_last {ℓ} :
    {A : Type ℓ} (descs : ℕ → A) (mask k s n : ℕ) (v : A)
    → k ≤ 32
    → mask ≡ 2 ^ k - 1
    → n < 2 ^ k
    → window (store descs (bit_and (add32 s n) mask) v) mask s 0 (suc n)
      ≡ window descs mask s 0 n ++ v ∷ []
window-store_last descs mask k s n v hk hm h =
    let new : ℕ → _ = store descs (bit_and (add32 s n) mask) v in
    let longer : suc n ≡ n + 1 = omega arith in
    let at : 0 + n ≡ n = omega arith in
    ap (window new mask s 0) longer
    ∙ window_split new mask s 0 n 1
    ∙ ap₂ ◌++◌ (window-store_outside descs mask k s 0 n n v hk hm (omega arith) (omega arith)) (
        ap (λ (t : ℕ). new (bit_and (add32 s t) mask) ∷ []) at
        ∙ ap (λ w. w ∷ []) (store_self descs (bit_and (add32 s n) mask) v))
