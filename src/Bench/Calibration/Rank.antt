-- ===== src/Bench/Calibration/Rank.antt =====
-- Ranks of the differences that `calibrate_tsc` sorts.
use af_xdp_reimpl.Prelude.{
  ℕ, zero, suc, ◌+◌, ◌≤◌, ◌<◌, ◌≡◌, refl, weigh, Bool, arith, List, [], ◌∷◌, true, false, ltb, leb,
  if◌then◌else◌, get_or, length,
}
use af_xdp_reimpl.Bench.Samples.Report.{
  sort, AtLeast, IsSorted, sort-IsSorted, length-sort, weigh-sort,
}

-- `x` is at the place `i` when the list is put into ascending order: at most `i` elements are less,
-- and more than `i` are not greater.
abbrev pub HasRank : ℕ → ℕ → List ℕ → Type 0
HasRank x i xs =
    (weigh (λ y. if ltb y x then 1 else 0) xs ≤ i) × (i < weigh (λ y. if leb y x then 1 else 0) xs)

AtLeast-get_or : (b : ℕ) (xs : List ℕ) (i : ℕ) → AtLeast b xs → i < length xs → b ≤ get_or xs i 0
AtLeast-get_or b [] i a h = absurd (omega arith)
AtLeast-get_or b (x ∷ xs) zero a h = a.0
AtLeast-get_or b (x ∷ xs) (suc i) a h = AtLeast-get_or b xs i a.1 (omega arith)

none_less : (x : ℕ) (xs : List ℕ) → AtLeast x xs → weigh (λ y. if ltb y x then 1 else 0) xs ≡ 0
none_less x [] a = refl
none_less x (y ∷ ys) a =
    let above : x ≤ y = a.0 in
    let rest = none_less x ys a.1 in
    let test : ltb y x ≡ false = ground arith in rw test (omega (arith, rest))

-- The element at a place of an ascending list has that rank.
get_or-HasRank : (xs : List ℕ) (i : ℕ) → IsSorted xs → i < length xs → HasRank (get_or xs i 0) i xs
get_or-HasRank [] i s h = absurd (omega arith)
get_or-HasRank (x ∷ xs) zero s h =
    let none_below = none_less x xs s.0 in
    let less : ltb x x ≡ false = ground arith in
    let same : leb x x ≡ true = ground arith in
    (rw less (omega (arith, none_below)), rw same (omega arith))
get_or-HasRank (x ∷ xs) (suc i) s h =
    let below : i < length xs = omega arith in
    let rank = get_or-HasRank xs i s.1 below in
    let first : x ≤ get_or xs i 0 = AtLeast-get_or x xs i s.0 below in
    let test : leb x (get_or xs i 0) ≡ true = ground arith in
    (go (ltb x (get_or xs i 0)) (omega (arith, rank.0)), rw test (omega (arith, rank.1)))
  where
    go :
        (b : Bool)
        → weigh (λ y. if ltb y (get_or xs i 0) then 1 else 0) xs ≤ i
        → (if b then 1 else 0) + weigh (λ y. if ltb y (get_or xs i 0) then 1 else 0) xs ≤ suc i
    go true h1 = omega arith
    go false h1 = omega arith

pub sort-HasRank : (xs : List ℕ) (i : ℕ) → i < length xs → HasRank (get_or (sort xs) i 0) i xs
sort-HasRank xs i h =
    let x = get_or (sort xs) i 0 in
    let rank = get_or-HasRank (sort xs) i (sort-IsSorted xs) (omega (arith, length-sort xs)) in
    (
      omega (arith, rank.0, weigh-sort (λ y. if ltb y x then 1 else 0) xs),
      omega (arith, rank.1, weigh-sort (λ y. if leb y x then 1 else 0) xs),
    )
