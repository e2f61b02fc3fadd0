-- ===== src/Bench/Samples/Report.antt =====
-- bench.hpp: `Samples::report`, which sorts the samples that it then prints percentiles of; the
-- percentiles themselves are floating point. `std::sort` is modelled by insertion.
use af_xdp_reimpl.Prelude.{
  ℕ, zero, suc, ◌+◌, ◌≤◌, ◌<◌, ◌≡◌, refl, ap, ap₂, subst, sym, ◌∙◌, arith, List, [], ◌∷◌,
  Bool-cases, inl, inr, leb, if◌then◌else◌, get_or, length, weigh, weigh_one, length-append, ◌==◌,
}
use af_xdp_reimpl.Bench.Samples.{Samples, firsts, recorded, slice, firsts-slice}

unfoldable pub insert : ℕ → List ℕ → List ℕ
insert x [] = x ∷ []
insert x (y ∷ ys) = let rest = insert x ys in if leb x y then x ∷ y ∷ ys else y ∷ rest

unfoldable pub sort : List ℕ → List ℕ
sort [] = []
sort (x ∷ xs) = insert x (sort xs)

-- The first `n` elements of the array are sorted in place.
unfoldable pub report : Samples → Samples
report s =
    if s.n == 0
    then s
    else (let sorted = sort (recorded s) in record s { buf = λ i. get_or sorted i (s.buf i) })

-- Bounded from below, and ascending.
abbrev pub AtLeast : ℕ → List ℕ → Type 0
AtLeast b [] = Unit {0}
AtLeast b (x ∷ xs) = (b ≤ x) × AtLeast b xs

abbrev pub IsSorted : List ℕ → Type 0
IsSorted [] = Unit {0}
IsSorted (x ∷ xs) = AtLeast x xs × IsSorted xs

AtLeast-trans : (b c : ℕ) (xs : List ℕ) → b ≤ c → AtLeast c xs → AtLeast b xs
AtLeast-trans b c [] h a = tt
AtLeast-trans b c (x ∷ xs) h a = (omega (arith, a.0), AtLeast-trans b c xs h a.1)

pub insert-AtLeast : (b x : ℕ) (ys : List ℕ) → b ≤ x → AtLeast b ys → AtLeast b (insert x ys)
unfolding insert
insert-AtLeast b x [] h a = (h, tt)
insert-AtLeast b x (y ∷ ys) h a = elim (Bool-cases (leb x y)) [
  | inl less ↦ rw less (h, a)
  | inr more ↦ rw more (a.0, insert-AtLeast b x ys h a.1)
]

insert-IsSorted : (x : ℕ) (ys : List ℕ) → IsSorted ys → IsSorted (insert x ys)
unfolding insert
insert-IsSorted x [] h = (tt, tt)
insert-IsSorted x (y ∷ ys) h = elim (Bool-cases (leb x y)) [
  | inl less ↦
      let below : x ≤ y = ground arith in rw less ((below, AtLeast-trans x y ys below h.0), h)
  | inr more ↦
      let above : y ≤ x = ground arith in
      rw more (insert-AtLeast y x ys above h.0, insert-IsSorted x ys h.1)
]

pub sort-IsSorted : (xs : List ℕ) → IsSorted (sort xs)
unfolding sort
sort-IsSorted [] = tt
sort-IsSorted (x ∷ xs) = insert-IsSorted x (sort xs) (sort-IsSorted xs)

weigh-insert : (f : ℕ → ℕ) (x : ℕ) (ys : List ℕ) → weigh f (insert x ys) ≡ f x + weigh f ys
unfolding insert
weigh-insert f x [] = refl
weigh-insert f x (y ∷ ys) = elim (Bool-cases (leb x y)) [
  | inl less ↦ rw less refl
  | inr more ↦ rw more (omega (arith, weigh-insert f x ys))
]

pub weigh-sort : (f : ℕ → ℕ) (xs : List ℕ) → weigh f (sort xs) ≡ weigh f xs
unfolding sort
weigh-sort f [] = refl
weigh-sort f (x ∷ xs) = omega (arith, weigh-insert f x (sort xs), weigh-sort f xs)

pub length-sort : (xs : List ℕ) → length (sort xs) ≡ length xs
length-sort xs = omega (arith, weigh_one xs, weigh_one (sort xs), weigh-sort (λ _. 1) xs)

-- A buffer that holds a list from an index on.
slice_of :
    (buf : ℕ → ℕ) (i : ℕ) (xs : List ℕ)
    → ((j : ℕ) → j < length xs → (d : ℕ) → buf (i + j) ≡ get_or xs j d)
    → slice buf i (length xs) ≡ xs
slice_of buf i [] h = refl
slice_of buf i (x ∷ xs) h =
    let here : i + 0 ≡ i = omega arith in
    let first : buf i ≡ x = ap buf (sym here) ∙ h 0 (omega arith) x in
    ap₂ ◌∷◌ first (
      slice_of buf (i + 1) xs (λ j below d.
        let next : i + 1 + j ≡ i + suc j = omega arith in ap buf next ∙ h (suc j) (omega arith) d))

get_or_within : (xs : List ℕ) (i c d : ℕ) → i < length xs → get_or xs i c ≡ get_or xs i d
get_or_within [] i c d h = absurd (omega arith)
get_or_within (x ∷ xs) zero c d h = refl
get_or_within (x ∷ xs) (suc i) c d h = get_or_within xs i c d (omega arith)

length-firsts : (buf : ℕ → ℕ) (n : ℕ) → length (firsts buf n) ≡ n
length-firsts buf zero = refl
length-firsts buf (suc n) =
    omega (arith, length-append (firsts buf n) (buf n ∷ []), length-firsts buf n)

-- How the samples are arranged afterwards.
pub record Ordered (s s' : Samples) : Type 0 where
  pub sorted : IsSorted (recorded s')
  pub same : (f : ℕ → ℕ) → weigh f (recorded s') ≡ weigh f (recorded s)
  pub number : s'.n ≡ s.n
  pub dropped : s'.dropped ≡ s.dropped

abbrev arrange : Samples → List ℕ → Samples
arrange s xs = record s { buf = λ i. get_or xs i (s.buf i) }

recorded-arrange : (s : Samples) (xs : List ℕ) → length xs ≡ s.n → recorded (arrange s xs) ≡ xs
recorded-arrange s xs long =
    let buf = (arrange s xs).buf in
    let whole : s.n ≡ s.n + 0 = omega arith in
    ap (firsts buf) whole
    ∙ firsts-slice buf 0 s.n
    ∙ ap (slice buf 0) (sym long)
    ∙ slice_of buf 0 xs (λ j below d.
      let at : 0 + j ≡ j = omega arith in ap buf at ∙ get_or_within xs j (s.buf j) d below)

-- `Samples::report` leaves the recorded samples in ascending order, each as often as before, and
-- changes neither their number nor the count of dropped samples.
pub report_lem : (s : Samples) → Ordered s (report s)
unfolding report
report_lem s =
    let xs = sort (recorded s) in
    let long : length xs ≡ s.n = omega (
      arith,
      weigh_one xs,
      weigh_one (recorded s),
      weigh-sort (λ _. 1) (recorded s),
      length-firsts s.buf s.n,
    ) in
    elim (Bool-cases (s.n == 0)) [
      | inl nothing ↦
          let none_there : s.n ≡ 0 = ground arith in
          let empty : recorded s ≡ [] = ap (firsts s.buf) none_there in
          rw nothing (record {
            sorted = subst IsSorted (sym empty) tt;
            same = λ f. refl;
            number = refl;
            dropped = refl;
          })
      | inr some ↦
          let now = recorded-arrange s xs long in
          rw some (record {
            sorted = subst IsSorted (sym now) (sort-IsSorted (recorded s));
            same = λ f. ap (weigh f) now ∙ weigh-sort f (recorded s);
            number = refl;
            dropped = refl;
          })
    ]
