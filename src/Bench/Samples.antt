-- ===== src/Bench/Samples.antt =====
-- include/afxdp/bench.hpp: `Samples`, a fixed buffer of latency samples that the control thread
-- opens and the worker fills. `buf` is the array of `cap` elements.
pub mod Report
use af_xdp_reimpl.Prelude.{
  ℕ, zero, suc, ◌+◌, ◌-◌, ◌%◌, ◌^◌, ◌≤◌, ◌<◌, ◌≡◌, refl, ap, ap₂, append_assoc, append-nil, subst,
  sym, ◌∙◌, arith, List, [], ◌∷◌, ◌++◌, take, length, Bool, true, false, ◌&&◌, store, store_self,
  store_other, ltb, if◌then◌else◌, if_true, if_false, dec_lt, min,
}

pub record Samples : Type 0 where
  pub buf : ℕ → ℕ
  pub cap : ℕ
  pub n : ℕ
  pub dropped : ℕ
  pub enabled : Bool

unfoldable pub init : ℕ → Samples
init capacity = record { buf = λ _. 0; cap = capacity; n = 0; dropped = 0; enabled = false }

unfoldable pub start : Samples → Samples
start s = record s { enabled = true }

unfoldable pub recording : Samples → Bool
recording s = ltb s.n s.cap && s.enabled

-- `record`
unfoldable pub record_ticks : Samples → ℕ → Samples
record_ticks s ticks =
    if ltb s.n s.cap
    then record s { buf = store s.buf s.n ticks; n = s.n + 1 }
    else record s { dropped = (s.dropped + 1) % 2 ^ 64 }

-- The first `n` elements of a buffer.
abbrev pub firsts : (ℕ → ℕ) → ℕ → List ℕ
firsts buf zero = []
firsts buf (suc n) = firsts buf n ++ buf n ∷ []

abbrev pub recorded : Samples → List ℕ
recorded s = firsts s.buf s.n

pub record_all : Samples → List ℕ → Samples
record_all s [] = s
record_all s (x ∷ xs) = record_all (record_ticks s x) xs

firsts-store : (buf : ℕ → ℕ) (i n x : ℕ) → n ≤ i → firsts (store buf i x) n ≡ firsts buf n
firsts-store buf i zero x h = refl
firsts-store buf i (suc n) x h =
    ap₂ ◌++◌ (firsts-store buf i n x (omega arith))
      (ap (λ y. y ∷ []) (store_other buf i n x (omega arith)))

-- The elements of a buffer from an index on.
abbrev pub slice : (ℕ → ℕ) → ℕ → ℕ → List ℕ
slice buf i zero = []
slice buf i (suc n) = buf i ∷ slice buf (i + 1) n

pub firsts-slice : (buf : ℕ → ℕ) (i n : ℕ) → firsts buf (n + i) ≡ firsts buf i ++ slice buf i n
firsts-slice buf i zero =
    let same : 0 + i ≡ i = omega arith in ap (firsts buf) same ∙ sym (append-nil (firsts buf i))
firsts-slice buf i (suc n) =
    let next : suc n + i ≡ n + (suc i) = omega arith in
    let at : suc i ≡ i + 1 = omega arith in
    ap (firsts buf) next
    ∙ firsts-slice buf (suc i) n
    ∙ append_assoc (firsts buf i) (buf i ∷ []) (slice buf (suc i) n)
    ∙ ap (λ (t : ℕ). firsts buf i ++ buf i ∷ slice buf t n) at

abbrev no_samples : List ℕ
no_samples = []

take-nil : (n : ℕ) → take n no_samples ≡ []
take-nil zero = refl
take-nil (suc n) = refl

-- What a run of samples leaves.
pub record Kept (s : Samples) (xs : List ℕ) (s' : Samples) : Type 0 where
  pub samples : recorded s' ≡ recorded s ++ take (s.cap - s.n) xs
  pub number : s'.n ≡ s.n + min (s.cap - s.n) (length xs)
  pub lost : s'.dropped % 2 ^ 64 ≡ (s.dropped + (length xs - (s.cap - s.n))) % 2 ^ 64
  pub cap : s'.cap ≡ s.cap

record_ticks_room :
    (s : Samples) (x : ℕ)
    → s.n < s.cap
    → record_ticks s x ≡ record s { buf = store s.buf s.n x; n = s.n + 1 }
unfolding record_ticks
record_ticks_room s x h = let test : ltb s.n s.cap ≡ true = ground arith in if_true _ _ test

record_ticks_full :
    (s : Samples) (x : ℕ)
    → s.n ≡ s.cap
    → record_ticks s x ≡ record s { dropped = (s.dropped + 1) % 2 ^ 64 }
unfolding record_ticks
record_ticks_full s x h = let test : ltb s.n s.cap ≡ false = ground arith in if_false _ _ test

recorded_room :
    (s : Samples) (x : ℕ)
    → recorded (record s { buf = store s.buf s.n x; n = s.n + 1 }) ≡ recorded s ++ x ∷ []
recorded_room s x =
    let next : s.n + 1 ≡ suc s.n = omega arith in
    ap (firsts (store s.buf s.n x)) next
    ∙ ap₂ ◌++◌ (firsts-store s.buf s.n s.n x (omega arith))
        (ap (λ y. y ∷ []) (store_self s.buf s.n x))

-- The buffer keeps the first samples that it has room for, in order, and counts all others.
pub record_all_lem : (s : Samples) (xs : List ℕ) → s.n ≤ s.cap → Kept s xs (record_all s xs)
unfolding record_all
record_all_lem s [] h =
    let nothing : take (s.cap - s.n) no_samples ≡ [] = take-nil (s.cap - s.n) in
    record {
      samples = sym (ap (◌++◌ (recorded s)) nothing ∙ append-nil (recorded s));
      number = omega arith;
      lost = omega arith;
      cap = refl;
    }
record_all_lem s (x ∷ xs) h = elim (dec_lt s.n s.cap) [
  | yes room ↦
      let s1 = record s { buf = store s.buf s.n x; n = s.n + 1 } in
      let k = record_all_lem s1 xs (omega arith) in
      let left : s.cap - s.n ≡ suc (s.cap - (s.n + 1)) = omega arith in
      subst (λ (t : Samples). Kept s (x ∷ xs) (record_all t xs)) (sym (record_ticks_room s x room))
        (record {
          samples =
              k.samples
              ∙ ap (λ ys. ys ++ take (s.cap - (s.n + 1)) xs) (recorded_room s x)
              ∙ append_assoc (recorded s) (x ∷ []) (take (s.cap - (s.n + 1)) xs)
              ∙ ap (λ (m : ℕ). recorded s ++ take m (x ∷ xs)) (sym left);
          number = omega (arith, k.number);
          lost = omega (arith, k.lost);
          cap = k.cap;
        })
  | no full ↦
      let at_end : s.n ≡ s.cap = omega arith in
      let s1 = record s { dropped = (s.dropped + 1) % 2 ^ 64 } in
      let k = record_all_lem s1 xs h in
      let none_left : s.cap - s.n ≡ 0 = omega arith in
      subst (λ (t : Samples). Kept s (x ∷ xs) (record_all t xs))
        (sym (record_ticks_full s x at_end))
        (record {
          samples =
              k.samples
              ∙ ap (λ (m : ℕ). recorded s ++ take m xs) none_left
              ∙ ap (λ (m : ℕ). recorded s ++ take m (x ∷ xs)) (sym none_left);
          number = omega (arith, k.number);
          lost = omega (arith, k.lost);
          cap = k.cap;
        })
]
