-- ===== src/Bench/Calibration/Verdict.antt =====
-- What the outcomes of `calibrate_tsc` mean.
use af_xdp_reimpl.Prelude.{
  ℕ, zero, suc, ◌+◌, ◌-◌, ◌*◌, ◌^◌, ◌≤◌, ◌<◌, ◌≡◌, ◌≢◌, ◌∙◌, refl, ap, ap₂, subst, sub64, bit_and,
  Bool, Option, none, some, arith, List, [], ◌∷◌, true, false, not, ◌||◌, ltb, leb, ◌==◌,
  if◌then◌else◌, get_or, length, Bool-cases, inl, inr, ◌⊎◌,
}
use af_xdp_reimpl.Os.{Os, Call, Answer, History, failed, gave}
use af_xdp_reimpl.Bench.Calibration.Rank.{HasRank, sort-HasRank}
use af_xdp_reimpl.Bench.Samples.Report.{sort}
use af_xdp_reimpl.Bench.Calibration.{
  Machine, TscCalibration, Calibrated, calibrated, calibration_error, asleep, eintr, has_bit,
  is_supported, overhead, calibration_of, check_range, after_first_time, after_second_time, wake_up,
  after_nap, sleep, calibrate_tsc,
}

-- How many calls of `nanosleep` a signal has interrupted.
abbrev pub interruptions : History → ℕ
interruptions [] = 0
interruptions ((Call.nanosleep, failed e) ∷ h) =
    if e == eintr then suc (interruptions h) else interruptions h
interruptions ((c, a) ∷ h) = interruptions h

-- A feature bit of the processor.
abbrev pub HasBit : Option ℕ → ℕ → Type 0
HasBit none bit = ⊥
HasBit (some edx) bit = bit_and edx (2 ^ bit) ≢ 0

-- RDTSCP and an invariant time stamp counter.
abbrev pub Supports : Machine → Type 0
Supports m = HasBit (m.cpuid 2147483649) 27 × HasBit (m.cpuid 2147483655) 8

-- The differences of `n` pairs of readings, one behind the other, from the reading `2 * k + 2` on.
abbrev pub differences : Machine → ℕ → ℕ → List ℕ
differences m k zero = []
differences m k (suc n) = sub64 (m.tsc (2 * k + 3)) (m.tsc (2 * k + 2)) ∷ differences m (suc k) n

-- The counter has not moved forward, or the clock by less than 0.1 s.
abbrev pub OutOfRange : Machine → ℕ → ℕ → Type 0
OutOfRange m t0 t1 = (m.tsc 1 ≤ m.tsc 0) ⊎ (t1 < t0 + 100000000)

-- How a calibration comes about that started at `t0`: the sleep has ended, and the clock, read as the
-- last call, gave `t1`.
abbrev pub Timed : Os → History → History → ℕ → ℕ → Type 0
Timed os h h1 t0 t1 =
    (os.answer h Call.clock_gettime ≡ gave t0)
    × (h2 : History) × (x : ℕ) × (h1
        ≡ (Call.clock_gettime, gave t1) ∷ (Call.nanosleep, gave x) ∷ h2)

-- A calibration is made of what was measured.
pub record IsGood (os : Os) (m : Machine) (h : History) (c : TscCalibration) (h1 : History)
    : Type 0 where
  pub supported : Supports m
  pub t0 : ℕ
  pub t1 : ℕ
  pub timed : Timed os h h1 t0 t1
  pub in_range : ¬ OutOfRange m t0 t1
  pub ticks : c.ticks ≡ m.tsc 1 - m.tsc 0
  pub ns : c.ns ≡ t1 - t0
  pub least : HasRank c.pair_min_ticks 0 (differences m 0 256)
  pub median : HasRank c.pair_median_ticks 128 (differences m 0 256)

-- The call that an error comes from: a failed reading of the clock, or a sleep that has failed
-- otherwise than by a signal.
abbrev pub Fatal : Call → ℕ → Type 0
Fatal c e = (c ≡ Call.clock_gettime) ⊎ ((c ≡ Call.nanosleep) × (e ≢ 4))

-- An error names its cause.
abbrev pub Cause : Os → Machine → History → ℕ → History → Type 0
Cause os m h e h1 =
    ((e ≡ 95) × (¬ Supports m))
    ⊎ (((e ≡ 34) × (t0 : ℕ) × (t1 : ℕ) × Timed os h h1 t0 t1 × OutOfRange m t0 t1)
        ⊎ ((c : Call) × (h2 : History) × (h1 ≡ (c, failed e) ∷ h2) × Fatal c e))

abbrev pub Verdict : Os → Machine → ℕ → History → Calibrated × History → Type 0
Verdict os m naps h (calibrated c, h1) = IsGood os m h c h1
Verdict os m naps h (calibration_error e, h1) = Cause os m h e h1
Verdict os m naps h (asleep, h1) = interruptions h1 ≡ interruptions h + naps

length-overhead : (m : Machine) (n i : ℕ) → length (overhead m n i) ≡ n
unfolding overhead
length-overhead m zero i = refl
length-overhead m (suc n) i = ap suc (length-overhead m n (i + 2))

differences-overhead : (m : Machine) (k n : ℕ) → overhead m n (2 * k + 2) ≡ differences m k n
unfolding overhead
differences-overhead m k zero = refl
differences-overhead m k (suc n) =
    let second : 2 * k + 2 + 1 ≡ 2 * k + 3 = omega arith in
    let next : 2 * k + 2 + 2 ≡ 2 * suc k + 2 = omega arith in
    ap₂ ◌∷◌ (ap (λ (i : ℕ). sub64 (m.tsc i) (m.tsc (2 * k + 2))) second)
      (ap (overhead m n) next ∙ differences-overhead m (suc k) n)

has_bit-HasBit : (o : Option ℕ) (bit : ℕ) → has_bit o bit ≡ true → HasBit o bit
has_bit-HasBit none bit h = cc
has_bit-HasBit (some edx) bit h = ground arith

lacks_bit : (o : Option ℕ) (bit : ℕ) → has_bit o bit ≡ false → ¬ HasBit o bit
lacks_bit none bit h = λ b. b
lacks_bit (some edx) bit h = λ b. b (ground arith)

is_supported-Supports : (m : Machine) → is_supported m ≡ true → Supports m
unfolding is_supported
is_supported-Supports m h =
    let (first, second) : Bool × Bool =
      (has_bit (m.cpuid 2147483649) 27, has_bit (m.cpuid 2147483655) 8) in
    let one : has_bit (m.cpuid 2147483649) 27 ≡ true = ground arith in
    let two : has_bit (m.cpuid 2147483655) 8 ≡ true = ground arith in
    (has_bit-HasBit (m.cpuid 2147483649) 27 one, has_bit-HasBit (m.cpuid 2147483655) 8 two)

unsupported : (m : Machine) → is_supported m ≡ false → ¬ Supports m
unfolding is_supported
unsupported m h = elim (Bool-cases (has_bit (m.cpuid 2147483649) 27)) [
  | inr lacking ↦ λ s. lacks_bit (m.cpuid 2147483649) 27 lacking s.0
  | inl there ↦
      let two : has_bit (m.cpuid 2147483655) 8 ≡ false = ground arith in
      λ s. lacks_bit (m.cpuid 2147483655) 8 two s.1
]

module _ (os : Os) (m : Machine) where
  check_range-Verdict :
      (t0 t1 naps : ℕ) (h h1 : History)
      → is_supported m ≡ true
      → Timed os h h1 t0 t1
      → Verdict os m naps h (check_range m t0 t1, h1)
  unfolding check_range calibration_of
  check_range-Verdict t0 t1 naps h h1 supported timed =
      let xs = overhead m 256 2 in
      let same : xs ≡ differences m 0 256 = differences-overhead m 0 256 in
      let long : length xs ≡ 256 = length-overhead m 256 2 in
      elim (Bool-cases (leb (m.tsc 1) (m.tsc 0) || ltb t1 (t0 + 100000000))) [
        | inl bad ↦ rw bad (inr (inl (refl, t0, t1, timed, ground arith)))
        | inr fine ↦ rw fine (record {
          supported = is_supported-Supports m supported;
          t0 = t0;
          t1 = t1;
          timed = timed;
          in_range = ground arith;
          ticks = refl;
          ns = refl;
          least = subst (HasRank (get_or (sort xs) 0 0) 0) same (sort-HasRank xs 0 (omega arith));
          median =
              subst (HasRank (get_or (sort xs) 128 0) 128) same (sort-HasRank xs 128 (omega arith));
        })
      ]

  wake_up-Verdict :
      (t0 naps x : ℕ) (h h2 : History)
      → is_supported m ≡ true
      → os.answer h Call.clock_gettime ≡ gave t0
      → let h1 = (Call.nanosleep, gave x) ∷ h2 in Verdict os m naps h (wake_up os m t0 h1)
  wake_up-Verdict t0 naps x h h2 supported started = go (os.answer h1 Call.clock_gettime)
    where
      h1 : History
      h1 = (Call.nanosleep, gave x) ∷ h2

      go :
          (a : Answer)
          → Verdict os m naps h (after_second_time os m t0 a ((Call.clock_gettime, a) ∷ h1))
      go (failed e) = inr (inr (Call.clock_gettime, h1, refl, inl refl))
      go (gave t1) =
          check_range-Verdict t0 t1 naps h ((Call.clock_gettime, gave t1) ∷ h1) supported
            (started, h2, x, refl)

  sleep-Verdict :
      (n t0 before : ℕ) (h h1 : History)
      → is_supported m ≡ true
      → os.answer h Call.clock_gettime ≡ gave t0
      → interruptions h1 ≡ interruptions h + before
      → Verdict os m (before + n) h (sleep os m n t0 h1)
  unfolding sleep
  sleep-Verdict zero t0 before h h1 supported started so_far = omega (arith, so_far)
  sleep-Verdict (suc n) t0 before h h1 supported started so_far =
      let a = os.answer h1 Call.nanosleep in
      go a (sleep-Verdict n t0 (before + 1) h ((Call.nanosleep, a) ∷ h1) supported started)
    where
      go :
          (a : Answer)
          → (interruptions ((Call.nanosleep, a) ∷ h1) ≡ interruptions h + (before + 1)
              → Verdict os m (before + 1 + n) h (sleep os m n t0 ((Call.nanosleep, a) ∷ h1)))
          → let h2 = (Call.nanosleep, a) ∷ h1 in
            Verdict os m (before + suc n) h (after_nap os m t0 (sleep os m n t0 h2) a h2)
      go (gave x) rest = wake_up-Verdict t0 (before + suc n) x h h1 supported started
      go (failed e) rest = elim (Bool-cases (e == eintr)) [
        | inl again ↦
            let sum : before + 1 + n ≡ before + suc n = omega arith in
            let out = sleep os m n t0 ((Call.nanosleep, failed e) ∷ h1) in
            rw again (
              subst (λ (k : ℕ). Verdict os m k h out) sum (rest (rw again (omega (arith, so_far)))))
        | inr broken ↦ rw broken (inr (inr (Call.nanosleep, h1, refl, inr (refl, ground arith))))
      ]

  -- `calibrate_tsc` with `naps` calls of `nanosleep`. When it returns a calibration, the processor has
  -- RDTSCP and an invariant counter, the counter went forward by `ticks` and the clock by `ns` from
  -- before the sleep to after it, which is at least 0.1 s, and of the 256 differences of paired
  -- readings `pair_min_ticks` is the least and `pair_median_ticks` has the rank 128. An error is
  -- EOPNOTSUPP without such a processor, ERANGE when the counter did not go forward or the clock by
  -- less than 0.1 s, or the errno of the last call, on the clock or a sleep that no signal
  -- interrupted. When it has not come back, a signal has interrupted each of the calls of `nanosleep`.
  pub calibrate_tsc_lem : (naps : ℕ) (h : History) → Verdict os m naps h (calibrate_tsc os m naps h)
  unfolding calibrate_tsc
  calibrate_tsc_lem naps h = elim (Bool-cases (not (is_supported m))) [
    | inl lacking ↦ rw lacking (inl (refl, unsupported m (ground arith)))
    | inr there ↦
        let supported : is_supported m ≡ true = ground arith in
        rw there (go supported (os.answer h Call.clock_gettime) refl)
  ]
    where
      go :
          is_supported m ≡ true
          → (a : Answer) → os.answer h Call.clock_gettime ≡ a
          → Verdict os m naps h (after_first_time os m naps a ((Call.clock_gettime, a) ∷ h))
      go supported (failed e) started = inr (inr (Call.clock_gettime, h, refl, inl refl))
      go supported (gave t0) started =
          let zero_so_far : interruptions h ≡ interruptions h + 0 = omega arith in
          let sum : 0 + naps ≡ naps = omega arith in
          let h1 = (Call.clock_gettime, gave t0) ∷ h in
          subst (λ (k : ℕ). Verdict os m k h (sleep os m naps t0 h1)) sum
            (sleep-Verdict naps t0 0 h h1 supported started zero_so_far)
