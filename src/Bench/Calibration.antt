-- ===== src/Bench/Calibration.antt =====
-- bench.hpp: `calibrate_tsc`. A `Machine` gives the feature bits of the processor and the readings of
-- the time stamp counter; the value of `clock_gettime` is the time in nanoseconds. The source takes
-- the elapsed time as a double, which is exact below 2 ^ 53, and so are the comparisons here. The
-- quotient is not taken: a calibration holds the two numbers that it is made of.
pub mod Rank
pub mod Verdict
pub mod Quiet
use af_xdp_reimpl.Prelude.{
  ℕ, zero, suc, ◌+◌, ◌-◌, ◌^◌, ◌≤◌, ◌<◌, ◌≡◌, ◌≢◌, refl, ap, arith, List, [], ◌∷◌, Bool, true,
  false, not, ◌||◌, Option, none, some, bit_and, sub64, ltb, leb, ◌==◌, if◌then◌else◌, get_or,
  length, Bool-cases, inl, inr,
}
use af_xdp_reimpl.Os.{Os, Call, Answer, History, failed, gave, perform}
use af_xdp_reimpl.Bench.Samples.Report.{sort}

-- `cpuid` is the register EDX of a leaf, if there is such a leaf.
pub record Machine : Type 0 where
  pub cpuid : ℕ → Option ℕ
  pub tsc : ℕ → ℕ

pub record TscCalibration : Type 0 where
  pub ns : ℕ
  pub ticks : ℕ
  pub pair_min_ticks : ℕ
  pub pair_median_ticks : ℕ

-- How a calibration stands; one that is `asleep` has not come back from its calls of `nanosleep`.
pub data Calibrated : Type 0 where
  calibrated : (c : TscCalibration) → Calibrated
  calibration_error : (error : ℕ) → Calibrated
  asleep : Calibrated

abbrev pub is_asleep : Calibrated → Bool
is_asleep asleep = true
is_asleep x = false

abbrev pub eintr : ℕ
eintr = 4

abbrev pub erange : ℕ
erange = 34

abbrev pub eopnotsupp : ℕ
eopnotsupp = 95

abbrev pub has_bit : Option ℕ → ℕ → Bool
has_bit none bit = false
has_bit (some edx) bit = not (bit_and edx (2 ^ bit) == 0)

-- RDTSCP, and an invariant time stamp counter.
unfoldable pub is_supported : Machine → Bool
is_supported m = if has_bit (m.cpuid 2147483649) 27 then has_bit (m.cpuid 2147483655) 8 else false

-- The differences of `n` pairs of readings, from the reading `i` on.
unfoldable pub overhead : Machine → ℕ → ℕ → List ℕ
overhead m zero i = []
overhead m (suc n) i = sub64 (m.tsc (i + 1)) (m.tsc i) ∷ overhead m n (i + 2)

unfoldable pub calibration_of : Machine → ℕ → ℕ → TscCalibration
calibration_of m ns ticks =
    let sorted = sort (overhead m 256 2) in
    record {
      ns = ns;
      ticks = ticks;
      pair_min_ticks = get_or sorted 0 0;
      pair_median_ticks = get_or sorted 128 0;
    }

-- The checks at the end, for the times `t0` and `t1`.
unfoldable pub check_range : Machine → ℕ → ℕ → Calibrated
check_range m t0 t1 =
    let (c0, c1) : ℕ × ℕ = (m.tsc 0, m.tsc 1) in
    if leb c1 c0 || ltb t1 (t0 + 100000000)
    then calibration_error erange
    else calibrated (calibration_of m (t1 - t0) (c1 - c0))

module _ (os : Os) (m : Machine) where
  -- What follows the sleep.
  abbrev pub after_second_time : ℕ → Answer → History → Calibrated × History
  after_second_time t0 (failed e) h = (calibration_error e, h)
  after_second_time t0 (gave t1) h = (check_range m t0 t1, h)

  abbrev pub wake_up : ℕ → History → Calibrated × History
  wake_up t0 h = let (a, h1) = perform os Call.clock_gettime h in after_second_time t0 a h1

  -- What follows a call of `nanosleep`, which ended so; `again` is the next round of the loop.
  abbrev pub after_nap : ℕ → Calibrated × History → Answer → History → Calibrated × History
  after_nap t0 again (gave x) h = wake_up t0 h
  after_nap t0 again (failed e) h = if e == eintr then again else (calibration_error e, h)

  -- The loop around `nanosleep`, which starts over when a signal comes, for `naps` calls.
  unfoldable pub sleep : ℕ → ℕ → History → Calibrated × History
  sleep zero t0 h = (asleep, h)
  sleep (suc naps) t0 h =
      let (a, h1) = perform os Call.nanosleep h in after_nap t0 (sleep naps t0 h1) a h1

  abbrev pub after_first_time : ℕ → Answer → History → Calibrated × History
  after_first_time naps (failed e) h = (calibration_error e, h)
  after_first_time naps (gave t0) h = sleep naps t0 h

  unfoldable pub calibrate_tsc : ℕ → History → Calibrated × History
  calibrate_tsc naps h =
      if not (is_supported m)
      then (calibration_error eopnotsupp, h)
      else (let (a, h1) = perform os Call.clock_gettime h in after_first_time naps a h1)
