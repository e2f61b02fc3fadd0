-- ===== src/Bench/Calibration/Quiet.antt =====
-- `calibrate_tsc` opens and closes nothing.
use af_xdp_reimpl.Prelude.{ℕ, zero, suc, refl, ◌∷◌, not, ◌==◌, Bool-cases, inl, inr}
use af_xdp_reimpl.Os.{Os, Call, Answer, History, failed, gave}
use af_xdp_reimpl.Os.Tidy.{Resource}
use af_xdp_reimpl.Os.Quiet.{Quiet, Quiet-refl, Quiet-trans, call-Quiet}
use af_xdp_reimpl.Bench.Calibration.{
  Machine, eintr, is_supported, after_first_time, after_second_time, wake_up, after_nap, sleep,
  calibrate_tsc,
}

module _ (f : Resource → ℕ) (os : Os) (m : Machine) where
  second_time-Quiet :
      (t0 : ℕ) (h : History) (a : Answer) → Quiet f h (after_second_time os m t0 a h).1
  second_time-Quiet t0 h (failed e) = Quiet-refl f h
  second_time-Quiet t0 h (gave t1) = Quiet-refl f h

  wake_up-Quiet : (t0 : ℕ) (h : History) → Quiet f h (wake_up os m t0 h).1
  wake_up-Quiet t0 h =
      let a = os.answer h Call.clock_gettime in
      let h1 = (Call.clock_gettime, a) ∷ h in
      Quiet-trans f h h1 (wake_up os m t0 h).1
        (call-Quiet f Call.clock_gettime h a (λ x. refl) refl) (second_time-Quiet t0 h1 a)

  sleep-Quiet : (naps t0 : ℕ) (h : History) → Quiet f h (sleep os m naps t0 h).1
  unfolding sleep
  sleep-Quiet zero t0 h = Quiet-refl f h
  sleep-Quiet (suc naps) t0 h =
      let a = os.answer h Call.nanosleep in
      let h1 = (Call.nanosleep, a) ∷ h in
      let again = sleep os m naps t0 h1 in
      Quiet-trans f h h1 (after_nap os m t0 again a h1).1
        (call-Quiet f Call.nanosleep h a (λ x. refl) refl) (go h1 a (sleep-Quiet naps t0 h1))
    where
      go :
          (h1 : History) (a : Answer)
          → Quiet f h1 (sleep os m naps t0 h1).1
          → Quiet f h1 (after_nap os m t0 (sleep os m naps t0 h1) a h1).1
      go h1 (gave x) rest = wake_up-Quiet t0 h1
      go h1 (failed e) rest = elim (Bool-cases (e == eintr)) [
        | inl again ↦ rw again rest
        | inr broken ↦ rw broken (Quiet-refl f h1)
      ]

  first_time-Quiet :
      (naps : ℕ) (h : History) (a : Answer) → Quiet f h (after_first_time os m naps a h).1
  first_time-Quiet naps h (failed e) = Quiet-refl f h
  first_time-Quiet naps h (gave t0) = sleep-Quiet naps t0 h

  pub calibrate_tsc-Quiet : (naps : ℕ) (h : History) → Quiet f h (calibrate_tsc os m naps h).1
  unfolding calibrate_tsc
  calibrate_tsc-Quiet naps h = elim (Bool-cases (not (is_supported m))) [
    | inl lacking ↦ rw lacking (Quiet-refl f h)
    | inr there ↦
        let a = os.answer h Call.clock_gettime in
        let h1 = (Call.clock_gettime, a) ∷ h in
        rw there (
          Quiet-trans f h h1 (after_first_time os m naps a h1).1
            (call-Quiet f Call.clock_gettime h a (λ x. refl) refl) (first_time-Quiet naps h1 a))
  ]
