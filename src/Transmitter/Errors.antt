-- ===== src/Transmitter/Errors.antt =====
-- The counters of wakeup errors, which `publish_and_service_tx` keeps.
use af_xdp_reimpl.Prelude.{
  ℕ, ◌+◌, ◌%◌, add64, ◌^◌, ◌≡◌, ◌≢◌, ◌⊎◌, refl, sym, ◌∙◌, arith, ◌||◌, Option, none, some, inl, inr,
  Bool-cases, ◌==◌, if_true, if_false,
}
use af_xdp_reimpl.Xsk.{is_expected_wakeup_retry}
use af_xdp_reimpl.Transmitter.{Transmitter, enobufs, note_error}

-- The errors that leave the frames to the next attempt: EAGAIN, EINTR, EBUSY and ENOBUFS.
abbrev pub IsRetry : ℕ → Type 0
IsRetry error = (error ≡ 11) ⊎ (error ≡ 4) ⊎ (error ≡ 16) ⊎ (error ≡ 105)

-- The two counters of errors, before and after a wakeup with this outcome: a retryable error is
-- counted, and of the others the first one is kept.
abbrev pub Noted : Option ℕ → Transmitter → Transmitter → Type 0
Noted none t t' =
    (t'.retryable_wakeup_errors ≡ t.retryable_wakeup_errors)
    × (t'.first_wakeup_error ≡ t.first_wakeup_error)
Noted (some error) t t' =
    (IsRetry error
      × (t'.retryable_wakeup_errors ≡ (t.retryable_wakeup_errors + 1) % 2 ^ 64)
      × (t'.first_wakeup_error ≡ t.first_wakeup_error))
    ⊎ (¬ IsRetry error
        × (t'.retryable_wakeup_errors ≡ t.retryable_wakeup_errors)
        × (t.first_wakeup_error ≡ 0 → t'.first_wakeup_error ≡ error)
        × (t.first_wakeup_error ≢ 0 → t'.first_wakeup_error ≡ t.first_wakeup_error))

pub Noted-trans :
    (error : Option ℕ) (t1 t2 t3 t4 : Transmitter)
    → Noted none t1 t2
    → Noted error t2 t3
    → Noted none t3 t4
    → Noted error t1 t4
Noted-trans none t1 t2 t3 t4 a b c = (c.0 ∙ b.0 ∙ a.0, c.1 ∙ b.1 ∙ a.1)
Noted-trans (some error) t1 t2 t3 t4 a b c = elim b [
  | inl again ↦ inl (again.0, omega (arith, c.0, again.1, a.0), c.1 ∙ again.2 ∙ a.1)
  | inr fatal ↦ inr (
    fatal.0,
    c.0 ∙ fatal.1 ∙ a.0,
    λ first. c.1 ∙ fatal.2 (a.1 ∙ first),
    λ later. c.1 ∙ fatal.3 (λ zero_error. later (sym a.1 ∙ zero_error)) ∙ a.1,
  )
]

pub note_error-Noted : (t : Transmitter) (error : Option ℕ) → Noted error t (note_error t error)
unfolding note_error is_expected_wakeup_retry
note_error-Noted t none = (refl, refl)
note_error-Noted t (some error) = ground arith

-- An outcome touches only the two counters of errors.
pub note_error_counters :
    (t : Transmitter) (error : Option ℕ)
    → (a : ℕ) × (b : ℕ) × (note_error t error
        ≡ record t { retryable_wakeup_errors = a; first_wakeup_error = b })
unfolding note_error
note_error_counters t none = (t.retryable_wakeup_errors, t.first_wakeup_error, refl)
note_error_counters t (some error) =
    elim (Bool-cases (is_expected_wakeup_retry error || error == enobufs)) [
      | inl again ↦ (add64 t.retryable_wakeup_errors 1, t.first_wakeup_error, if_true _ _ again)
      | inr fatal ↦ elim (Bool-cases (t.first_wakeup_error == 0)) [
        | inl first ↦ (t.retryable_wakeup_errors, error, if_false _ _ fatal ∙ if_true _ _ first)
        | inr later ↦ (
          t.retryable_wakeup_errors,
          t.first_wakeup_error,
          if_false _ _ fatal ∙ if_false _ _ later,
        )
      ]
    ]
