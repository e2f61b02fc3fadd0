-- ===== src/Export/Prints.antt =====
-- What is in a file when an export reports no error, and that every file is closed.
use af_xdp_reimpl.Prelude.{
  ℕ, zero, suc, subst, ◌+◌, ◌<◌, ◌≡◌, ◌≢◌, refl, ap, sym, ◌∙◌, arith, List, [], ◌∷◌, ◌++◌, map,
  append_assoc, append-nil, Text, ◌==◌, if◌then◌else◌, true, if_true, Bool-cases, inl, inr,
}
use af_xdp_reimpl.Os.{Os, Call, Answer, History, failed, gave}
use af_xdp_reimpl.Os.Tidy.{Resource}
use af_xdp_reimpl.Os.Troubles.{troubles}
use af_xdp_reimpl.Os.Quiet.{Quiet, call-Quiet, Quiet-refl, Quiet-trans}
use af_xdp_reimpl.Bench.Samples.{Samples, slice}
use af_xdp_reimpl.Export.{or_eio, io_error, print_unless, print_samples}

-- What has been printed to a stream since it was last opened, text by text.
abbrev pub printed : ℕ → History → List Text
printed stream [] = []
printed stream ((c, failed e) ∷ h) = printed stream h
printed stream ((Call.fopen path, gave x) ∷ h) = if x == stream then [] else printed stream h
printed stream ((Call.fprintf s text, gave x) ∷ h) =
    if s == stream then printed stream h ++ text ∷ [] else printed stream h
printed stream ((c, gave x) ∷ h) = printed stream h

-- How many calls on files have failed.
abbrev pub failures : History → ℕ
failures [] = 0
failures ((c, gave x) ∷ h) = failures h
failures ((Call.fopen path, failed e) ∷ h) = suc (failures h)
failures ((Call.fprintf stream text, failed e) ∷ h) = suc (failures h)
failures ((Call.fclose stream, failed e) ∷ h) = suc (failures h)
failures ((c, failed e) ∷ h) = failures h

-- A part of an export to a stream, with `error'` after it: `texts` have all been printed if there is
-- no error, and otherwise some call has failed.
pub record Prints (stream : ℕ) (texts : List Text) (h : History) (error' : ℕ) (h1 : History)
    : Type 0 where
  pub quiet : (f : Resource → ℕ) → Quiet f h h1
  pub done :
      error' ≡ 0 → (printed stream h1 ≡ printed stream h ++ texts) × (failures h1 ≡ failures h)
  pub flawed : error' ≢ 0 → failures h < failures h1
  pub counted : troubles h1 + failures h ≡ troubles h + failures h1

-- Nothing is printed.
pub Prints-refl : (stream : ℕ) (h : History) → Prints stream [] h 0 h
Prints-refl stream h = record {
  quiet = λ f. Quiet-refl f h;
  done = λ z. (sym (append-nil (printed stream h)), refl);
  flawed = λ z. absurd (z refl);
  counted = refl;
}

or_eio_nonzero : (e : ℕ) → or_eio e ≢ 0
or_eio_nonzero e = ground arith

-- The next part is done unless there is an error already.
pub unless-Prints :
    (stream : ℕ) (xs ys : List Text) (h h1 : History) (error : ℕ) (step : ℕ × History)
    → Prints stream xs h error h1
    → Prints stream ys h1 step.0 step.1
    → let out = if error == 0 then step else (error, h1) in Prints stream (xs ++ ys) h out.0 out.1
unless-Prints stream xs ys h h1 error step p q = elim (Bool-cases (error == 0)) [
  | inl fine ↦
      let d = p.done (ground arith) in
      rw fine (record {
        quiet = λ f. Quiet-trans f h h1 step.1 (p.quiet f) (q.quiet f);
        done = λ z.
            let e = q.done z in
            (e.0 ∙ ap (λ l. l ++ ys) d.0 ∙ append_assoc (printed stream h) xs ys, e.1 ∙ d.1);
        flawed = λ z. omega (arith, d.1, q.flawed z);
        counted = omega (arith, p.counted, q.counted);
      })
  | inr wrong ↦
      let nonzero : error ≢ 0 = ground arith in
      rw wrong (record {
        quiet = p.quiet;
        done = λ z. absurd (nonzero z);
        flawed = p.flawed;
        counted = p.counted;
      })
]

-- The rest of an export that has an error already.
flawed-Prints :
    (stream : ℕ) (xs ys : List Text) (h h1 : History) (error : ℕ)
    → error ≢ 0
    → Prints stream xs h error h1
    → Prints stream ys h error h1
flawed-Prints stream xs ys h h1 error nonzero p = record {
  quiet = p.quiet;
  done = λ z. absurd (nonzero z);
  flawed = p.flawed;
  counted = p.counted;
}

module _ (os : Os) where
  pub print-Prints :
      (stream : ℕ) (text : Text) (h : History)
      → let out = print_unless os 0 stream text h in Prints stream (text ∷ []) h out.0 out.1
  unfolding print_unless
  print-Prints stream text h = go (os.answer h (Call.fprintf stream text))
    where
      same : (stream == stream) ≡ true
      same = ground arith

      go :
          (a : Answer)
          → Prints stream (text ∷ []) h (io_error a) ((Call.fprintf stream text, a) ∷ h)
      go (failed e) = record {
        quiet = λ f. call-Quiet f (Call.fprintf stream text) h (failed e) (λ x. refl) refl;
        done = λ z. absurd (or_eio_nonzero e z);
        flawed = λ z. omega arith;
        counted = omega arith;
      }
      go (gave x) = record {
        quiet = λ f. call-Quiet f (Call.fprintf stream text) h (gave x) (λ x1. refl) refl;
        done = λ z. (if_true _ _ same, refl);
        flawed = λ z. absurd (z refl);
        counted = refl;
      }

  pub samples-Prints :
      (format : ℕ → Text) (stream : ℕ) (s : Samples) (n i error : ℕ) (texts : List Text)
      (h0 h : History)
      → Prints stream texts h0 error h
      → let out = print_samples os format stream s n i error h in
        Prints stream (texts ++ map format (slice s.buf i n)) h0 out.0 out.1
  unfolding print_samples
  samples-Prints format stream s zero i error texts h0 h p =
      subst (λ (t : List Text). Prints stream t h0 error h) (sym (append-nil texts)) p
  samples-Prints format stream s (suc n) i error texts h0 h p =
      let text = format (s.buf i) in
      let (e, h1) = print_unless os error stream text h in
      let first : Prints stream (texts ++ text ∷ []) h0 e h1 =
        unfold print_unless in
        unless-Prints stream texts (text ∷ []) h0 h error _ p (print-Prints stream text h) in
      let rest = samples-Prints format stream s n (i + 1) e (texts ++ text ∷ []) h0 h1 first in
      let same = append_assoc texts (text ∷ []) (map format (slice s.buf (i + 1) n)) in
      let all = texts ++ text ∷ map format (slice s.buf (i + 1) n) in
      let whole = print_samples os format stream s n (i + 1) e h1 in
      elim (Bool-cases (error == 0)) [
        | inl fine ↦
            rw fine (subst (λ (t : List Text). Prints stream t h0 whole.0 whole.1) same rest)
        | inr wrong ↦ rw wrong (flawed-Prints stream texts all h0 h error (ground arith) p)
      ]
