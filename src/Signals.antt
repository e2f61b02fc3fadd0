-- ===== src/Signals.antt =====
-- main.cpp: `install_signal_handlers`, which has SIGINT and SIGTERM stop the program.
pub mod Quiet
use af_xdp_reimpl.Prelude.{ℕ, ◌≡◌, refl, [], ◌∷◌, ◌⊎◌, inl, inr, Option, none, some}
use af_xdp_reimpl.Os.{
  Os, Call, Answer, History, failed, gave, Signal, sigint, sigterm, Disposition, signal_handler,
  perform,
}

-- What a signal does, by the successful calls of a history.
abbrev pub disposition : (Signal → Disposition) → Signal → History → Disposition
disposition initial s [] = initial s
disposition initial sigint ((Call.sigaction sigint d, gave x) ∷ h) = d
disposition initial sigterm ((Call.sigaction sigterm d, gave x) ∷ h) = d
disposition initial s (c ∷ h) = disposition initial s h

module _ (os : Os) (initial : Signal → Disposition) where
  -- What follows the second registration, which ended so; SIGINT gets back what it had.
  unfoldable pub after_sigterm : Disposition → Answer → History → Option ℕ × History
  after_sigterm previous_int (gave x) h = (none, h)
  after_sigterm previous_int (failed e) h =
      let (ignored, h1) = perform os (Call.sigaction sigint previous_int) h in (some e, h1)

  unfoldable pub after_sigint : Disposition → Answer → History → Option ℕ × History
  after_sigint previous_int (failed e) h = (some e, h)
  after_sigint previous_int (gave x) h =
      let (a, h1) = perform os (Call.sigaction sigterm signal_handler) h in
      after_sigterm previous_int a h1

  unfoldable pub after_sigemptyset : Answer → History → Option ℕ × History
  after_sigemptyset (failed e) h = (some e, h)
  after_sigemptyset (gave x) h =
      let previous_int = disposition initial sigint h in
      let (a, h1) = perform os (Call.sigaction sigint signal_handler) h in
      after_sigint previous_int a h1

  unfoldable pub install_signal_handlers : History → Option ℕ × History
  install_signal_handlers h = let (a, h1) = perform os Call.sigemptyset h in after_sigemptyset a h1

  -- Without an error both signals are handled. With one SIGTERM is as before, and so is SIGINT,
  -- unless the call that restores it failed.
  abbrev pub Installs : History → Option ℕ × History → Type 0
  Installs h (none, h1) =
      (disposition initial sigint h1 ≡ signal_handler)
      × (disposition initial sigterm h1 ≡ signal_handler)
  Installs h (some e, h1) =
      (disposition initial sigterm h1 ≡ disposition initial sigterm h)
      × ((disposition initial sigint h1 ≡ disposition initial sigint h)
          ⊎ ((x : ℕ) × (rest : History) × (h1
                ≡ (Call.sigaction sigint (disposition initial sigint h), failed x) ∷ rest)))

  -- With the state of the two signals before, and both as they are by now.
  after_sigterm_lem :
      (h h2 : History) (a : Answer)
      → disposition initial sigint h2 ≡ signal_handler
      → disposition initial sigterm h2 ≡ disposition initial sigterm h
      → Installs h (
          after_sigterm
            (disposition initial sigint h)
            a
            ((Call.sigaction sigterm signal_handler, a) ∷ h2))
  unfolding after_sigterm
  after_sigterm_lem h h2 (gave x) handled same = (handled, refl)
  after_sigterm_lem h h2 (failed e) handled same =
      let call = Call.sigaction sigint (disposition initial sigint h) in
      go (os.answer ((Call.sigaction sigterm signal_handler, failed e) ∷ h2) call)
    where
      go :
          (b : Answer)
          → let h3 = (Call.sigaction sigterm signal_handler, failed e) ∷ h2 in
            Installs h (some e, (Call.sigaction sigint (disposition initial sigint h), b) ∷ h3)
      go (gave x) = (same, inl refl)
      go (failed x) = (same, inr (x, (Call.sigaction sigterm signal_handler, failed e) ∷ h2, refl))

  after_sigint_lem :
      (h h1 : History) (a : Answer)
      → disposition initial sigint h1 ≡ disposition initial sigint h
      → disposition initial sigterm h1 ≡ disposition initial sigterm h
      → Installs h (
          after_sigint
            (disposition initial sigint h)
            a
            ((Call.sigaction sigint signal_handler, a) ∷ h1))
  unfolding after_sigint
  after_sigint_lem h h1 (failed e) same_int same_term = (same_term, inl same_int)
  after_sigint_lem h h1 (gave x) same_int same_term =
      let h2 = (Call.sigaction sigint signal_handler, gave x) ∷ h1 in
      after_sigterm_lem h h2 (os.answer h2 (Call.sigaction sigterm signal_handler)) refl same_term

  -- Without an error SIGINT and SIGTERM are both handled. With an error SIGTERM does what it did
  -- before, and SIGINT too, unless the call that gives it back failed as well.
  pub install_signal_handlers_lem : (h : History) → Installs h (install_signal_handlers h)
  unfolding install_signal_handlers after_sigemptyset
  install_signal_handlers_lem h = go (os.answer h Call.sigemptyset)
    where
      go : (a : Answer) → Installs h (after_sigemptyset a ((Call.sigemptyset, a) ∷ h))
      go (failed e) = (refl, inl refl)
      go (gave x) =
          let h1 = (Call.sigemptyset, gave x) ∷ h in
          after_sigint_lem h h1 (os.answer h1 (Call.sigaction sigint signal_handler)) refl refl
