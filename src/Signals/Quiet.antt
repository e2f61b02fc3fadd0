-- ===== src/Signals/Quiet.antt =====
-- The setup of the signals opens and closes nothing.
use af_xdp_reimpl.Prelude.{ℕ, refl, ◌∷◌}
use af_xdp_reimpl.Os.{
  Os, Call, Answer, History, failed, gave, Signal, sigint, sigterm, Disposition, signal_handler,
}
use af_xdp_reimpl.Os.Tidy.{Resource}
use af_xdp_reimpl.Os.Quiet.{Quiet, Quiet-refl, Quiet-trans, call-Quiet}
use af_xdp_reimpl.Signals.{
  disposition, install_signal_handlers, after_sigemptyset, after_sigint, after_sigterm,
}

module _ (f : Resource → ℕ) (os : Os) (initial : Signal → Disposition) where
  sigaction-Quiet :
      (s : Signal) (d : Disposition) (h : History) (a : Answer)
      → Quiet f h ((Call.sigaction s d, a) ∷ h)
  sigaction-Quiet s d h a = call-Quiet f (Call.sigaction s d) h a (λ x. refl) refl

  after_sigterm-Quiet :
      (previous_int : Disposition) (a : Answer) (h : History)
      → Quiet f h (after_sigterm os initial previous_int a h).1
  unfolding after_sigterm
  after_sigterm-Quiet previous_int (gave x) h = Quiet-refl f h
  after_sigterm-Quiet previous_int (failed e) h =
      sigaction-Quiet sigint previous_int h (os.answer h (Call.sigaction sigint previous_int))

  after_sigint-Quiet :
      (previous_int : Disposition) (a : Answer) (h : History)
      → Quiet f h (after_sigint os initial previous_int a h).1
  unfolding after_sigint
  after_sigint-Quiet previous_int (failed e) h = Quiet-refl f h
  after_sigint-Quiet previous_int (gave x) h =
      let a = os.answer h (Call.sigaction sigterm signal_handler) in
      let h1 = (Call.sigaction sigterm signal_handler, a) ∷ h in
      Quiet-trans f h h1 _ (sigaction-Quiet sigterm signal_handler h a)
        (after_sigterm-Quiet previous_int a h1)

  after_sigemptyset-Quiet :
      (a : Answer) (h : History) → Quiet f h (after_sigemptyset os initial a h).1
  unfolding after_sigemptyset
  after_sigemptyset-Quiet (failed e) h = Quiet-refl f h
  after_sigemptyset-Quiet (gave x) h =
      let a = os.answer h (Call.sigaction sigint signal_handler) in
      let h1 = (Call.sigaction sigint signal_handler, a) ∷ h in
      Quiet-trans f h h1 _ (sigaction-Quiet sigint signal_handler h a)
        (after_sigint-Quiet (disposition initial sigint h) a h1)

  pub install_signal_handlers-Quiet :
      (h : History) → Quiet f h (install_signal_handlers os initial h).1
  unfolding install_signal_handlers
  install_signal_handlers-Quiet h =
      let a = os.answer h Call.sigemptyset in
      let h1 = (Call.sigemptyset, a) ∷ h in
      Quiet-trans f h h1 _ (call-Quiet f Call.sigemptyset h a (λ x. refl) refl)
        (after_sigemptyset-Quiet a h1)
