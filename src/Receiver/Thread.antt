-- ===== src/Receiver/Thread.antt =====
-- include/afxdp/receiver.hpp: `prepare_thread`, which pins the worker's thread to a CPU and makes it
-- a real-time thread before any packet comes.
use af_xdp_reimpl.Prelude.{
  ℕ, ◌≡◌, refl, [], ◌∷◌, ◌∙◌, ap, inl, inr, Bool, true, false, Option, none, some, leb, Bool-cases,
  if◌then◌else◌, ℤ, pos, negsuc,
}
use af_xdp_reimpl.Os.{Os, Call, Answer, History, failed, gave, SchedPolicy, sched_fifo, perform}
use af_xdp_reimpl.Receiver.{ReceiverConfig}

abbrev einval : ℕ
einval = 22

-- `CPU_SETSIZE`
abbrev cpu_setsize : ℕ
cpu_setsize = 1024

-- The error of a call, if it failed.
abbrev pub error_of : Answer → Option ℕ
error_of (failed e) = some e
error_of (gave x) = none

module _ (os : Os) where
  unfoldable pub pin_to_cpu : ℕ → History → Option ℕ × History
  pin_to_cpu cpu h =
      if leb cpu_setsize cpu
      then (some einval, h)
      else (let (a, h1) = perform os (Call.setaffinity cpu) h in (error_of a, h1))

  unfoldable pub set_realtime : History → Option ℕ × History
  set_realtime h =
      let (a, h1) = perform os (Call.sched_setscheduler sched_fifo 99) h in (error_of a, h1)

  -- The affinity, if one is asked for.
  unfoldable pub set_affinity : ℤ → History → Option ℕ × History
  set_affinity (pos cpu) h = pin_to_cpu cpu h
  set_affinity (negsuc n) h = (none, h)

  -- The scheduling class, if the step before did not fail.
  unfoldable pub set_class : Bool → Option ℕ × History → Option ℕ × History
  set_class realtime (some e, h) = (some e, h)
  set_class true (none, h) = set_realtime h
  set_class false (none, h) = (none, h)

  unfoldable pub prepare_thread : ReceiverConfig → History → Option ℕ × History
  prepare_thread cfg h = set_class cfg.realtime_sched (set_affinity cfg.cpu_affinity h)

-- The CPU and the class that the successful calls of a history have given to the thread.
abbrev pub affinity : History → Option ℕ
affinity [] = none
affinity ((Call.setaffinity cpu, gave x) ∷ h) = some cpu
affinity (c ∷ h) = affinity h

abbrev pub scheduling : History → Option (SchedPolicy × ℕ)
scheduling [] = none
scheduling ((Call.sched_setscheduler policy priority, gave x) ∷ h) = some (policy, priority)
scheduling (c ∷ h) = scheduling h

-- The thread that a configuration asks for, where the rest stays as it was.
abbrev pub wanted_affinity : ℤ → Option ℕ → Option ℕ
wanted_affinity (pos cpu) before = some cpu
wanted_affinity (negsuc n) before = before

abbrev pub wanted_scheduling : Bool → Option (SchedPolicy × ℕ) → Option (SchedPolicy × ℕ)
wanted_scheduling true before = some (sched_fifo, 99)
wanted_scheduling false before = before

-- Either all is as asked for, or an error is returned and the class is the old one.
abbrev pub Prepares : ReceiverConfig → History → Option ℕ × History → Type 0
Prepares cfg h (none, h1) =
    (affinity h1 ≡ wanted_affinity cfg.cpu_affinity (affinity h))
    × (scheduling h1 ≡ wanted_scheduling cfg.realtime_sched (scheduling h))
Prepares cfg h (some e, h1) = scheduling h1 ≡ scheduling h

module _ (os : Os) where
  set_affinity_lem :
      (cpu : ℤ) (h : History)
      → let (error, h1) = set_affinity os cpu h in
        (scheduling h1 ≡ scheduling h)
        × ((error ≡ none) → affinity h1 ≡ wanted_affinity cpu (affinity h))
  unfolding set_affinity pin_to_cpu
  set_affinity_lem (negsuc n) h = (refl, λ e. refl)
  set_affinity_lem (pos cpu) h = elim (Bool-cases (leb cpu_setsize cpu)) [
    | inl large ↦ rw large (refl, λ e. cc)
    | inr fits ↦ rw fits (go (os.answer h (Call.setaffinity cpu)))
  ]
    where
      go :
          (a : Answer)
          → (scheduling ((Call.setaffinity cpu, a) ∷ h) ≡ scheduling h)
            × ((error_of a ≡ none) → affinity ((Call.setaffinity cpu, a) ∷ h) ≡ some cpu)
      go (failed e) = (refl, λ x. cc)
      go (gave x) = (refl, λ e. refl)

  set_class_lem :
      (realtime : Bool) (out : Option ℕ × History)
      → let (error, h1) = set_class os realtime out in
        (out.0 ≡ none → affinity h1 ≡ affinity out.1)
        × (error ≡ none
            → (out.0 ≡ none) × (scheduling h1 ≡ wanted_scheduling realtime (scheduling out.1)))
        × ((e : ℕ) → error ≡ some e → scheduling h1 ≡ scheduling out.1)
  unfolding set_class set_realtime
  set_class_lem realtime (some e, h) = (λ x. cc, λ x. cc, λ x y. refl)
  set_class_lem false (none, h) = (λ x. refl, λ x. (refl, refl), λ x y. refl)
  set_class_lem true (none, h) = go (os.answer h (Call.sched_setscheduler sched_fifo 99))
    where
      go :
          (a : Answer)
          → let h1 = (Call.sched_setscheduler sched_fifo 99, a) ∷ h in
            (◌≡◌ {A = Option ℕ} none none → affinity h1 ≡ affinity h)
            × (error_of a ≡ none
                → (◌≡◌ {A = Option ℕ} none none) × (scheduling h1 ≡ some (sched_fifo, 99)))
            × ((e : ℕ) → error_of a ≡ some e → scheduling h1 ≡ scheduling h)
      go (failed x) = (λ y. refl, λ y. cc, λ e y. refl)
      go (gave x) = (λ y. refl, λ y. (refl, refl), λ e y. cc)

  -- When `prepare_thread` returns no error, the thread has the CPU and the class that the
  -- configuration asks for, and what it does not ask for is as before; when it returns an error, the
  -- class is as before, whichever step failed.
  pub prepare_thread_lem :
      (cfg : ReceiverConfig) (h : History) → Prepares cfg h (prepare_thread os cfg h)
  unfolding prepare_thread
  prepare_thread_lem cfg h =
      go (prepare_thread os cfg h) (set_affinity os cfg.cpu_affinity h)
        (set_affinity_lem cfg.cpu_affinity h)
        (set_class_lem cfg.realtime_sched (set_affinity os cfg.cpu_affinity h))
    where
      go :
          (out first : Option ℕ × History)
          → (scheduling first.1 ≡ scheduling h)
            × ((first.0 ≡ none) → affinity first.1 ≡ wanted_affinity cfg.cpu_affinity (affinity h))
          → (first.0 ≡ none → affinity out.1 ≡ affinity first.1)
            × (out.0 ≡ none
                → (first.0 ≡ none)
                  × (scheduling out.1 ≡ wanted_scheduling cfg.realtime_sched (scheduling first.1)))
            × ((e : ℕ) → out.0 ≡ some e → scheduling out.1 ≡ scheduling first.1)
          → Prepares cfg h out
      go (none, h1) first a c =
          let done = c.1 refl in
          (c.0 done.0 ∙ a.1 done.0, done.1 ∙ ap (wanted_scheduling cfg.realtime_sched) a.0)
      go (some e, h1) first a c = c.2 e refl ∙ a.0
