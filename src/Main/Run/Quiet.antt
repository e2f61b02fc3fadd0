-- ===== src/Main/Run/Quiet.antt =====
-- The steps of `run_receiver` that neither open nor close anything, and its destructors.
use af_xdp_reimpl.Prelude.{
  ℕ, ◌≡◌, ◌≢◌, refl, arith, List, [], ◌∷◌, Bool, true, false, Option, none, some, ℤ, pos, negsuc,
  Bool-cases, inl, inr, ◌||◌, ◌==◌, leb, if◌then◌else◌,
}
use af_xdp_reimpl.Os.{Os, Call, History, sched_fifo}
use af_xdp_reimpl.Os.Tidy.{Resource, Destroys, close_opens}
use af_xdp_reimpl.Mapping.{unmap, unmap-Destroys, munmap_opens}
use af_xdp_reimpl.Umem
use af_xdp_reimpl.Umem.{Umem, umem_owns, create-Tidy_region}
use af_xdp_reimpl.Socket.{XskHandle}
use af_xdp_reimpl.Socket.Tidy.{socket_owns}
use af_xdp_reimpl.Receiver.{ReceiverConfig}
use af_xdp_reimpl.Receiver.Thread.{
  prepare_thread, set_affinity, set_class, pin_to_cpu, set_realtime,
}
use af_xdp_reimpl.Xsk.Stats.{kernel_stats}
use af_xdp_reimpl.Main.Control.{Control, Tick, report, control_loop}
use af_xdp_reimpl.Main.Run.{select_cpu, close_socket}
use af_xdp_reimpl.Os.Quiet.{Quiet, Quiet-refl, Quiet-trans, call-Quiet}

module _ (f : Resource → ℕ) (os : Os) where
  pub kernel_stats-Quiet : (fd : ℕ) (h : History) → Quiet f h (kernel_stats os fd h).1
  unfolding kernel_stats
  kernel_stats-Quiet fd h =
      call-Quiet f (Call.xdp_statistics fd) h (os.answer h (Call.xdp_statistics fd)) (λ x. refl)
        refl

  pub select_cpu-Quiet : (cpu : ℤ) (h : History) → Quiet f h (select_cpu os cpu h).1
  unfolding select_cpu
  select_cpu-Quiet (pos cpu) h = Quiet-refl f h
  select_cpu-Quiet (negsuc n) h =
      call-Quiet f Call.sched_getcpu h (os.answer h Call.sched_getcpu) (λ x. refl) refl

  set_affinity-Quiet : (cpu : ℤ) (h : History) → Quiet f h (set_affinity os cpu h).1
  unfolding set_affinity pin_to_cpu
  set_affinity-Quiet (negsuc n) h = Quiet-refl f h
  set_affinity-Quiet (pos cpu) h = elim (Bool-cases (leb 1024 cpu)) [
    | inl large ↦ rw large (Quiet-refl f h)
    | inr fits ↦ rw fits (
        call-Quiet f (Call.setaffinity cpu) h (os.answer h (Call.setaffinity cpu)) (λ x. refl) refl)
  ]

  set_class-Quiet :
      (realtime : Bool) (out : Option ℕ × History) → Quiet f out.1 (set_class os realtime out).1
  unfolding set_class set_realtime
  set_class-Quiet realtime (some e, h) = Quiet-refl f h
  set_class-Quiet false (none, h) = Quiet-refl f h
  set_class-Quiet true (none, h) =
      let call = Call.sched_setscheduler sched_fifo 99 in
      call-Quiet f call h (os.answer h call) (λ x. refl) refl

  pub prepare_thread-Quiet :
      (cfg : ReceiverConfig) (h : History) → Quiet f h (prepare_thread os cfg h).1
  unfolding prepare_thread
  prepare_thread-Quiet cfg h =
      let first = set_affinity os cfg.cpu_affinity h in
      Quiet-trans f h first.1 _ (set_affinity-Quiet cfg.cpu_affinity h)
        (set_class-Quiet cfg.realtime_sched first)

  report-Quiet : (fd : ℕ) (t : Tick) (c : Control) (h : History) → Quiet f h (report os fd t c h).1
  unfolding report
  report-Quiet fd t c h = kernel_stats-Quiet fd h

  either-Quiet :
      (b : Bool) (h : History) (x y : Bool × Control × History)
      → Quiet f h x.2
      → Quiet f h y.2
      → Quiet f h (if b then x else y).2
  either-Quiet true h x y p q = p
  either-Quiet false h x y p q = q

  pub control_loop-Quiet :
      (fd : ℕ) (ticks : List Tick) (c : Control) (h : History)
      → Quiet f h (control_loop os fd ticks c h).2
  unfolding control_loop
  control_loop-Quiet fd [] c h = Quiet-refl f h
  control_loop-Quiet fd (t ∷ ticks) c h =
      let c1 = record c { g_stop = c.g_stop || t.interrupted } in
      let (c2, h1) = report os fd t c1 h in
      let rest = control_loop os fd ticks c2 h1 in
      either-Quiet c1.g_stop h (true, c1, h) rest (Quiet-refl f h)
        (Quiet-trans f h h1 rest.2 (report-Quiet fd t c1 h) (control_loop-Quiet fd ticks c2 h1))

  -- The destructor of the socket.
  pub close_socket-Destroys : (x : XskHandle) → Destroys f (socket_owns f x) (close_socket os x)
  unfolding close_socket
  close_socket-Destroys x h =
      let d1 = unmap-Destroys os x.completion f h in
      let h1 = (unmap os x.completion h).1 in
      let d2 = unmap-Destroys os x.fill f h1 in
      let h2 = (unmap os x.fill h1).1 in
      let d3 = unmap-Destroys os x.tx f h2 in
      let h3 = (unmap os x.tx h2).1 in
      let d4 = unmap-Destroys os x.rx f h3 in
      let h4 = (unmap os x.rx h3).1 in
      let o = close_opens x.fd f (os.answer h4 (Call.close x.fd)) in
      (omega (arith, d1.0, d2.0, d3.0, d4.0, o), omega (arith, d1.1, d2.1, d3.1, d4.1))

  pub region-Destroys :
      (u : Umem) → u.base ≢ 0 → Destroys f (umem_owns f u) (λ h. (Umem.release os u h).1)
  unfolding Umem.release
  region-Destroys u nonnull h =
      let test : (u.base == 0) ≡ false = ground arith in
      let a = os.answer h (Call.munmap u.base u.size) in
      let o = munmap_opens f u.base u.size a in rw test (omega (arith, o), omega arith)
