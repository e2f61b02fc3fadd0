-- ===== src/Main/Run/Ends.antt =====
-- How `run_receiver` ends: what holds of an early return and of the end of the active part, through
-- the scopes.
use af_xdp_reimpl.Prelude.{
  ℕ, ◌≡◌, ◌∙◌, ◌==◌, Bool-cases, inl, inr, codes, refl, arith, not, ◌&&◌, Bool, true, false, Option,
  none, some, if◌then◌else◌,
}
use af_xdp_reimpl.Os.{Os, History, Expect, unexpected, value}
use af_xdp_reimpl.Os.Troubles.{troubles}
use af_xdp_reimpl.Mapping.{RingHandle, unmap}
use af_xdp_reimpl.Loader.Errors.{Starts, create-Starts}
use af_xdp_reimpl.Umem
use af_xdp_reimpl.Umem.{Umem}
use af_xdp_reimpl.Socket
use af_xdp_reimpl.Socket.{XskHandle}
use af_xdp_reimpl.Loader.{XdpLoader}
use af_xdp_reimpl.Receiver.{Worker, ReceiverConfig}
use af_xdp_reimpl.Receiver.Thread.{prepare_thread}
use af_xdp_reimpl.Bench.Calibration.{Calibrated, calibrated, calibration_error, asleep, is_asleep}
use af_xdp_reimpl.CommandLine.{Args}
use af_xdp_reimpl.Main.{layout, config_of, Captured}
use af_xdp_reimpl.Main.Control.{RunSummary, new_run}
use af_xdp_reimpl.Main.Run.{
  World, Outcome, returned, running, ended, umem_config, xsk_config, close_socket, leave_scope,
  with_loader, after_startup, with_socket, release_region, with_region, active_part, calibrate,
}

-- Closing the socket and the region is no trouble.
troubles-unmap : (os : Os) (r : RingHandle) (h : History) → troubles (unmap os r h).1 ≡ troubles h
unfolding unmap
troubles-unmap os r h = elim (Bool-cases (r.map_base == 0)) [
  | inl gone ↦ rw gone refl
  | inr there ↦ rw there refl
]

troubles-close_socket :
    (os : Os) (x : XskHandle) (h : History) → troubles (close_socket os x h) ≡ troubles h
unfolding close_socket
troubles-close_socket os x h =
    let h1 = (unmap os x.completion h).1 in
    let h2 = (unmap os x.fill h1).1 in
    let h3 = (unmap os x.tx h2).1 in
    troubles-unmap os x.rx h3
    ∙ troubles-unmap os x.tx h2
    ∙ troubles-unmap os x.fill h1
    ∙ troubles-unmap os x.completion h

troubles-release_region :
    (os : Os) (u : Umem) (h : History) → troubles (Umem.release os u h).1 ≡ troubles h
unfolding Umem.release
troubles-release_region os u h = elim (Bool-cases (u.base == 0)) [
  | inl gone ↦ rw gone refl
  | inr there ↦ rw there refl
]

module _ {S : Type 0} (early : ℕ → Type 0)
    (late : ℕ → RunSummary → Worker S Captured → History → Type 0) where
  abbrev pub Ends : Outcome S × History → Type 0
  Ends (returned exit_code, h) = early exit_code
  Ends (running, h) = Unit {0}
  Ends (ended exit_code r worker, h) = late exit_code r worker h

  leave_scope-Ends :
      (destructor : History → History)
      → ((exit_code : ℕ) (r : RunSummary) (worker : Worker S Captured) (h : History)
          → late exit_code r worker h
          → late exit_code r worker (destructor h))
      → (out : Outcome S × History) → Ends out
      → Ends (leave_scope destructor out)
  leave_scope-Ends destructor steady (returned exit_code, h) e = e
  leave_scope-Ends destructor steady (running, h) e = e
  leave_scope-Ends destructor steady (ended exit_code r worker, h) e = steady exit_code r worker h e

  pub either-Ends :
      (b : Bool) (x y : Outcome S × History)
      → (b ≡ true → Ends x)
      → Ends y
      → Ends (if b then x else y)
  either-Ends true x y p q = p refl
  either-Ends false x y p q = q

  module _ (w : World S) (args : Args) (one : early 1) (zero : w.interrupted ≡ true → early 0)
      (steady : (exit_code : ℕ) (r : RunSummary) (worker : Worker S Captured) (h h1 : History)
        → troubles h1 ≡ troubles h
        → late exit_code r worker h
        → late exit_code r worker h1)
      (core : (cfg : ReceiverConfig) (x : XskHandle) (r : RunSummary) (l : XdpLoader) (h : History)
        → troubles h ≡ 0
        → Ends (with_loader w args cfg x r (value l, h))) where
    with_loader-Ends :
        (cfg : ReceiverConfig) (x : XskHandle) (r : RunSummary) (out : Expect XdpLoader × History)
        → Starts out
        → Ends (with_loader w args cfg x r out)
    with_loader-Ends cfg x r (unexpected e, h) s = unfold with_loader in one
    with_loader-Ends cfg x r (value l, h) s = core cfg x r l h (s.untroubled l refl)

    after_startup-Ends :
        (cfg : ReceiverConfig) (x : XskHandle) (r : RunSummary) (startup : Calibrated) (h : History)
        → Ends (after_startup w args cfg x r startup h)
    unfolding after_startup
    after_startup-Ends cfg x r (calibration_error e) h = one
    after_startup-Ends cfg x r asleep h = tt
    after_startup-Ends cfg x r (calibrated c) h =
        with_loader-Ends cfg x r _
          (create-Starts w.os (codes "xdp_prog.bpf.o") args.iface args.queue x.fd args.filter_ip h)

    with_socket-Ends :
        (cpu : ℕ) (r : RunSummary) (out : Expect XskHandle × History)
        → Ends (with_socket w args cpu r out)
    unfolding with_socket
    with_socket-Ends cpu r (unexpected e, h) = one
    with_socket-Ends cpu r (value x, h) =
        let cfg = config_of layout cpu args.realtime in
        let r1 = record r { zero_copy = x.zero_copy } in
        let (error, h1) = prepare_thread w.os cfg h in
        let (startup, h2) = calibrate w args error h1 in
        let stops = w.interrupted && not (is_asleep startup) in
        let rest = after_startup w args cfg x r1 startup h2 in
        leave_scope-Ends (close_socket w.os x)
          (λ code r worker h3 e.
            steady code r worker h3 (close_socket w.os x h3) (troubles-close_socket w.os x h3) e)
          (if stops then (returned 0, h2) else rest)
          (either-Ends stops (returned 0, h2) rest (λ e. zero (ground arith))
            (after_startup-Ends cfg x r1 startup h2))

    with_region-Ends : (cpu : ℕ) (out : Expect Umem × History) → Ends (with_region w args cpu out)
    unfolding with_region
    with_region-Ends cpu (unexpected e, h) = one
    with_region-Ends cpu (value u, h) =
        let r = record (new_run cpu) { hugetlb = u.uses_hugetlb } in
        let inner = with_socket w args cpu r (Socket.create w.os (xsk_config args) u h) in
        leave_scope-Ends (release_region w args u)
          (λ code r worker h3 e.
            steady code r worker h3 (release_region w args u h3) (troubles-release_region w.os u h3)
              e)
          inner (with_socket-Ends cpu r _)

    pub active_part-Ends : (out : Option ℕ × History) → Ends (active_part w args out)
    unfolding active_part
    active_part-Ends (none, h) = one
    active_part-Ends (some cpu, h) = with_region-Ends cpu (Umem.create w.os (umem_config args) h)
