-- ===== src/Main/Run/Clean.antt =====
-- However `run_receiver` returns, nothing is left open.
use af_xdp_reimpl.Prelude.{
  ℕ, ◌≡◌, ◌≢◌, refl, arith, false, not, ◌&&◌, Option, none, some, if◌then◌else◌, codes,
}
use af_xdp_reimpl.Os.{History, Expect, unexpected, value}
use af_xdp_reimpl.Os.Tidy.{Resource, Tidy}
use af_xdp_reimpl.Mapping.{MapsNonnull}
use af_xdp_reimpl.Umem.{Umem, umem_owns, create-Tidy_region, create_nonnull}
use af_xdp_reimpl.Socket
use af_xdp_reimpl.Socket.{XskHandle}
use af_xdp_reimpl.Socket.Tidy.{socket_owns, create-Tidy_socket}
use af_xdp_reimpl.Loader.{XdpLoader, stop_redirect, detach}
use af_xdp_reimpl.Loader.Owns.{loader_owns, release_once}
use af_xdp_reimpl.Loader.Tidy.{IndexesPositive, create-Tidy_loader}
use af_xdp_reimpl.Loader.Settled.{stop_redirect-Pays, detach-Pays}
use af_xdp_reimpl.Receiver.{Worker, ReceiverConfig}
use af_xdp_reimpl.Receiver.Thread.{prepare_thread}
use af_xdp_reimpl.Transmitter.{drain_until}
use af_xdp_reimpl.Xsk.Stats.{kernel_stats}
use af_xdp_reimpl.CommandLine.{Args}
use af_xdp_reimpl.Bench.Calibration.{Calibrated, calibrated, calibration_error, asleep, is_asleep}
use af_xdp_reimpl.Bench.Calibration.Quiet.{calibrate_tsc-Quiet}
use af_xdp_reimpl.Os.Quiet.{Quiet, Quiet-refl, Quiet-trans}
use af_xdp_reimpl.Bench.Samples.Report.{report}
use af_xdp_reimpl.Export.Files.{dump_csv_lem, dump_run_metadata_lem}
use af_xdp_reimpl.Main.{layout, config_of, Captured}
use af_xdp_reimpl.Main.Control.{RunSummary, new_run, Control, control_loop}
use af_xdp_reimpl.Main.Run.{
  World, Outcome, returned, running, ended, umem_config, xsk_config, select_cpu, close_socket,
  leave_scope, finish, shut_down, with_loader, after_startup, with_socket, release_region,
  with_region, active_part, export, run_receiver, calibrate, stopped_worker, note_redirect,
  note_drain, write_csv, is_failed,
}
use af_xdp_reimpl.Main.Run.Quiet.{
  kernel_stats-Quiet, select_cpu-Quiet, prepare_thread-Quiet, control_loop-Quiet,
  close_socket-Destroys, region-Destroys,
}
use af_xdp_reimpl.Main.Run.Settles.{
  Leaves, destroyed, settled, Settles-Tidy, Leaves-Quiet, Leaves-Pays, leave_scope-Leaves,
  Leaves-Tidy, either-Leaves,
}

module _ {S : Type 0} (w : World S) (args : Args) (nonnull : MapsNonnull w.os)
    (positive : IndexesPositive w.os) (f : Resource → ℕ) where
  finish-Leaves :
      (fd : ℕ) (error : Option ℕ) (l : XdpLoader) (worker : Worker S Captured) (c : Control)
      (h : History)
      → Leaves f (loader_owns f l) h (finish w args fd error l worker c h)
  unfolding finish
  finish-Leaves fd (some e) l worker c h = destroyed f (loader_owns f l) _ h (release_once w.os f l)
  finish-Leaves fd none l worker c h =
      let (result, h1) = kernel_stats w.os fd h in
      let q = kernel_stats-Quiet f w.os fd h in
      let d = destroyed f (loader_owns f l) _ h1 (release_once w.os f l) in
      record {
        least = omega (arith, q.same_opened, q.same_closed, d.least);
        exact = λ i. omega (arith, q.same_opened, q.same_closed, d.exact i);
      }

  shut_down-Leaves :
      (cfg : ReceiverConfig) (x : XskHandle) (l : XdpLoader) (c : Control) (h : History)
      → Leaves f (loader_owns f l) h (shut_down w args cfg x l c h)
  unfolding shut_down
  shut_down-Leaves cfg x l c h =
      let (error, l1, h1) = stop_redirect w.os l h in
      let c1 = note_redirect error c in
      let worker = stopped_worker w args cfg x c.run.sampling_started in
      let (remaining, e) = drain_until w.k w.passes worker.engine in
      let (error2, l2, h2) = detach w.os l1 h1 in
      let out =
        finish w args x.fd error2 l2 (record worker { engine = e }) (note_drain remaining c1) h2 in
      Leaves-Pays f (loader_owns f l) (loader_owns f l1) h h1 out (stop_redirect-Pays w.os f l h) (
        Leaves-Pays f (loader_owns f l1) (loader_owns f l2) h1 h2 out (detach-Pays w.os f l1 h1) (
          finish-Leaves x.fd error2 l2 (record worker { engine = e }) (note_drain remaining c1) h2))

  with_loader-Leaves :
      (cfg : ReceiverConfig) (x : XskHandle) (r : RunSummary) (h : History)
      (out : Expect XdpLoader × History)
      → Tidy loader_owns h out
      → Leaves f 0 h (with_loader w args cfg x r out)
  unfolding with_loader
  with_loader-Leaves cfg x r h (unexpected e, h1) t = Settles-Tidy f loader_owns h h1 e t
  with_loader-Leaves cfg x r h (value l, h1) t =
      let c : Control = record {
        g_stop = false;
        run = record r { native_xdp = l.native };
        exit_code = 0;
        last_rejected = 0;
      } in
      let (done, c1, h2) = control_loop w.os x.fd w.ticks c h1 in
      let out = if not done then (running, h2) else shut_down w args cfg x l c1 h2 in
      Leaves-Tidy f loader_owns h h1 l out t (
        Leaves-Quiet f (loader_owns f l) h1 h2 out (control_loop-Quiet f w.os x.fd w.ticks c h1) (
          either-Leaves f (not done) (loader_owns f l) h2 (running, h2)
            (shut_down w args cfg x l c1 h2) tt (shut_down-Leaves cfg x l c1 h2)))

  calibrate-Quiet : (error : Option ℕ) (h : History) → Quiet f h (calibrate w args error h).1
  calibrate-Quiet (some e) h = Quiet-refl f h
  calibrate-Quiet none h = calibrate_tsc-Quiet f w.os w.machine w.naps h

  after_startup-Leaves :
      (cfg : ReceiverConfig) (x : XskHandle) (r : RunSummary) (startup : Calibrated) (h : History)
      → Leaves f 0 h (after_startup w args cfg x r startup h)
  unfolding after_startup
  after_startup-Leaves cfg x r (calibration_error e) h = settled f h
  after_startup-Leaves cfg x r asleep h = tt
  after_startup-Leaves cfg x r (calibrated c) h = with_loader-Leaves cfg x r h _ (
      create-Tidy_loader w.os positive (codes "xdp_prog.bpf.o") args.iface args.queue x.fd
        args.filter_ip h)

  with_socket-Leaves :
      (cpu : ℕ) (r : RunSummary) (h : History) (out : Expect XskHandle × History)
      → Tidy socket_owns h out
      → Leaves f 0 h (with_socket w args cpu r out)
  unfolding with_socket
  with_socket-Leaves cpu r h (unexpected e, h1) t = Settles-Tidy f socket_owns h h1 e t
  with_socket-Leaves cpu r h (value x, h1) t =
      let cfg = config_of layout cpu args.realtime in
      let r1 = record r { zero_copy = x.zero_copy } in
      let (error, h2) = prepare_thread w.os cfg h1 in
      let (startup, h3) = calibrate w args error h2 in
      let rest = after_startup w args cfg x r1 startup h3 in
      let inner = if w.interrupted && not (is_asleep startup) then (returned 0, h3) else rest in
      let q =
        Quiet-trans f h1 h2 h3 (prepare_thread-Quiet f w.os cfg h1) (calibrate-Quiet error h2) in
      Leaves-Tidy f socket_owns h h1 x (leave_scope (close_socket w.os x) inner) t (
        leave_scope-Leaves f (socket_owns f x) (close_socket w.os x) h1 inner
          (close_socket-Destroys f w.os x)
          (Leaves-Quiet f 0 h1 h3 inner q (
            either-Leaves f (w.interrupted && not (is_asleep startup)) 0 h3 (returned 0, h3) rest
              (settled f h3) (after_startup-Leaves cfg x r1 startup h3))))

  with_region-Leaves :
      (cpu : ℕ) (h : History) (out : Expect Umem × History)
      → Tidy umem_owns h out
      → ((u : Umem) → out.0 ≡ value u → u.base ≢ 0)
      → Leaves f 0 h (with_region w args cpu out)
  unfolding with_region
  with_region-Leaves cpu h (unexpected e, h1) t given = Settles-Tidy f umem_owns h h1 e t
  with_region-Leaves cpu h (value u, h1) t given =
      let r = record (new_run cpu) { hugetlb = u.uses_hugetlb } in
      let inner = with_socket w args cpu r (Socket.create w.os (xsk_config args) u h1) in
      let release_it = release_region w args u in
      Leaves-Tidy f umem_owns h h1 u (leave_scope release_it inner) t (
        leave_scope-Leaves f (umem_owns f u) release_it h1 inner
          (region-Destroys f w.os u (given u refl))
          (with_socket-Leaves cpu r h1 _ (create-Tidy_socket w.os (xsk_config args) u nonnull h1)))

  active_part-Leaves : (out : Option ℕ × History) → Leaves f 0 out.1 (active_part w args out)
  unfolding active_part
  active_part-Leaves (none, h) = settled f h
  active_part-Leaves (some cpu, h) =
      with_region-Leaves cpu h _ (create-Tidy_region w.os (umem_config args) h)
        (create_nonnull w.os nonnull (umem_config args) h)

  export-Leaves :
      (h h1 : History) (out : Outcome S)
      → Leaves f 0 h (out, h1)
      → Leaves f 0 h (export w args out h1)
  unfolding export
  export-Leaves h h1 (returned exit_code) s = s
  export-Leaves h h1 running s = tt
  export-Leaves h h1 (ended exit_code r worker) s =
      let samples = report worker.captured.samples in
      let (csv, h2) = write_csv w args samples h1 in
      let r1 = record r { samples_recorded = samples.n; csv_exported = not (is_failed csv) } in
      let code : ℕ = if is_failed csv then 1 else exit_code in
      let c = dump_csv_lem w.os w.format (codes "callback_tx_staging_ns.csv") samples h1 in
      let m = dump_run_metadata_lem w.os (w.text r1 code) r1.kernel_stats h2 in
      record {
        least = omega (arith, s.least, c.balance f, m.balance f);
        exact = λ i. omega (arith, s.exact i, c.balance f, m.balance f);
      }

  -- If mappings are not at address 0 and interface indexes are positive, then however `run_receiver`
  -- returns, every descriptor, mapping, BPF object and file that it opened has been closed exactly
  -- once, and every redirection and attachment has been undone by at least one call.
  pub run_receiver-Leaves : (h : History) → Leaves f 0 h (run_receiver w args h)
  unfolding run_receiver
  run_receiver-Leaves h =
      let first = select_cpu w.os args.cpu_pin h in
      let out = active_part w args first in
      export-Leaves h out.1 out.0 (
        Leaves-Quiet f 0 h first.1 out (select_cpu-Quiet f w.os args.cpu_pin h)
          (active_part-Leaves first))
