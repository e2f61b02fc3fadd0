-- ===== src/Main/Run/ExitCode.antt =====
-- What the exit code of `run_receiver` says of the calls and the rounds of a run.
use af_xdp_reimpl.Prelude.{
  ℕ, zero, suc, ◌+◌, ◌<◌, ◌∷◌, ◌≡◌, ◌⊎◌, refl, ap, sym, arith, ◌≢◌, ◌||◌, List, Text, inl, inr, ◌∙◌,
  true, false, not, Bool, Option, none, some, Bool-cases, ◌==◌, if◌then◌else◌, codes,
}
use af_xdp_reimpl.Os.{Os, Call, Answer, failed, gave, History, value}
use af_xdp_reimpl.Os.Troubles.{troubles}
use af_xdp_reimpl.Kernel.{Kernel}
use af_xdp_reimpl.Socket.{XskHandle}
use af_xdp_reimpl.Loader.{XdpLoader, stop_redirect, detach}
use af_xdp_reimpl.Loader.Errors.{stop_redirect-Stopped, detach-Detached, troubles-release}
use af_xdp_reimpl.Receiver.{Worker, ReceiverConfig}
use af_xdp_reimpl.Transmitter.{Engine, drain_until, publish_and_service_tx}
use af_xdp_reimpl.Xsk.Stats.{kernel_stats}
use af_xdp_reimpl.CommandLine.{Args}
use af_xdp_reimpl.Bench.Samples.Report.{report}
use af_xdp_reimpl.Export.Files.{Exports, dump_csv_lem, dump_run_metadata_lem}
use af_xdp_reimpl.Main.{Captured}
use af_xdp_reimpl.Main.Control.{RunSummary, Control, control_loop}
use af_xdp_reimpl.Main.Control.ExitCode.{
  exit_code_of, anomalies, note_stats_exit, control_loop_exit,
}
use af_xdp_reimpl.Main.Run.{
  World, Outcome, returned, running, ended, finish, shut_down, with_loader, active_part, export,
  run_receiver, select_cpu, stopped_worker, note_redirect, note_drain, totals, is_failed, write_csv,
  write_metadata,
}
use af_xdp_reimpl.Main.Run.Ends.{Ends, either-Ends, active_part-Ends}

drain_until_outstanding :
    {S : Type 0} (k : Kernel S) (passes : ℕ) (e : Engine S)
    → let (remaining, e') = drain_until k passes e in remaining ≡ e'.tx.outstanding
unfolding drain_until
drain_until_outstanding k zero e = refl
drain_until_outstanding k (suc n) e =
    let e1 = publish_and_service_tx k e in
    elim (Bool-cases (e1.tx.outstanding == 0)) [
      | inl all ↦ rw all refl
      | inr some_left ↦ rw some_left (drain_until_outstanding k n e1)
    ]

-- An error of the redirection is a call that has gone wrong.
note_redirect_exit :
    (error : Option ℕ) (c : Control) (before now n : ℕ)
    → (error ≡ none → now ≡ before)
    → ((e : ℕ) → error ≡ some e → now ≡ suc before)
    → c.exit_code ≡ exit_code_of (before + n)
    → (note_redirect error c).exit_code ≡ exit_code_of (now + n)
note_redirect_exit none c before now n fine flawed so_far = rw (fine refl) so_far
note_redirect_exit (some e) c before now n fine flawed so_far = rw (flawed e refl) (ground arith)

-- A loader that redirects still has tried to stop it.
tried_before :
    (error : Option ℕ) (redirecting : Bool) (before now : ℕ)
    → (error ≡ none → redirecting ≡ false)
    → ((e : ℕ) → error ≡ some e → now ≡ suc before)
    → redirecting ≡ true
    → 0 < now
tried_before none redirecting before now fine flawed b = let f = fine refl in absurd (ground arith)
tried_before (some e) redirecting before now fine flawed b = omega (arith, flawed e refl)

-- Frames that the drain leaves behind.
note_drain_exit :
    (remaining outstanding t n : ℕ) (c : Control)
    → remaining ≡ outstanding
    → c.exit_code ≡ exit_code_of (t + n)
    → (note_drain remaining c).exit_code ≡ exit_code_of (t + (n + outstanding))
note_drain_exit remaining outstanding t n c left so_far = ground arith

-- An export, whose failure is one of its calls.
export_exit_code :
    (error : Option ℕ) (code before now n : ℕ)
    → (error ≡ none → now ≡ before)
    → ((e : ℕ) → error ≡ some e → before < now)
    → code ≡ exit_code_of (before + n)
    → (if is_failed error then 1 else code) ≡ exit_code_of (now + n)
export_exit_code none code before now n fine flawed so_far = rw (fine refl) so_far
export_exit_code (some e) code before now n fine flawed so_far =
    let more = flawed e refl in ground arith

none-some : {e : ℕ} → none ≢ some e
none-some = λ z. cc

Exports-fine :
    {os : Os} {path : Text} {texts : ℕ → List Text} {h : History} {out : Option ℕ × History}
    → Exports os path texts h out
    → out.0 ≡ none
    → troubles out.1 ≡ troubles h
Exports-fine x z = elim x.verdict [
  | inl v ↦ omega (arith, x.counted, v.4)
  | inr v ↦ absurd (none-some (sym z ∙ v.1))
]

Exports-flawed :
    {os : Os} {path : Text} {texts : ℕ → List Text} {h : History} {out : Option ℕ × History}
    → Exports os path texts h out
    → (e : ℕ) → out.0 ≡ some e
    → troubles h < troubles out.1
Exports-flawed x e z = elim x.verdict [
  | inl v ↦ absurd (none-some (sym v.2 ∙ z))
  | inr v ↦ omega (arith, x.counted, v.2)
]

-- A query of the counters takes no trouble back.
troubles_grow :
    (fd : ℕ) (a : Answer) (h : History)
    → 0 < troubles h
    → 0 < troubles ((Call.xdp_statistics fd, a) ∷ h)
troubles_grow fd (failed e) h some_before = omega arith
troubles_grow fd (gave bytes) h some_before = elim (Bool-cases (bytes == 24 || bytes == 48)) [
  | inl known ↦ rw known some_before
  | inr other ↦ rw other (omega arith)
]

two_troubles : {t t1 : ℕ} (n : ℕ) → 0 < t → 0 < t1 → exit_code_of (t + n) ≡ exit_code_of (t1 + n)
two_troubles n some_one some_other = ground arith

module _ {S : Type 0} (w : World S) where
  -- An early return is a failure, or follows a signal that came before the loader was created.
  abbrev pub Early : ℕ → Type 0
  Early exit_code = (exit_code ≡ 1) ⊎ ((exit_code ≡ 0) × (w.interrupted ≡ true))

  -- At the end, with `h` all calls of the run.
  abbrev pub Reported : ℕ → RunSummary → Worker S Captured → History → Type 0
  Reported exit_code r worker h =
      exit_code ≡ exit_code_of (troubles h + (anomalies 0 w.ticks + worker.engine.tx.outstanding))

module _ {S : Type 0} (w : World S) (args : Args) where
  finish_exit :
      (fd : ℕ) (error : Option ℕ) (l : XdpLoader) (worker : Worker S Captured) (c : Control)
      (h : History)
      → (error ≡ none → l.ifindex ≡ 0)
      → (error ≡ none → l.redirecting ≡ true → 0 < troubles h)
      → (error ≡ none
          → c.exit_code
            ≡ exit_code_of (troubles h + (anomalies 0 w.ticks + worker.engine.tx.outstanding)))
      → Ends (Early w) (Reported w) (finish w args fd error l worker c h)
  unfolding finish kernel_stats
  finish_exit fd (some e) l worker c h detached tried so_far = inl refl
  finish_exit fd none l worker c h detached tried so_far =
      let a = w.os.answer h (Call.xdp_statistics fd) in
      let h1 = (Call.xdp_statistics fd, a) ∷ h in
      let n = anomalies 0 w.ticks + worker.engine.tx.outstanding in
      let noted =
        note_stats_exit (w.os.statistics h1) fd n a (record c { run = totals worker c.run }) h
          (so_far refl) in
      let still = λ (b : l.redirecting ≡ true). troubles_grow fd a h (tried refl b) in
      elim (troubles-release w.os l h1 still (detached refl)) [
        | inl same ↦ noted ∙ ap (λ t. exit_code_of (t + n)) (sym same)
        | inr again ↦ noted ∙ two_troubles n again.0 again.1
      ]

  shut_down_exit :
      (cfg : ReceiverConfig) (x : XskHandle) (l : XdpLoader) (c : Control) (h : History)
      → c.exit_code ≡ exit_code_of (troubles h + anomalies 0 w.ticks)
      → Ends (Early w) (Reported w) (shut_down w args cfg x l c h)
  unfolding shut_down
  shut_down_exit cfg x l c h so_far =
      let s = stop_redirect-Stopped w.os l h in
      let (error, l1, h1) = stop_redirect w.os l h in
      let c1 = note_redirect error c in
      let stopped =
        note_redirect_exit error c (troubles h) (troubles h1) (anomalies 0 w.ticks)
          (λ z. (s.fine z).0) (λ e z. (s.flawed e z).0) so_far in
      let worker = stopped_worker w args cfg x c.run.sampling_started in
      let left = drain_until_outstanding w.k w.passes worker.engine in
      let (remaining, e) = drain_until w.k w.passes worker.engine in
      let d = detach-Detached w.os l1 h1 in
      let (error2, l2, h2) = detach w.os l1 h1 in
      finish_exit x.fd error2 l2 (record worker { engine = e }) (note_drain remaining c1) h2
        (λ z. (d.fine z).1)
        (λ z b. rw (d.fine z).0 (
          tried_before error l1.redirecting (troubles h) (troubles h1) (λ y. (s.fine y).1)
            (λ e y. (s.flawed e y).0) (sym d.kept ∙ b)))
        (λ z. rw (d.fine z).0 (
          note_drain_exit remaining e.tx.outstanding (troubles h1) (anomalies 0 w.ticks) c1 left
            stopped))

  with_loader_exit :
      (cfg : ReceiverConfig) (x : XskHandle) (r : RunSummary) (l : XdpLoader) (h : History)
      → troubles h ≡ 0
      → Ends (Early w) (Reported w) (with_loader w args cfg x r (value l, h))
  unfolding with_loader
  with_loader_exit cfg x r l h fine =
      let c : Control = record {
        g_stop = false;
        run = record r { native_xdp = l.native };
        exit_code = 0;
        last_rejected = 0;
      } in
      let (done, c1, h1) = control_loop w.os x.fd w.ticks c h in
      let sum : 0 + anomalies 0 w.ticks ≡ anomalies 0 w.ticks = omega arith in
      let t = control_loop_exit w.os x.fd w.ticks c h 0 (ground arith) in
      either-Ends (Early w) (Reported w) (not done) (running, h1) (shut_down w args cfg x l c1 h1)
        (λ _. tt) (shut_down_exit cfg x l c1 h1 (t ∙ ap (λ m. exit_code_of (troubles h1 + m)) sum))

  export_exit :
      (out : Outcome S) (h : History)
      → Ends (Early w) (Reported w) (out, h)
      → Ends (Early w) (Reported w) (export w args out h)
  unfolding export
  export_exit (returned exit_code) h e = e
  export_exit running h e = tt
  export_exit (ended exit_code r worker) h e =
      let n = anomalies 0 w.ticks + worker.engine.tx.outstanding in
      let samples = report worker.captured.samples in
      let x = dump_csv_lem w.os w.format (codes "callback_tx_staging_ns.csv") samples h in
      let (csv, h1) = write_csv w args samples h in
      let r1 = record r { samples_recorded = samples.n; csv_exported = not (is_failed csv) } in
      let code : ℕ = if is_failed csv then 1 else exit_code in
      let y = dump_run_metadata_lem w.os (w.text r1 code) r1.kernel_stats h1 in
      let (metadata, h2) = write_metadata w args r1 code h1 in
      export_exit_code metadata code (troubles h1) (troubles h2) n (Exports-fine y)
        (Exports-flawed y)
        (export_exit_code csv exit_code (troubles h) (troubles h1) n (Exports-fine x)
          (Exports-flawed x) e)

  -- At the end of `run_receiver` the exit code is 0 exactly when nothing has gone wrong, and otherwise
  -- 1. What can go wrong is a call since the attachment of the program: a query of the kernel's
  -- counters, the deletion of the redirection, the detachment, or a call on a file; too many rejected
  -- frames in a round, unless the control loop has seen a signal before; and frames that are
  -- outstanding after the drain. An early return is 1, or 0 after a signal that came before the
  -- packets were redirected.
  pub run_receiver_exit : (h : History) → Ends (Early w) (Reported w) (run_receiver w args h)
  unfolding run_receiver
  run_receiver_exit h =
      let first = select_cpu w.os args.cpu_pin h in
      export_exit (active_part w args first).0 (active_part w args first).1 (
        active_part-Ends (Early w) (Reported w) w args (inl refl) (λ stop. inr (refl, stop))
          (λ code r worker h1 h2 same e.
            e
            ∙ ap (λ t. exit_code_of (t + (anomalies 0 w.ticks + worker.engine.tx.outstanding)))
                (sym same))
          with_loader_exit first)
