-- ===== src/Main/Control/ExitCode.antt =====
-- The exit code through the control loop: it tells whether a query of the kernel's counters has gone
-- wrong, or too many frames were rejected in a round.
use af_xdp_reimpl.Prelude.{
  ℕ, ◌+◌, ◌≡◌, ◌∙◌, refl, ap, arith, inl, inr, List, [], ◌∷◌, true, false, ◌||◌, Bool-cases, ltb,
  ◌==◌, if◌then◌else◌, sub64, not, ◌&&◌,
}
use af_xdp_reimpl.Os.{Os, Call, Answer, failed, gave, History, Counters}
use af_xdp_reimpl.Os.Troubles.{troubles}
use af_xdp_reimpl.Xsk.Stats.{kernel_stats, check_size}
use af_xdp_reimpl.Main.Control.{
  Control, Tick, report, control_loop, open_window, note_stats, check_rejections,
  tx_rejection_limit,
}
use af_xdp_reimpl.Main.Control.Ends.{report_stops}

-- The exit code of a program in which `n` things went wrong.
abbrev pub exit_code_of : ℕ → ℕ
exit_code_of n = if n == 0 then 0 else 1

-- The anomalies of the observed rounds, at most one: the rounds end with the first one in which a
-- signal is seen, or more frames than the limit were rejected since the round before, after which
-- `last` were. A signal at the start of a round goes before its anomaly, one at its end behind it.
abbrev pub anomalies : ℕ → List Tick → ℕ
anomalies last [] = 0
anomalies last (t ∷ ticks) =
    if t.interrupted
    then 0
    else if ltb tx_rejection_limit (sub64 t.rejected last)
    then 1
    else if t.late
    then 0
    else anomalies t.rejected ticks

-- A query of the kernel's counters, which ended so.
pub note_stats_exit :
    (counters : Counters) (fd n : ℕ) (a : Answer) (c : Control) (h : History)
    → c.exit_code ≡ exit_code_of (troubles h + n)
    → (note_stats (check_size counters a) c).exit_code
      ≡ exit_code_of (troubles ((Call.xdp_statistics fd, a) ∷ h) + n)
unfolding note_stats check_size
note_stats_exit counters fd n (failed e) c h so_far = ground arith
note_stats_exit counters fd n (gave bytes) c h so_far =
    elim (Bool-cases (not (bytes == 24) && not (bytes == 48))) [
      | inl other ↦
          let wrong : (bytes == 24 || bytes == 48) ≡ false = ground arith in
          rw (other, wrong) (ground arith)
      | inr known ↦
          let right : (bytes == 24 || bytes == 48) ≡ true = ground arith in rw (known, right) so_far
    ]

check_rejections_exit :
    (rejected last n : ℕ) (c : Control)
    → c.last_rejected ≡ last
    → c.exit_code ≡ exit_code_of n
    → (check_rejections rejected c).exit_code
      ≡ exit_code_of (n + (if ltb tx_rejection_limit (sub64 rejected last) then 1 else 0))
unfolding check_rejections
check_rejections_exit rejected last n c same so_far = ground arith

note_stats_last :
    (counters : Counters) (a : Answer) (c : Control)
    → (note_stats (check_size counters a) c).last_rejected ≡ c.last_rejected
unfolding note_stats check_size
note_stats_last counters (failed e) c = refl
note_stats_last counters (gave bytes) c = ground arith

module _ (os : Os) (fd : ℕ) where
  report_exit :
      (t : Tick) (c : Control) (h : History) (n : ℕ)
      → c.exit_code ≡ exit_code_of (troubles h + n)
      → let (c1, h1) = report os fd t c h in
        c1.exit_code
        ≡ exit_code_of (
            troubles h1
            + n
            + (if ltb tx_rejection_limit (sub64 t.rejected c.last_rejected) then 1 else 0))
  unfolding report kernel_stats open_window
  report_exit t c h n so_far =
      let a = os.answer h (Call.xdp_statistics fd) in
      let h1 = (Call.xdp_statistics fd, a) ∷ h in
      let counters = os.statistics h1 in
      let c1 = open_window t c in
      let c2 = note_stats (check_size counters a) c1 in
      let last = note_stats_last counters a c1 in
      let noted = note_stats_exit counters fd n a c1 h so_far in
      check_rejections_exit t.rejected c.last_rejected (troubles h1 + n) c2 last noted

  -- After the control loop the exit code is 0 exactly when nothing has gone wrong.
  pub control_loop_exit :
      (ticks : List Tick) (c : Control) (h : History) (n : ℕ)
      → c.exit_code ≡ exit_code_of (troubles h + n)
      → let (done, c1, h1) = control_loop os fd ticks c h in
        c1.exit_code
        ≡ exit_code_of
            (troubles h1 + (n + (if c.g_stop then 0 else anomalies c.last_rejected ticks)))
  unfolding control_loop
  control_loop_exit [] c h n so_far = ground arith
  control_loop_exit (t ∷ ticks) c h n so_far =
      let c1 = record c { g_stop = c.g_stop || t.interrupted } in
      let stops = report_stops os fd t c1 h in
      let (c2, h1) = report os fd t c1 h in
      let many = ltb tx_rejection_limit (sub64 t.rejected c.last_rejected) in
      let m : ℕ = n + (if many then 1 else 0) in
      let sum : troubles h1 + n + (if many then 1 else 0) ≡ troubles h1 + m = omega arith in
      let next : c2.exit_code ≡ exit_code_of (troubles h1 + m) =
        report_exit t c1 h n so_far ∙ ap exit_code_of sum in
      let rest = control_loop_exit ticks c2 h1 m next in ground (arith, stops, rest)
