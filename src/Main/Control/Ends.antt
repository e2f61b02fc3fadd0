-- ===== src/Main/Control/Ends.antt =====
-- When the control loop ends.
use af_xdp_reimpl.Prelude.{
  ℕ, ◌<◌, ◌≡◌, ◌↔◌, ◌⊎◌, refl, arith, inl, inr, List, [], ◌∷◌, true, ◌||◌, ltb, sub64,
}
use af_xdp_reimpl.Os.{Os, History}
use af_xdp_reimpl.Xsk.Stats.{StatsResult, stats, stats_error, kernel_stats}
use af_xdp_reimpl.Main.Control.{
  Control, Tick, report, control_loop, open_window, note_stats, check_rejections,
  tx_rejection_limit,
}

-- Some round sees a signal, or ends with too many rejected frames since the round before.
abbrev pub Stops : ℕ → List Tick → Type 0
Stops last [] = ⊥
Stops last (t ∷ ticks) =
    (t.interrupted ≡ true)
    ⊎ (t.late ≡ true)
    ⊎ (tx_rejection_limit < sub64 t.rejected last)
    ⊎ Stops t.rejected ticks

note_stats_keeps :
    (r : StatsResult) (c : Control)
    → let c1 = note_stats r c in (c1.g_stop ≡ c.g_stop) × (c1.last_rejected ≡ c.last_rejected)
unfolding note_stats
note_stats_keeps (stats s) c = (refl, refl)
note_stats_keeps (stats_error e) c = (refl, refl)

-- A report leaves the flag up exactly when it saw a signal or an anomaly.
pub report_stops :
    (os : Os) (fd : ℕ) (t : Tick) (c : Control) (h : History)
    → let c1 = (report os fd t c h).0 in
      (c1.g_stop
        ≡ (c.g_stop || t.late || ltb tx_rejection_limit (sub64 t.rejected c.last_rejected)))
      × (c1.last_rejected ≡ t.rejected)
unfolding report open_window check_rejections
report_stops os fd t c h =
    let k = note_stats_keeps (kernel_stats os fd h).0 (open_window t c) in ground arith

-- The loop has ended after the observed rounds exactly when the flag was up before, or some round
-- saw a signal or an anomaly.
pub control_loop_flag :
    (os : Os) (fd : ℕ) (ticks : List Tick) (c : Control) (h : History)
    → ((control_loop os fd ticks c h).0 ≡ true) ↔ ((c.g_stop ≡ true) ⊎ Stops c.last_rejected ticks)
unfolding control_loop
control_loop_flag os fd [] c h = (λ e. inl e, λ s. elim s [ inl e ↦ e | inr x ↦ absurd x ])
control_loop_flag os fd (t ∷ ticks) c h =
    let c1 = record c { g_stop = c.g_stop || t.interrupted } in
    let s = report_stops os fd t c1 h in
    let (c2, h1) = report os fd t c1 h in
    let ih = control_loop_flag os fd ticks c2 h1 in ground (arith, s, ih)
