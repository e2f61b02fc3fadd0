-- ===== src/Main/Control.antt =====
-- main.cpp: the control thread of `run_receiver` while the worker is active: a report each second,
-- until a signal or an anomaly stops the program. What the thread reads of other threads, clocks and
-- signals in a round is an argument (`Tick`); times are not modelled, nor is the printing.
pub mod Ends
pub mod ExitCode
use af_xdp_reimpl.Prelude.{
  ℕ, ◌+◌, ◌^◌, List, [], ◌∷◌, Bool, true, false, not, ◌&&◌, ◌||◌, ltb, ◌==◌, if◌then◌else◌, sub64,
}
use af_xdp_reimpl.Os.{Os, Call, Answer, History}
use af_xdp_reimpl.Xsk.Stats.{StatsResult, stats, stats_error, kernel_stats}

-- Rejected frames per reporting interval.
abbrev pub tx_rejection_limit : ℕ
tx_rejection_limit = 100000

abbrev pub enodata : ℕ
enodata = 61

pub data StopReason : Type 0 where
  by_signal tx_rejection_anomaly : StopReason

-- `RunSummary`, without the times and the scheduling of the worker.
pub record RunSummary : Type 0 where
  pub worker_cpu : ℕ
  pub zero_copy : Bool
  pub native_xdp : Bool
  pub hugetlb : Bool
  pub sampling_started : Bool
  pub csv_exported : Bool
  pub samples_recorded : ℕ
  pub rx_processed : ℕ
  pub callbacks : ℕ
  pub callback_bytes : ℕ
  pub unsupported : ℕ
  pub tx_staged : ℕ
  pub tx_submitted : ℕ
  pub tx_reclaimed : ℕ
  pub tx_rejected : ℕ
  pub fill_refill_batches : ℕ
  pub tx_retryable_wakeup_errors : ℕ
  pub tx_abandoned : ℕ
  pub rx_first_wakeup_errno : ℕ
  pub tx_first_wakeup_errno : ℕ
  pub first_kernel_stats_errno : ℕ
  pub stop_redirect_errno : ℕ
  pub stop_reason : StopReason
  pub kernel_stats : StatsResult

abbrev pub new_run : ℕ → RunSummary
new_run worker_cpu = record {
  worker_cpu = worker_cpu;
  zero_copy = false;
  native_xdp = false;
  hugetlb = false;
  sampling_started = false;
  csv_exported = false;
  samples_recorded = 0;
  rx_processed = 0;
  callbacks = 0;
  callback_bytes = 0;
  unsupported = 0;
  tx_staged = 0;
  tx_submitted = 0;
  tx_reclaimed = 0;
  tx_rejected = 0;
  fill_refill_batches = 0;
  tx_retryable_wakeup_errors = 0;
  tx_abandoned = 0;
  rx_first_wakeup_errno = 0;
  tx_first_wakeup_errno = 0;
  first_kernel_stats_errno = 0;
  stop_redirect_errno = 0;
  stop_reason = by_signal;
  kernel_stats = stats_error enodata;
}

-- The locals of the control thread, and `g_stop`.
pub record Control : Type 0 where
  pub g_stop : Bool
  pub run : RunSummary
  pub exit_code : ℕ
  pub last_rejected : ℕ

-- What a round reads: whether a signal has come by the test of the loop, whether the warmup is over
-- and a signal has come by then, and the count of rejected frames.
pub record Tick : Type 0 where
  pub interrupted : Bool
  pub warm : Bool
  pub late : Bool
  pub rejected : ℕ

-- The sampling window opens once, after the warmup.
unfoldable pub open_window : Tick → Control → Control
open_window t c =
    let g_stop = c.g_stop || t.late in
    let opens = not c.run.sampling_started && t.warm && not g_stop in
    record c {
      g_stop = g_stop;
      run = record c.run { sampling_started = c.run.sampling_started || opens };
    }

-- A failed query of the kernel's counters.
unfoldable pub note_stats : StatsResult → Control → Control
note_stats (stats s) c = record c { run = record c.run { kernel_stats = stats s } }
note_stats (stats_error e) c = record c {
  run = record c.run {
    kernel_stats = stats_error e;
    first_kernel_stats_errno =
        if c.run.first_kernel_stats_errno == 0 then e else c.run.first_kernel_stats_errno;
  };
  exit_code = 1;
}

-- Too many rejected frames since the last report stop the program.
unfoldable pub check_rejections : ℕ → Control → Control
check_rejections rejected c =
    let c1 : Control =
      if ltb tx_rejection_limit (sub64 rejected c.last_rejected)
      then record c {
        run = record c.run { stop_reason = tx_rejection_anomaly };
        exit_code = 1;
        g_stop = true;
      }
      else c in
    record c1 { last_rejected = rejected }

unfoldable pub report : Os → ℕ → Tick → Control → History → Control × History
report os fd t c h =
    let (result, h1) = kernel_stats os fd h in
    (check_rejections t.rejected (note_stats result (open_window t c)), h1)

-- The loop over the rounds that are observed; the first component says whether it has ended.
unfoldable pub control_loop : Os → ℕ → List Tick → Control → History → Bool × Control × History
control_loop os fd [] c h = (c.g_stop, c, h)
control_loop os fd (t ∷ ticks) c h =
    let c1 = record c { g_stop = c.g_stop || t.interrupted } in
    let (c2, h1) = report os fd t c1 h in
    let rest = control_loop os fd ticks c2 h1 in if c1.g_stop then (true, c1, h) else rest
