-- ===== src/Tests/RunTests.antt =====
-- Whole runs: on a system that grants everything, with a signal in the second round.
use af_xdp_reimpl.Prelude.{
  ℕ, suc, ◌≡◌, ◌↔◌, ◌⊎◌, refl, List, [], ◌∷◌, Bool, true, false, some, length, ◌^◌, ◌+◌, ◌*◌,
  decimal,
}
use af_xdp_reimpl.Os.{Os, Call, Answer, History, gave}
use af_xdp_reimpl.Mapping.{MapsNonnull}
use af_xdp_reimpl.Bench.Calibration.{
  Machine, Calibrated, calibrated, calibrate_tsc, is_supported, check_range, sleep,
}
use af_xdp_reimpl.Bench.Calibration.Verdict.{Verdict, calibrate_tsc_lem}
use af_xdp_reimpl.Loader.Tidy.{IndexesPositive}
use af_xdp_reimpl.Main.Control.{
  Control, Tick, new_run, control_loop, report, open_window, note_stats, check_rejections,
}
use af_xdp_reimpl.Main.Control.Ends.{Stops, control_loop_flag}
use af_xdp_reimpl.Main.Run.{World, run_receiver}
use af_xdp_reimpl.Main.Run.Ends.{Ends}
use af_xdp_reimpl.Main.Run.ExitCode.{Early, Reported, run_receiver_exit}
use af_xdp_reimpl.Main.Run.Frames.{Anything, Finishes, run_receiver_frames}
use af_xdp_reimpl.Main.Program.{main, LeavesNothing, main-LeavesNothing}
use af_xdp_reimpl.Xsk.Stats.{kernel_stats}
use af_xdp_reimpl.Tests.Worker.{held, sizes, kernel, kernel-Obeys}
use af_xdp_reimpl.Tests.ReflectorTests.{opened, opened-IsFresh}
use af_xdp_reimpl.Tests.SocketTests.{os, gave_some}
use af_xdp_reimpl.Tests.CommandTests.{program, short, wanted, initial}

abbrev grant : History → Call → Answer
grant h (Call.xdp_statistics fd) = gave 48
grant h Call.clock_gettime = gave (200000000 * suc (length h))
grant h c = gave (suc (length h))

abbrev granting : Os
granting = record os { answer = grant }

granting-MapsNonnull : MapsNonnull granting
granting-MapsNonnull = record {
  ring = λ h fd pgoff size. gave_some (length h);
  anonymous = λ h huge size. gave_some (length h);
}

granting-IndexesPositive : IndexesPositive granting
granting-IndexesPositive h iface = gave_some (length h)

-- A quiet round, and one that is interrupted.
abbrev rounds : List Tick
rounds =
    record { interrupted = false; warm = true; late = false; rejected = 5 }
    ∷ record { interrupted = true; warm = true; late = false; rejected = 5 }
    ∷ []

-- A processor with the features, whose counter goes up by one from reading to reading.
abbrev quick : Machine
quick = record { cpuid = λ leaf. some (2 ^ 27 + 2 ^ 8); tsc = λ i. i }

abbrev is_calibrated : Calibrated → Bool
is_calibrated (calibrated c) = true
is_calibrated x = false

abbrev world : World (List ℕ)
world = record {
  k = kernel;
  os = granting;
  shared = λ x. opened;
  clock = λ i. i;
  machine = quick;
  naps = 1;
  interrupted = false;
  ticks = rounds;
  before = 2;
  after = 3;
  passes = 4;
  format = decimal;
  text = λ r exit_code known. [];
}

run_receiver_exit_example : Ends (Early world) (Reported world) (run_receiver world wanted [])
run_receiver_exit_example = run_receiver_exit world wanted []

run_receiver_frames_example : Ends Anything (Finishes held sizes) (run_receiver world wanted [])
run_receiver_frames_example =
    run_receiver_frames held sizes refl world wanted kernel-Obeys (λ x. opened-IsFresh) []

main-LeavesNothing_example : LeavesNothing (λ r. 1) [] (main world initial (program ∷ short) [])
main-LeavesNothing_example =
    main-LeavesNothing world initial granting-MapsNonnull granting-IndexesPositive (λ r. 1)
      (program ∷ short) []

abbrev control : Control
control = record { g_stop = false; run = new_run 0; exit_code = 0; last_rejected = 0 }

control_loop_flag_example :
    ((control_loop granting 3 rounds control []).0 ≡ true)
    ↔ ((◌≡◌ {A = Bool} false true) ⊎ Stops 0 rounds)
control_loop_flag_example = control_loop_flag granting 3 rounds control []

interrupted : (control_loop granting 3 rounds control []).0 ≡ true
unfolding control_loop report open_window note_stats check_rejections kernel_stats
interrupted = refl

calibrate_tsc_lem_example : Verdict granting quick 1 [] (calibrate_tsc granting quick 1 [])
calibrate_tsc_lem_example = calibrate_tsc_lem granting quick 1 []

calibrates : is_calibrated (calibrate_tsc granting quick 1 []).0 ≡ true
unfolding calibrate_tsc sleep is_supported check_range
calibrates = refl
