-- ===== src/Main/Program.antt =====
-- main.cpp: `main`. An exception out of `parse_args` is caught by nothing and ends the program; those
-- that `run_receiver` could throw come from the memory allocator, which is not modelled.
use af_xdp_reimpl.Prelude.{ℕ, arith, List, Option, none, some, Text}
use af_xdp_reimpl.Os.{History, Signal, Disposition}
use af_xdp_reimpl.Os.Tidy.{Resource}
use af_xdp_reimpl.Mapping.{MapsNonnull}
use af_xdp_reimpl.Loader.Tidy.{IndexesPositive}
use af_xdp_reimpl.CommandLine.{Args, Exception, Parsed, parsed, usage, aborted, parse_args}
use af_xdp_reimpl.Signals.{install_signal_handlers}
use af_xdp_reimpl.Signals.Quiet.{install_signal_handlers-Quiet}
use af_xdp_reimpl.Main.Run.Clean.{run_receiver-Leaves}
use af_xdp_reimpl.Main.Run.{World, Outcome, returned, running, ended, run_receiver}
use af_xdp_reimpl.Os.Quiet.{Quiet}
use af_xdp_reimpl.Main.Run.Settles.{Settles, Leaves, Leaves-Quiet, settled}

-- How the program stands: it has exited, or been ended by an exception, or goes on.
pub data Status : Type 0 where
  exited : (exit_code : ℕ) → Status
  terminated : (e : Exception) → Status
  going_on : Status

abbrev pub status_of : {S : Type 0} → Outcome S → Status
status_of (returned exit_code) = exited exit_code
status_of running = going_on
status_of (ended exit_code r worker) = exited exit_code

module _ {S : Type 0} (w : World S) (initial : Signal → Disposition) where
  -- What follows the setup of the signals.
  unfoldable pub after_signals : Args → Option ℕ × History → Status × History
  after_signals args (some e, h) = (exited 1, h)
  after_signals args (none, h) = let (out, h1) = run_receiver w args h in (status_of out, h1)

  unfoldable pub after_parse : Parsed → History → Status × History
  after_parse usage h = (exited 1, h)
  after_parse (aborted e) h = (terminated e, h)
  after_parse (parsed args) h = after_signals args (install_signal_handlers w.os initial h)

  unfoldable pub main : List Text → History → Status × History
  main argv h = after_parse (parse_args argv) h

-- From a history on: what has been opened and closed since, unless the program goes on.
abbrev pub LeavesNothing : (Resource → ℕ) → History → Status × History → Type 0
LeavesNothing f h (exited exit_code, h1) = Settles f 0 h h1
LeavesNothing f h (terminated e, h1) = Settles f 0 h h1
LeavesNothing f h (going_on, h1) = Unit {0}

module _ {S : Type 0} (w : World S) (initial : Signal → Disposition) (nonnull : MapsNonnull w.os)
    (positive : IndexesPositive w.os) (f : Resource → ℕ) where
  status-LeavesNothing :
      (h h1 : History) (out : Outcome S)
      → Leaves f 0 h (out, h1)
      → LeavesNothing f h (status_of out, h1)
  status-LeavesNothing h h1 (returned exit_code) s = s
  status-LeavesNothing h h1 running s = tt
  status-LeavesNothing h h1 (ended exit_code r worker) s = s

  after_signals-LeavesNothing :
      (args : Args) (h : History) (out : Option ℕ × History)
      → Quiet f h out.1
      → LeavesNothing f h (after_signals w initial args out)
  unfolding after_signals
  after_signals-LeavesNothing args h (some e, h1) q = record {
    least = omega (arith, q.same_opened, q.same_closed);
    exact = λ i. omega (arith, q.same_opened, q.same_closed);
  }
  after_signals-LeavesNothing args h (none, h1) q =
      let out = run_receiver w args h1 in
      status-LeavesNothing h out.1 out.0
        (Leaves-Quiet f 0 h h1 out q (run_receiver-Leaves w args nonnull positive f h1))

  after_parse-LeavesNothing :
      (p : Parsed) (h : History) → LeavesNothing f h (after_parse w initial p h)
  unfolding after_parse
  after_parse-LeavesNothing usage h = settled f h
  after_parse-LeavesNothing (aborted e) h = settled f h
  after_parse-LeavesNothing (parsed args) h =
      after_signals-LeavesNothing args h _ (install_signal_handlers-Quiet f w.os initial h)

  -- If mappings are not at address 0 and interface indexes are positive, then however the program
  -- ends, for whatever command line and answers of the system: every descriptor, mapping, BPF
  -- object and file that it opened has been closed exactly once, and every redirection and attachment
  -- that it made has been undone by at least one call.
  pub main-LeavesNothing :
      (argv : List Text) (h : History) → LeavesNothing f h (main w initial argv h)
  unfolding main
  main-LeavesNothing argv h = after_parse-LeavesNothing (parse_args argv) h
