-- ===== src/Tests/CommandTests.antt =====
-- Command lines, signals and the start of the worker's thread.
use af_xdp_reimpl.Prelude.{
  ◌≡◌, refl, [], ◌∷◌, true, false, some, List, arith, Text, codes, pos, negsuc, suc, length,
}
use af_xdp_reimpl.Os.{Os, Call, Answer, History, failed, gave, Signal, Disposition, other}
use af_xdp_reimpl.CommandLine.{
  Args, parsed, usage, aborted, default_args, invalid_argument, parse_loop, parse_one, parse_args,
  stoul,
}
use af_xdp_reimpl.CommandLine.RoundTrip.{render, parse_args-render}
use af_xdp_reimpl.CommandLine.Filter.{GivesFilter, parse_args_filter}
use af_xdp_reimpl.Signals.{Installs, install_signal_handlers, install_signal_handlers_lem}
use af_xdp_reimpl.Receiver.{ReceiverConfig}
use af_xdp_reimpl.Receiver.Thread.{
  Prepares, prepare_thread, prepare_thread_lem, set_affinity, pin_to_cpu, set_class, set_realtime,
}
use af_xdp_reimpl.Tests.SocketTests.{os}

abbrev pub program : Text
program = codes "af_xdp"

abbrev pub wanted : Args
wanted = record {
  iface = codes "eth1";
  filter_ip = codes "10.0.0.1";
  queue = 3;
  cpu_pin = negsuc 4;
  realtime = true;
  huge_pages = false;
  zerocopy = true;
}

parse_args-render_example : parse_args (program ∷ render wanted) ≡ parsed wanted
parse_args-render_example =
    parse_args-render program wanted (record { queue = omega arith; cpu_pin = omega arith })

abbrev pub short : List Text
short = codes "-f" ∷ codes "10.0.0.1" ∷ []

short_line :
    parse_args (program ∷ short) ≡ parsed (record default_args { filter_ip = codes "10.0.0.1" })
unfolding parse_args parse_loop parse_one
short_line = refl

parse_args_filter_example : GivesFilter short (codes "10.0.0.1")
parse_args_filter_example =
    parse_args_filter program short (record default_args { filter_ip = codes "10.0.0.1" })
      short_line

no_filter : parse_args (program ∷ codes "-r" ∷ []) ≡ usage
unfolding parse_args parse_loop parse_one
no_filter = refl

no_value : parse_args (program ∷ codes "-f" ∷ []) ≡ usage
unfolding parse_args parse_loop parse_one
no_value = refl

-- A queue that is no number ends the program, and one that does not fit wraps around.
no_number :
    parse_args (program ∷ codes "-f" ∷ codes "10.0.0.1" ∷ codes "-q" ∷ codes "x" ∷ [])
    ≡ aborted invalid_argument
unfolding parse_args parse_loop parse_one stoul
no_number = refl

queue_wraps :
    parse_args (program ∷ codes "-f" ∷ codes "a" ∷ codes "-q" ∷ codes "4294967297" ∷ [])
    ≡ parsed (record default_args { filter_ip = codes "a"; queue = 1 })
unfolding parse_args parse_loop parse_one stoul
queue_wraps = refl

abbrev pub initial : Signal → Disposition
initial s = other 0

install_signal_handlers_lem_example : Installs os initial [] (install_signal_handlers os initial [])
install_signal_handlers_lem_example = install_signal_handlers_lem os initial []

-- A system that refuses real-time scheduling.
abbrev refuse : History → Call → Answer
refuse h (Call.sched_setscheduler policy priority) = failed 1
refuse h c = gave (suc (length h))

abbrev unprivileged : Os
unprivileged = record os { answer = refuse }

abbrev thread_config : ReceiverConfig
thread_config = record {
  cpu_affinity = pos 2;
  realtime_sched = true;
  batch_size = 64;
  fill_refill_threshold = 0;
}

prepare_thread_lem_example :
    Prepares thread_config [] (prepare_thread unprivileged thread_config [])
prepare_thread_lem_example = prepare_thread_lem unprivileged thread_config []

refused : (prepare_thread unprivileged thread_config []).0 ≡ some 1
unfolding prepare_thread set_affinity pin_to_cpu set_class set_realtime
refused = refl
