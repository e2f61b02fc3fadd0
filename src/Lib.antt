-- ===== src/Lib.antt =====
-- The AF_XDP receive and transmit engine of this repository, modelled and verified.
--
-- The program reflects UDP packets between an AF_XDP socket's rings without copying. A frame of
-- the UMEM region moves from the allocator to the fill ring, through the kernel to the RX ring,
-- to the callback of the receiver, which turns the packet round and stages it on the TX ring or
-- recycles it; through the kernel again to the completion ring, and back to the allocator. One
-- worker thread owns all of that state; the kernel writes its own index and descriptors of each
-- ring concurrently.
--
-- Files, and the code that they model:
--
--   Prelude: shared names, tests on numbers, lists with native indices, machine words with
--     their wrap-around (Words), masks (Bits), texts and decimals (Texts), lists as
--     multisets by weights (Weigh).
--   Ring: include/afxdp/ring.hpp. A ring is a record of the private fields and of the words
--     behind its pointers. Ring.Window describes a range of slots as a list, Ring.Roles the
--     two roles that the engine plays, Ring.Consumer and Ring.Producer the operations in
--     each.
--   FrameAllocator: include/afxdp/frame_alloc.hpp, a stack of frame offsets;
--     FrameAllocator.Stack says what its operations do to that stack.
--   Xsk: include/afxdp/xsk.hpp, the socket, refill_fill (Xsk.Refill) and kernel_stats
--     (Xsk.Stats).
--   Kernel: the other side of the rings, an argument of the model; Kernel.Contract states
--     what the AF_XDP documentation promises of it, Kernel.Rings and Kernel.Extends what
--     follows for the engine, and Kernel.Fifo that a ring with both sides at work is a
--     queue.
--   Transmitter: include/afxdp/transmitter.hpp. Transmitter.Invariant is the engine's
--     invariant, which places every frame; Stage and Send are about send_in_place, Publish,
--     Kick and Service about publish_and_service_tx, with Errors about the counters of
--     wakeup errors, Reclaim about reclaim_completed_frames; Rx says that sending leaves
--     the RX ring alone, and Drain is about drain_until.
--   Receiver: include/afxdp/receiver.hpp. Frames is about the loop over a batch, Batch
--     about the RX part of a pass, Order about what the callback sees, Maintain about the
--     refill and the wakeup, Loop about a pass and about run; Thread is about
--     prepare_thread.
--   Bench: include/afxdp/bench.hpp: reflect_swap, with Bench.Swap (which byte goes where),
--     Bench.Accept (which packets) and Bench.Checksum; Bench.Samples is the buffer of
--     latency samples, and Bench.Samples.Report its sorting by report. Bench.Calibration is
--     calibrate_tsc, with Verdict about its outcomes, Rank about the differences that it
--     sorts, and Quiet.
--   Export: the files of bench.hpp and main.cpp: dump_csv, print_kernel_stats and
--     dump_run_metadata; Export.Prints is about their parts, Export.Files about the whole
--     of each.
--   Filter: bpf/xdp_prog_bpf.c, the program that redirects packets to the socket: which
--     frames (Filter.Accept), and which bytes it looks at (Filter.Reads).
--   CommandLine: main.cpp: Args and parse_args, with CommandLine.Decimal about numbers,
--     RoundTrip and Filter. Signals: main.cpp: install_signal_handlers.
--   Main: main.cpp: the callback strategy, the commit service_tx and the state in which the
--     worker starts; Main.Strategy and Main.System are about them. Main.Control is the
--     control loop of run_receiver, Main.Run the function as a whole, Main.Program main.
--     Children of Main.Run: Quiet, Settles and Clean are about what is left open, Ends and
--     ExitCode about the exit code, Frames about the frames at the end.
--   Os: the system calls, whose answers are an argument, with their history;
--     include/afxdp/common.hpp: errors and FileDesc. Os.Tidy says when a step leaves
--     nothing open but what its result owns, Os.Quiet when it neither opens nor closes, and
--     Os.Troubles counts what goes wrong in the calls of a run.
--   Mapping: include/afxdp/ring.hpp: MmapRing as the owner of its mapping (create, moves,
--     unmap). Umem: include/afxdp/umem.hpp, with Umem.Moves. Socket: Xsk::create of
--     include/afxdp/xsk.hpp, with Socket.Tidy about its early returns. Loader:
--     include/afxdp/xdp_loader.hpp, with Loader.Owns about what it owns, Loader.Tidy about
--     its early returns, Loader.Settled about stop_redirect and detach at the end of a run,
--     Loader.Moves about its moves, and Loader.Errors about what has gone wrong in its
--     calls.
--   Tests: the theorems at concrete inputs, with a kernel that takes frames off the TX
--     ring.
--
-- How concurrency is modelled: before each access of the engine to a word that the kernel
-- writes, the kernel makes an arbitrary move that keeps to its contract (Kernel.run); the system
-- calls sendto and recvfrom are such moves as well. Atomic counters are plain fields, since only
-- the worker writes them. 32-bit and 64-bit arithmetic wraps as in the source; ring sizes are
-- powers of two of at most 2 ^ 31, and an allocator's capacity is less than 2 ^ 32.
--
-- The control thread of main.cpp reads counters, signals and the clock while the worker runs;
-- what it reads in each round is an argument (Main.Control.Tick), and a World says how far the
-- worker gets. Of the C++ library, std::stoul and std::stoi are modelled in CommandLine, and
-- std::sort in Bench.Samples.Report.
--
-- Loops: those over a batch are recursion on the number of entries left, which the code computes
-- before the loop; the worker's loop takes the number of rounds until its token asks to stop,
-- and drain_until the number of clock readings before its deadline. The loop of calibrate_tsc
-- around nanosleep takes the number of calls that are observed, and is asleep only after as many
-- interruptions. No other fuel is used.
--
-- Errors: an error is its errno and the step that failed; the text of a message is not modelled.
-- Texts are lists of bytes.
--
-- Files: a stream is a number, like a descriptor, and what fprintf is given is the text that its
-- format makes; the text of a sample, which is floating point, and of the run metadata, which
-- names the build, are arguments (World.format, World.text).
--
-- Not modelled: floating point (percentiles, and the quotient of a calibration, which is kept as
-- two numbers), console output, times and exceptions of the memory allocator, and the order of
-- memory accesses below the level of single loads and stores.
pub mod Prelude
pub mod Ring
pub mod FrameAllocator
pub mod Xsk
pub mod Kernel
pub mod Transmitter
pub mod Receiver
pub mod Bench
pub mod Export
pub mod Filter
pub mod CommandLine
pub mod Signals
pub mod Main
pub mod Os
pub mod Mapping
pub mod Umem
pub mod Socket
pub mod Loader
mod Tests
