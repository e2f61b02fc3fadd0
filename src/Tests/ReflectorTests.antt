-- ===== src/Tests/ReflectorTests.antt =====
-- The receiver and the reflector at work: a UDP packet that is turned round, a full sample buffer,
-- and a small layout of five frames.
use af_xdp_reimpl.Prelude.{
  ℕ, zero, suc, ◌&&◌, ◌+◌, ◌*◌, ◌<◌, ◌≡◌, refl, arith, List, [], ◌∷◌, Bool, true, false, ◌⊎◌, ltb,
  get_or,
}
use af_xdp_reimpl.Kernel.{Io}
use af_xdp_reimpl.Transmitter.{mask_of, meanwhile}
use af_xdp_reimpl.Transmitter.Invariant.{total}
use af_xdp_reimpl.Receiver.{Worker, view_of, handle_batch, process_rx_and_maintain_io}
use af_xdp_reimpl.Receiver.Frames.{Handled}
use af_xdp_reimpl.Receiver.Order.{logged, InOrder, handle_batch_order}
use af_xdp_reimpl.Receiver.Loop.{IsSound, Passed, process_rx_and_maintain_io_lem}
use af_xdp_reimpl.Bench.{reflect_swap}
use af_xdp_reimpl.Bench.Accept.{Reflected, Unsupported, reflect_swap_lem}
use af_xdp_reimpl.Bench.Checksum.{sum_words, reflect_swap-sum_words, reflect_swap-reflect_swap}
use af_xdp_reimpl.Bench.Samples
use af_xdp_reimpl.Bench.Samples.{Samples, Kept, record_all, record_all_lem}
use af_xdp_reimpl.Main.{Layout, config_of, Captured, reflector, strategy, service_tx}
use af_xdp_reimpl.Main.Strategy.{strategy_lem, strategy-Handles, service_tx-Commits}
use af_xdp_reimpl.Main.System.{IsLayout, IsFresh, every_frame_once, is_chunk}
use af_xdp_reimpl.Tests.Worker.{
  held, sizes, ledger, kernel, kernel-Obeys, working, working-Inv, ring_of, at,
}

-- A UDP packet of one byte of data, from port 1000 of 10.0.0.1 to port 7 of 10.0.0.2.
abbrev packet_bytes : List ℕ
packet_bytes =
    1 ∷ 2 ∷ 3 ∷ 4 ∷ 5 ∷ 6 ∷ 11 ∷ 12 ∷ 13 ∷ 14 ∷ 15 ∷ 16 ∷ 8 ∷ 0 ∷ 69 ∷ 0 ∷ 0 ∷ 29 ∷ 0 ∷ 1 ∷ 64 ∷ 0
    ∷ 64 ∷ 17 ∷ 0 ∷ 0 ∷ 10 ∷ 0 ∷ 0 ∷ 1 ∷ 10 ∷ 0 ∷ 0 ∷ 2 ∷ 3 ∷ 232 ∷ 0 ∷ 7 ∷ 0 ∷ 9 ∷ 0 ∷ 0 ∷ 99 ∷ []

abbrev packet : ℕ → ℕ
packet a = get_or packet_bytes a 0

unfoldable pub all_bytes : List ℕ → Bool
all_bytes [] = true
all_bytes (x ∷ xs) = ltb x 256 && all_bytes xs

pub get_or_byte : (xs : List ℕ) (i : ℕ) → all_bytes xs ≡ true → get_or xs i 0 < 256
unfolding all_bytes
get_or_byte [] i h = omega arith
get_or_byte (x ∷ xs) zero h = ground arith
get_or_byte (x ∷ xs) (suc i) h =
    let rest : all_bytes xs ≡ true = ground arith in get_or_byte xs i rest

packet_bytes_fit : (a : ℕ) → packet a < 256
packet_bytes_fit a = get_or_byte packet_bytes a (unfold all_bytes in refl)

packet_accepted : (reflect_swap packet 0 43).0 ≡ true
unfolding reflect_swap
packet_accepted = refl

runt_refused : (reflect_swap packet 0 41).0 ≡ false
unfolding reflect_swap
runt_refused = refl

ports_swapped : (reflect_swap packet 0 43).1 35 ≡ 7
unfolding reflect_swap
ports_swapped = refl

reflect_swap_lem_example :
    Reflected packet 0 43 (reflect_swap packet 0 43)
    ⊎ Unsupported packet 0 43 (reflect_swap packet 0 43)
reflect_swap_lem_example = reflect_swap_lem packet 0 43 packet_bytes_fit

reflect_swap-sum_words_example :
    let mem' = (reflect_swap packet 0 43).1 in
    (sum_words mem' 0 14 10 ≡ sum_words packet 0 14 10)
    × (sum_words mem' 0 26 (6 + 2) ≡ sum_words packet 0 26 (6 + 2))
reflect_swap-sum_words_example =
    reflect_swap-sum_words packet 0 43 2 packet_bytes_fit packet_accepted

reflect_swap-reflect_swap_example :
    let back = reflect_swap (reflect_swap packet 0 43).1 0 43 in
    (back.0 ≡ true) × ((a : ℕ) → back.1 a ≡ packet a)
reflect_swap-reflect_swap_example =
    reflect_swap-reflect_swap packet 0 43 packet_bytes_fit packet_accepted

record_all_lem_example :
    Kept (Samples.init 2) (7 ∷ 8 ∷ 9 ∷ []) (record_all (Samples.init 2) (7 ∷ 8 ∷ 9 ∷ []))
unfolding Samples.init
record_all_lem_example = record_all_lem (Samples.init 2) (7 ∷ 8 ∷ 9 ∷ []) (omega arith)

abbrev idle_captured : Captured
idle_captured = record {
  bench = record { callbacks = 0; bytes = 0; staged = 0; unsupported = 0 };
  samples = record { buf = λ _. 0; cap = 4; n = 0; dropped = 0; enabled = true };
  clock = λ i. 100 * i;
  ticks = 0;
}

abbrev worker : Worker (List ℕ) Captured
worker = record {
  engine = working;
  captured = idle_captured;
  receiver = record {
    batch_size = 64;
    fill_threshold = 2;
    busy_poll = false;
    frame_mask = mask_of 2048;
    packets_received = 0;
    fill_refills = 0;
    first_wakeup_error = 0;
  };
}

worker-IsSound : IsSound held sizes ledger worker
worker-IsSound = record { inv = working-Inv; mask = refl }

handle_batch_order_example :
    InOrder
      (meanwhile kernel working).io.xsk.rx
      64
      []
      (handle_batch (strategy kernel) kernel 64 (mask_of 2048) idle_captured working)
      (handle_batch (logged (strategy kernel)) kernel 64 (mask_of 2048) (idle_captured, []) working)
handle_batch_order_example =
    handle_batch_order held sizes (strategy kernel)
      (strategy-Handles held sizes kernel kernel-Obeys) kernel kernel-Obeys 64 (mask_of 2048) ledger
      (idle_captured, []) working refl refl working-Inv

process_rx_and_maintain_io_lem_example :
    Passed held sizes ledger worker
      (process_rx_and_maintain_io kernel (strategy kernel) (service_tx kernel) worker)
process_rx_and_maintain_io_lem_example =
    process_rx_and_maintain_io_lem held sizes ledger kernel kernel-Obeys (strategy kernel)
      (strategy-Handles held sizes kernel kernel-Obeys) (service_tx kernel)
      (service_tx-Commits held sizes kernel kernel-Obeys ledger) refl worker worker-IsSound

abbrev small : Layout
small = record {
  num_frames = 5;
  frame_size = 2048;
  alloc_cap = 8;
  rx_batch_size = 64;
  sample_capacity = 4;
}

small-IsLayout : IsLayout 11 small
small-IsLayout = record {
  fits = omega arith;
  word = omega arith;
  power = refl;
  small = omega arith;
  region = omega arith;
}

abbrev pub opened : Io (List ℕ)
opened = record {
  kernel = [];
  xsk = record {
    rx = ring_of 0 0 0 0 (λ _. at 0 0);
    tx = ring_of 0 0 0 0 (λ _. at 0 0);
    fill = ring_of 0 0 0 0 (λ _. 0);
    completion = ring_of 0 0 0 0 (λ _. 0);
    busy_poll = true;
    zero_copy = false;
  };
  mem = packet;
}

pub opened-IsFresh : IsFresh held sizes opened
opened-IsFresh = record {
  rings = record {
    rx = omega arith;
    completion = omega arith;
    fill = omega arith;
    tx = omega arith;
  };
  rx = refl;
  tx = refl;
  fill = refl;
  completion = refl;
  receiving = refl;
  sending = refl;
}

every_frame_once_example :
    total held sizes
      (is_chunk (2 * 2048))
      (reflector kernel small (config_of small 0 false) (λ i. i) 3 opened).engine
    ≡ 1
every_frame_once_example =
    every_frame_once held sizes 11 small small-IsLayout refl kernel kernel-Obeys
      (config_of small 0 false) (λ i. i) opened opened-IsFresh 3 2 (omega arith)

strategy_lem_example :
    let (disposition, c, e) = strategy kernel (view_of (at 6400 60)) idle_captured working in
    Handled held sizes ledger 6400 [] working disposition e
strategy_lem_example =
    strategy_lem held sizes kernel kernel-Obeys ledger (at 6400 60) [] idle_captured working refl
      working-Inv
