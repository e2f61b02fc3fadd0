-- ===== src/Export.antt =====
-- The files that a run writes: bench.hpp: Samples::dump_csv; main.cpp: print_kernel_stats and
-- dump_run_metadata. A stream is a number, as a descriptor is; what `fprintf` is given is the text
-- that its format makes. The formats of floating-point numbers and the text of the metadata are
-- arguments.
pub mod Prints
pub mod Files
use af_xdp_reimpl.Prelude.{
  ℕ, zero, suc, ◌+◌, ◌++◌, ◌∷◌, [], Bool, true, false, Option, none, some, ◌==◌, if◌then◌else◌,
  Text, codes, decimal,
}
use af_xdp_reimpl.Os.{Os, Call, Answer, History, failed, gave, perform, Counters}
use af_xdp_reimpl.Xsk.Stats.{KernelStats, StatsResult, stats, stats_error, has_ring_counters}
use af_xdp_reimpl.Bench.Samples.{Samples}

abbrev pub eio : ℕ
eio = 5

-- `errno ? errno : EIO`
abbrev pub or_eio : ℕ → ℕ
or_eio error = if error == 0 then eio else error

-- The error of a call on a stream, 0 if there is none.
abbrev pub io_error : Answer → ℕ
io_error (failed e) = or_eio e
io_error (gave x) = 0

-- The result of an export, from `error`.
abbrev pub result_of : ℕ → Option ℕ
result_of error = if error == 0 then none else some error

-- A line `name=number` of the kernel's counters.
abbrev pub counter_line : Text → ℕ → Text
counter_line name n = name ++ (b'=' ∷ decimal n) ++ b'\n' ∷ []

abbrev pub unavailable_line : Text → Text
unavailable_line name = name ++ codes "=unavailable" ++ b'\n' ∷ []

abbrev pub csv_header : Text
csv_header = codes "callback_tx_staging_ns" ++ b'\n' ∷ []

abbrev pub error_text : ℕ → Text
error_text e = counter_line (codes "kernel_stats_errno") e

abbrev pub counters_text : KernelStats → Text
counters_text s =
    counter_line (codes "kernel_stats_returned_bytes") s.returned_bytes
    ++ counter_line (codes "kernel_rx_dropped") s.counters.rx_dropped
    ++ counter_line (codes "kernel_rx_invalid_descs") s.counters.rx_invalid_descs
    ++ counter_line (codes "kernel_tx_invalid_descs") s.counters.tx_invalid_descs

abbrev pub ring_text : KernelStats → Text
ring_text s =
    if has_ring_counters s
    then counter_line (codes "kernel_rx_ring_full") s.counters.rx_ring_full
      ++ counter_line (codes "kernel_rx_fill_ring_empty_descs") s.counters.rx_fill_ring_empty_descs
      ++ counter_line (codes "kernel_tx_ring_empty_descs") s.counters.tx_ring_empty_descs
    else unavailable_line (codes "kernel_rx_ring_full")
      ++ unavailable_line (codes "kernel_rx_fill_ring_empty_descs")
      ++ unavailable_line (codes "kernel_tx_ring_empty_descs")

module _ (os : Os) where
  -- A call of `fprintf` unless there is an error already.
  unfoldable pub print_unless : ℕ → ℕ → Text → History → ℕ × History
  print_unless error stream text h =
      if error == 0
      then (let (a, h1) = perform os (Call.fprintf stream text) h in (io_error a, h1))
      else (error, h)

  -- `fclose`, whose failure is the error if there is none yet.
  unfoldable pub close_stream : ℕ → ℕ → History → Option ℕ × History
  close_stream error stream h =
      let (a, h1) = perform os (Call.fclose stream) h in
      (result_of (if error == 0 then io_error a else error), h1)

  -- The loop over the samples, with `n` left from index `i` on; `format` is the text of one.
  unfoldable pub print_samples : (ℕ → Text) → ℕ → Samples → ℕ → ℕ → ℕ → History → ℕ × History
  print_samples format stream s zero i error h = (error, h)
  print_samples format stream s (suc n) i error h =
      let (e, h1) = print_unless error stream (format (s.buf i)) h in
      let rest = print_samples format stream s n (i + 1) e h1 in
      if error == 0 then rest else (error, h)

  -- What follows the opening of the file, which ended so.
  unfoldable pub after_open_csv : (ℕ → Text) → Samples → Answer → History → Option ℕ × History
  after_open_csv format s (failed e) h = (some e, h)
  after_open_csv format s (gave stream) h =
      let (e, h1) = print_unless 0 stream csv_header h in
      let (e2, h2) = print_samples format stream s s.n 0 e h1 in close_stream e2 stream h2

  unfoldable pub dump_csv : (ℕ → Text) → Text → Samples → History → Option ℕ × History
  dump_csv format path s h =
      let (a, h1) = perform os (Call.fopen path) h in after_open_csv format s a h1

  -- `print_kernel_stats`; the error is that of the call of `fprintf` that failed.
  unfoldable pub print_kernel_stats : ℕ → StatsResult → History → ℕ × History
  print_kernel_stats stream (stats_error e) h = print_unless 0 stream (error_text e) h
  print_kernel_stats stream (stats s) h =
      let (e, h1) = print_unless 0 stream (counters_text s) h in
      print_unless e stream (ring_text s) h1

  abbrev pub is_success : Answer → Bool
  is_success (failed e) = false
  is_success (gave x) = true

  -- `print_kernel_stats` unless there is an error already.
  unfoldable pub print_stats_unless : ℕ → ℕ → StatsResult → History → ℕ × History
  print_stats_unless error stream result h =
      let out = print_kernel_stats stream result h in if error == 0 then out else (error, h)

  -- `text` is the metadata, which depend on whether the host is known.
  unfoldable pub after_open_metadata :
      (Bool → Text) → StatsResult → Answer → History → Option ℕ × History
  after_open_metadata text result (failed e) h = (some e, h)
  after_open_metadata text result (gave stream) h =
      let (host, h1) = perform os Call.uname h in
      let (e, h2) = print_unless 0 stream (text (is_success host)) h1 in
      let (e2, h3) = print_stats_unless e stream result h2 in close_stream e2 stream h3

  unfoldable pub dump_run_metadata : (Bool → Text) → StatsResult → History → Option ℕ × History
  dump_run_metadata text result h =
      let (a, h1) = perform os (Call.fopen (codes "run_metadata.txt")) h in
      after_open_metadata text result a h1
