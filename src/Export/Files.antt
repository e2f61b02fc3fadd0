-- ===== src/Export/Files.antt =====
-- The two exports as a whole: what an export that reports no error has written, what an error means,
-- and that the file is closed.
use af_xdp_reimpl.Prelude.{
  ℕ, ◌+◌, ◌<◌, ◌≡◌, ◌≢◌, refl, ap, sym, ◌∙◌, subst, arith, List, [], ◌∷◌, map, Text, codes, ◌==◌,
  Bool, true, false, ◌++◌, append-nil, if_true, decimal, if◌then◌else◌, Option, none, some,
  Bool-cases, inl, inr, ◌⊎◌,
}
use af_xdp_reimpl.Os.{Os, Call, Answer, History, failed, gave}
use af_xdp_reimpl.Os.Tidy.{Resource, opened, closed}
use af_xdp_reimpl.Os.Quiet.{call-Quiet}
use af_xdp_reimpl.Os.Troubles.{troubles}
use af_xdp_reimpl.Xsk.Stats.{StatsResult, KernelStats, stats, stats_error, has_ring_counters}
use af_xdp_reimpl.Bench.Samples.{Samples, recorded, firsts, slice, firsts-slice}
use af_xdp_reimpl.Export.{
  or_eio, io_error, result_of, csv_header, error_text, counters_text, ring_text, print_unless,
  close_stream, print_samples, after_open_csv, dump_csv, print_kernel_stats, is_success,
  print_stats_unless, after_open_metadata, dump_run_metadata,
}
use af_xdp_reimpl.Export.Prints.{
  printed, failures, Prints, unless-Prints, print-Prints, samples-Prints,
}

-- An export to the file at `path`: it reports no error exactly when no call on the file failed, and
-- then the stream that the file was opened on has got the texts that belong there; the file is closed
-- again if it was opened.
pub record Exports (os : Os) (path : Text) (texts : ℕ → List Text) (h : History)
    (out : Option ℕ × History) : Type 0 where
  pub balance : (f : Resource → ℕ) → opened f out.1 + closed f h ≡ opened f h + closed f out.1
  pub counted : troubles out.1 + failures h ≡ troubles h + failures out.1
  pub verdict :
      ((stream : ℕ) × (os.answer h (Call.fopen path) ≡ gave stream)
        × (out.0 ≡ none)
        × (printed stream out.1 ≡ texts stream)
        × (failures out.1 ≡ failures h))
      ⊎ ((e : ℕ) × (out.0 ≡ some e) × (failures h < failures out.1))

-- A line `name=value`, and several.
abbrev pub line : Text → Text → Text
line name value = name ++ (b'=' ∷ value) ++ b'\n' ∷ []

abbrev pub lines_from : Text → List (Text × Text) → Text
lines_from before [] = before
lines_from before (x ∷ more) = lines_from (before ++ line x.0 x.1) more

abbrev pub lines : List (Text × Text) → Text
lines [] = []
lines (x ∷ more) = lines_from (line x.0 x.1) more

-- A counter that only newer kernels return.
abbrev pub newer : KernelStats → ℕ → Text
newer s n = if s.returned_bytes == 48 then decimal n else codes "unavailable"

-- The two texts of the kernel's counters, or the one of the error.
abbrev pub stats_texts : StatsResult → List Text
stats_texts (stats_error e) = line (codes "kernel_stats_errno") (decimal e) ∷ []
stats_texts (stats s) =
    lines (
      (codes "kernel_stats_returned_bytes", decimal s.returned_bytes)
      ∷ (codes "kernel_rx_dropped", decimal s.counters.rx_dropped)
      ∷ (codes "kernel_rx_invalid_descs", decimal s.counters.rx_invalid_descs)
      ∷ (codes "kernel_tx_invalid_descs", decimal s.counters.tx_invalid_descs)
      ∷ [])
    ∷ lines (
        (codes "kernel_rx_ring_full", newer s s.counters.rx_ring_full)
        ∷ (codes "kernel_rx_fill_ring_empty_descs", newer s s.counters.rx_fill_ring_empty_descs)
        ∷ (codes "kernel_tx_ring_empty_descs", newer s s.counters.tx_ring_empty_descs)
        ∷ [])
    ∷ []

ring_text-lines :
    (s : KernelStats)
    → ring_text s ∷ []
      ≡ lines (
          (codes "kernel_rx_ring_full", newer s s.counters.rx_ring_full)
          ∷ (codes "kernel_rx_fill_ring_empty_descs", newer s s.counters.rx_fill_ring_empty_descs)
          ∷ (codes "kernel_tx_ring_empty_descs", newer s s.counters.tx_ring_empty_descs)
          ∷ [])
        ∷ []
unfolding has_ring_counters
ring_text-lines s = elim (Bool-cases (s.returned_bytes == 48)) [
  | inl full ↦ rw full refl
  | inr legacy ↦ rw legacy refl
]

-- The answer of `uname` that names the host.
abbrev pub names_host : Answer → Bool
names_host (gave x) = true
names_host (failed e) = false

module _ (os : Os) where
  -- A file is opened, printed to, and closed.
  close-Exports :
      (path : Text) (stream error : ℕ) (texts : ℕ → List Text) (h h2 : History)
      → os.answer h (Call.fopen path) ≡ gave stream
      → Prints stream (texts stream) ((Call.fopen path, gave stream) ∷ h) error h2
      → Exports os path texts h (close_stream os error stream h2)
  unfolding close_stream
  close-Exports path stream error texts h h2 opens_it p =
      let a = os.answer h2 (Call.fclose stream) in
      record {
        balance = λ f. balanced f a;
        counted = tallied a;
        verdict = elim (Bool-cases (error == 0)) [
          | inl fine ↦
              let d = p.done (ground arith) in
              rw fine (ending (d.0 ∙ ap (λ l. l ++ texts stream) (if_true _ _ again), d.1) a)
          | inr wrong ↦
              let nonzero : error ≢ 0 = ground arith in
              rw (wrong, wrong) (inr (error, refl, late (p.flawed nonzero) a))
        ];
      }
    where
      again : (stream == stream) ≡ true
      again = ground arith

      tallied :
          (a : Answer)
          → let h3 = (Call.fclose stream, a) ∷ h2 in
            troubles h3 + failures h ≡ troubles h + failures h3
      tallied (failed e) = omega (arith, p.counted)
      tallied (gave x) = omega (arith, p.counted)

      balanced :
          (f : Resource → ℕ) (a : Answer)
          → opened f ((Call.fclose stream, a) ∷ h2) + closed f h
            ≡ opened f h + closed f ((Call.fclose stream, a) ∷ h2)
      balanced f (failed e) = let q = p.quiet f in omega (arith, q.same_opened, q.same_closed)
      balanced f (gave x) = let q = p.quiet f in omega (arith, q.same_opened, q.same_closed)

      late :
          failures h < failures h2
          → (a : Answer) → failures h < failures ((Call.fclose stream, a) ∷ h2)
      late more (failed e) = omega arith
      late more (gave x) = more

      ending :
          (printed stream h2 ≡ texts stream) × (failures h2 ≡ failures h)
          → (a : Answer)
          → let h3 = (Call.fclose stream, a) ∷ h2 in
            ((s : ℕ) × (os.answer h (Call.fopen path) ≡ gave s)
              × (result_of (io_error a) ≡ none)
              × (printed s h3 ≡ texts s)
              × (failures h3 ≡ failures h))
            ⊎ ((e : ℕ) × (result_of (io_error a) ≡ some e) × (failures h < failures h3))
      ending d (gave x) = inl (stream, opens_it, refl, d.0, d.1)
      ending d (failed e) = inr (or_eio e, ground arith, omega (arith, d.1))

  -- `format` is how a sample is printed. `Samples::dump_csv` reports no error exactly when no call on
  -- the file failed, and the file holds the header and all recorded samples then, in the order of the
  -- buffer, one each; whatever fails, the file is closed if it was opened.
  pub dump_csv_lem :
      (format : ℕ → Text) (path : Text) (s : Samples) (h : History)
      → let header = codes "callback_tx_staging_ns" ++ b'\n' ∷ [] in
        Exports os path (λ _. header ∷ map format (recorded s)) h (dump_csv os format path s h)
  unfolding dump_csv after_open_csv
  dump_csv_lem format path s h = go (os.answer h (Call.fopen path)) refl
    where
      go :
          (a : Answer)
          → os.answer h (Call.fopen path) ≡ a
          → Exports os path
              (λ _. csv_header ∷ map format (recorded s))
              h
              (after_open_csv os format s a ((Call.fopen path, a) ∷ h))
      go (failed e) opens_it = record {
        balance = λ f. omega arith;
        counted = omega arith;
        verdict = inr (e, refl, omega arith);
      }
      go (gave stream) opens_it =
          let h0 = (Call.fopen path, gave stream) ∷ h in
          let (e, h1) = print_unless os 0 stream csv_header h0 in
          let first = print-Prints os stream csv_header h0 in
          let all = samples-Prints os format stream s s.n 0 e (csv_header ∷ []) h0 h1 first in
          let (e2, h2) = print_samples os format stream s s.n 0 e h1 in
          let whole : s.n + 0 ≡ s.n = omega arith in
          let same : slice s.buf 0 s.n ≡ recorded s =
            sym (firsts-slice s.buf 0 s.n) ∙ ap (firsts s.buf) whole in
          close-Exports path stream e2 (λ _. csv_header ∷ map format (recorded s)) h h2 opens_it
            (subst (λ xs. Prints stream (csv_header ∷ map format xs) h0 e2 h2) same all)

  kernel_stats-Prints :
      (stream : ℕ) (result : StatsResult) (h : History)
      → let out = print_kernel_stats os stream result h in
        Prints stream (stats_texts result) h out.0 out.1
  unfolding print_kernel_stats
  kernel_stats-Prints stream (stats_error e) h = print-Prints os stream (error_text e) h
  kernel_stats-Prints stream (stats s) h =
      let (e, h1) = print_unless os 0 stream (counters_text s) h in
      let out = print_unless os e stream (ring_text s) h1 in
      subst (λ (t : List Text). Prints stream (counters_text s ∷ t) h out.0 out.1)
        (ring_text-lines s)
        (unfold print_unless in
          unless-Prints stream (counters_text s ∷ []) (ring_text s ∷ []) h h1 e _
            (print-Prints os stream (counters_text s) h) (print-Prints os stream (ring_text s) h1))

  uname-Prints :
      (stream : ℕ) (h : History) (a : Answer) → Prints stream [] h 0 ((Call.uname, a) ∷ h)
  uname-Prints stream h (failed e) = record {
    quiet = λ f. call-Quiet f Call.uname h (failed e) (λ x. refl) refl;
    done = λ z. (sym (append-nil (printed stream h)), refl);
    flawed = λ z. absurd (z refl);
    counted = refl;
  }
  uname-Prints stream h (gave x) = record {
    quiet = λ f. call-Quiet f Call.uname h (gave x) (λ x1. refl) refl;
    done = λ z. (sym (append-nil (printed stream h)), refl);
    flawed = λ z. absurd (z refl);
    counted = refl;
  }

  -- The host is known when `uname` does not fail.
  known_host : (a : Answer) → is_success os a ≡ names_host a
  known_host (failed e) = refl
  known_host (gave x) = refl

  abbrev metadata_file : Text
  metadata_file = codes "run_metadata.txt"

  -- What belongs in the file of the metadata.
  abbrev pub metadata_texts : (Bool → Text) → StatsResult → History → ℕ → List Text
  metadata_texts text result h stream =
      let uname = os.answer ((Call.fopen (codes "run_metadata.txt"), gave stream) ∷ h) Call.uname in
      text (names_host uname) ∷ stats_texts result

  -- `text` is how the metadata read with a known and with an unknown host. `dump_run_metadata`
  -- reports no error exactly when no call on the file failed, and the file holds then the metadata,
  -- with a known host exactly when `uname` did not fail, and behind them the kernel's counters, one
  -- in a line, or the error of their query; whatever fails, the file is closed if it was opened.
  pub dump_run_metadata_lem :
      (text : Bool → Text) (result : StatsResult) (h : History)
      → Exports os
          (codes "run_metadata.txt")
          (metadata_texts text result h)
          h
          (dump_run_metadata os text result h)
  unfolding dump_run_metadata after_open_metadata print_stats_unless
  dump_run_metadata_lem text result h = go (os.answer h (Call.fopen metadata_file)) refl
    where
      go :
          (a : Answer)
          → os.answer h (Call.fopen metadata_file) ≡ a
          → Exports os metadata_file
              (metadata_texts text result h)
              h
              (after_open_metadata os text result a ((Call.fopen metadata_file, a) ∷ h))
      go (failed e) opens_it = record {
        balance = λ f. omega arith;
        counted = omega arith;
        verdict = inr (e, refl, omega arith);
      }
      go (gave stream) opens_it =
          let h0 = (Call.fopen metadata_file, gave stream) ∷ h in
          let host = os.answer h0 Call.uname in
          let first_text = text (is_success os host) in
          let h1 = (Call.uname, host) ∷ h0 in
          let (e, h2) = print_unless os 0 stream first_text h1 in
          let (e2, h3) = print_stats_unless os e stream result h2 in
          let first =
            unless-Prints stream [] (first_text ∷ []) h0 h1 0 _ (uname-Prints stream h0 host)
              (print-Prints os stream first_text h1) in
          close-Exports metadata_file stream e2 (metadata_texts text result h) h h3 opens_it (
            subst (λ (b : Bool). Prints stream (text b ∷ stats_texts result) h0 e2 h3)
              (known_host host)
              (unless-Prints stream (first_text ∷ []) (stats_texts result) h0 h2 e _ first
                (kernel_stats-Prints stream result h2)))
