-- ===== src/Tests/ExportTests.antt =====
-- Exports, on a system that grants everything and on one whose disk is full, and the moves of the
-- region and the loader.
use af_xdp_reimpl.Prelude.{
  suc, ◌+◌, ◌-◌, ◌≡◌, refl, [], ◌∷◌, map, Bool, true, some, length, decimal, Text, codes,
}
use af_xdp_reimpl.Os.{Os, Call, Answer, History, failed, gave}
use af_xdp_reimpl.Os.Tidy.{opened, closed}
use af_xdp_reimpl.Xsk.Stats.{stats_error}
use af_xdp_reimpl.Bench.Samples.{Samples, recorded}
use af_xdp_reimpl.Bench.Samples.Report.{report, sort, insert, Ordered, report_lem}
use af_xdp_reimpl.Export.{
  csv_header, dump_csv, dump_run_metadata, after_open_csv, print_unless, print_samples,
  close_stream,
}
use af_xdp_reimpl.Export.Files.{Exports, metadata_texts, dump_csv_lem, dump_run_metadata_lem}
use af_xdp_reimpl.Umem
use af_xdp_reimpl.Umem.{Umem}
use af_xdp_reimpl.Umem.Moves.{region_owns, move_assign-release}
use af_xdp_reimpl.Loader
use af_xdp_reimpl.Loader.{XdpLoader}
use af_xdp_reimpl.Loader.Moves.{move_assign-release_loader}
use af_xdp_reimpl.Loader.Owns.{loader_owns}
use af_xdp_reimpl.Tests.SocketTests.{os}

-- Nothing more can be written once two texts have been.
abbrev full_disk : History → Call → Answer
full_disk (a ∷ b ∷ c ∷ h) (Call.fprintf stream text) = failed 28
full_disk h c = gave (suc (length h))

abbrev full : Os
full = record os { answer = full_disk }

abbrev three_samples : Samples
three_samples = record { buf = λ i. 9 - i; cap = 4; n = 3; dropped = 0; enabled = true }

sorted_samples : recorded (report three_samples) ≡ 7 ∷ 8 ∷ 9 ∷ []
unfolding report sort insert
sorted_samples = refl

csv_needs_room : (dump_csv full decimal (codes "samples.csv") three_samples []).0 ≡ some 28
unfolding dump_csv after_open_csv print_unless print_samples close_stream
csv_needs_room = refl

report_lem_example : Ordered three_samples (report three_samples)
report_lem_example = report_lem three_samples

dump_csv_lem_example :
    Exports full
      (codes "samples.csv")
      (λ _. csv_header ∷ map decimal (9 ∷ 8 ∷ 7 ∷ []))
      []
      (dump_csv full decimal (codes "samples.csv") three_samples [])
dump_csv_lem_example = dump_csv_lem full decimal (codes "samples.csv") three_samples []

abbrev metadata : Bool → Text
metadata known = codes "interface=eth0"

dump_run_metadata_lem_example :
    Exports full
      (codes "run_metadata.txt")
      (metadata_texts full metadata (stats_error 61) [])
      []
      (dump_run_metadata full metadata (stats_error 61) [])
dump_run_metadata_lem_example = dump_run_metadata_lem full metadata (stats_error 61) []

abbrev region : Umem
region = record {
  base = 4096;
  size = 8192;
  cfg = record { num_frames = 4; frame_size = 2048; headroom = 2; use_huge_pages = true };
  uses_hugetlb = true;
}

move_assign-release_example :
    let (regions, h1) = Umem.move_assign os region region [] in
    let h3 = (Umem.release os regions.1 (Umem.release os regions.0 h1).1).1 in
    (closed (λ r. 1) h3 ≡ 0 + region_owns (λ r. 1) region + region_owns (λ r. 1) region)
    × (opened (λ r. 1) h3 ≡ 0)
move_assign-release_example = move_assign-release os (λ r. 1) region region []

abbrev attached : XdpLoader
attached = record {
  obj = some 5;
  ifindex = 2;
  native = true;
  ip_map_fd = 6;
  xsk_map_fd = 7;
  queue_id = 0;
  redirecting = true;
}

move_assign-release_loader_example :
    let (loaders, h1) = Loader.move_assign os attached attached [] in
    let h3 = (Loader.release os loaders.1 (Loader.release os loaders.0 h1).1).1 in
    (closed (λ r. 1) h3 ≡ 0 + loader_owns (λ r. 1) attached + loader_owns (λ r. 1) attached)
    × (opened (λ r. 1) h3 ≡ 0)
move_assign-release_loader_example = move_assign-release_loader os (λ r. 1) attached attached []
