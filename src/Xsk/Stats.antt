-- ===== src/Xsk/Stats.antt =====
-- include/afxdp/xsk.hpp: `kernel_stats`.
use af_xdp_reimpl.Prelude.{ℕ, Bool, not, ◌&&◌, ◌==◌, if◌then◌else◌}
use af_xdp_reimpl.Os.{Os, Call, Answer, History, failed, gave, Counters, perform}

pub record KernelStats : Type 0 where
  pub counters : Counters
  pub returned_bytes : ℕ

-- The size of `xdp_statistics`, and of its first three fields, which older kernels return.
abbrev pub full_size : ℕ
full_size = 48

abbrev pub legacy_size : ℕ
legacy_size = 24

abbrev pub eproto : ℕ
eproto = 71

unfoldable pub has_ring_counters : KernelStats → Bool
has_ring_counters s = s.returned_bytes == full_size

pub data StatsResult : Type 0 where
  stats_error : (error : ℕ) → StatsResult
  stats : (s : KernelStats) → StatsResult

-- The value of a successful `getsockopt` is the number of bytes that it returned.
unfoldable pub check_size : Counters → Answer → StatsResult
check_size counters (failed e) = stats_error e
check_size counters (gave bytes) =
    if not (bytes == legacy_size) && not (bytes == full_size)
    then stats_error eproto
    else stats (record { counters = counters; returned_bytes = bytes })

unfoldable pub kernel_stats : Os → ℕ → History → StatsResult × History
unfolding check_size
kernel_stats os fd h =
    let (a, h1) = perform os (Call.xdp_statistics fd) h in (check_size (os.statistics h1) a, h1)
