-- ===== src/Filter/Accept.antt =====
-- Which frames `xdp_filter_ip` redirects.
use af_xdp_reimpl.Prelude.{ℕ, ◌+◌, ◌≤◌, ◌<◌, ◌≡◌, ◌↔◌, ◌⊎◌, arith, some}
use af_xdp_reimpl.Bench.{read_be16}
use af_xdp_reimpl.Filter.{XdpMd, Maps, redirect, load32, filter_ip, skip_vlans, xdp_filter_ip}

abbrev pub AreBytes : (ℕ → ℕ) → Type 0
AreBytes mem = (j : ℕ) → mem j < 256

-- An 802.1Q or 802.1ad tag announces itself.
abbrev pub IsTagAt : (ℕ → ℕ) → ℕ → Type 0
IsTagAt mem at = (read_be16 mem at ≡ 33024) ⊎ (read_be16 mem at ≡ 34984)

-- The type field at `at` announces an IPv4 header, which follows whole and has the target's address
-- as its source.
abbrev pub IsFrom : Maps → (ℕ → ℕ) → XdpMd → ℕ → Type 0
IsFrom maps mem ctx at =
    (read_be16 mem at ≡ 2048)
    × (at + 22 ≤ ctx.finish)
    × (maps.target_ip_map 0 ≡ some (load32 mem (at + 14)))

-- The same behind no tag, one tag or two.
abbrev pub IsWanted : Maps → (ℕ → ℕ) → XdpMd → Type 0
IsWanted maps mem ctx =
    let at = ctx.start + 12 in
    IsFrom maps mem ctx at
    ⊎ (IsTagAt mem at × IsFrom maps mem ctx (at + 4))
    ⊎ (IsTagAt mem at × IsTagAt mem (at + 4) × IsFrom maps mem ctx (at + 8))

module _ (maps : Maps) (mem : ℕ → ℕ) (ctx : XdpMd) (bytes : AreBytes mem) where
  filter_ip_lem :
      (h_proto cursor socket : ℕ)
      → (filter_ip maps mem ctx (some (h_proto, cursor)) ≡ redirect socket) ↔ (
          (h_proto ≡ 8)
          × (cursor + 20 ≤ ctx.finish)
          × (maps.target_ip_map 0 ≡ some (load32 mem (cursor + 12)))
          × (maps.xsks_map ctx.rx_queue_index ≡ some socket))
  filter_ip_lem h_proto cursor socket = ground arith

  xdp_filter_ip_sound :
      (socket : ℕ)
      → xdp_filter_ip maps mem ctx ≡ redirect socket
      → IsWanted maps mem ctx × (maps.xsks_map ctx.rx_queue_index ≡ some socket)
  unfolding xdp_filter_ip skip_vlans
  xdp_filter_ip_sound socket h =
      let at = ctx.start + 12 in
      ground (
        arith,
        bytes at,
        bytes (at + 1),
        bytes (at + 4),
        bytes (at + 5),
        bytes (at + 8),
        bytes (at + 9),
      )

  xdp_filter_ip_complete :
      (socket : ℕ)
      → IsWanted maps mem ctx
      → maps.xsks_map ctx.rx_queue_index ≡ some socket
      → xdp_filter_ip maps mem ctx ≡ redirect socket
  unfolding xdp_filter_ip skip_vlans
  xdp_filter_ip_complete socket w h =
      let at = ctx.start + 12 in
      ground (
        arith,
        bytes at,
        bytes (at + 1),
        bytes (at + 4),
        bytes (at + 5),
        bytes (at + 8),
        bytes (at + 9),
      )

  -- If memory holds bytes, the program redirects a frame to a socket exactly when that socket is the
  -- one of the frame's queue and, behind at most two VLAN tags, a whole IPv4 header follows whose
  -- source is the target address.
  pub xdp_filter_ip_lem :
      (socket : ℕ)
      → (xdp_filter_ip maps mem ctx ≡ redirect socket)
        ↔ (IsWanted maps mem ctx × (maps.xsks_map ctx.rx_queue_index ≡ some socket))
  xdp_filter_ip_lem socket =
      (xdp_filter_ip_sound socket, λ w. xdp_filter_ip_complete socket w.0 w.1)
