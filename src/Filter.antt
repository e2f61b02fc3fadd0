-- ===== src/Filter.antt =====
-- bpf/xdp_prog_bpf.c: `xdp_filter_ip`, the program that is attached to the interface. It redirects
-- the IPv4 packets of one source to the socket of their queue, and passes all others on. Numbers are
-- loaded in the little-endian order of the hosts that the program is built for; the maps and
-- `bpf_redirect_map` are the kernel's.
pub mod Accept
pub mod Reads
use af_xdp_reimpl.Prelude.{
  ℕ, zero, suc, ◌+◌, ◌*◌, ◌/◌, ◌%◌, Bool, not, ◌&&◌, Option, none, some, ltb, ◌==◌, if◌then◌else◌,
}

-- `xdp_md`: the frame lies at `start` and ends before `finish`.
pub record XdpMd : Type 0 where
  pub start : ℕ
  pub finish : ℕ
  pub rx_queue_index : ℕ

-- `xsks_map` gives the socket of a queue, `target_ip_map` the address at a key.
pub record Maps : Type 0 where
  pub xsks_map : ℕ → Option ℕ
  pub target_ip_map : ℕ → Option ℕ

-- `XDP_PASS` and `XDP_REDIRECT`
pub data Action : Type 0 where
  pass : Action
  redirect : (socket : ℕ) → Action

abbrev pub load16 : (ℕ → ℕ) → ℕ → ℕ
load16 mem at = mem at + 256 * mem (at + 1)

abbrev pub load32 : (ℕ → ℕ) → ℕ → ℕ
load32 mem at = mem at + 256 * mem (at + 1) + 65536 * mem (at + 2) + 16777216 * mem (at + 3)

abbrev pub bpf_htons : ℕ → ℕ
bpf_htons x = x % 256 * 256 + x / 256

abbrev pub eth_p_ip : ℕ
eth_p_ip = 2048

abbrev pub eth_p_8021q : ℕ
eth_p_8021q = 33024

abbrev pub eth_p_8021ad : ℕ
eth_p_8021ad = 34984

abbrev pub vlan_max_depth : ℕ
vlan_max_depth = 2

-- The loop over the VLAN headers, with `n` rounds left: the protocol behind them and the cursor,
-- or none when a header is cut off.
unfoldable pub skip_vlans : ℕ → (ℕ → ℕ) → ℕ → ℕ → ℕ → Option (ℕ × ℕ)
skip_vlans zero mem finish h_proto cursor = some (h_proto, cursor)
skip_vlans (suc n) mem finish h_proto cursor =
    let rest = skip_vlans n mem finish (load16 mem (cursor + 2)) (cursor + 4) in
    if not (h_proto == bpf_htons eth_p_8021q) && not (h_proto == bpf_htons eth_p_8021ad)
    then some (h_proto, cursor)
    else if ltb finish (cursor + 4)
    then none
    else rest

-- `bpf_redirect_map(&xsks_map, queue, XDP_PASS)`: a queue without a socket passes.
abbrev pub redirect_map : Maps → ℕ → Action
redirect_map maps queue = elim (maps.xsks_map queue) [ none ↦ pass | some socket ↦ redirect socket ]

-- The comparison with the address that the map holds.
abbrev pub match_source : Maps → XdpMd → ℕ → Option ℕ → Action
match_source maps ctx saddr none = pass
match_source maps ctx saddr (some target_ip) =
    if not (saddr == target_ip) then pass else redirect_map maps ctx.rx_queue_index

-- The IPv4 header behind the Ethernet and VLAN headers.
abbrev pub filter_ip : Maps → (ℕ → ℕ) → XdpMd → Option (ℕ × ℕ) → Action
filter_ip maps mem ctx none = pass
filter_ip maps mem ctx (some (h_proto, cursor)) =
    if not (h_proto == bpf_htons eth_p_ip)
    then pass
    else if ltb ctx.finish (cursor + 20)
    then pass
    else match_source maps ctx (load32 mem (cursor + 12)) (maps.target_ip_map 0)

unfoldable pub xdp_filter_ip : Maps → (ℕ → ℕ) → XdpMd → Action
xdp_filter_ip maps mem ctx =
    if ltb ctx.finish (ctx.start + 14)
    then pass
    else filter_ip maps mem ctx
        (skip_vlans vlan_max_depth mem ctx.finish (load16 mem (ctx.start + 12)) (ctx.start + 14))
