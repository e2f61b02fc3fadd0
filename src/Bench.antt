-- ===== src/Bench.antt =====
-- include/afxdp/bench.hpp: `reflect_swap`, which turns a received UDP packet round in place; the
-- latency samples have a module of their own. A packet is a span of the memory that is given by the
-- byte at each address; `memcpy` goes through `copy_out` and `copy_in`.
pub mod Swap
pub mod Accept
pub mod Checksum
pub mod Samples
pub mod Calibration
use af_xdp_reimpl.Prelude.{
  ℕ, ◌+◌, ◌-◌, ◌*◌, Bool, true, false, not, ◌&&◌, ◌||◌, bit_and, ltb, leb, ◌==◌, if◌then◌else◌,
}

-- `memcpy` into a local, and from a local of `n` bytes.
abbrev pub copy_out : (ℕ → ℕ) → ℕ → ℕ → ℕ
copy_out mem src = λ i. mem (src + i)

abbrev pub copy_in : (ℕ → ℕ) → ℕ → ℕ → (ℕ → ℕ) → ℕ → ℕ
copy_in mem dst n bytes = λ j. if leb dst j && ltb j (dst + n) then bytes (j - dst) else mem j

-- The bytes of a `std::uint16_t` in network order, as a number.
abbrev pub read_be16 : (ℕ → ℕ) → ℕ → ℕ
read_be16 mem at = mem at * 256 + mem (at + 1)

-- Two fields of `n` bytes change places.
abbrev pub swap_fields : (ℕ → ℕ) → ℕ → ℕ → ℕ → ℕ → ℕ
swap_fields mem a b n = copy_in (copy_in mem a n (copy_out mem b)) b n (copy_out mem a)

abbrev pub reflector_ipv4_mtu : ℕ
reflector_ipv4_mtu = 1500

-- `ETH_P_IP` and `IPPROTO_UDP`
abbrev pub eth_p_ip : ℕ
eth_p_ip = 2048

abbrev pub ipproto_udp : ℕ
ipproto_udp = 17

abbrev pub ethernet : ℕ
ethernet = 14

abbrev pub ipv4 : ℕ
ipv4 = 20

abbrev pub udp : ℕ
udp = 8

-- The swaps at the end of `reflect_swap`: MAC addresses, IP addresses, ports.
abbrev pub swap_endpoints : (ℕ → ℕ) → ℕ → ℕ → ℕ
swap_endpoints mem f =
    let mem1 = swap_fields mem f (f + 6) 6 in
    let mem2 = swap_fields mem1 (f + 26) (f + 30) 4 in swap_fields mem2 (f + 34) (f + 36) 2

-- The last of the tests: the lengths in the headers.
abbrev pub has_bad_lengths : (ℕ → ℕ) → ℕ → ℕ → Bool
has_bad_lengths mem f size =
    let ip_length = read_be16 mem (f + 16) in
    ltb ip_length (ipv4 + udp)
    || ltb (size - ethernet) ip_length
    || not (read_be16 mem (f + 38) == ip_length - ipv4)

-- `reflect_swap` on the `size` bytes at `f`.
unfoldable pub reflect_swap : (ℕ → ℕ) → ℕ → ℕ → Bool × (ℕ → ℕ)
reflect_swap mem f size =
    if ltb size (ethernet + ipv4 + udp) || ltb (ethernet + reflector_ipv4_mtu) size
    then (false, mem)
    else if not (read_be16 mem (f + 12) == eth_p_ip)
        || not (mem (f + 14) == 69)
        || not (mem (f + 23) == ipproto_udp)
    then (false, mem)
    else if not (bit_and (read_be16 mem (f + 20)) 49151 == 0)
    then (false, mem)
    else if has_bad_lengths mem f size
    then (false, mem)
    else (true, swap_endpoints mem f)
