-- ===== src/Bench/Accept.antt =====
-- Which packets `reflect_swap` turns round, and what it does to them.
use af_xdp_reimpl.Prelude.{
  ℕ, ◌+◌, ◌*◌, ◌/◌, ◌%◌, ◌^◌, ◌≤◌, ◌<◌, ◌≡◌, refl, ◌⊎◌, ◌↔◌, arith, Bool, true, false, not, ◌||◌,
  bit_and, ltb, ◌==◌, Bool-cases, inl, inr,
}
use af_xdp_reimpl.Prelude.Bits.{bit_and_low, bit_and_high, bit_and_split}
use af_xdp_reimpl.Bench.{
  read_be16, has_bad_lengths, reflect_swap, eth_p_ip, ipproto_udp, ethernet, ipv4, udp,
  reflector_ipv4_mtu,
}
use af_xdp_reimpl.Bench.Swap.{origin, swap_endpoints_inside, swap_endpoints_outside}

-- A whole UDP packet in one IPv4 packet without options, in an Ethernet frame of a size for the
-- link, whose headers agree on the lengths.
pub record IsReflectable (mem : ℕ → ℕ) (f size : ℕ) : Type 0 where
  pub headers_fit : 42 ≤ size
  pub link_fits : size ≤ 1514
  pub ether_type : read_be16 mem (f + 12) ≡ eth_p_ip
  pub version : mem (f + 14) / 16 ≡ 4
  pub header_words : mem (f + 14) % 16 ≡ 5
  pub protocol : mem (f + 23) ≡ ipproto_udp
  pub whole : (read_be16 mem (f + 20) ≡ 0) ⊎ (read_be16 mem (f + 20) ≡ 2 ^ 14)
  pub ip_header : 28 ≤ read_be16 mem (f + 16)
  pub ip_length : 14 + read_be16 mem (f + 16) ≤ size
  pub udp_length : read_be16 mem (f + 38) + 20 ≡ read_be16 mem (f + 16)

-- Bit 14, "don't fragment", is the only one that the mask lets pass.
fragment_bits : (x : ℕ) → bit_and x 49151 ≡ 2 * (x / 2 ^ 14 / 2 % 2) * 2 ^ 14 + x % 2 ^ 14
fragment_bits x =
    omega
      (arith, bit_and_split 14 x 2, bit_and_high 1 (x / 2 ^ 14) 1, bit_and_low 1 (x / 2 ^ 14 / 2))

fragment_test : (x : ℕ) → x < 2 ^ 16 → (bit_and x 49151 ≡ 0) ↔ ((x ≡ 0) ⊎ (x ≡ 2 ^ 14))
fragment_test x h = grind (arith, fragment_bits x)

-- The packet is turned round: addresses and ports change places, and no other byte changes.
pub record Reflected (mem : ℕ → ℕ) (f size : ℕ) (out : Bool × (ℕ → ℕ)) : Type 0 where
  pub ok : out.0 ≡ true
  pub shape : IsReflectable mem f size
  pub inside : (i : ℕ) → out.1 (f + i) ≡ mem (f + origin i)
  pub outside : (j : ℕ) → j < f → out.1 j ≡ mem j

-- The packet is of another shape and stays as it is.
pub record Unsupported (mem : ℕ → ℕ) (f size : ℕ) (out : Bool × (ℕ → ℕ)) : Type 0 where
  pub ok : out.0 ≡ false
  pub shape : ¬ IsReflectable mem f size
  pub same : out.1 ≡ mem

-- `reflect_swap` accepts exactly the packets of the supported shape, turns those round, and leaves
-- all bytes of the others unchanged.
pub reflect_swap_lem :
    (mem : ℕ → ℕ) (f size : ℕ)
    → ((a : ℕ) → mem a < 256)
    → Reflected mem f size (reflect_swap mem f size)
      ⊎ Unsupported mem f size (reflect_swap mem f size)
unfolding reflect_swap
reflect_swap_lem mem f size bytes =
    let flags = read_be16 mem (f + 20) in
    let word : flags < 2 ^ 16 = omega (arith, bytes (f + 20), bytes (f + 21)) in
    let df = fragment_test flags word in
    elim (Bool-cases
      (ltb size (ethernet + ipv4 + udp) || ltb (ethernet + reflector_ipv4_mtu) size)) [
        | inl bad ↦ rw bad (inr (record { ok = refl; shape = λ r. ground arith; same = refl }))
        | inr fits ↦
            rw fits
              (elim (Bool-cases (
                not (read_be16 mem (f + 12) == eth_p_ip)
                || not (mem (f + 14) == 69)
                || not (mem (f + 23) == ipproto_udp))) [
                  | inl bad ↦
                      rw bad (inr (record { ok = refl; shape = λ r. ground arith; same = refl }))
                  | inr kind ↦ rw kind (elim (Bool-cases (not (bit_and flags 49151 == 0))) [
                    | inl bad ↦
                        rw bad (inr (record { ok = refl; shape = λ r. ground arith; same = refl }))
                    | inr unfragmented ↦
                        rw unfragmented (elim (Bool-cases (has_bad_lengths mem f size)) [
                          | inl bad ↦
                              rw bad
                                (inr (record { ok = refl; shape = λ r. ground arith; same = refl }))
                          | inr lengths ↦ rw lengths (
                              inl (record {
                                ok = refl;
                                shape = record {
                                  headers_fit = ground arith;
                                  link_fits = ground arith;
                                  ether_type = ground arith;
                                  version = ground arith;
                                  header_words = ground arith;
                                  protocol = ground arith;
                                  whole = df.0 (ground arith);
                                  ip_header = ground arith;
                                  ip_length = ground arith;
                                  udp_length = ground arith;
                                };
                                inside = swap_endpoints_inside mem f;
                                outside = swap_endpoints_outside mem f;
                              }))
                        ])
                  ])
                ])
      ]
