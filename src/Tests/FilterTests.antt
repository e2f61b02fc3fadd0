-- ===== src/Tests/FilterTests.antt =====
-- The XDP program on a packet behind one VLAN tag, and on a truncated one.
use af_xdp_reimpl.Prelude.{
  ℕ, ◌≡◌, ◌↔◌, refl, List, [], ◌∷◌, some, ltb, get_or, if◌then◌else◌, if_true, sym, lt→ltb,
}
use af_xdp_reimpl.Filter.{XdpMd, Maps, pass, redirect, xdp_filter_ip, skip_vlans}
use af_xdp_reimpl.Filter.Accept.{IsWanted, AreBytes, xdp_filter_ip_lem}
use af_xdp_reimpl.Filter.Reads.{Agree, xdp_filter_ip_reads}
use af_xdp_reimpl.Tests.ReflectorTests.{all_bytes, get_or_byte}

-- An IPv4 header from 10.0.0.1 behind the tag of VLAN 5.
abbrev tagged_bytes : List ℕ
tagged_bytes =
    1 ∷ 2 ∷ 3 ∷ 4 ∷ 5 ∷ 6 ∷ 11 ∷ 12 ∷ 13 ∷ 14 ∷ 15 ∷ 16 ∷ 129 ∷ 0 ∷ 0 ∷ 5 ∷ 8 ∷ 0 ∷ 69 ∷ 0 ∷ 0 ∷ 20
    ∷ 0 ∷ 1 ∷ 64 ∷ 0 ∷ 64 ∷ 17 ∷ 0 ∷ 0 ∷ 10 ∷ 0 ∷ 0 ∷ 1 ∷ 10 ∷ 0 ∷ 0 ∷ 2 ∷ []

abbrev tagged : ℕ → ℕ
tagged a = get_or tagged_bytes a 0

tagged_fit : AreBytes tagged
tagged_fit a = get_or_byte tagged_bytes a (unfold all_bytes in refl)

abbrev maps : Maps
maps = record { xsks_map = λ queue. some 9; target_ip_map = λ key. some 16777226 }

abbrev whole : XdpMd
whole = record { start = 0; finish = 38; rx_queue_index = 0 }

redirected : xdp_filter_ip maps tagged whole ≡ redirect 9
unfolding xdp_filter_ip skip_vlans
redirected = refl

cut_off : xdp_filter_ip maps tagged (record whole { finish = 37 }) ≡ pass
unfolding xdp_filter_ip skip_vlans
cut_off = refl

xdp_filter_ip_lem_example :
    (xdp_filter_ip maps tagged whole ≡ redirect 9)
    ↔ (IsWanted maps tagged whole × (maps.xsks_map 0 ≡ some 9))
xdp_filter_ip_lem_example = xdp_filter_ip_lem maps tagged whole tagged_fit 9

-- The same frame with other bytes behind it.
abbrev followed : ℕ → ℕ
followed a = if ltb a 38 then tagged a else 7

followed-Agree : Agree 0 38 tagged followed
followed-Agree j above below = sym (if_true _ _ (lt→ltb j 38 below))

xdp_filter_ip_reads_example : xdp_filter_ip maps tagged whole ≡ xdp_filter_ip maps followed whole
xdp_filter_ip_reads_example = xdp_filter_ip_reads maps tagged followed whole followed-Agree
