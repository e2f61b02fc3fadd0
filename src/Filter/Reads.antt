-- ===== src/Filter/Reads.antt =====
-- `xdp_filter_ip` looks at no byte outside the frame.
use af_xdp_reimpl.Prelude.{
  ℕ, zero, suc, ◌+◌, ◌≤◌, ◌<◌, ◌≡◌, refl, arith, Option, none, some, lt→ltb, dec_lt,
}
use af_xdp_reimpl.Filter.{XdpMd, Maps, load16, skip_vlans, filter_ip, xdp_filter_ip, vlan_max_depth}

-- Two memories with the same bytes in a range.
abbrev pub Agree : ℕ → ℕ → (ℕ → ℕ) → (ℕ → ℕ) → Type 0
Agree start finish mem mem' = (j : ℕ) → start ≤ j → j < finish → mem j ≡ mem' j

-- A position in the frame or at its end.
module _ (maps : Maps) (mem mem' : ℕ → ℕ) (ctx : XdpMd)
    (same : Agree ctx.start ctx.finish mem mem') where
  skip_vlans_reads :
      (n h_proto cursor : ℕ)
      → ctx.start ≤ cursor
      → skip_vlans n mem ctx.finish h_proto cursor ≡ skip_vlans n mem' ctx.finish h_proto cursor
  unfolding skip_vlans
  skip_vlans_reads zero h_proto cursor h = refl
  skip_vlans_reads (suc n) h_proto cursor h = elim (dec_lt ctx.finish (cursor + 4)) [
    | yes cut ↦ rw (lt→ltb _ _ cut) refl
    | no fits ↦
        let first = same (cursor + 2) (omega arith) (omega arith) in
        let second = same (cursor + 2 + 1) (omega arith) (omega arith) in
        rw (first, second)
          (rw (skip_vlans_reads n (load16 mem' (cursor + 2)) (cursor + 4) (omega arith)) refl)
  ]

  skip_vlans_forward :
      (n h_proto cursor p c : ℕ)
      → skip_vlans n mem' ctx.finish h_proto cursor ≡ some (p, c)
      → cursor ≤ c
  unfolding skip_vlans
  skip_vlans_forward zero h_proto cursor p c h = ground arith
  skip_vlans_forward (suc n) h_proto cursor p c h =
      ground (arith, skip_vlans_forward n (load16 mem' (cursor + 2)) (cursor + 4) p c)

  filter_ip_reads :
      (o : Option (ℕ × ℕ))
      → ((p c : ℕ) → o ≡ some (p, c) → ctx.start ≤ c)
      → filter_ip maps mem ctx o ≡ filter_ip maps mem' ctx o
  filter_ip_reads none h = refl
  filter_ip_reads (some (p, c)) h = elim (dec_lt ctx.finish (c + 20)) [
    | yes cut ↦ rw (lt→ltb _ _ cut) refl
    | no fits ↦
        let later = h p c refl in
        rw
          (
            same (c + 12) (omega arith) (omega arith),
            same (c + 12 + 1) (omega arith) (omega arith),
            same (c + 12 + 2) (omega arith) (omega arith),
            same (c + 12 + 3) (omega arith) (omega arith),
          )
          refl
  ]

  -- The decision depends on the bytes of the frame only: two memories that agree from its start to
  -- its end are treated alike, whatever lies around it.
  pub xdp_filter_ip_reads : xdp_filter_ip maps mem ctx ≡ xdp_filter_ip maps mem' ctx
  unfolding xdp_filter_ip
  xdp_filter_ip_reads = elim (dec_lt ctx.finish (ctx.start + 14)) [
    | yes cut ↦ rw (lt→ltb _ _ cut) refl
    | no fits ↦
        let proto = load16 mem' (ctx.start + 12) in
        rw
          (
            same (ctx.start + 12) (omega arith) (omega arith),
            same (ctx.start + 12 + 1) (omega arith) (omega arith),
            skip_vlans_reads vlan_max_depth proto (ctx.start + 14) (omega arith),
            filter_ip_reads (skip_vlans vlan_max_depth mem' ctx.finish proto (ctx.start + 14))
                (λ p c e.
                  let later = skip_vlans_forward vlan_max_depth proto (ctx.start + 14) p c e in
                  omega arith),
          )
          refl
  ]
