-- ===== src/Umem/Moves.antt =====
-- The destructor of the region, and its moves.
use af_xdp_reimpl.Prelude.{ℕ, ◌+◌, ◌≡◌, refl, arith, ◌==◌, if◌then◌else◌, Bool-cases, inl, inr}
use af_xdp_reimpl.Os.{Os, Call, History}
use af_xdp_reimpl.Os.Tidy.{Resource, mapping, opened, closed, Destroys}
use af_xdp_reimpl.Mapping.{munmap_opens}
use af_xdp_reimpl.Umem.{Umem, release, emptied, move_assign}

-- What a region owns; one at the null address owns nothing.
abbrev pub region_owns : (Resource → ℕ) → Umem → ℕ
region_owns f u = if u.base == 0 then 0 else f (mapping u.base u.size)

module _ (os : Os) (f : Resource → ℕ) where
  pub release-Destroys_region : (u : Umem) → Destroys f (region_owns f u) (λ h. (release os u h).1)
  unfolding release
  release-Destroys_region u h = elim (Bool-cases (u.base == 0)) [
    | inl nothing ↦ rw nothing (refl, omega arith)
    | inr some ↦
        let none_opened = munmap_opens f u.base u.size (os.answer h (Call.munmap u.base u.size)) in
        rw some (omega (arith, none_opened), omega arith)
  ]

  -- After an assignment by move, the destructors of both regions unmap both mappings, each once.
  pub move_assign-release :
      (u o : Umem) (h : History)
      → let (regions, h1) = move_assign os u o h in
        let h3 = (release os regions.1 (release os regions.0 h1).1).1 in
        (closed f h3 ≡ closed f h + region_owns f u + region_owns f o) × (opened f h3 ≡ opened f h)
  unfolding move_assign
  move_assign-release u o h =
      let h1 = (release os u h).1 in
      let h2 = (release os o h1).1 in
      let first = release-Destroys_region u h in
      let second = release-Destroys_region o h1 in
      let third = release-Destroys_region (emptied o) h2 in
      (omega (arith, first.1, second.1, third.1), omega (arith, first.0, second.0, third.0))
