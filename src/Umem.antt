-- ===== src/Umem.antt =====
-- include/afxdp/umem.hpp: the region of the frames and its mapping.
pub mod Moves
use af_xdp_reimpl.Prelude.{
  ℕ, ◌+◌, ◌*◌, ◌%◌, ◌^◌, ◌≡◌, ◌≢◌, refl, ap, sym, ◌∙◌, arith, ◌∷◌, Bool, true, false, ◌==◌,
  if◌then◌else◌,
}
use af_xdp_reimpl.Os.{
  Os, Call, Answer, History, Expect, unexpected, value, failed, gave, at_setrlimit, at_mmap_umem,
  at_mlock, perform, attempt, outcome, and_then, map_value,
}
use af_xdp_reimpl.Os.Tidy.{
  Resource, mapping, opened, closed, owned, Tidy, attempt-Tidy, and_then-Tidy, and_then-Tidy_owning,
}
use af_xdp_reimpl.Mapping.{MapsNonnull, munmap_opens}

pub record UmemConfig : Type 0 where
  pub num_frames : ℕ
  pub frame_size : ℕ
  pub headroom : ℕ
  pub use_huge_pages : Bool

abbrev pub total_size : UmemConfig → ℕ
total_size cfg = cfg.num_frames * cfg.frame_size % 2 ^ 64

pub record Umem : Type 0 where
  pub base : ℕ
  pub size : ℕ
  pub cfg : UmemConfig
  pub uses_hugetlb : Bool

-- The mapping of standard pages; the flag says whether huge pages were used.
abbrev standard_at : ℕ → ℕ × Bool
standard_at base = (base, false)

abbrev pub map_standard : Os → ℕ → History → Expect (ℕ × Bool) × History
map_standard os total h =
    map_value standard_at (attempt os (Call.mmap_anonymous false total) at_mmap_umem h)

-- What follows the attempt at huge pages, which ended so.
abbrev pub after_huge : Os → ℕ → History → Answer → Expect (ℕ × Bool) × History
after_huge os total h (failed e) = map_standard os total h
after_huge os total h (gave base) = (value (base, true), h)

-- Huge pages first, if they are wanted.
abbrev pub map_region : Os → Bool → ℕ → History → Expect (ℕ × Bool) × History
map_region os false total h = map_standard os total h
map_region os true total h =
    let (a, h1) = perform os (Call.mmap_anonymous true total) h in after_huge os total h1 a

-- `errno` after a failure with `e` and a later call.
abbrev pub errno_after : ℕ → Answer → ℕ
errno_after e (failed e') = e'
errno_after e (gave x) = e

-- What follows `mlock`, which ended so: a region that cannot be locked is unmapped.
abbrev pub after_mlock : Os → Umem → History → Answer → Expect Umem × History
after_mlock os u h (gave x) = (value u, h)
after_mlock os u h (failed e) =
    let (a, h1) = perform os (Call.munmap u.base u.size) h in
    (unexpected (record { code = errno_after e a; context = at_mlock }), h1)

abbrev pub lock_region : Os → Umem → History → Expect Umem × History
lock_region os u h = let (a, h1) = perform os (Call.mlock u.base u.size) h in after_mlock os u h1 a

unfoldable pub create : Os → UmemConfig → History → Expect Umem × History
create os cfg h =
    let total = total_size cfg in
    and_then (attempt os Call.setrlimit_memlock at_setrlimit h) (λ _ h1.
      and_then (map_region os cfg.use_huge_pages total h1) (λ region h2.
        lock_region os
          (record { base = region.0; size = total; cfg = cfg; uses_hugetlb = region.1 }) h2))

unfoldable pub release : Os → Umem → History → Umem × History
release os u h =
    if u.base == 0
    then (u, h)
    else (record u { base = 0; size = 0 }, (perform os (Call.munmap u.base u.size) h).1)

-- What a moved-from region is left with.
abbrev pub emptied : Umem → Umem
emptied o = record o { base = 0; size = 0 }

-- The move constructor: the new region, and the one moved from.
unfoldable pub move : Umem → Umem × Umem
move o = (o, emptied o)

-- The move assignment from another region: the target, and the one moved from.
unfoldable pub move_assign : Os → Umem → Umem → History → (Umem × Umem) × History
move_assign os u o h = let (u1, h1) = release os u h in ((o, emptied o), h1)

abbrev pub umem_owns : (Resource → ℕ) → Umem → ℕ
umem_owns f u = f (mapping u.base u.size)

abbrev region_owns : ℕ → (Resource → ℕ) → ℕ × Bool → ℕ
region_owns total f region = f (mapping region.0 total)

module _ (os : Os) where
  map_standard-Tidy :
      (total : ℕ) (h : History) → Tidy (region_owns total) h (map_standard os total h)
  map_standard-Tidy total h = record {
    balance = λ f. go f (os.answer h (Call.mmap_anonymous false total));
  }
    where
      go :
          (f : Resource → ℕ) (a : Answer)
          → let out =
              map_value standard_at
                (outcome at_mmap_umem a, (Call.mmap_anonymous false total, a) ∷ h) in
            opened f out.1 + closed f h
            ≡ opened f h + closed f out.1 + owned (region_owns total) f out.0
      go f (failed e) = omega arith
      go f (gave x) = omega arith

  map_region-Tidy :
      (huge : Bool) (total : ℕ) (h : History)
      → Tidy (region_owns total) h (map_region os huge total h)
  map_region-Tidy false total h = map_standard-Tidy total h
  map_region-Tidy true total h = record {
    balance = λ f. go f (os.answer h (Call.mmap_anonymous true total));
  }
    where
      go :
          (f : Resource → ℕ) (a : Answer)
          → let out = after_huge os total ((Call.mmap_anonymous true total, a) ∷ h) a in
            opened f out.1 + closed f h
            ≡ opened f h + closed f out.1 + owned (region_owns total) f out.0
      go f (failed e) = omega (
        arith,
        (map_standard-Tidy total ((Call.mmap_anonymous true total, failed e) ∷ h)).balance f,
      )
      go f (gave x) = omega arith

  lock_region_owning :
      (u : Umem) (h : History) (f : Resource → ℕ)
      → let out = lock_region os u h in
        opened f out.1 + closed f h + umem_owns f u
        ≡ opened f h + closed f out.1 + owned umem_owns f out.0
  lock_region_owning u h f = go (os.answer h (Call.mlock u.base u.size))
    where
      go :
          (a : Answer)
          → let out = after_mlock os u ((Call.mlock u.base u.size, a) ∷ h) a in
            opened f out.1 + closed f h + umem_owns f u
            ≡ opened f h + closed f out.1 + owned umem_owns f out.0
      go (gave x) = omega arith
      go (failed e) =
          let h1 = (Call.mlock u.base u.size, failed e) ∷ h in
          omega (arith, munmap_opens f u.base u.size (os.answer h1 (Call.munmap u.base u.size)))

  -- A failed creation of the region leaves nothing mapped, and a successful one just the region.
  pub create-Tidy_region : (cfg : UmemConfig) (h : History) → Tidy umem_owns h (create os cfg h)
  unfolding create
  create-Tidy_region cfg h =
      let total = total_size cfg in
      and_then-Tidy umem_owns h (attempt os Call.setrlimit_memlock at_setrlimit h) _
        (attempt-Tidy (λ f _. 0) os Call.setrlimit_memlock at_setrlimit h (λ f x. refl) (λ f. refl))
        (λ _ h1.
          and_then-Tidy_owning (region_owns total) umem_owns h1
            (map_region os cfg.use_huge_pages total h1) _
            (map_region-Tidy cfg.use_huge_pages total h1)
            (λ region h2 _ f.
              lock_region_owning
                (record { base = region.0; size = total; cfg = cfg; uses_hugetlb = region.1 }) h2
                f))

and_then_value :
    {A B : Type 0} (out : Expect A × History) (next : A → History → Expect B × History) (b : B)
    → (and_then out next).0 ≡ value b
    → (a : A) × (h1 : History) × (out ≡ (value a, h1)) × ((next a h1).0 ≡ value b)
and_then_value (unexpected e, h1) next b h = cc
and_then_value (value a, h1) next b h = (a, h1, refl, h)

module _ (os : Os) (nonnull : MapsNonnull os) where
  after_mlock_base :
      (u u' : Umem) (h : History) (a : Answer)
      → (after_mlock os u h a).0 ≡ value u'
      → u'.base ≡ u.base
  after_mlock_base u u' h (gave x) e = ground arith
  after_mlock_base u u' h (failed x) e = cc

  mapped :
      (huge : Bool) (total : ℕ) (h : History) (a : Answer)
      → a ≢ gave 0
      → (r : ℕ × Bool)
      → (map_value standard_at (outcome at_mmap_umem a, (Call.mmap_anonymous huge total, a) ∷ h)).0
        ≡ value r
      → r.0 ≢ 0
  mapped huge total h (failed x) given r e = cc
  mapped huge total h (gave x) given r e = λ null. given (ground arith)

  map_region_nonnull :
      (huge : Bool) (total : ℕ) (h : History) (r : ℕ × Bool)
      → (map_region os huge total h).0 ≡ value r
      → r.0 ≢ 0
  map_region_nonnull false total h r e =
      mapped false total h (os.answer h (Call.mmap_anonymous false total))
        (nonnull.anonymous h false total) r e
  map_region_nonnull true total h r e =
      go (os.answer h (Call.mmap_anonymous true total)) (nonnull.anonymous h true total) e
    where
      go :
          (a : Answer)
          → a ≢ gave 0
          → (after_huge os total ((Call.mmap_anonymous true total, a) ∷ h) a).0 ≡ value r
          → r.0 ≢ 0
      go (failed x) given e1 =
          let h1 = (Call.mmap_anonymous true total, failed x) ∷ h in
          mapped false total h1 (os.answer h1 (Call.mmap_anonymous false total))
            (nonnull.anonymous h1 false total) r e1
      go (gave x) given e1 = λ null. given (ground arith)

  -- A region that was created is not at the null address.
  pub create_nonnull :
      (cfg : UmemConfig) (h : History) (u : Umem) → (create os cfg h).0 ≡ value u → u.base ≢ 0
  unfolding create
  create_nonnull cfg h u e =
      let total = total_size cfg in
      let first = and_then_value (attempt os Call.setrlimit_memlock at_setrlimit h) _ u e in
      let h1 = first.1 in
      let second = and_then_value (map_region os cfg.use_huge_pages total h1) _ u first.3 in
      let region = second.0 in
      let h2 = second.1 in
      let u1 : Umem = record {
        base = region.0;
        size = total;
        cfg = cfg;
        uses_hugetlb = region.1;
      } in
      let same =
        after_mlock_base u1 u
          ((Call.mlock region.0 total, os.answer h2 (Call.mlock region.0 total)) ∷ h2)
          (os.answer h2 (Call.mlock region.0 total)) second.3 in
      let given =
        map_region_nonnull cfg.use_huge_pages total h1 region
          (ap (λ (x : Expect (ℕ × Bool) × History). x.0) second.2) in
      λ null. given (sym same ∙ null)
