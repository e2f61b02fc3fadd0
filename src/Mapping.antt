-- ===== src/Mapping.antt =====
-- include/afxdp/ring.hpp: a ring as the owner of its mapping: `MmapRing::create`, the moves and
-- `unmap`. Pointers are addresses, and 0 is the null pointer.
use af_xdp_reimpl.Prelude.{
  ℕ, ◌+◌, ◌*◌, ◌%◌, ◌^◌, ◌≡◌, ◌≢◌, refl, ap, arith, ◌∷◌, Bool, Bool-cases, inl, inr, sub32, ◌==◌,
  if◌then◌else◌,
}
use af_xdp_reimpl.Os.{
  Os, Call, Answer, History, Expect, failed, gave, PageOffset, RingOffset, at_mmap_ring, perform,
  attempt, outcome, map_value,
}
use af_xdp_reimpl.Os.Tidy.{Resource, mapping, opened, closed, owned, opens, Tidy, Destroys}

-- The fields of `MmapRing`.
pub record RingHandle : Type 0 where
  pub map_base : ℕ
  pub map_size : ℕ
  pub producer : ℕ
  pub consumer : ℕ
  pub descs : ℕ
  pub flags : ℕ
  pub num_descs : ℕ
  pub mask : ℕ
  pub cached_prod : ℕ
  pub cached_cons : ℕ

-- A ring that was moved from, or not created yet.
abbrev pub empty_handle : RingHandle
empty_handle = record {
  map_base = 0;
  map_size = 0;
  producer = 0;
  consumer = 0;
  descs = 0;
  flags = 0;
  num_descs = 0;
  mask = 0;
  cached_prod = 0;
  cached_cons = 0;
}

-- The fields that `create` sets from the address of the mapping.
abbrev pub handle_at : RingOffset → ℕ → ℕ → ℕ → RingHandle
handle_at ro num_descs map_size base = record empty_handle {
  map_base = base;
  map_size = map_size;
  producer = base + ro.producer;
  consumer = base + ro.consumer;
  descs = base + ro.desc;
  flags = base + ro.flags;
  num_descs = num_descs;
  mask = sub32 num_descs 1;
}

abbrev pub map_size_of : RingOffset → ℕ → ℕ → ℕ
map_size_of ro num_descs desc_size = (ro.desc + num_descs * desc_size) % 2 ^ 64

module _ (os : Os) where
  -- `MmapRing<DescT>::create`, with the size of a descriptor.
  unfoldable pub create :
      ℕ → ℕ → PageOffset → RingOffset → ℕ → History → Expect RingHandle × History
  create desc_size fd pgoff ro num_descs h =
      let size = map_size_of ro num_descs desc_size in
      map_value (handle_at ro num_descs size)
        (attempt os (Call.mmap_ring fd pgoff size) at_mmap_ring h)

  unfoldable pub unmap : RingHandle → History → RingHandle × History
  unmap r h =
      if r.map_base == 0
      then (r, h)
      else (record r { map_base = 0 }, (perform os (Call.munmap r.map_base r.map_size) h).1)

  -- The move constructor: the new ring, and the one moved from.
  unfoldable pub move : RingHandle → RingHandle × RingHandle
  move o = (o, empty_handle)

  -- The move assignment from another ring: the target, and the one moved from.
  unfoldable pub move_assign :
      RingHandle → RingHandle → History → (RingHandle × RingHandle) × History
  move_assign r o h = let (r1, h1) = unmap r h in ((o, empty_handle), h1)

-- What a ring owns.
abbrev pub ring_owns : (Resource → ℕ) → RingHandle → ℕ
ring_owns f r = if r.map_base == 0 then 0 else f (mapping r.map_base r.map_size)

-- A mapping that the kernel chooses the place of is never at address 0.
pub record MapsNonnull (os : Os) : Type 0 where
  pub ring :
      (h : History) (fd : ℕ) (pgoff : PageOffset) (size : ℕ)
      → os.answer h (Call.mmap_ring fd pgoff size) ≢ gave 0
  pub anonymous :
      (h : History) (huge : Bool) (size : ℕ) → os.answer h (Call.mmap_anonymous huge size) ≢ gave 0

pub munmap_opens :
    (f : Resource → ℕ) (base size : ℕ) (a : Answer) → opens f (Call.munmap base size) a ≡ 0
munmap_opens f base size (failed e) = refl
munmap_opens f base size (gave x) = refl

module _ (os : Os) where
  -- `unmap`, the destructor, closes what the ring owns.
  pub unmap-Destroys :
      (r : RingHandle) (f : Resource → ℕ) → Destroys f (ring_owns f r) (λ h. (unmap os r h).1)
  unfolding unmap
  unmap-Destroys r f h = elim (Bool-cases (r.map_base == 0)) [
    | inl nothing ↦ rw nothing (refl, omega arith)
    | inr some ↦
        let none_opened =
          munmap_opens f r.map_base r.map_size (os.answer h (Call.munmap r.map_base r.map_size)) in
        rw some (omega (arith, none_opened), omega arith)
  ]

  handle_owns :
      (f : Resource → ℕ) (ro : RingOffset) (num_descs size x : ℕ)
      → x ≢ 0
      → ring_owns f (handle_at ro num_descs size x) ≡ f (mapping x size)
  handle_owns f ro num_descs size x h = ground arith

  -- A failed `create` leaves nothing mapped.
  pub create-Tidy_ring :
      MapsNonnull os
      → (desc_size fd : ℕ) (pgoff : PageOffset) (ro : RingOffset) (num_descs : ℕ) (h : History)
      → Tidy ring_owns h (create os desc_size fd pgoff ro num_descs h)
  unfolding create
  create-Tidy_ring nonnull desc_size fd pgoff ro num_descs h =
      let size = map_size_of ro num_descs desc_size in
      record {
        balance =
            λ f. go f (os.answer h (Call.mmap_ring fd pgoff size)) (nonnull.ring h fd pgoff size);
      }
    where
      go :
          (f : Resource → ℕ) (a : Answer)
          → a ≢ gave 0
          → let size = map_size_of ro num_descs desc_size in
            let out =
              map_value
                (handle_at ro num_descs size)
                (outcome at_mmap_ring a, (Call.mmap_ring fd pgoff size, a) ∷ h) in
            opened f out.1 + closed f h ≡ opened f h + closed f out.1 + owned ring_owns f out.0
      go f (failed e) some = omega arith
      go f (gave x) some = omega (
        arith,
        handle_owns f ro num_descs (map_size_of ro num_descs desc_size) x (λ e. some (ap gave e)),
      )

  -- After an assignment by move, the two destructors close the mappings of both rings, each once.
  pub move_assign-unmap :
      (r o : RingHandle) (h : History) (f : Resource → ℕ)
      → let (rings, h1) = move_assign os r o h in
        let h3 = (unmap os rings.1 (unmap os rings.0 h1).1).1 in
        closed f h3 ≡ closed f h + ring_owns f r + ring_owns f o
  unfolding move_assign
  move_assign-unmap r o h f =
      let h1 = (unmap os r h).1 in
      let h2 = (unmap os o h1).1 in
      omega (arith, unmap-Destroys r f h, unmap-Destroys o f h1, unmap-Destroys empty_handle f h2)
