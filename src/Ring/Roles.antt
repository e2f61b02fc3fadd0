-- ===== src/Ring/Roles.antt =====
-- The invariants of a ring from the side that the engine plays: it consumes the RX and completion
-- rings, and produces for the fill and TX rings.
use af_xdp_reimpl.Prelude.{ℕ, ◌-◌, ◌^◌, ◌≤◌, ◌<◌, ◌≡◌, List, length, sub32}
use af_xdp_reimpl.Ring.{MmapRing}
use af_xdp_reimpl.Ring.Window.{window, length-window}

module _ {ℓ} {A : Type ℓ} where
  -- How many entries have been published and not yet consumed.
  abbrev pub unread : MmapRing A → ℕ
  unread r = sub32 r.producer r.consumer

  -- Those entries, oldest first.
  abbrev pub contents : MmapRing A → List A
  contents r = window r.descs r.mask r.consumer 0 (unread r)

  pub length-contents : (r : MmapRing A) → length (contents r) ≡ unread r
  length-contents r = length-window r.descs r.mask r.consumer 0 (unread r)

  -- A ring of `2 ^ k` descriptors whose indices are `std::uint32_t` values.
  pub record IsShaped (k : ℕ) (r : MmapRing A) : Type 0 where
    pub small : k ≤ 31
    pub size : r.num_descs ≡ 2 ^ k
    pub masked : r.mask ≡ 2 ^ k - 1
    pub producer_word : r.producer < 2 ^ 32
    pub consumer_word : r.consumer < 2 ^ 32
    pub prod_word : r.cached_prod < 2 ^ 32
    pub cons_word : r.cached_cons < 2 ^ 32

  -- The consumer index is the engine's; the kernel's producer index is at or past the cached one.
  pub record IsConsumer (k : ℕ) (r : MmapRing A) : Type 0 where
    pub shape : IsShaped k r
    pub own : r.consumer ≡ r.cached_cons
    pub behind : sub32 r.cached_prod r.cached_cons ≤ sub32 r.producer r.cached_cons
    pub fits : sub32 r.producer r.cached_cons ≤ 2 ^ k

  -- The producer index is the engine's; the kernel's consumer index is at or past the cached one.
  pub record IsProducer (k : ℕ) (r : MmapRing A) : Type 0 where
    pub shape : IsShaped k r
    pub own : r.producer ≡ r.cached_prod
    pub behind : sub32 r.cached_prod r.consumer ≤ sub32 r.cached_prod r.cached_cons
    pub fits : sub32 r.cached_prod r.cached_cons ≤ 2 ^ k
