-- ===== src/Ring/Producer.antt =====
-- `writable_range`, writing a slot, and `publish_written_entries` on a ring that the engine fills.
use af_xdp_reimpl.Prelude.{
  ℕ, suc, ◌+◌, ◌-◌, ◌^◌, ◌≤◌, ◌<◌, ◌≡◌, arith, add32, sub32, length, List, ◌∷◌, [], ◌++◌, ◌∙◌, sym,
  ap, two-pow-small, bit_and, store,
}
use af_xdp_reimpl.Ring.{
  MmapRing, Range, writable_range, publish_written_entries, set_desc_at, free_n,
}
use af_xdp_reimpl.Ring.Window.{
  window, length-window, window_split, window_shift, window-store_outside, window-store_last,
}
use af_xdp_reimpl.Ring.Roles.{unread, length-contents, contents, IsProducer}

module _ {ℓ} {A : Type ℓ} where
  -- The first `n` slots past the published entries.
  abbrev pub staged : MmapRing A → ℕ → List A
  staged r n = window r.descs r.mask r.cached_prod 0 n

  -- What a producer may rely on after a query for `n` slots.
  pub record Writable (k : ℕ) (r : MmapRing A) (n : ℕ) (out : Range × MmapRing A) : Type ℓ where
    pub valid : IsProducer k out.1
    pub start : out.0.start ≡ r.producer
    pub here : out.0.start ≡ out.1.cached_prod
    pub within : out.0.amount ≤ n
    pub free : out.0.amount ≤ free_n out.1
    pub room : out.0.amount + length (contents r) ≤ 2 ^ k
    pub short : out.0.amount < n → out.0.amount + length (contents r) ≡ 2 ^ k
    pub kept : contents out.1 ≡ contents r
    pub grown : free_n r ≤ free_n out.1
    pub all : r.num_descs ≤ n → out.0.amount ≡ free_n out.1
    pub slots : (m : ℕ) → staged out.1 m ≡ staged r m
    pub cached : out.1.cached_prod ≡ r.cached_prod

  pub length-staged : (r : MmapRing A) (n : ℕ) → length (staged r n) ≡ n
  length-staged r n = length-window r.descs r.mask r.cached_prod 0 n

  -- A query grants slots that hold no unread entry, all that were asked for or else all that
  -- there are.
  pub writable_range_lem :
      {k : ℕ} {r : MmapRing A} (n : ℕ) → IsProducer k r → Writable k r n (writable_range r n)
  unfolding writable_range
  writable_range_lem {k} {r} n v =
      let P = two-pow-small k v.shape.small in
      let L = length-contents r in
      record {
        valid = ground arith;
        start = ground arith;
        here = ground arith;
        within = ground arith;
        free = ground arith;
        room = ground arith;
        short = ground arith;
        kept = ground arith;
        grown = ground arith;
        all = ground arith;
        slots = λ m. ground arith;
        cached = ground arith;
      }

  -- Writing a free slot overwrites no unread entry.
  pub set_desc_at_lem :
      {k : ℕ} {r : MmapRing A} (i : ℕ) (x : A)
      → IsProducer k r
      → i < free_n r
      → let r' = set_desc_at r (add32 r.cached_prod i) x in
        IsProducer k r' × (contents r' ≡ contents r) × (staged r' (suc i) ≡ staged r i ++ x ∷ [])
  set_desc_at_lem {k} {r} i x v h =
      let P = two-pow-small k v.shape.small in
      let same : add32 r.cached_prod i ≡ add32 r.consumer (unread r + i) = omega arith in
      (
        ground arith,
        ap (λ (t : ℕ). window (store r.descs (bit_and t r.mask) x) r.mask r.consumer 0 (unread r))
              same
            ∙ window-store_outside r.descs r.mask k r.consumer 0 (unread r) (unread r + i) x
                (omega arith) v.shape.masked (omega arith) (omega arith),
        window-store_last r.descs r.mask k r.cached_prod i x (omega arith) v.shape.masked
            (omega arith),
      )

  -- Publishing appends the entries that were written, in order.
  pub publish_written_entries_lem :
      {k : ℕ} {r : MmapRing A} (amount : ℕ)
      → IsProducer k r
      → amount ≤ free_n r
      → let r' = publish_written_entries r amount in
        IsProducer k r'
        × (contents r' ≡ contents r ++ staged r amount)
        × (free_n r' ≡ free_n r - amount)
  unfolding publish_written_entries
  publish_written_entries_lem {k} {r} amount v h =
      let P = two-pow-small k v.shape.small in
      let grown : sub32 (add32 r.cached_prod amount) r.consumer ≡ unread r + amount = omega arith in
      let from : r.cached_prod ≡ add32 r.consumer (unread r) = omega arith in
      let at : unread r + 0 ≡ 0 + unread r = omega arith in
      let tail : staged r amount ≡ window r.descs r.mask r.consumer (0 + unread r) amount =
        ap (λ (s : ℕ). window r.descs r.mask s 0 amount) from
        ∙ window_shift r.descs r.mask r.consumer (unread r) 0 amount
        ∙ ap (λ (i : ℕ). window r.descs r.mask r.consumer i amount) at in
      (
        ground arith,
        ap (window r.descs r.mask r.consumer 0) grown
            ∙ window_split r.descs r.mask r.consumer 0 (unread r) amount
            ∙ ap (◌++◌ (contents r)) (sym tail),
        omega arith,
      )
