-- ===== src/Ring/Consumer.antt =====
-- `readable_range` and `release_consumed_entries` on a ring that the engine consumes.
use af_xdp_reimpl.Prelude.{
  ℕ, ◌+◌, ◌-◌, ◌≤◌, ◌<◌, ◌≡◌, arith, add32, sub32, take, drop, [], ◌∙◌, sym, ap, ap₂, two-pow-small,
}
use af_xdp_reimpl.Ring.{MmapRing, Range, readable_range, release_consumed_entries, cached_entries}
use af_xdp_reimpl.Ring.Window.{window, take-window, drop-window, window_shift}
use af_xdp_reimpl.Ring.Roles.{contents, IsConsumer}

module _ {ℓ} {A : Type ℓ} where
  -- What a consumer may rely on after a query for at most `batch` entries.
  pub record Readable (k : ℕ) (r : MmapRing A) (batch : ℕ) (out : Range × MmapRing A) : Type ℓ where
    pub valid : IsConsumer k out.1
    pub start : out.0.start ≡ r.consumer
    pub here : out.0.start ≡ out.1.consumer
    pub within : out.0.amount ≤ batch
    pub cached : out.0.amount ≤ cached_entries out.1
    pub prompt : 0 < batch → out.0.amount ≡ 0 → contents r ≡ []
    pub kept : contents out.1 ≡ contents r
    pub entries :
        window out.1.descs out.1.mask out.0.start 0 out.0.amount ≡ take out.0.amount (contents r)

  abbrev published : MmapRing A → ℕ
  published r = sub32 r.producer r.consumer

  contents_nil : (r : MmapRing A) → published r ≡ 0 → contents r ≡ []
  contents_nil r e = ap (window r.descs r.mask r.consumer 0) e

  readable_range-IsConsumer :
      {k : ℕ} {r : MmapRing A} (batch : ℕ)
      → IsConsumer k r
      → IsConsumer k (readable_range r batch).1
  unfolding readable_range
  readable_range-IsConsumer batch v = ground arith

  readable_range_numbers :
      {k : ℕ} {r : MmapRing A} (batch : ℕ)
      → IsConsumer k r
      → let (range, r') = readable_range r batch in
        (range.start ≡ r.consumer)
        × (range.amount ≤ batch)
        × (range.amount ≤ cached_entries r')
        × (range.amount ≤ published r)
        × (0 < batch → range.amount ≡ 0 → published r ≡ 0)
  unfolding readable_range
  readable_range_numbers batch v = ground arith

  readable_range_fixes :
      (r : MmapRing A) (batch : ℕ)
      → let r' = (readable_range r batch).1 in
        (r'.descs ≡ r.descs)
        × (r'.mask ≡ r.mask)
        × (contents r' ≡ contents r)
        × (r'.consumer ≡ r.consumer)
  unfolding readable_range
  readable_range_fixes r batch = ground arith

  -- A query returns a prefix of the published entries, no longer than asked for, and empty only
  -- if there is none; it consumes nothing.
  pub readable_range_lem :
      {k : ℕ} {r : MmapRing A} (batch : ℕ)
      → IsConsumer k r
      → Readable k r batch (readable_range r batch)
  readable_range_lem {k} {r} batch v =
      let n = readable_range_numbers batch v in
      let f = readable_range_fixes r batch in
      record {
        valid = readable_range-IsConsumer batch v;
        start = n.0;
        here = n.0 ∙ sym f.3;
        within = n.1;
        cached = n.2;
        prompt = λ h e. contents_nil r (n.4 h e);
        kept = f.2;
        entries =
            rw (f.0, f.1, n.0)
              (sym (
                take-window r.descs r.mask r.consumer 0 (readable_range r batch).0.amount
                  (published r) n.3));
      }

  -- Releasing entries that were read drops exactly those.
  pub release_consumed_entries_lem :
      {k : ℕ} {r : MmapRing A} (amount : ℕ)
      → IsConsumer k r
      → amount ≤ cached_entries r
      → let r' = release_consumed_entries r amount in
        IsConsumer k r'
        × (contents r' ≡ drop amount (contents r))
        × (cached_entries r' ≡ cached_entries r - amount)
  unfolding release_consumed_entries
  release_consumed_entries_lem {k} {r} amount v h =
      let P = two-pow-small k v.shape.small in
      let unread : sub32 r.producer (add32 r.cached_cons amount) ≡ published r - amount =
        omega arith in
      let moved : add32 r.cached_cons amount ≡ add32 r.consumer amount = omega arith in
      let origin : amount + 0 ≡ 0 + amount = omega arith in
      (
        ground arith,
        ap₂ (λ (s n : ℕ). window r.descs r.mask s 0 n) moved unread
            ∙ window_shift r.descs r.mask r.consumer amount 0 (published r - amount)
            ∙ ap (λ (i : ℕ). window r.descs r.mask r.consumer i (published r - amount)) origin
            ∙ sym (drop-window r.descs r.mask r.consumer 0 amount (published r) (omega arith)),
        omega arith,
      )
