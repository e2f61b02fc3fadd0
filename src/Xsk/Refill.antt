-- ===== src/Xsk/Refill.antt =====
-- `refill_fill` moves frames from the allocator to the fill ring, as many as fit.
use af_xdp_reimpl.Prelude.{
  ℕ, zero, suc, ◌+◌, ◌^◌, ◌≤◌, ◌<◌, ◌≡◌, refl, ap, sym, ◌∙◌, List, [], ◌∷◌, ◌++◌, arith, add32,
  length, length-append, none, some, Bool-cases, dec_lt, ltb, if◌then◌else◌, length-eq-zero, inl,
  inr, subst, ap₂, append_assoc, append-nil, two-pow-small,
}
use af_xdp_reimpl.Ring.{
  MmapRing, writable_range, publish_written_entries, free_n, set_desc_at, capacity,
}
use af_xdp_reimpl.Ring.Roles.{contents, IsProducer}
use af_xdp_reimpl.Ring.Producer.{
  staged, writable_range_lem, set_desc_at_lem, publish_written_entries_lem,
}
use af_xdp_reimpl.FrameAllocator.{FrameAllocator, alloc}
use af_xdp_reimpl.FrameAllocator.Stack.{IsValid, available, alloc_lem}
use af_xdp_reimpl.Xsk.{refill_loop, refill_fill}

-- What the loop has done: the frames `xs` went from the top of the stack into the next slots.
pub record Refilled (k n pushed : ℕ) (fill : MmapRing ℕ) (a : FrameAllocator)
    (out : ℕ × MmapRing ℕ × FrameAllocator) : Type 0 where
  pub moved : List ℕ
  pub number : out.0 ≡ pushed + length moved
  pub limit : length moved ≤ n
  pub frames : available a ≡ moved ++ available out.2
  pub ring : IsProducer k out.1
  pub kept : contents out.1 ≡ contents fill
  pub slots : staged out.1 out.0 ≡ staged fill pushed ++ moved
  pub allocator : IsValid out.2
  pub full : length moved < n → available out.2 ≡ []
  pub free : free_n out.1 ≡ free_n fill
  pub capacity : out.2.capacity ≡ a.capacity

refill_loop-none :
    (n start pushed : ℕ) (fill : MmapRing ℕ) (a : FrameAllocator)
    → (alloc a).0 ≡ none
    → refill_loop (suc n) start pushed fill a ≡ (pushed, fill, (alloc a).1)
unfolding refill_loop
refill_loop-none n start pushed fill a e = rw (e, refill_loop)

refill_loop-some :
    (n start pushed x : ℕ) (fill : MmapRing ℕ) (a : FrameAllocator)
    → (alloc a).0 ≡ some x
    → refill_loop (suc n) start pushed fill a
      ≡ refill_loop n start (add32 pushed 1) (set_desc_at fill (add32 start pushed) x) (alloc a).1
unfolding refill_loop
refill_loop-some n start pushed x fill a e = rw (e, refill_loop)

refill_some :
    {k : ℕ} (n pushed x : ℕ) (fill : MmapRing ℕ) (a : FrameAllocator)
    → IsProducer k fill
    → pushed + suc n ≤ free_n fill
    → IsValid (alloc a).1
    → available a ≡ x ∷ available (alloc a).1
    → (alloc a).1.capacity ≡ a.capacity
    → (out : ℕ × MmapRing ℕ × FrameAllocator)
    → Refilled k n
        (add32 pushed 1)
        (set_desc_at fill (add32 fill.cached_prod pushed) x)
        (alloc a).1
        out
    → Refilled k (suc n) pushed fill a out
refill_some {k} n pushed x fill a v h w top room out r =
    let P = two-pow-small k v.shape.small in
    let wrote = set_desc_at_lem pushed x v (omega arith) in
    let one_more : add32 pushed 1 ≡ suc pushed = omega arith in
    record {
      moved = x ∷ r.moved;
      number = omega (arith, r.number);
      limit = omega (arith, r.limit);
      frames = top ∙ ap (◌∷◌ x) r.frames;
      ring = r.ring;
      kept = r.kept ∙ wrote.1;
      slots =
          r.slots
          ∙ ap (λ (t : ℕ). staged (set_desc_at fill (add32 fill.cached_prod pushed) x) t ++ r.moved)
              one_more
          ∙ ap (λ ys. ys ++ r.moved) wrote.2
          ∙ append_assoc (staged fill pushed) (x ∷ []) r.moved;
      allocator = r.allocator;
      full = λ l. r.full (omega arith);
      free = r.free;
      capacity = r.capacity ∙ room;
    }

refill_loop_lem :
    {k : ℕ} (n pushed : ℕ) (fill : MmapRing ℕ) (a : FrameAllocator)
    → IsProducer k fill
    → IsValid a
    → pushed + n ≤ free_n fill
    → Refilled k n pushed fill a (refill_loop n fill.cached_prod pushed fill a)
refill_loop_lem zero pushed fill a v w h =
    unfold refill_loop in
    record {
      moved = [];
      number = omega arith;
      limit = omega arith;
      frames = refl;
      ring = v;
      kept = refl;
      slots = sym (append-nil _);
      allocator = w;
      full = λ l. absurd (omega arith);
      free = refl;
      capacity = refl;
    }
refill_loop_lem {k} (suc n) pushed fill a v w h = elim (alloc_lem a w) [
  | inl (e, empty, same) ↦ rw (refill_loop-none n fill.cached_prod pushed fill a e) (record {
    moved = [];
    number = omega arith;
    limit = omega arith;
    frames = ap available (sym same);
    ring = v;
    kept = refl;
    slots = sym (append-nil _);
    allocator = subst IsValid (sym same) w;
    full = λ _. ap available same ∙ empty;
    free = refl;
    capacity = ap (λ (b : FrameAllocator). b.capacity) same;
  })
  | inr (x, e, top, w', room) ↦
      let wrote = set_desc_at_lem pushed x v (omega arith) in
      rw (refill_loop-some n fill.cached_prod pushed x fill a e) (
        refill_some n pushed x fill a v h w' top room _ (
          refill_loop_lem n (add32 pushed 1) (set_desc_at fill (add32 fill.cached_prod pushed) x)
            (alloc a).1 wrote.0 w' (omega arith)))
]

-- What a refill promises: the frames `moved` left the allocator in its order and stand behind the
-- entries that were in the fill ring, and it stopped for want of slots or of frames.
pub record Refill (k : ℕ) (fill : MmapRing ℕ) (a : FrameAllocator)
    (out : ℕ × MmapRing ℕ × FrameAllocator) : Type 0 where
  pub moved : List ℕ
  pub number : out.0 ≡ length moved
  pub frames : available a ≡ moved ++ available out.2
  pub entries : contents out.1 ≡ contents fill ++ moved
  pub ring : IsProducer k out.1
  pub allocator : IsValid out.2
  pub capacity : out.2.capacity ≡ a.capacity
  pub full : length (contents out.1) < 2 ^ k → available out.2 ≡ []

finish :
    {k : ℕ} (n : ℕ) (fill fill' : MmapRing ℕ) (a : FrameAllocator)
    (out : ℕ × MmapRing ℕ × FrameAllocator)
    → Refilled k n 0 fill' a out
    → n ≤ free_n fill'
    → contents fill' ≡ contents fill
    → 2 ^ k ≤ n + length (contents fill)
    → Refill k fill a
        (out.0, (if ltb 0 out.0 then publish_written_entries out.1 out.0 else out.1), out.2)
finish {k} n fill fill' a out r room same short =
    let published =
      publish_written_entries_lem out.0 r.ring (omega (arith, r.number, r.limit, r.free)) in
    let total = length-append (contents fill) r.moved in
    elim (Bool-cases (ltb 0 out.0)) [
      | inl e ↦ rw e (record {
        moved = r.moved;
        number = omega (arith, r.number);
        frames = r.frames;
        entries = published.1 ∙ ap₂ ◌++◌ (r.kept ∙ same) r.slots;
        ring = published.0;
        allocator = r.allocator;
        capacity = r.capacity;
        full = λ l. r.full (
            omega (
              arith,
              r.limit,
              short,
              total,
              ap length (published.1 ∙ ap₂ ◌++◌ (r.kept ∙ same) r.slots),
            ));
      })
      | inr e ↦
          let none_moved : r.moved ≡ [] = length-eq-zero r.moved (ground (arith, r.number)) in
          let entries : contents out.1 ≡ contents fill ++ r.moved =
            r.kept
            ∙ same
            ∙ sym (append-nil (contents fill))
            ∙ ap (◌++◌ (contents fill)) (sym none_moved) in
          rw e (record {
            moved = r.moved;
            number = omega (arith, r.number);
            frames = r.frames;
            entries = entries;
            ring = r.ring;
            allocator = r.allocator;
            capacity = r.capacity;
            full = λ l. r.full (omega (arith, r.limit, short, total, ap length entries));
          })
    ]

-- The fill ring gets frames from the allocator until it is full or no frame is left; none is lost.
pub refill_fill_lem :
    {k : ℕ} (fill : MmapRing ℕ) (a : FrameAllocator)
    → IsProducer k fill
    → IsValid a
    → Refill k fill a (refill_fill fill a)
unfolding refill_fill
refill_fill_lem {k} fill a v w =
    let W = writable_range_lem (capacity fill) v in
    let (range, fill') = writable_range fill (capacity fill) in
    finish range.amount fill fill' a (refill_loop range.amount range.start 0 fill' a)
      (subst (λ (t : ℕ). Refilled k range.amount 0 fill' a (refill_loop range.amount t 0 fill' a))
        (sym W.here) (refill_loop_lem range.amount 0 fill' a W.valid w (omega (arith, W.free))))
      W.free W.kept
      (elim (dec_lt range.amount (2 ^ k)) [
        | yes l ↦ omega (arith, W.short (omega arith))
        | no l ↦ omega arith
      ])
