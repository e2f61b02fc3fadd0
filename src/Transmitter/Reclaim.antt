-- ===== src/Transmitter/Reclaim.antt =====
-- `reclaim_completed_frames`: what the completion ring reports goes back to the allocator.
use af_xdp_reimpl.Prelude.{
  ℕ, zero, suc, ◌+◌, ◌^◌, ◌≤◌, ◌<◌, ◌≡◌, ◌≢◌, refl, ap, sym, ◌∙◌, subst, arith, [], add32, bit_and,
  take, length, length-drop, weigh, weigh-take-drop, weigh_ext, Bool-cases, ◌==◌, inl, inr,
}
use af_xdp_reimpl.Prelude.Bits.{bit_and_again}
use af_xdp_reimpl.Ring.{MmapRing, Range, desc_at, readable_range, cached_entries}
use af_xdp_reimpl.Ring.Window.{window}
use af_xdp_reimpl.Ring.Roles.{contents, length-contents, IsConsumer}
use af_xdp_reimpl.Ring.Consumer.{readable_range_lem, release_consumed_entries_lem}
use af_xdp_reimpl.FrameAllocator.{FrameAllocator, free}
use af_xdp_reimpl.FrameAllocator.Stack.{IsValid, available, free_lem, length-available}
use af_xdp_reimpl.Kernel.{Kernel}
use af_xdp_reimpl.Kernel.Contract.{Held, Sizes, Obeys, chunk}
use af_xdp_reimpl.Transmitter.{
  Engine, free_completed, set_completion, meanwhile, reclaim_some, reclaim_completed_frames,
}
use af_xdp_reimpl.Transmitter.Invariant.{Ledger, Inv, Keeps-Inv, number_of_frames, at_addr}

-- What the loop has done: the chunks of `n` entries are on the stack.
pub record Freed (n start i mask : ℕ) (ring : MmapRing ℕ) (a a' : FrameAllocator) : Type 0 where
  pub valid : IsValid a'
  pub number : a'.count ≡ a.count + n
  pub capacity : a'.capacity ≡ a.capacity
  pub frames :
      (g : ℕ → ℕ)
      → weigh g (available a')
        ≡ weigh g (available a)
          + weigh (λ x. g (bit_and x mask)) (window ring.descs ring.mask start i n)

free_completed_lem :
    (n start i mask : ℕ) (ring : MmapRing ℕ) (a : FrameAllocator)
    → IsValid a
    → a.count + n ≤ a.capacity
    → i + n < 2 ^ 32
    → Freed n start i mask ring a (free_completed n start i mask ring a)
unfolding free_completed
free_completed_lem zero start i mask ring a v room small = record {
  valid = v;
  number = omega arith;
  capacity = refl;
  frames = λ g. omega arith;
}
free_completed_lem (suc n) start i mask ring a v room small =
    let x = bit_and (desc_at ring (add32 start i)) mask in
    let freed = free_lem a x v (omega arith) in
    let next : add32 i 1 ≡ i + 1 = omega arith in
    let one_more : (free a x).count ≡ a.count + 1 =
      omega (arith, ap length freed.1, length-available a, length-available (free a x)) in
    let rest =
      free_completed_lem n start (add32 i 1) mask ring (free a x) freed.0 (omega (arith, freed.2))
        (omega arith) in
    record {
      valid = rest.valid;
      number = omega (arith, rest.number);
      capacity = rest.capacity ∙ freed.2;
      frames = λ g. omega (
        arith,
        rest.frames g,
        ap (weigh g) freed.1,
        ap (λ (t : ℕ). weigh (λ y. g (bit_and y mask)) (window ring.descs ring.mask start t n))
            next,
      );
    }

-- The range is a prefix of the completion ring, known to the engine.
record IsPrefix (ring : MmapRing ℕ) (range : Range) : Type 0 where
  cached : range.amount ≤ cached_entries ring
  published : range.amount ≤ length (contents ring)
  entries :
      window ring.descs ring.mask range.start 0 range.amount ≡ take range.amount (contents ring)

module _ {S : Type 0} (held : Held S) (z : Sizes) (l : Ledger) where
  set_completion-Inv :
      (e : Engine S) (ring : MmapRing ℕ)
      → Inv held z l e
      → IsConsumer z.completion ring
      → contents ring ≡ contents e.io.xsk.completion
      → Inv held z l (set_completion e ring)
  set_completion-Inv e ring v c same = record {
    rings = record { rx = v.rings.rx; completion = c; fill = v.rings.fill; tx = v.rings.tx };
    alloc = v.alloc;
    room = v.room;
    mask = v.mask;
    books = v.books;
    window = λ r. let w = v.window r in record { start = w.start; used = w.used; avail = w.avail };
    idle = v.idle;
    processed = v.processed;
    conserved = λ f. rw same (v.conserved f);
    counted = rw same v.counted;
  }

  module _ (e : Engine S) (range : Range) (v : Inv held z l e) where
    abbrev ring : MmapRing ℕ
    ring = e.io.xsk.completion

    chunk_again :
        (f : ℕ → ℕ) (x : ℕ) → at_addr held z f (bit_and x e.tx.frame_mask) ≡ at_addr held z f x
    chunk_again f x =
        ap f (ap (chunk z.frame_mask) (ap (bit_and x) v.mask) ∙ bit_and_again x z.frame_mask)

    reclaim_some-Freed :
        IsPrefix ring range
        → Freed range.amount range.start 0 e.tx.frame_mask ring e.alloc (reclaim_some e range).alloc
    unfolding reclaim_some
    reclaim_some-Freed p =
        free_completed_lem range.amount range.start 0 e.tx.frame_mask ring e.alloc v.alloc
          (omega (arith, number_of_frames held z e v, v.processed, v.room, p.published))
          (omega
            (arith, number_of_frames held z e v, v.processed, v.room, p.published, v.alloc.word))

    reclaim_some_counted :
        IsPrefix ring range
        → (range.amount ≤ e.tx.outstanding)
          × ((reclaim_some e range).tx.outstanding + range.amount ≡ e.tx.outstanding)
    unfolding reclaim_some
    reclaim_some_counted p = omega (
      arith,
      number_of_frames held z e v,
      v.processed,
      v.room,
      v.alloc.word,
      v.alloc.fits,
      v.counted,
      p.published,
    )

    reclaim_some-Inv : IsPrefix ring range → Inv held z l (reclaim_some e range)
    unfolding reclaim_some
    reclaim_some-Inv p =
        let F = reclaim_some-Freed p in
        let C = reclaim_some_counted p in
        let R = release_consumed_entries_lem range.amount v.rings.completion p.cached in
        record {
          rings = record {
            rx = v.rings.rx;
            completion = R.0;
            fill = v.rings.fill;
            tx = v.rings.tx;
          };
          alloc = F.valid;
          room = subst (λ (t : ℕ). length l.frames ≤ t) (sym F.capacity) v.room;
          mask = v.mask;
          books = omega (arith, v.books, C);
          window =
              λ r. let w = v.window r in record { start = w.start; used = w.used; avail = w.avail };
          idle = v.idle;
          processed = v.processed;
          conserved = λ f. omega (
            arith,
            v.conserved f,
            F.frames (at_addr held z f),
            weigh_ext (λ x. at_addr held z f (bit_and x e.tx.frame_mask)) (at_addr held z f)
                (window ring.descs ring.mask range.start 0 range.amount) (chunk_again f),
            ap (weigh (at_addr held z f)) p.entries,
            weigh-take-drop (at_addr held z f) range.amount (contents ring),
            ap (weigh (at_addr held z f)) R.1,
          );
          counted = omega (
            arith,
            v.counted,
            C,
            ap length R.1,
            length-drop range.amount (contents ring),
            p.published,
          );
        }

  -- What a pass over the completion ring promises of its result, from the engine `e` on.
  pub record Reclaimed (k : Kernel S) (budget : ℕ) (e : Engine S) (out : ℕ × Engine S)
      : Type 0 where
    pub inv : Inv held z l out.1
    pub within : out.0 ≤ budget
    pub returned : out.1.tx.outstanding + out.0 ≡ e.tx.outstanding
    pub gained : out.1.alloc.count ≡ e.alloc.count + out.0
    pub untouched :
        (out.1.tx.tx_used ≡ e.tx.tx_used)
        × (out.1.tx.reserved ≡ e.tx.reserved)
        × (out.1.tx.frames_submitted ≡ e.tx.frames_submitted)
        × (out.1.tx.retryable_wakeup_errors ≡ e.tx.retryable_wakeup_errors)
        × (out.1.tx.first_wakeup_error ≡ e.tx.first_wakeup_error)
    pub ready : 0 < budget → contents (k.run e.io).xsk.completion ≢ [] → 0 < out.0
    pub all_reaped : 0 < budget → out.0 ≡ 0 → contents out.1.io.xsk.completion ≡ []

  -- `reclaim_completed_frames` takes at most the budget, moves just those frames from the
  -- completion ring to the allocator, never frees more than is outstanding, and returns 0 only for
  -- an empty ring.
  pub reclaim_completed_frames_lem :
      (k : Kernel S)
      → Obeys held z k
      → (budget : ℕ) (e : Engine S) → Inv held z l e
      → Reclaimed k budget e (reclaim_completed_frames k budget e)
  unfolding reclaim_completed_frames
  reclaim_completed_frames_lem k obeys budget e v =
      let e1 = meanwhile k e in
      let v1 = Keeps-Inv held z e (k.run e.io) (obeys.run e.io v.rings) v in
      let q = readable_range_lem budget v1.rings.completion in
      let (range, ring) = readable_range e1.io.xsk.completion budget in
      let v2 = set_completion-Inv e1 ring v1 q.valid q.kept in
      elim (Bool-cases (range.amount == 0)) [
        | inl none_ready ↦
            let zero_amount : range.amount ≡ 0 = ground arith in
            rw none_ready (record {
              inv = v2;
              within = omega arith;
              returned = omega arith;
              gained = omega arith;
              untouched = (refl, refl, refl, refl, refl);
              ready = λ h some_there. absurd (some_there (q.prompt h zero_amount));
              all_reaped = λ h _. q.kept ∙ q.prompt h zero_amount;
            })
        | inr ready ↦
            let p : IsPrefix ring range = record {
              cached = q.cached;
              published =
                  omega (arith, q.cached, q.valid.behind, q.valid.own, length-contents ring);
              entries = q.entries ∙ ap (take range.amount) (sym q.kept);
            } in
            rw ready (record {
              inv = reclaim_some-Inv (set_completion e1 ring) range v2 p;
              within = q.within;
              returned = (reclaim_some_counted (set_completion e1 ring) range v2 p).1;
              gained = (reclaim_some-Freed (set_completion e1 ring) range v2 p).number;
              untouched = unfold reclaim_some in (refl, refl, refl, refl, refl);
              ready = λ h _. ground arith;
              all_reaped = λ h z0. absurd (ground arith);
            })
      ]
