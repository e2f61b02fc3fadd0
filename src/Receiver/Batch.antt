-- ===== src/Receiver/Batch.antt =====
-- The RX part of a pass: a batch is taken from the RX ring, handled, and released as a whole.
use af_xdp_reimpl.Prelude.{
  ℕ, ◌≤◌, ◌≡◌, ap, sym, subst, arith, weigh, weigh-take-drop, Bool-cases, ltb, inl, inr,
}
use af_xdp_reimpl.Ring.{MmapRing, readable_range, cached_entries}
use af_xdp_reimpl.Ring.Roles.{contents, length-contents, IsConsumer}
use af_xdp_reimpl.Ring.Consumer.{readable_range_lem, release_consumed_entries_lem}
use af_xdp_reimpl.Xsk.{Desc}
use af_xdp_reimpl.Kernel.{Kernel}
use af_xdp_reimpl.Kernel.Contract.{Held, Sizes, Obeys}
use af_xdp_reimpl.Transmitter.{Engine, meanwhile}
use af_xdp_reimpl.Transmitter.Invariant.{Ledger, Inv, Keeps-Inv, at_desc}
use af_xdp_reimpl.Receiver.{
  PacketView, FrameDisposition, set_rx_ring, release_batch, handle_frames, handle_batch,
}
use af_xdp_reimpl.Receiver.Frames.{Handles, handle_frames_lem}

module _ {S : Type 0} (held : Held S) (z : Sizes) where
  -- `set_rx_ring` with a ring of the same entries.
  pub set_rx_ring-Inv :
      (l : Ledger) (e : Engine S) (ring : MmapRing Desc)
      → Inv held z l e
      → IsConsumer z.rx ring
      → contents ring ≡ contents e.io.xsk.rx
      → Inv held z l (set_rx_ring e ring)
  set_rx_ring-Inv l e ring v c same = record {
    rings = record {
      rx = c;
      completion = v.rings.completion;
      fill = v.rings.fill;
      tx = v.rings.tx;
    };
    alloc = v.alloc;
    room = v.room;
    mask = v.mask;
    window = λ r. let w = v.window r in record { start = w.start; used = w.used; avail = w.avail };
    idle = v.idle;
    processed = rw same v.processed;
    conserved = λ f. rw same (v.conserved f);
    books = v.books;
    counted = v.counted;
  }

  -- Once the packets that are done are released, none is done among those left.
  release_batch-Inv :
      (l : Ledger) (n : ℕ) (e : Engine S)
      → Inv held z (record l { done = n }) e
      → n ≤ cached_entries e.io.xsk.rx
      → Inv held z (record l { done = 0 }) (release_batch n e)
  unfolding release_batch
  release_batch-Inv l n e v h = elim (Bool-cases (ltb 0 n)) [
    | inr nothing ↦
        let zero_done : n ≡ 0 = ground arith in
        rw nothing (subst (λ (t : ℕ). Inv held z (record l { done = t }) e) zero_done v)
    | inl some ↦
        let ring = e.io.xsk.rx in
        let R = release_consumed_entries_lem n v.rings.rx h in
        rw some (record {
          rings = record {
            rx = R.0;
            completion = v.rings.completion;
            fill = v.rings.fill;
            tx = v.rings.tx;
          };
          alloc = v.alloc;
          room = v.room;
          mask = v.mask;
          window =
              λ r. let w = v.window r in record { start = w.start; used = w.used; avail = w.avail };
          idle = v.idle;
          processed = omega arith;
          conserved = λ f. omega (
            arith,
            v.conserved f,
            weigh-take-drop (at_desc held z f) n (contents ring),
            ap (weigh (at_desc held z f)) R.1,
          );
          books = v.books;
          counted = v.counted;
        })
  ]

  -- What the RX part of a pass promises.
  pub record Batched {C : Type 0} (l : Ledger) (batch_size : ℕ) (out : ℕ × C × Engine S)
      : Type 0 where
    pub inv : Inv held z l out.2
    pub within : out.0 ≤ batch_size

  -- `handle_batch` handles at most `batch_size` packets, keeps the invariant, and leaves no frame
  -- in the worker's hands.
  pub handle_batch_lem :
      {C : Type 0} (k : Kernel S)
      → Obeys held z k
      → (callback : PacketView → C → Engine S → FrameDisposition × C × Engine S)
      → Handles held z callback
      → (batch_size mask : ℕ) (l : Ledger) (c : C) (e : Engine S) → mask ≡ z.frame_mask
      → l.done ≡ 0
      → Inv held z l e
      → Batched l batch_size (handle_batch callback k batch_size mask c e)
  unfolding handle_batch
  handle_batch_lem k obeys callback handles batch_size mask l c e same start v =
      let v1 = Keeps-Inv held z e (k.run e.io) (obeys.run e.io v.rings) v in
      let e1 = meanwhile k e in
      let q = readable_range_lem batch_size v1.rings.rx in
      let (range, ring) = readable_range e1.io.xsk.rx batch_size in
      let v2 = set_rx_ring-Inv l e1 ring v1 q.valid q.kept in
      let looped =
        handle_frames_lem held z callback handles range.amount range.start 0 mask l c
          (set_rx_ring e1 ring) v2 same q.here (sym start)
          (omega (arith, q.cached, q.valid.own, q.valid.behind, length-contents ring))
          (omega (arith, q.cached)) in
      let e3 = (handle_frames callback range.amount range.start 0 mask c (set_rx_ring e1 ring)).1 in
      record {
        inv =
            subst (λ (t : ℕ). Inv held z (record l { done = t }) (release_batch range.amount e3))
              (sym start)
              (release_batch-Inv l range.amount e3
                (subst (λ (t : ℕ). Inv held z (record l { done = t }) e3) (omega arith) looped.inv)
                (omega
                  (arith, q.cached, looped.rx.local.cached_prod, looped.rx.local.cached_cons)));
        within = q.within;
      }
