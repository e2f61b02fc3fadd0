-- ===== src/Receiver/Maintain.antt =====
-- The rest of a pass: the refill of the fill ring and the wakeup.
use af_xdp_reimpl.Prelude.{
  ℕ, ◌≤◌, ap, sym, subst, arith, Bool-cases, ◌||◌, ltb, ◌==◌, length, weigh, weigh-append, inl, inr,
}
use af_xdp_reimpl.Ring.{need_wakeup, queued_entry_count}
use af_xdp_reimpl.Ring.Roles.{contents}
use af_xdp_reimpl.FrameAllocator.Stack.{available}
use af_xdp_reimpl.Xsk.{refill_fill}
use af_xdp_reimpl.Xsk.Refill.{refill_fill_lem}
use af_xdp_reimpl.Kernel.{Kernel}
use af_xdp_reimpl.Kernel.Contract.{Held, Sizes, Obeys}
use af_xdp_reimpl.Transmitter.{Engine, meanwhile}
use af_xdp_reimpl.Transmitter.Invariant.{Ledger, Inv, Keeps-Inv, at_addr}
use af_xdp_reimpl.Receiver.{Receiver, refill, request_rx_progress, maintain_fill, wake}

module _ {S : Type 0} (held : Held S) (z : Sizes) (l : Ledger) where
  -- Frames go from the allocator to the fill ring, and none is lost.
  pub refill-Inv : (e : Engine S) → Inv held z l e → Inv held z l (refill e).1
  unfolding refill
  refill-Inv e v =
      let fill = e.io.xsk.fill in
      let R = refill_fill_lem fill e.alloc v.rings.fill v.alloc in
      record {
        rings = record {
          rx = v.rings.rx;
          completion = v.rings.completion;
          fill = R.ring;
          tx = v.rings.tx;
        };
        alloc = R.allocator;
        room = subst (λ (t : ℕ). length l.frames ≤ t) (sym R.capacity) v.room;
        mask = v.mask;
        window =
            λ r. let w = v.window r in record { start = w.start; used = w.used; avail = w.avail };
        idle = v.idle;
        processed = v.processed;
        conserved = λ f. omega (
          arith,
          v.conserved f,
          ap (weigh (at_addr held z f)) R.frames,
          ap (weigh (at_addr held z f)) R.entries,
          weigh-append (at_addr held z f) R.moved (available (refill_fill fill e.alloc).2),
          weigh-append (at_addr held z f) (contents fill) R.moved,
        );
        books = v.books;
        counted = v.counted;
      }

  module _ (k : Kernel S) (obeys : Obeys held z k) where
    pub meanwhile-Inv : (e : Engine S) → Inv held z l e → Inv held z l (meanwhile k e)
    meanwhile-Inv e v = Keeps-Inv held z e (k.run e.io) (obeys.run e.io v.rings) v

    pub maintain_fill-Inv :
        (threshold : ℕ) (e : Engine S)
        → Inv held z l e
        → Inv held z l (maintain_fill k threshold e).1
    unfolding maintain_fill
    maintain_fill-Inv threshold e v =
        let e1 = meanwhile k e in
        let v1 = meanwhile-Inv e v in
        elim (Bool-cases (ltb (queued_entry_count e1.io.xsk.fill) threshold)) [
          | inl low ↦ rw low (refill-Inv (meanwhile k e1) (meanwhile-Inv e1 v1))
          | inr enough ↦ rw enough v1
        ]

    pub request_rx_progress-Inv :
        (e : Engine S) → Inv held z l e → Inv held z l (request_rx_progress k e).1
    unfolding request_rx_progress
    request_rx_progress-Inv e v =
        let e1 = meanwhile k e in
        let v1 = meanwhile-Inv e v in
        elim (Bool-cases (e1.io.xsk.busy_poll || need_wakeup e1.io.xsk.fill)) [
          | inl call ↦
              rw call (Keeps-Inv held z e1 (k.recvfrom e1.io).1 (obeys.recvfrom e1.io v1.rings) v1)
          | inr quiet ↦ rw quiet v1
        ]

    pub wake-Inv :
        (n pushed : ℕ) (r : Receiver) (e : Engine S)
        → Inv held z l e
        → Inv held z l (wake k n pushed r e).1
    unfolding wake
    wake-Inv n pushed r e v =
        let e1 = meanwhile k e in
        let v1 = meanwhile-Inv e v in
        elim (Bool-cases (n == 0 || ltb 0 pushed || need_wakeup e1.io.xsk.fill)) [
          | inl call ↦ rw call (request_rx_progress-Inv e1 v1)
          | inr quiet ↦ rw quiet v1
        ]
