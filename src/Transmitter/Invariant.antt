-- ===== src/Transmitter/Invariant.antt =====
-- The invariant of the engine: rings and allocator in order, the reserved TX window, and every
-- frame of the region in exactly one place.
use af_xdp_reimpl.Prelude.{
  ℕ, ◌+◌, ◌%◌, ◌^◌, ◌≤◌, ◌≡◌, ap, sym, ◌∙◌, true, false, List, arith, length, length-append,
  length-take, take, take-append_left, weigh, weigh_one,
}
use af_xdp_reimpl.Ring.{free_n}
use af_xdp_reimpl.Ring.Roles.{contents}
use af_xdp_reimpl.Ring.Producer.{staged, length-staged}
use af_xdp_reimpl.FrameAllocator.Stack.{IsValid, available, length-available}
use af_xdp_reimpl.Xsk.{Desc}
use af_xdp_reimpl.Kernel.{Io}
use af_xdp_reimpl.Kernel.Contract.{Held, Sizes, AreRings, Keeps, chunk}
use af_xdp_reimpl.Kernel.Rings.{Keeps-AreRings, Consumes-staged, free_n-SameLocal}
use af_xdp_reimpl.Transmitter.{Engine}

-- What the invariant counts against: the frames of the region, those in the hands of a caller, and
-- how many entries at the head of the RX ring have been handed on but not yet released.
pub record Ledger : Type 0 where
  pub frames : List ℕ
  pub hand : List ℕ
  pub done : ℕ

module _ {S : Type 0} (held : Held S) (z : Sizes) where
  -- A weight of chunks, as a weight of the addresses and of the descriptors in them.
  abbrev pub at_addr : (ℕ → ℕ) → ℕ → ℕ
  at_addr f a = f (chunk z.frame_mask a)

  abbrev pub at_desc : (ℕ → ℕ) → Desc → ℕ
  at_desc f d = f (chunk z.frame_mask d.addr)

  -- All the places where a frame can be.
  abbrev pub total : (ℕ → ℕ) → Engine S → ℕ
  total f e =
      weigh (at_addr f) (available e.alloc)
      + weigh (at_addr f) (contents e.io.xsk.fill)
      + weigh (at_addr f) (held.receiving e.io.kernel)
      + weigh (at_desc f) (contents e.io.xsk.rx)
      + weigh (at_desc f) (staged e.io.xsk.tx e.tx.tx_used)
      + weigh (at_desc f) (contents e.io.xsk.tx)
      + weigh (at_addr f) (held.sending e.io.kernel)
      + weigh (at_addr f) (contents e.io.xsk.completion)

  -- Published descriptors whose frames have not come back.
  abbrev pub in_flight : Io S → ℕ
  in_flight x =
      length (contents x.xsk.tx)
      + length (held.sending x.kernel)
      + length (contents x.xsk.completion)

  pub record HasWindow (e : Engine S) : Type 0 where
    pub start : e.tx.tx_start ≡ e.io.xsk.tx.cached_prod
    pub used : e.tx.tx_used ≤ e.tx.tx_avail
    pub avail : e.tx.tx_avail ≤ free_n e.io.xsk.tx

  pub record Inv (l : Ledger) (e : Engine S) : Type 0 where
    pub rings : AreRings z e.io.xsk
    pub alloc : IsValid e.alloc
    pub room : length l.frames ≤ e.alloc.capacity
    pub mask : e.tx.frame_mask ≡ z.frame_mask
    pub window : e.tx.reserved ≡ true → HasWindow e
    pub idle : e.tx.reserved ≡ false → e.tx.tx_used ≡ 0
    pub processed : l.done ≤ length (contents e.io.xsk.rx)
    pub conserved :
        (f : ℕ → ℕ)
        → total f e + weigh (at_addr f) l.hand
          ≡ weigh (at_addr f) l.frames + weigh (at_desc f) (take l.done (contents e.io.xsk.rx))
    pub books : (e.tx.frames_reclaimed + e.tx.outstanding) % 2 ^ 64 ≡ e.tx.frames_submitted % 2 ^ 64
    pub counted : e.tx.outstanding ≡ in_flight e.io

  pub Keeps-in_flight : {x y : Io S} → Keeps held z x y → in_flight y ≡ in_flight x
  Keeps-in_flight {x} {y} m = omega (
    arith,
    m.completed (λ _. 1),
    weigh_one (contents y.xsk.tx),
    weigh_one (held.sending y.kernel),
    weigh_one (contents y.xsk.completion),
    weigh_one (contents x.xsk.tx),
    weigh_one (held.sending x.kernel),
    weigh_one (contents x.xsk.completion),
  )

  Keeps-total :
      (f : ℕ → ℕ) (e : Engine S) (y : Io S)
      → Keeps held z e.io y
      → total f (record e { io = y }) ≡ total f e
  Keeps-total f e y m = omega (
    arith,
    m.received f,
    m.completed (at_addr f),
    ap (weigh (at_desc f)) (Consumes-staged e.tx.tx_used m.tx),
  )

  -- Whatever the kernel does keeps the invariant.
  pub Keeps-Inv :
      {l : Ledger} (e : Engine S) (y : Io S)
      → Keeps held z e.io y
      → Inv l e
      → Inv l (record e { io = y })
  Keeps-Inv {l} e y m v = record {
    rings = Keeps-AreRings m v.rings;
    alloc = v.alloc;
    room = v.room;
    mask = v.mask;
    books = v.books;
    window = λ r. record {
      start = (v.window r).start ∙ sym m.tx.local.cached_prod;
      used = (v.window r).used;
      avail = omega (arith, (v.window r).avail, free_n-SameLocal m.tx.local);
    };
    idle = v.idle;
    processed = omega (
      arith,
      v.processed,
      ap length m.rx.appended,
      length-append (contents e.io.xsk.rx) m.rx.fresh,
    );
    conserved = λ f. omega (
      arith,
      Keeps-total f e y m,
      v.conserved f,
      ap (weigh (at_desc f)) (
          ap (take l.done) m.rx.appended
          ∙ take-append_left l.done (contents e.io.xsk.rx) m.rx.fresh v.processed),
    );
    counted = v.counted ∙ sym (Keeps-in_flight m);
  }

  -- All the frames, counted place by place.
  pub number_of_frames :
      {l : Ledger} (e : Engine S)
      → Inv l e
      → e.alloc.count
          + length (contents e.io.xsk.fill)
          + length (held.receiving e.io.kernel)
          + length (contents e.io.xsk.rx)
          + e.tx.tx_used
          + in_flight e.io
          + length l.hand
        ≡ length l.frames + l.done
  number_of_frames {l} e v = omega (
    arith,
    v.conserved (λ _. 1),
    weigh_one (available e.alloc),
    weigh_one (contents e.io.xsk.fill),
    weigh_one (held.receiving e.io.kernel),
    weigh_one (contents e.io.xsk.rx),
    weigh_one (staged e.io.xsk.tx e.tx.tx_used),
    weigh_one (contents e.io.xsk.tx),
    weigh_one (held.sending e.io.kernel),
    weigh_one (contents e.io.xsk.completion),
    weigh_one l.frames,
    weigh_one l.hand,
    weigh_one (take l.done (contents e.io.xsk.rx)),
    length-take l.done (contents e.io.xsk.rx),
    v.processed,
    length-available e.alloc,
    length-staged e.io.xsk.tx e.tx.tx_used,
  )
