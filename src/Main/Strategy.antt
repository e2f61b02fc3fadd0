-- ===== src/Main/Strategy.antt =====
-- The reflector's callback keeps to what the receiver relies on.
use af_xdp_reimpl.Prelude.{
  ℕ, ◌^◌, ◌%◌, ◌≡◌, sym, subst, List, ◌∷◌, Bool, Bool-cases, inl, inr, if◌then◌else◌,
}
use af_xdp_reimpl.Xsk.{Desc}
use af_xdp_reimpl.Kernel.{Kernel}
use af_xdp_reimpl.Kernel.Contract.{Held, Sizes, Obeys}
use af_xdp_reimpl.Kernel.Extends.{Extends-refl}
use af_xdp_reimpl.Transmitter.{Engine, send_in_place}
use af_xdp_reimpl.Transmitter.Invariant.{Ledger, Inv}
use af_xdp_reimpl.Transmitter.Send.{send_in_place_lem}
use af_xdp_reimpl.Transmitter.Service.{publish_and_service_tx_lem}
use af_xdp_reimpl.Transmitter.Rx.{send_in_place-Extends}
use af_xdp_reimpl.Receiver.{view_of}
use af_xdp_reimpl.Receiver.Frames.{Handles, Handled, left}
use af_xdp_reimpl.Receiver.Loop.{Commits}
use af_xdp_reimpl.Bench.{reflect_swap}
use af_xdp_reimpl.Bench.Samples.{recording}
use af_xdp_reimpl.Main.{
  Captured, rdtsc, BenchStats, disposition_of, count_callback, reflect, strategy, service_tx,
}

module _ {S : Type 0} (held : Held S) (z : Sizes) where
  -- The bytes of the region are outside the invariant.
  mem-Inv :
      (l : Ledger) (e : Engine S) (mem : ℕ → ℕ)
      → Inv held z l e
      → Inv held z l (record e { io = record e.io { mem = mem } })
  mem-Inv l e mem v = record {
    rings = v.rings;
    alloc = v.alloc;
    room = v.room;
    mask = v.mask;
    window = λ r. let w = v.window r in record { start = w.start; used = w.used; avail = w.avail };
    idle = v.idle;
    processed = v.processed;
    conserved = v.conserved;
    books = v.books;
    counted = v.counted;
  }

  module _ (k : Kernel S) (obeys : Obeys held z k) where
    send_in_place-Handled :
        (l : Ledger) (addr size : ℕ) (rest : List ℕ) (e : Engine S)
        → l.hand ≡ addr ∷ rest
        → Inv held z l e
        → let (taken, e') = send_in_place k addr size e in
          Handled held z l addr rest e (disposition_of taken) e'
    send_in_place-Handled l addr size rest e inhand v =
        let rx = send_in_place-Extends held z l k obeys addr size e v in
        let (taken, e') = send_in_place k addr size e in
        elim (send_in_place_lem held z l addr size rest k obeys inhand e v) [
          | inl a ↦ record {
            inv =
                subst
                  (λ (b : Bool).
                    Inv held z (record l { hand = left (disposition_of b) addr rest }) e')
                  (sym a.ok) a.inv;
            rx = rx;
          }
          | inr r ↦ record {
            inv =
                subst
                  (λ (b : Bool).
                    Inv held z (record l { hand = left (disposition_of b) addr rest }) e')
                  (sym r.ok)
                  (subst (λ (h : List ℕ). Inv held z (record l { hand = h }) e') inhand r.inv);
            rx = rx;
          }
        ]

    reflect-Handled :
        (l : Ledger) (desc : Desc) (rest : List ℕ) (b : BenchStats) (e : Engine S)
        → l.hand ≡ desc.addr ∷ rest
        → Inv held z l e
        → let (taken, b', e') = reflect k (view_of desc) b e in
          Handled held z l desc.addr rest e (disposition_of taken) e'
    unfolding reflect
    reflect-Handled l desc rest b e inhand v =
        let (swapped, mem) = reflect_swap e.io.mem desc.addr desc.len in
        let e1 = record e { io = record e.io { mem = mem } } in
        let v1 = mem-Inv l e mem v in
        elim (Bool-cases swapped) [
          | inl supported ↦
              let h = send_in_place-Handled l desc.addr (desc.len % 2 ^ 32) rest e1 inhand v1 in
              rw supported (record { inv = h.inv; rx = h.rx })
          | inr unsupported ↦ rw unsupported (record {
            inv = subst (λ (h : List ℕ). Inv held z (record l { hand = h }) e1) inhand v1;
            rx = Extends-refl e.io.xsk.rx;
          })
        ]

    -- The callback keeps the engine's invariant and only lets the kernel append to the RX ring; the
    -- frame of its packet is the transmitter's when the answer is Transferred, and the worker's
    -- when it is Recycle.
    pub strategy_lem :
        (l : Ledger) (desc : Desc) (rest : List ℕ) (c : Captured) (e : Engine S)
        → l.hand ≡ desc.addr ∷ rest
        → Inv held z l e
        → let (disposition, c', e') = strategy k (view_of desc) c e in
          Handled held z l desc.addr rest e disposition e'
    unfolding strategy
    strategy_lem l desc rest c e inhand v =
        let timed = recording c.samples in
        let (t0, c1) = if timed then rdtsc c else (0, c) in
        reflect-Handled l desc rest (count_callback c1.bench desc.len) e inhand v

    pub strategy-Handles : Handles held z (strategy k)
    strategy-Handles = strategy_lem

    pub service_tx-Commits : (l : Ledger) → Commits held z l (service_tx k)
    unfolding service_tx
    service_tx-Commits l e v = (publish_and_service_tx_lem held z l k obeys e v).inv
