-- ===== src/Transmitter/Stage.antt =====
-- The steps of `send_in_place`: a query of the TX window, a reservation, and a write to a slot.
use af_xdp_reimpl.Prelude.{
  ℕ, suc, ◌+◌, ◌^◌, ◌≤◌, ◌<◌, ◌≡◌, refl, ap, sym, ◌∙◌, arith, List, [], ◌∷◌, ◌++◌, true, false,
  add32, length, weigh, weigh-append, dec_lt,
}
use af_xdp_reimpl.Ring.{MmapRing, Range, writable_range, free_n, capacity}
use af_xdp_reimpl.Ring.Roles.{contents, IsProducer}
use af_xdp_reimpl.Ring.Producer.{staged, writable_range_lem, set_desc_at_lem}
use af_xdp_reimpl.Xsk.{Desc}
use af_xdp_reimpl.Kernel.{Kernel}
use af_xdp_reimpl.Kernel.Contract.{Held, Sizes, Obeys}
use af_xdp_reimpl.Kernel.Rings.{free_n-SameLocal, Consumes-staged}
use af_xdp_reimpl.Transmitter.{
  Engine, Transmitter, set_tx_ring, meanwhile, stage, tx_window, reserve,
}
use af_xdp_reimpl.Transmitter.Invariant.{Ledger, Inv, Keeps-Inv, at_addr, at_desc}

abbrev pub desc_of : ℕ → ℕ → Desc
desc_of addr length = record { addr = addr; len = length; options = 0 }

module _ {S : Type 0} (held : Held S) (z : Sizes) (l : Ledger) where
  -- The TX ring may be replaced by one that holds the same entries and leaves as much room.
  set_tx_ring-Inv :
      (e : Engine S) (ring : MmapRing Desc)
      → Inv held z l e
      → IsProducer z.tx ring
      → contents ring ≡ contents e.io.xsk.tx
      → ((m : ℕ) → staged ring m ≡ staged e.io.xsk.tx m)
      → ring.cached_prod ≡ e.io.xsk.tx.cached_prod
      → free_n e.io.xsk.tx ≤ free_n ring
      → Inv held z l (set_tx_ring e ring)
  set_tx_ring-Inv e ring v p same slots cached more = record {
    rings = record {
      rx = v.rings.rx;
      completion = v.rings.completion;
      fill = v.rings.fill;
      tx = p;
    };
    alloc = v.alloc;
    room = v.room;
    mask = v.mask;
    books = v.books;
    window = λ r.
        let w = v.window r in
        record { start = w.start ∙ sym cached; used = w.used; avail = omega (arith, w.avail) };
    idle = v.idle;
    processed = v.processed;
    conserved = λ f. rw (same, slots e.tx.tx_used) (v.conserved f);
    counted = rw same v.counted;
  }

  -- What a query of the TX window leaves.
  pub record Queried (e : Engine S) (out : Range × Engine S) : Type 0 where
    pub inv : Inv held z l out.1
    pub same : out.1.tx ≡ e.tx
    pub start : out.0.start ≡ out.1.io.xsk.tx.cached_prod
    pub all : out.0.amount ≡ free_n out.1.io.xsk.tx
    pub exact : out.0.amount + length (contents out.1.io.xsk.tx) ≡ 2 ^ z.tx
    pub grown : free_n e.io.xsk.tx ≤ free_n out.1.io.xsk.tx
    pub cached : out.1.io.xsk.tx.cached_prod ≡ e.io.xsk.tx.cached_prod
    pub slots : (m : ℕ) → staged out.1.io.xsk.tx m ≡ staged e.io.xsk.tx m

  module _ (k : Kernel S) (obeys : Obeys held z k) where
    pub tx_window_lem : (e : Engine S) → Inv held z l e → Queried e (tx_window k e)
    unfolding tx_window
    tx_window_lem e v =
        let m = obeys.run e.io v.rings in
        let v1 = Keeps-Inv held z e (k.run e.io) m v in
        let ring = (k.run e.io).xsk.tx in
        let q = writable_range_lem (capacity ring) v1.rings.tx in
        record {
          inv =
              set_tx_ring-Inv (meanwhile k e) (writable_range ring (capacity ring)).1 v1 q.valid
                q.kept q.slots q.cached q.grown;
          same = refl;
          start = q.here;
          all = q.all (omega arith);
          exact = elim (dec_lt (writable_range ring (capacity ring)).0.amount (capacity ring)) [
            | yes less ↦ omega (arith, q.short less, ap length q.kept)
            | no most ↦ omega (arith, q.room, ap length q.kept, v1.rings.tx.shape.size)
          ];
          grown = omega (arith, q.grown, free_n-SameLocal m.tx.local);
          cached = q.cached ∙ m.tx.local.cached_prod;
          slots = λ n. q.slots n ∙ Consumes-staged n m.tx;
        }

    pub reserve-Inv :
        (e : Engine S)
        → Inv held z l e
        → e.tx.reserved ≡ false
        → Inv held z l (reserve k e)
          × (staged (reserve k e).io.xsk.tx (reserve k e).tx.tx_used
              ≡ staged e.io.xsk.tx e.tx.tx_used)
    unfolding reserve
    reserve-Inv e v idle =
        let q = tx_window_lem e v in
        let (range, e1) = tx_window k e in
        let nothing : staged e1.io.xsk.tx 0 ≡ staged e1.io.xsk.tx e1.tx.tx_used =
          ap (staged e1.io.xsk.tx)
            (sym (v.idle idle) ∙ ap (λ (t : Transmitter). t.tx_used) (sym q.same)) in
        let w = q.inv in
        (
          record {
            rings = w.rings;
            alloc = w.alloc;
            room = w.room;
            mask = w.mask;
            books = w.books;
            window =
                λ _. record { start = q.start; used = omega arith; avail = omega (arith, q.all) };
            idle = λ _. refl;
            processed = w.processed;
            conserved = λ f. omega (arith, w.conserved f, ap (weigh (at_desc held z f)) nothing);
            counted = w.counted;
          },
          sym (ap (staged e.io.xsk.tx) (v.idle idle)),
        )

-- Staging a frame: from the hand to the slot behind those in use.
pub stage-Inv :
    {S : Type 0} (held : Held S) (z : Sizes) (l : Ledger) (addr size : ℕ) (rest : List ℕ)
    (e : Engine S)
    → Inv held z l e
    → l.hand ≡ addr ∷ rest
    → e.tx.reserved ≡ true
    → e.tx.tx_used < e.tx.tx_avail
    → let e' = (stage e addr size).1 in
      Inv held z (record l { hand = rest }) e'
      × (staged e'.io.xsk.tx e'.tx.tx_used
          ≡ staged e.io.xsk.tx e.tx.tx_used ++ desc_of addr size ∷ [])
unfolding stage
stage-Inv held z l addr size rest e v inhand reserved h =
    let w = v.window reserved in
    let d = desc_of addr size in
    let wrote = set_desc_at_lem e.tx.tx_used d v.rings.tx (omega (arith, w.used, w.avail)) in
    let next : add32 e.tx.tx_used 1 ≡ suc e.tx.tx_used = omega (arith, w.used, w.avail) in
    rw (w.start, next)
      (
        record {
          rings = record {
            rx = v.rings.rx;
            completion = v.rings.completion;
            fill = v.rings.fill;
            tx = wrote.0;
          };
          alloc = v.alloc;
          room = v.room;
          mask = v.mask;
          books = v.books;
          window = λ _. record { start = refl; used = h; avail = w.avail };
          idle = λ open_window. cc;
          processed = v.processed;
          conserved = λ f. omega (
            arith,
            v.conserved f,
            ap (weigh (at_desc held z f)) wrote.1,
            ap (weigh (at_desc held z f)) wrote.2,
            weigh-append (at_desc held z f) (staged e.io.xsk.tx e.tx.tx_used) (d ∷ []),
            ap (weigh (at_addr held z f)) inhand,
          );
          counted = omega (arith, v.counted, ap length wrote.1);
        },
        wrote.2,
      )

pub reserve_keeps :
    {S : Type 0} (k : Kernel S) (e : Engine S)
    → ((reserve k e).tx.frames_rejected ≡ e.tx.frames_rejected)
      × ((reserve k e).tx.frame_size ≡ e.tx.frame_size)
      × ((reserve k e).tx.reserved ≡ true)
unfolding reserve tx_window
reserve_keeps k e = (refl, refl, refl)
