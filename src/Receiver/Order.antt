-- ===== src/Receiver/Order.antt =====
-- What the callback gets to see: `handle_batch` with a callback that keeps a log of the packets that
-- it was called with.
use af_xdp_reimpl.Prelude.{
  ℕ, zero, suc, ◌+◌, ◌-◌, ◌^◌, ◌≤◌, ◌<◌, ◌≡◌, refl, ap, ap₂, sym, ◌∙◌, arith, List, [], ◌∷◌, ◌++◌,
  map, append_assoc, append-nil, add32, take, drop, take-append_left, length, length-append,
  Bool-cases, ltb, inl, inr, bit_and, drop-append_left,
}
use af_xdp_reimpl.Ring.{MmapRing, desc_at, readable_range, cached_entries}
use af_xdp_reimpl.Ring.Window.{window, take-window, drop-window}
use af_xdp_reimpl.Ring.Roles.{contents, unread, length-contents, IsConsumer}
use af_xdp_reimpl.Ring.Consumer.{readable_range_lem, release_consumed_entries_lem}
use af_xdp_reimpl.Xsk.{Desc}
use af_xdp_reimpl.Kernel.{Kernel}
use af_xdp_reimpl.Kernel.Contract.{Held, Sizes, Obeys}
use af_xdp_reimpl.Kernel.Extends.{Extends}
use af_xdp_reimpl.Transmitter.{Engine, meanwhile}
use af_xdp_reimpl.Transmitter.Invariant.{Ledger, Inv, Keeps-Inv}
use af_xdp_reimpl.Receiver.{
  PacketView, FrameDisposition, view_of, set_rx_ring, settle, release_batch, handle_frames,
  handle_batch,
}
use af_xdp_reimpl.Receiver.Frames.{Handles, handle_frames_lem}
use af_xdp_reimpl.Receiver.Batch.{set_rx_ring-Inv}

module _ {ℓ} {A : Type ℓ} where
  -- The entries from the `i`th on are where they were when the kernel has appended more.
  window-Extends :
      (r r' : MmapRing A) (i n : ℕ)
      → Extends r r'
      → i + n ≤ length (contents r)
      → window r'.descs r'.mask r'.consumer i n ≡ window r.descs r.mask r.consumer i n
  window-Extends r r' i n x h =
      let more = ap length x.appended in
      let within : i + n ≤ unread r = omega (arith, length-contents r) in
      let within' : i + n ≤ unread r' =
        omega (
          arith,
          more,
          length-contents r,
          length-contents r',
          length-append (contents r) x.fresh,
        ) in
      sym (part r' within')
      ∙ ap (drop i) (ap (take (i + n)) x.appended ∙ take-append_left (i + n) (contents r) x.fresh h)
      ∙ part r within
    where
      part :
          (s : MmapRing A)
          → i + n ≤ unread s
          → drop i (take (i + n) (contents s)) ≡ window s.descs s.mask s.consumer i n
      part s le =
          let first : 0 + i ≡ i = omega arith in
          let rest : i + n - i ≡ n = omega arith in
          ap (drop i) (take-window s.descs s.mask s.consumer 0 (i + n) (unread s) le)
          ∙ drop-window s.descs s.mask s.consumer 0 i (i + n) (omega arith)
          ∙ ap₂ (window s.descs s.mask s.consumer) first rest

module _ {S C : Type 0}
    (callback : PacketView → C → Engine S → FrameDisposition × C × Engine S) where
  -- The callback, with a log of the packets that it was called with.
  abbrev pub logged :
      PacketView
      → C × List PacketView
      → Engine S
      → FrameDisposition × (C × List PacketView) × Engine S
  logged view state e =
      let (disposition, c1, e1) = callback view state.0 e in
      (disposition, (c1, state.1 ++ view ∷ []), e1)

  -- The log has no influence.
  handle_frames-logged :
      (n start i mask : ℕ) (state : C × List PacketView) (e : Engine S)
      → let out = handle_frames logged n start i mask state e in
        (out.0.0, out.1) ≡ handle_frames callback n start i mask state.0 e
  unfolding handle_frames
  handle_frames-logged zero start i mask state e = refl
  handle_frames-logged (suc n) start i mask state e =
      let (disposition, state1, e1) =
        logged (view_of (desc_at e.io.xsk.rx (add32 start i))) state e in
      let again = desc_at e1.io.xsk.rx (add32 start i) in
      handle_frames-logged n start (add32 i 1) mask state1
        (settle disposition (bit_and again.addr mask) e1)

  handle_batch-logged :
      (k : Kernel S) (batch_size mask : ℕ) (state : C × List PacketView) (e : Engine S)
      → let out = handle_batch logged k batch_size mask state e in
        (out.0, out.1.0, out.2) ≡ handle_batch callback k batch_size mask state.0 e
  unfolding handle_batch
  handle_batch-logged k batch_size mask state e =
      let e1 = meanwhile k e in
      let (range, ring) = readable_range e1.io.xsk.rx batch_size in
      ap (λ (x : C × Engine S). (range.amount, x.0, release_batch range.amount x.1))
        (handle_frames-logged range.amount range.start 0 mask state (set_rx_ring e1 ring))

module _ {S C : Type 0} where
  -- What a batch is, for the ring `r` as the kernel has it when the pass looks at it: how many of its
  -- entries the callback has seen, and what is left on the ring. `plain` is the outcome without a log.
  pub record InOrder (r : MmapRing Desc) (batch_size : ℕ) (seen : List PacketView)
      (plain : ℕ × C × Engine S) (out : ℕ × (C × List PacketView) × Engine S) : Type 0 where
    pub alike : (out.0, out.1.0, out.2) ≡ plain
    pub shown : out.1.1 ≡ seen ++ map view_of (take out.0 (contents r))
    pub fresh : List Desc
    pub left : contents out.2.io.xsk.rx ≡ drop out.0 (contents r) ++ fresh
    pub within : out.0 ≤ batch_size
    pub prompt : 0 < batch_size → out.0 ≡ 0 → contents r ≡ []

module _ {S : Type 0} (held : Held S) (z : Sizes) {C : Type 0}
    (callback : PacketView → C → Engine S → FrameDisposition × C × Engine S)
    (handles : Handles held z callback) where
  logged-Handles : Handles held z (logged callback)
  logged-Handles l desc rest state e inhand v = handles l desc rest state.0 e inhand v

  handle_frames_order :
      (n start i mask : ℕ) (l : Ledger) (state : C × List PacketView) (e : Engine S)
      → Inv held z l e
      → mask ≡ z.frame_mask
      → start ≡ e.io.xsk.rx.consumer
      → i ≡ l.done
      → i + n ≤ length (contents e.io.xsk.rx)
      → i + n < 2 ^ 32
      → let r = e.io.xsk.rx in
        (handle_frames (logged callback) n start i mask state e).0.1
        ≡ state.1 ++ map view_of (window r.descs r.mask start i n)
  unfolding handle_frames
  handle_frames_order zero start i mask l state e v same first index more small =
      sym (append-nil state.1)
  handle_frames_order (suc n) start i mask l state e v same first index more small =
      let r = e.io.xsk.rx in
      let view = view_of (desc_at r (add32 start i)) in
      let (disposition, state1, e1) = logged callback view state e in
      let again = desc_at e1.io.xsk.rx (add32 start i) in
      let e2 = settle disposition (bit_and again.addr mask) e1 in
      let step =
        handle_frames_lem held z (logged callback) logged-Handles 1 start i mask l state e v same
          first index (omega arith) (omega arith) in
      let x : Extends r e2.io.xsk.rx = step.rx in
      let first2 : start ≡ e2.io.xsk.rx.consumer = first ∙ sym x.consumer in
      let longer = ap length x.appended in
      let rest =
        handle_frames_order n start (add32 i 1) mask (record l { done = l.done + 1 }) state1 e2
          step.inv same first2 (omega arith)
          (omega (arith, longer, length-append (contents r) x.fresh)) (omega arith) in
      let at : add32 i 1 ≡ i + 1 = omega arith in
      let r2 = e2.io.xsk.rx in
      let later : window r2.descs r2.mask start (add32 i 1) n
          ≡ window r.descs r.mask start (i + 1) n =
        ap (λ (t : ℕ). window r2.descs r2.mask start t n) at
        ∙ ap (λ (t : ℕ). window r2.descs r2.mask t (i + 1) n) first2
        ∙ window-Extends r r2 (i + 1) n x (omega arith)
        ∙ ap (λ (t : ℕ). window r.descs r.mask t (i + 1) n) (sym first) in
      rest
      ∙ ap (λ w. (state.1 ++ view ∷ []) ++ map view_of w) later
      ∙ append_assoc state.1 (view ∷ []) (map view_of (window r.descs r.mask start (i + 1) n))

  contents-release_batch :
      (n : ℕ) (e : Engine S)
      → IsConsumer z.rx e.io.xsk.rx
      → n ≤ cached_entries e.io.xsk.rx
      → contents (release_batch n e).io.xsk.rx ≡ drop n (contents e.io.xsk.rx)
  unfolding release_batch
  contents-release_batch n e v h = elim (Bool-cases (ltb 0 n)) [
    | inr nothing ↦
        let none_done : n ≡ 0 = ground arith in
        rw nothing (ap (λ (t : ℕ). drop t (contents e.io.xsk.rx)) (sym none_done))
    | inl some ↦ rw some (release_consumed_entries_lem n v h).1
  ]

  -- For a kernel and a callback that keep to their contracts: `handle_batch` calls the callback with
  -- the oldest packets of the RX ring, each once and in order, at most `batch_size` of them and none
  -- only if the ring is empty; those and no others are gone from the ring then, and what the kernel
  -- has added comes behind the rest. The log has no influence on anything else.
  pub handle_batch_order :
      (k : Kernel S)
      → Obeys held z k
      → (batch_size mask : ℕ) (l : Ledger) (state : C × List PacketView) (e : Engine S)
      → mask ≡ z.frame_mask
      → l.done ≡ 0
      → Inv held z l e
      → InOrder
          (meanwhile k e).io.xsk.rx
          batch_size
          state.1
          (handle_batch callback k batch_size mask state.0 e)
          (handle_batch (logged callback) k batch_size mask state e)
  unfolding handle_batch
  handle_batch_order k obeys batch_size mask l state e same start v =
      let v1 = Keeps-Inv held z e (k.run e.io) (obeys.run e.io v.rings) v in
      let e1 = meanwhile k e in
      let q = readable_range_lem batch_size v1.rings.rx in
      let (range, ring) = readable_range e1.io.xsk.rx batch_size in
      let n = range.amount in
      let e2 = set_rx_ring e1 ring in
      let v2 = set_rx_ring-Inv held z l e1 ring v1 q.valid q.kept in
      let some : n ≤ length (contents ring) =
        omega (arith, q.cached, q.valid.own, q.valid.behind, length-contents ring) in
      let small : 0 + n < 2 ^ 32 = omega (arith, q.cached) in
      let looped =
        handle_frames_lem held z (logged callback) logged-Handles n range.start 0 mask l state e2 v2
          same q.here (sym start) (omega (arith, some)) small in
      let seen =
        handle_frames_order n range.start 0 mask l state e2 v2 same q.here (sym start)
          (omega (arith, some)) small in
      let e3 = (handle_frames (logged callback) n range.start 0 mask state e2).1 in
      let within : n ≤ cached_entries e3.io.xsk.rx =
        omega (arith, q.cached, looped.rx.local.cached_prod, looped.rx.local.cached_cons) in
      record {
        alike = handle_batch-logged callback k batch_size mask state e;
        shown = seen ∙ ap (λ w. state.1 ++ map view_of w) q.entries;
        fresh = looped.rx.fresh;
        left =
            contents-release_batch n e3 looped.inv.rings.rx within
            ∙ ap (drop n) looped.rx.appended
            ∙ drop-append_left n (contents ring) looped.rx.fresh some
            ∙ ap (λ xs. drop n xs ++ looped.rx.fresh) q.kept;
        within = q.within;
        prompt = q.prompt;
      }
