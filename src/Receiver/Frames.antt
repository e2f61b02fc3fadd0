-- ===== src/Receiver/Frames.antt =====
-- The loop over a batch: every packet is handed to the callback with its frame, which goes where the
-- callback says.
use af_xdp_reimpl.Prelude.{
  ℕ, zero, suc, ◌+◌, ◌^◌, ◌≤◌, ◌<◌, ◌≡◌, refl, ap, ap₂, sym, ◌∙◌, subst, arith, List, ◌∷◌, add32,
  bit_and, take, take-append_left, length, length-append, weigh, weigh-append,
}
use af_xdp_reimpl.Prelude.Bits.{bit_and_again}
use af_xdp_reimpl.Ring.{MmapRing, desc_at}
use af_xdp_reimpl.Ring.Window.{window, take-window, window_split}
use af_xdp_reimpl.Ring.Roles.{contents, unread, length-contents}
use af_xdp_reimpl.FrameAllocator.Stack.{free_lem}
use af_xdp_reimpl.Xsk.{Desc}
use af_xdp_reimpl.Kernel.{Io}
use af_xdp_reimpl.Kernel.Contract.{Held, Sizes, chunk}
use af_xdp_reimpl.Kernel.Extends.{Extends, Extends-refl, Extends-trans}
use af_xdp_reimpl.Transmitter.{Engine}
use af_xdp_reimpl.Transmitter.Invariant.{Ledger, Inv, number_of_frames, at_addr, at_desc}
use af_xdp_reimpl.Receiver.{
  PacketView, FrameDisposition, recycle, transferred, view_of, settle, handle_frames,
}

module _ {ℓ} {A : Type ℓ} where
  -- The weight of one more entry at the head of a ring.
  weigh-take_next :
      (f : A → ℕ) (r : MmapRing A) (n : ℕ)
      → n < length (contents r)
      → weigh f (take (suc n) (contents r))
        ≡ weigh f (take n (contents r)) + f (desc_at r (add32 r.consumer n))
  weigh-take_next f r n h =
      let ahead : ℕ → List A = window r.descs r.mask r.consumer 0 in
      let within : n < unread r = omega (arith, length-contents r) in
      let at : 0 + n ≡ n = omega arith in
      let longer : suc n ≡ n + 1 = omega arith in
      omega (
        arith,
        ap (weigh f) (take-window r.descs r.mask r.consumer 0 (suc n) (unread r) (omega arith)),
        ap (weigh f) (take-window r.descs r.mask r.consumer 0 n (unread r) (omega arith)),
        ap (weigh f) (ap ahead longer ∙ window_split r.descs r.mask r.consumer 0 n 1),
        weigh-append f (ahead n) (window r.descs r.mask r.consumer (0 + n) 1),
        ap (λ (t : ℕ). f (desc_at r (add32 r.consumer t))) at,
      )

-- What the kernel appends leaves the entries that are there.
same_entry {ℓ} :
    {A : Type ℓ} (r r' : MmapRing A) (n : ℕ) (g : A → ℕ)
    → Extends r r'
    → n < length (contents r)
    → g (desc_at r' (add32 r.consumer n)) ≡ g (desc_at r (add32 r.consumer n))
same_entry r r' n g x h =
    let more = ap length x.appended in
    omega (
      arith,
      weigh-take_next g r n h,
      weigh-take_next g r' n (omega (arith, more, length-append (contents r) x.fresh)),
      ap (weigh g) (ap (take (suc n)) x.appended ∙ take-append_left (suc n) (contents r) x.fresh h),
      ap (weigh g) (ap (take n) x.appended ∙ take-append_left n (contents r) x.fresh (omega arith)),
      ap (λ (t : ℕ). g (desc_at r' (add32 t n))) x.consumer,
    )

-- Which addresses stay in the worker's hands after a callback.
abbrev pub left : FrameDisposition → ℕ → List ℕ → List ℕ
left recycle addr rest = addr ∷ rest
left transferred addr rest = rest

module _ {S : Type 0} (held : Held S) (z : Sizes) where
  -- A callback handled a frame: it transferred the frame or left it with the worker, and kept all
  -- else in order.
  pub record Handled (l : Ledger) (addr : ℕ) (rest : List ℕ) (e : Engine S)
      (disposition : FrameDisposition) (e' : Engine S) : Type 0 where
    pub inv : Inv held z (record l { hand = left disposition addr rest }) e'
    pub rx : Extends e.io.xsk.rx e'.io.xsk.rx

  -- What the receiver relies on of its callback.
  abbrev pub Handles :
      {C : Type 0} → (PacketView → C → Engine S → FrameDisposition × C × Engine S) → Type 0
  Handles {C} callback =
      (l : Ledger) (desc : Desc) (rest : List ℕ) (c : C) (e : Engine S)
      → l.hand ≡ desc.addr ∷ rest
      → Inv held z l e
      → let (disposition, c', e') = callback (view_of desc) c e in
        Handled l desc.addr rest e disposition e'

  -- The next packet of the RX ring comes into the worker's hands.
  take-Inv :
      (l : Ledger) (e : Engine S)
      → Inv held z l e
      → l.done < length (contents e.io.xsk.rx)
      → let d = desc_at e.io.xsk.rx (add32 e.io.xsk.rx.consumer l.done) in
        Inv held z (record l { hand = d.addr ∷ l.hand; done = suc l.done }) e
  take-Inv l e v h =
      let d = desc_at e.io.xsk.rx (add32 e.io.xsk.rx.consumer l.done) in
      record {
        rings = v.rings;
        alloc = v.alloc;
        room = v.room;
        mask = v.mask;
        window = v.window;
        idle = v.idle;
        processed = h;
        conserved = λ f.
            omega (arith, v.conserved f, weigh-take_next (at_desc held z f) e.io.xsk.rx l.done h);
        books = v.books;
        counted = v.counted;
      }

  -- A recycled frame goes to the allocator, which has room for it.
  settle-Inv :
      (disposition : FrameDisposition) (l : Ledger) (addr mask : ℕ) (rest : List ℕ) (e : Engine S)
      → mask ≡ z.frame_mask
      → Inv held z (record l { hand = left disposition addr rest }) e
      → Inv held z (record l { hand = rest }) (settle disposition (bit_and addr mask) e)
  unfolding settle
  settle-Inv transferred l addr mask rest e same v = v
  settle-Inv recycle l addr mask rest e same v =
      let x = bit_and addr mask in
      let freed =
        free_lem e.alloc x v.alloc
          (omega (arith, number_of_frames held z e v, v.processed, v.room)) in
      record {
        rings = v.rings;
        alloc = freed.0;
        room = subst (λ (t : ℕ). length l.frames ≤ t) (sym freed.2) v.room;
        mask = v.mask;
        window =
            λ r. let w = v.window r in record { start = w.start; used = w.used; avail = w.avail };
        idle = v.idle;
        processed = v.processed;
        conserved = λ f. omega (
          arith,
          v.conserved f,
          ap (weigh (at_addr held z f)) freed.1,
          ap f (ap (chunk z.frame_mask) (ap (bit_and addr) same) ∙ bit_and_again addr z.frame_mask),
        );
        books = v.books;
        counted = v.counted;
      }

  -- What the loop leaves: `n` more packets are done, and nothing stays in the worker's hands.
  pub record Looped (l : Ledger) (n : ℕ) (e e' : Engine S) : Type 0 where
    pub inv : Inv held z (record l { done = l.done + n }) e'
    pub rx : Extends e.io.xsk.rx e'.io.xsk.rx

  settle_rx :
      (disposition : FrameDisposition) (x : ℕ) (e : Engine S) → (settle disposition x e).io ≡ e.io
  unfolding settle
  settle_rx recycle x e = refl
  settle_rx transferred x e = refl

  module _ {C : Type 0} (callback : PacketView → C → Engine S → FrameDisposition × C × Engine S)
      (handles : Handles callback) where
    pub handle_frames_lem :
        (n start i mask : ℕ) (l : Ledger) (c : C) (e : Engine S)
        → Inv held z l e
        → mask ≡ z.frame_mask
        → start ≡ e.io.xsk.rx.consumer
        → i ≡ l.done
        → i + n ≤ length (contents e.io.xsk.rx)
        → i + n < 2 ^ 32
        → Looped l n e (handle_frames callback n start i mask c e).1
    unfolding handle_frames
    handle_frames_lem zero start i mask l c e v same first index more small =
        let nothing : l.done ≡ l.done + 0 = omega arith in
        record {
          inv = subst (λ (t : ℕ). Inv held z (record l { done = t }) e) nothing v;
          rx = Extends-refl e.io.xsk.rx;
        }
    handle_frames_lem (suc n) start i mask l c e v same first index more small =
        let desc = desc_at e.io.xsk.rx (add32 start i) in
        let taken = record l { hand = desc.addr ∷ l.hand; done = suc l.done } in
        let got : Inv held z taken e =
          subst
            (λ (t : ℕ).
              let d = desc_at e.io.xsk.rx t in
              Inv held z (record l { hand = d.addr ∷ l.hand; done = suc l.done }) e)
            (sym (ap₂ add32 first index)) (take-Inv l e v (omega arith)) in
        let h = handles taken desc l.hand c e refl got in
        let (disposition, c1, e1) = callback (view_of desc) c e in
        let again = desc_at e1.io.xsk.rx (add32 start i) in
        let same_addr : again.addr ≡ desc.addr =
          subst (λ (t : ℕ). (desc_at e1.io.xsk.rx t).addr ≡ (desc_at e.io.xsk.rx t).addr)
            (sym (ap₂ add32 first index))
            (same_entry e.io.xsk.rx e1.io.xsk.rx l.done (λ (d : Desc). d.addr) h.rx
              (omega arith)) in
        let x = bit_and again.addr mask in
        let e2 = settle disposition x e1 in
        let ext : Extends e.io.xsk.rx e2.io.xsk.rx =
          subst (λ (io : Io S). Extends e.io.xsk.rx io.xsk.rx) (sym (settle_rx disposition x e1))
            h.rx in
        let next = record l { done = suc l.done } in
        let rest =
          handle_frames_lem n start (add32 i 1) mask next c1 e2
            (subst (λ (t : ℕ). Inv held z next (settle disposition (bit_and t mask) e1))
              (sym same_addr) (settle-Inv disposition next desc.addr mask l.hand e1 same h.inv))
            same (first ∙ sym ext.consumer) (omega arith)
            (omega (arith, ap length ext.appended, length-append (contents e.io.xsk.rx) ext.fresh))
            (omega arith) in
        let sum : suc l.done + n ≡ l.done + suc n = omega arith in
        record {
          inv =
              subst
                (λ (t : ℕ).
                  Inv held z (record l { done = t })
                    (handle_frames callback n start (add32 i 1) mask c1 e2).1)
                sum rest.inv;
          rx = Extends-trans ext rest.rx;
        }
