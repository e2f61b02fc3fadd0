-- ===== src/Tests/Worker.antt =====
-- A worker in the middle of its work, on four rings of four slots, and a kernel that takes one
-- frame off the TX ring in each `sendto` call.
use af_xdp_reimpl.Prelude.{
  ℕ, ◌-◌, ◌≡◌, refl, sym, List, [], ◌∷◌, arith, none, true, false, Bool-cases, add32, bit_and, ltb,
  if◌then◌else◌, append-nil, inl, inr, weigh, weigh-take-drop, drop, ap, ◌∙◌, ◌+◌, ◌<◌,
}
use af_xdp_reimpl.Ring.{MmapRing}
use af_xdp_reimpl.Ring.Roles.{contents, unread, IsConsumer, IsProducer}
use af_xdp_reimpl.Ring.Window.{take-window}
use af_xdp_reimpl.Kernel.Rings.{Consumes-contents}
use af_xdp_reimpl.Xsk.{Desc}
use af_xdp_reimpl.Kernel.{Io, Kernel}
use af_xdp_reimpl.Kernel.Contract.{Held, Sizes, AreRings, Produces, Consumes, Keeps, Obeys}
use af_xdp_reimpl.Transmitter.{Engine, mask_of}
use af_xdp_reimpl.Transmitter.Invariant.{Ledger, Inv}

-- The kernel's own state: the addresses that it is sending.
abbrev pub held : Held (List ℕ)
held = record { receiving = λ _. []; sending = λ s. s }

abbrev pub sizes : Sizes
sizes = record { rx = 2; tx = 2; fill = 2; completion = 2; frame_mask = mask_of 2048 }

-- It takes the oldest TX descriptor when there is one.
unfoldable pub take_one : Io (List ℕ) → Io (List ℕ)
take_one x =
    let r = x.xsk.tx in
    if ltb 0 (unread r)
    then (record x {
      kernel = (r.descs (bit_and (add32 r.consumer 0) r.mask)).addr ∷ x.kernel;
      xsk = record x.xsk { tx = record r { consumer = add32 r.consumer 1 } };
    })
    else x

abbrev pub kernel : Kernel (List ℕ)
kernel = record { run = λ x. x; sendto = λ x. (none, take_one x); recvfrom = λ x. (none, x) }

rests-Produces {ℓ} : {A : Type ℓ} {k : ℕ} {r : MmapRing A} → IsConsumer k r → Produces k r r
rests-Produces {r = r} v = record {
  local = record { num_descs = refl; mask = refl; cached_prod = refl; cached_cons = refl };
  consumer = refl;
  word = v.shape.producer_word;
  forward = omega arith;
  fits = omega (arith, v.own, v.fits);
  fresh = [];
  appended = sym (append-nil (contents r));
}

rests-Consumes {ℓ} : {A : Type ℓ} {k : ℕ} {r : MmapRing A} → IsProducer k r → Consumes r r
rests-Consumes v = record {
  local = record { num_descs = refl; mask = refl; cached_prod = refl; cached_cons = refl };
  producer = refl;
  descs = refl;
  word = v.shape.consumer_word;
  forward = omega arith;
}

rests : (x : Io (List ℕ)) → AreRings sizes x.xsk → Keeps held sizes x x
rests x v = record {
  rx = rests-Produces v.rx;
  completion = rests-Produces v.completion;
  fill = rests-Consumes v.fill;
  tx = rests-Consumes v.tx;
  busy_poll = refl;
  received = λ f. refl;
  completed = λ f. refl;
}

-- The oldest descriptor, in front of what is left.
take_one-Consumes :
    (r : MmapRing Desc)
    → IsProducer 2 r
    → 0 < unread r
    → let r' = record r { consumer = add32 r.consumer 1 } in
      Consumes r r'
      × ((f : ℕ → ℕ)
          → f (r.descs (bit_and (add32 r.consumer 0) r.mask)).addr
              + weigh (λ (d : Desc). f d.addr) (contents r')
            ≡ weigh (λ (d : Desc). f d.addr) (contents r))
take_one-Consumes r v some =
    let r' = record r { consumer = add32 r.consumer 1 } in
    let m : Consumes r r' = record {
      local = record { num_descs = refl; mask = refl; cached_prod = refl; cached_cons = refl };
      producer = refl;
      descs = refl;
      word = omega arith;
      forward = omega arith;
    } in
    let one : unread r - unread r' ≡ 1 = omega arith in
    (
      m,
      λ f. omega (
        arith,
        weigh-take-drop (λ (d : Desc). f d.addr) 1 (contents r),
        ap (weigh (λ (d : Desc). f d.addr))
            (take-window r.descs r.mask r.consumer 0 1 (unread r) some),
        ap (weigh (λ (d : Desc). f d.addr))
            (Consumes-contents m v ∙ ap (λ (n : ℕ). drop n (contents r)) one),
      ),
    )

take_one-Keeps : (x : Io (List ℕ)) → AreRings sizes x.xsk → Keeps held sizes x (take_one x)
unfolding take_one
take_one-Keeps x v = elim (Bool-cases (ltb 0 (unread x.xsk.tx))) [
  | inr nothing ↦ rw nothing (rests x v)
  | inl some ↦
      let m = take_one-Consumes x.xsk.tx v.tx (ground arith) in
      rw some (record {
        rx = rests-Produces v.rx;
        completion = rests-Produces v.completion;
        fill = rests-Consumes v.fill;
        tx = m.0;
        busy_poll = refl;
        received = λ f. refl;
        completed = λ f. omega (arith, m.1 f);
      })
]

pub kernel-Obeys : Obeys held sizes kernel
kernel-Obeys = record { run = rests; sendto = take_one-Keeps; recvfrom = rests }

-- A ring of four slots with indices `producer` and `consumer` and the cached ones.
abbrev pub ring_of {ℓ} : {A : Type ℓ} → ℕ → ℕ → ℕ → ℕ → (ℕ → A) → MmapRing A
ring_of producer consumer cached_prod cached_cons descs = record {
  producer = producer;
  consumer = consumer;
  descs = descs;
  flags = 1;
  num_descs = 4;
  mask = 3;
  cached_prod = cached_prod;
  cached_cons = cached_cons;
}

abbrev pub at : ℕ → ℕ → Desc
at addr len = record { addr = addr; len = len; options = 0 }

-- Of five frames one is free, one is in the caller's hand, one is staged for transmission, one has
-- been completed, and one waits in the RX ring.
abbrev pub working : Engine (List ℕ)
working = record {
  io = record {
    kernel = [];
    xsk = record {
      rx = ring_of 1 0 0 0 (λ _. at 8448 60);
      tx = ring_of 1 1 1 0 (λ _. at 4352 60);
      fill = ring_of 0 0 0 0 (λ _. 0);
      completion = ring_of 1 0 0 0 (λ _. 2304);
      busy_poll = false;
      zero_copy = false;
    };
    mem = λ _. 0;
  };
  alloc = record { capacity = 8; frames = λ _. 0; count = 1 };
  tx = record {
    frame_size = 2048;
    frame_mask = mask_of 2048;
    tx_start = 1;
    tx_avail = 3;
    tx_used = 1;
    reserved = true;
    outstanding = 1;
    frames_submitted = 1;
    frames_reclaimed = 0;
    frames_rejected = 0;
    retryable_wakeup_errors = 0;
    first_wakeup_error = 0;
  };
}

abbrev pub ledger : Ledger
ledger = record { frames = 8192 ∷ 6144 ∷ 4096 ∷ 2048 ∷ 0 ∷ []; hand = 6400 ∷ []; done = 0 }

pub working-Inv : Inv held sizes ledger working
working-Inv = record {
  rings = record {
    rx = omega arith;
    completion = omega arith;
    fill = omega arith;
    tx = omega arith;
  };
  alloc = omega arith;
  room = omega arith;
  mask = refl;
  window = λ _. record { start = refl; used = omega arith; avail = omega arith };
  idle = λ closed. cc;
  processed = omega arith;
  conserved = λ f. omega arith;
  books = refl;
  counted = refl;
}
