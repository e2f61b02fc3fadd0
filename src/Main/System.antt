-- ===== src/Main/System.antt =====
-- The reflector as a whole: from a newly opened socket on, whatever the kernel and the packets do.
use af_xdp_reimpl.Prelude.{
  ℕ, zero, suc, ◌-◌, ◌*◌, ◌%◌, ◌^◌, ◌≤◌, ◌<◌, ◌≡◌, refl, ap, sym, subst, arith, [], length, bit_and,
  weigh, dec_lt, ◌==◌, if◌then◌else◌,
}
use native.Mathlib.Nat.{mul-lt-mul_of_pos_right, mul-mod_left, one-le-pow}
use af_xdp_reimpl.Prelude.Bits.{bit_and_chunk}
use af_xdp_reimpl.Ring.Roles.{contents}
use af_xdp_reimpl.FrameAllocator
use af_xdp_reimpl.FrameAllocator.Stack.{chunks, init_lem}
use af_xdp_reimpl.Kernel.{Io, Kernel}
use af_xdp_reimpl.Kernel.Contract.{Held, Sizes, AreRings, Obeys}
use af_xdp_reimpl.Transmitter
use af_xdp_reimpl.Transmitter.{Engine, mask_of, meanwhile}
use af_xdp_reimpl.Transmitter.Invariant.{Ledger, Inv, at_addr, at_desc, total}
use af_xdp_reimpl.Receiver
use af_xdp_reimpl.Receiver.{ReceiverConfig, Worker, refill, request_rx_progress, run}
use af_xdp_reimpl.Receiver.Loop.{IsSound, run_lem}
use af_xdp_reimpl.Receiver.Maintain.{meanwhile-Inv, refill-Inv, request_rx_progress-Inv}
use af_xdp_reimpl.Main.{Layout, setup, strategy, service_tx, reflector}
use af_xdp_reimpl.Main.Strategy.{strategy-Handles, service_tx-Commits}

-- A layout that the static assertions allow, with chunks of `2 ^ k` bytes.
pub record IsLayout (k : ℕ) (c : Layout) : Type 0 where
  pub fits : c.num_frames ≤ c.alloc_cap
  pub word : c.alloc_cap < 2 ^ 32
  pub power : c.frame_size ≡ 2 ^ k
  pub small : k ≤ 63
  pub region : c.num_frames * c.frame_size ≤ 2 ^ 64

-- A socket that was just opened: four empty rings, and no frame in the kernel's hands.
pub record IsFresh {S : Type 0} (held : Held S) (z : Sizes) (io : Io S) : Type 0 where
  pub rings : AreRings z io.xsk
  pub rx : contents io.xsk.rx ≡ []
  pub tx : contents io.xsk.tx ≡ []
  pub fill : contents io.xsk.fill ≡ []
  pub completion : contents io.xsk.completion ≡ []
  pub receiving : held.receiving io.kernel ≡ []
  pub sending : held.sending io.kernel ≡ []

abbrev pub ledger_of : Layout → Ledger
ledger_of c = record { frames = chunks c.frame_size c.num_frames; hand = []; done = 0 }

length-chunks : (size n : ℕ) → length (chunks size n) ≡ n
length-chunks size zero = refl
length-chunks size (suc n) = ap suc (length-chunks size n)

-- A chunk's start is its own chunk.
chunk_start :
    (j i n : ℕ)
    → j ≤ 63
    → i < n
    → n * 2 ^ j ≤ 2 ^ 64
    → bit_and (i * 2 ^ j) (mask_of (2 ^ j)) ≡ i * 2 ^ j
chunk_start j i n small h region =
    let pos : 0 < 2 ^ j = one-le-pow j 2 (omega arith) in
    let below : i * 2 ^ j < n * 2 ^ j = mul-lt-mul_of_pos_right h pos in
    let multiple : i * 2 ^ j % 2 ^ j ≡ 0 = mul-mod_left i (2 ^ j) in
    omega (arith, bit_and_chunk (64 - j) j (i * 2 ^ j) (omega arith) (omega arith))

-- Weights of the chunks of a region, for the test of one number.
abbrev pub is_chunk : ℕ → ℕ → ℕ
is_chunk x y = if y == x then 1 else 0

module _ (j n : ℕ) (small : j ≤ 63) (region : n * 2 ^ j ≤ 2 ^ 64) (i : ℕ) where
  abbrev test : ℕ → ℕ
  test a = is_chunk (i * 2 ^ j) (bit_and a (mask_of (2 ^ j)))

  not_yet : (m : ℕ) → m ≤ n → m ≤ i → weigh test (chunks (2 ^ j) m) ≡ 0
  not_yet zero h h' = refl
  not_yet (suc m) h h' =
      let at = chunk_start j m n small (omega arith) region in
      let rest = not_yet m (omega arith) (omega arith) in
      let differ : m * 2 ^ j < i * 2 ^ j =
        mul-lt-mul_of_pos_right h' (one-le-pow j 2 (omega arith)) in
      ground arith

  once : (m : ℕ) → m ≤ n → i < m → weigh test (chunks (2 ^ j) m) ≡ 1
  once zero h h' = absurd (omega arith)
  once (suc m) h h' =
      let at = chunk_start j m n small (omega arith) region in
      elim (dec_lt i m) [
        | yes below ↦
            let rest = once m (omega arith) below in
            let differ : i * 2 ^ j < m * 2 ^ j =
              mul-lt-mul_of_pos_right below (one-le-pow j 2 (omega arith)) in
            ground arith
        | no top ↦
            let here : i ≡ m = omega arith in
            let rest = not_yet m (omega arith) (omega arith) in
            let same : i * 2 ^ j ≡ m * 2 ^ j = ap (λ (t : ℕ). t * 2 ^ j) here in ground arith
      ]

module _ {S : Type 0} (held : Held S) (z : Sizes) (j : ℕ) (c : Layout) (shape : IsLayout j c)
    (masked : z.frame_mask ≡ mask_of c.frame_size) where
  -- The engine before anything is done.
  initial-Inv :
      (io : Io S)
      → IsFresh held z io
      → Inv held z (ledger_of c) (record {
        io = io;
        alloc = FrameAllocator.init c.alloc_cap c.num_frames c.frame_size;
        tx = Transmitter.init c.frame_size;
      })
  unfolding Transmitter.init
  initial-Inv io v =
      let a = init_lem c.alloc_cap c.num_frames c.frame_size shape.fits shape.word shape.region in
      let cap : (FrameAllocator.init c.alloc_cap c.num_frames c.frame_size).capacity ≡ c.alloc_cap =
        unfold FrameAllocator.init in refl in
      record {
        rings = v.rings;
        alloc = a.0;
        room = omega (arith, length-chunks c.frame_size c.num_frames, shape.fits, cap);
        mask = sym masked;
        window = λ r. cc;
        idle = λ _. refl;
        processed = omega arith;
        conserved = λ f. omega (
          arith,
          ap (weigh (at_addr held z f)) a.1,
          ap (weigh (at_desc held z f)) v.rx,
          ap (weigh (at_desc held z f)) v.tx,
          ap (weigh (at_addr held z f)) v.fill,
          ap (weigh (at_addr held z f)) v.completion,
          ap (weigh (at_addr held z f)) v.receiving,
          ap (weigh (at_addr held z f)) v.sending,
        );
        books = refl;
        counted = omega (arith, ap length v.tx, ap length v.completion, ap length v.sending);
      }

  frame_weight :
      (i : ℕ)
      → i < c.num_frames
      → weigh (at_addr held z (is_chunk (i * c.frame_size))) (chunks c.frame_size c.num_frames) ≡ 1
  frame_weight i h =
      let region = subst (λ (t : ℕ). c.num_frames * t ≤ 2 ^ 64) shape.power shape.region in
      subst
        (λ (m : ℕ).
          weigh (λ a. is_chunk (i * c.frame_size) (bit_and a m)) (chunks c.frame_size c.num_frames)
          ≡ 1)
        (sym masked)
        (subst
          (λ (t : ℕ).
            weigh (λ a. is_chunk (i * t) (bit_and a (mask_of t))) (chunks t c.num_frames) ≡ 1)
          (sym shape.power) (once j c.num_frames shape.small region i c.num_frames (omega arith) h))

  pub sole_place :
      (e : Engine S) (i : ℕ)
      → Inv held z (ledger_of c) e
      → i < c.num_frames
      → total held z (is_chunk (i * c.frame_size)) e ≡ 1
  sole_place e i v h = omega (arith, v.conserved (is_chunk (i * c.frame_size)), frame_weight i h)

  module _ (k : Kernel S) (obeys : Obeys held z k) (cfg : ReceiverConfig) (clock : ℕ → ℕ)
      (io : Io S) (fresh : IsFresh held z io) where
    -- The worker starts in order.
    pub setup-IsSound : IsSound held z (ledger_of c) (setup k c cfg clock io)
    unfolding setup Receiver.init
    setup-IsSound =
        let l = ledger_of c in
        let v0 = meanwhile-Inv held z l k obeys _ (initial-Inv io fresh) in
        let v1 = refill-Inv held z l _ v0 in
        record { inv = request_rx_progress-Inv held z l k obeys _ v1; mask = sym masked }

    reflector-IsSound :
        (rounds : ℕ) → IsSound held z (ledger_of c) (reflector k c cfg clock rounds io)
    reflector-IsSound rounds =
        let l = ledger_of c in
        run_lem held z l k obeys (strategy k) (strategy-Handles held z k obeys) (service_tx k)
          (service_tx-Commits held z k obeys l) refl rounds (setup k c cfg clock io) setup-IsSound

    -- Each frame of the region stays in exactly one place, however long the reflector runs: free,
    -- in one of the rings once, staged, or in the kernel's hands.
    pub every_frame_once :
        (rounds i : ℕ)
        → i < c.num_frames
        → total held z (is_chunk (i * c.frame_size)) (reflector k c cfg clock rounds io).engine ≡ 1
    every_frame_once rounds i h =
        sole_place (reflector k c cfg clock rounds io).engine i (reflector-IsSound rounds).inv h
