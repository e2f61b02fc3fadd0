-- ===== src/Receiver/Loop.antt =====
-- A pass and the loop of the worker, for any callback and commit that keep to their contract.
use af_xdp_reimpl.Prelude.{
  ℕ, zero, suc, ◌%◌, ◌^◌, ◌≤◌, ◌≡◌, refl, sym, ◌∙◌, Bool-cases, Option, none, some, not, ◌&&◌, ◌||◌,
  add64, ltb, ◌==◌, if◌then◌else◌, inl, inr, subst, if_true, if_false,
}
use af_xdp_reimpl.Ring.{need_wakeup}
use af_xdp_reimpl.Xsk.{is_expected_wakeup_retry}
use af_xdp_reimpl.Kernel.{Kernel}
use af_xdp_reimpl.Kernel.Contract.{Held, Sizes, Obeys}
use af_xdp_reimpl.Transmitter.{Engine, meanwhile}
use af_xdp_reimpl.Transmitter.Invariant.{Ledger, Inv}
use af_xdp_reimpl.Receiver.{
  PacketView, FrameDisposition, Receiver, Worker, note_error, handle_batch, maintain_fill, wake,
  request_rx_progress, process_rx_and_maintain_io, round, run,
}
use af_xdp_reimpl.Receiver.Frames.{Handles}
use af_xdp_reimpl.Receiver.Batch.{handle_batch_lem}
use af_xdp_reimpl.Receiver.Maintain.{maintain_fill-Inv, wake-Inv}

-- The fields that a pass leaves alone.
pub record SameSettings (r r' : Receiver) : Type 0 where
  pub batch_size : r'.batch_size ≡ r.batch_size
  pub fill_threshold : r'.fill_threshold ≡ r.fill_threshold
  pub frame_mask : r'.frame_mask ≡ r.frame_mask
  pub packets_received : r'.packets_received ≡ r.packets_received

SameSettings-trans :
    {r1 r2 r3 : Receiver} → SameSettings r1 r2 → SameSettings r2 r3 → SameSettings r1 r3
SameSettings-trans a b = record {
  batch_size = b.batch_size ∙ a.batch_size;
  fill_threshold = b.fill_threshold ∙ a.fill_threshold;
  frame_mask = b.frame_mask ∙ a.frame_mask;
  packets_received = b.packets_received ∙ a.packets_received;
}

note_error-SameSettings : (r : Receiver) (error : Option ℕ) → SameSettings r (note_error r error)
unfolding note_error
note_error-SameSettings r none = record {
  batch_size = refl;
  fill_threshold = refl;
  frame_mask = refl;
  packets_received = refl;
}
note_error-SameSettings r (some error) =
    elim (Bool-cases (not (is_expected_wakeup_retry error) && r.first_wakeup_error == 0)) [
      | inl first ↦ subst (SameSettings r) (sym (if_true _ r first)) (record {
        batch_size = refl;
        fill_threshold = refl;
        frame_mask = refl;
        packets_received = refl;
      })
      | inr known ↦ subst (SameSettings r) (sym (if_false _ r known)) (record {
        batch_size = refl;
        fill_threshold = refl;
        frame_mask = refl;
        packets_received = refl;
      })
    ]

module _ {S : Type 0} (k : Kernel S) where
  wake-SameSettings :
      (n pushed : ℕ) (r : Receiver) (e : Engine S) → SameSettings r (wake k n pushed r e).0
  unfolding wake
  wake-SameSettings n pushed r e =
      let e1 = meanwhile k e in
      let (error, e2) = request_rx_progress k e1 in
      elim (Bool-cases (n == 0 || ltb 0 pushed || need_wakeup e1.io.xsk.fill)) [
        | inl call ↦
            subst (λ (out : Receiver × Engine S). SameSettings r out.0)
              (sym (if_true (note_error r error, e2) (r, e1) call))
              (note_error-SameSettings r error)
        | inr quiet ↦
            subst (λ (out : Receiver × Engine S). SameSettings r out.0)
              (sym (if_false (note_error r error, e2) (r, e1) quiet))
              (record {
                batch_size = refl;
                fill_threshold = refl;
                frame_mask = refl;
                packets_received = refl;
              })
      ]

module _ {S : Type 0} (held : Held S) (z : Sizes) (l : Ledger) where
  -- What the receiver relies on of `commit_tx`.
  abbrev pub Commits : (Engine S → Engine S) → Type 0
  Commits commit_tx = (e : Engine S) → Inv held z l e → Inv held z l (commit_tx e)

  -- The worker between two passes: every packet handled, and the receiver's mask that of the UMEM.
  pub record IsSound {C : Type 0} (w : Worker S C) : Type 0 where
    pub inv : Inv held z l w.engine
    pub mask : w.receiver.frame_mask ≡ z.frame_mask

  -- What a pass promises.
  pub record Passed {C : Type 0} (w : Worker S C) (out : ℕ × Worker S C) : Type 0 where
    pub sound : IsSound out.1
    pub within : out.0 ≤ w.receiver.batch_size % 2 ^ 32
    pub settings : SameSettings w.receiver out.1.receiver

  module _ {C : Type 0} (k : Kernel S) (obeys : Obeys held z k)
      (callback : PacketView → C → Engine S → FrameDisposition × C × Engine S)
      (handles : Handles held z callback) (commit_tx : Engine S → Engine S)
      (commits : Commits commit_tx) (between : l.done ≡ 0) where
    -- A pass handles at most a batch, and leaves the worker as it was found: no packet half done,
    -- and every frame in one place.
    pub process_rx_and_maintain_io_lem :
        (w : Worker S C) → IsSound w → Passed w (process_rx_and_maintain_io k callback commit_tx w)
    unfolding process_rx_and_maintain_io
    process_rx_and_maintain_io_lem w v =
        let r = w.receiver in
        let b =
          handle_batch_lem held z k obeys callback handles (r.batch_size % 2 ^ 32) r.frame_mask l
            w.captured w.engine v.mask between v.inv in
        let (n, c, e1) =
          handle_batch callback k (r.batch_size % 2 ^ 32) r.frame_mask w.captured w.engine in
        let f =
          maintain_fill-Inv held z l k obeys r.fill_threshold (commit_tx e1) (commits e1 b.inv) in
        let (pushed, e2) = maintain_fill k r.fill_threshold (commit_tx e1) in
        let refills = if ltb 0 pushed then add64 r.fill_refills 1 else r.fill_refills in
        let r2 = record r { fill_refills = refills } in
        let same = wake-SameSettings k n pushed r2 e2 in
        record {
          sound = record {
            inv = wake-Inv held z l k obeys n pushed r2 e2 f;
            mask = same.frame_mask ∙ v.mask;
          };
          within = b.within;
          settings = record {
            batch_size = same.batch_size;
            fill_threshold = same.fill_threshold;
            frame_mask = same.frame_mask;
            packets_received = same.packets_received;
          };
        }

    round-IsSound : (w : Worker S C) → IsSound w → IsSound (round k callback commit_tx w)
    unfolding round
    round-IsSound w v =
        let p = process_rx_and_maintain_io_lem w v in
        let (processed, w1) = process_rx_and_maintain_io k callback commit_tx w in
        elim (Bool-cases (processed == 0)) [
          | inl idle ↦ rw idle p.sound
          | inr busy ↦ rw busy (record { inv = p.sound.inv; mask = p.sound.mask })
        ]

    -- However long the worker runs, it stays sound.
    pub run_lem :
        (rounds : ℕ) (w : Worker S C) → IsSound w → IsSound (run k callback commit_tx rounds w)
    unfolding run
    run_lem zero w v = v
    run_lem (suc rounds) w v = run_lem rounds (round k callback commit_tx w) (round-IsSound w v)
