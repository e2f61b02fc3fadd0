-- ===== src/Transmitter/Rx.antt =====
-- Sending a frame leaves the RX ring to the kernel.
use af_xdp_reimpl.Prelude.{ℕ, ◌||◌, Bool-cases, ltb, ◌==◌, inl, inr, subst, sym, if_true, if_false}
use af_xdp_reimpl.Kernel.{Kernel}
use af_xdp_reimpl.Kernel.Contract.{Held, Sizes, Obeys}
use af_xdp_reimpl.Kernel.Extends.{Extends, Extends-refl, Extends-trans, Produces-Extends}
use af_xdp_reimpl.Transmitter.{
  Engine, stage, tx_window, reserve, refresh_avail, stage_or_refresh, send_in_place,
}
use af_xdp_reimpl.Transmitter.Stage.{reserve-Inv}
use af_xdp_reimpl.Transmitter.Invariant.{Ledger, Inv}

module _ {S : Type 0} (held : Held S) (z : Sizes) (l : Ledger) (k : Kernel S)
    (obeys : Obeys held z k) where
  tx_window-Extends :
      (e : Engine S) → Inv held z l e → Extends e.io.xsk.rx (tx_window k e).1.io.xsk.rx
  unfolding tx_window
  tx_window-Extends e v = Produces-Extends (obeys.run e.io v.rings).rx

  stage-Extends :
      (e : Engine S) (addr size : ℕ) → Extends e.io.xsk.rx (stage e addr size).1.io.xsk.rx
  unfolding stage
  stage-Extends e addr size = Extends-refl e.io.xsk.rx

  refresh_avail-Extends :
      (e : Engine S) → Inv held z l e → Extends e.io.xsk.rx (refresh_avail k e).io.xsk.rx
  unfolding refresh_avail
  refresh_avail-Extends e v = tx_window-Extends e v

  reserve-Extends : (e : Engine S) → Inv held z l e → Extends e.io.xsk.rx (reserve k e).io.xsk.rx
  unfolding reserve
  reserve-Extends e v = tx_window-Extends e v

  stage_or_refresh-Extends :
      (e : Engine S) (addr size : ℕ)
      → Inv held z l e
      → Extends e.io.xsk.rx (stage_or_refresh k e addr size).1.io.xsk.rx
  unfolding stage_or_refresh
  stage_or_refresh-Extends e addr size v =
      let e2 = refresh_avail k e in
      elim (Bool-cases (e.tx.tx_used == e.tx.tx_avail)) [
        | inr room ↦ rw room (stage-Extends e addr size)
        | inl exhausted ↦ rw exhausted (elim (Bool-cases (e2.tx.tx_used == e2.tx.tx_avail)) [
          | inl full ↦ rw full (refresh_avail-Extends e v)
          | inr room ↦
              rw room (Extends-trans (refresh_avail-Extends e v) (stage-Extends e2 addr size))
        ])
      ]

  pub send_in_place-Extends :
      (addr size : ℕ) (e : Engine S)
      → Inv held z l e
      → Extends e.io.xsk.rx (send_in_place k addr size e).1.io.xsk.rx
  unfolding send_in_place
  send_in_place-Extends addr size e v = elim (Bool-cases (size == 0 || ltb e.tx.frame_size size)) [
    | inl bad ↦ rw bad (Extends-refl e.io.xsk.rx)
    | inr good ↦ rw good (elim (Bool-cases e.tx.reserved) [
      | inl ready ↦
          subst (λ e'. Extends e.io.xsk.rx (stage_or_refresh k e' addr size).1.io.xsk.rx)
            (sym (if_true e (reserve k e) ready)) (stage_or_refresh-Extends e addr size v)
      | inr closed ↦
          subst (λ e'. Extends e.io.xsk.rx (stage_or_refresh k e' addr size).1.io.xsk.rx)
            (sym (if_false e (reserve k e) closed))
            (Extends-trans (reserve-Extends e v) (
              stage_or_refresh-Extends (reserve k e) addr size
                (reserve-Inv held z l k obeys e v closed).0))
    ])
  ]
