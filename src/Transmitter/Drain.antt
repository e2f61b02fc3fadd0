-- ===== src/Transmitter/Drain.antt =====
-- `drain_until`: passes until nothing is outstanding or the deadline is over.
use af_xdp_reimpl.Prelude.{ℕ, zero, suc, ◌+◌, ◌≡◌, arith, Bool-cases, inl, inr, ◌==◌}
use af_xdp_reimpl.Kernel.{Kernel}
use af_xdp_reimpl.Kernel.Contract.{Held, Sizes, Obeys}
use af_xdp_reimpl.Transmitter.{Engine, publish_and_service_tx, drain_until}
use af_xdp_reimpl.Transmitter.Invariant.{Ledger, Inv, in_flight}
use af_xdp_reimpl.Transmitter.Service.{publish_and_service_tx_lem}

module _ {S : Type 0} (held : Held S) (z : Sizes) (l : Ledger) where
  -- What a drain leaves: the number that it returns is that of the frames still on their way.
  pub record Drained (e : Engine S) (out : ℕ × Engine S) : Type 0 where
    pub inv : Inv held z l out.1
    pub answer : out.0 ≡ in_flight held z out.1.io
    pub used : out.1.tx.tx_used ≡ 0
    pub moved : out.0 + out.1.alloc.count ≡ e.tx.outstanding + e.tx.tx_used + e.alloc.count

  -- `drain_until` leaves nothing staged and loses no frame: what it returns is the number of
  -- frames that have not come back, and all others that were outstanding or staged are free again.
  pub drain_until_lem :
      (k : Kernel S)
      → Obeys held z k
      → (before : ℕ) (e : Engine S) → Inv held z l e
      → Drained e (drain_until k before e)
  unfolding drain_until
  drain_until_lem k obeys zero e v =
      let f = publish_and_service_tx_lem held z l k obeys e v in
      record { inv = f.inv; answer = f.inv.counted; used = f.used; moved = f.moved }
  drain_until_lem k obeys (suc before) e v =
      let f = publish_and_service_tx_lem held z l k obeys e v in
      let e1 = publish_and_service_tx k e in
      elim (Bool-cases (e1.tx.outstanding == 0)) [
        | inl done ↦
            rw done (record { inv = f.inv; answer = f.inv.counted; used = f.used; moved = f.moved })
        | inr waiting ↦
            let r = drain_until_lem k obeys before e1 f.inv in
            rw waiting (record {
              inv = r.inv;
              answer = r.answer;
              used = r.used;
              moved = omega (arith, r.moved, f.moved, f.used);
            })
      ]
