-- ===== src/Transmitter/Service.antt =====
-- `publish_and_service_tx`: after the publication completed frames come back, with one wakeup between
-- two passes over the completion ring.
use af_xdp_reimpl.Prelude.{
  ℕ, ◌+◌, ◌%◌, ◌^◌, ◌≤◌, ◌<◌, ◌≡◌, ◌≢◌, ◌⊎◌, [], refl, ap, ◌∙◌, arith, false, none, inl, inr,
  Bool-cases, ltb, ◌==◌, two-pow-small,
}
use af_xdp_reimpl.Ring.Roles.{contents}
use af_xdp_reimpl.Ring.{capacity}
use af_xdp_reimpl.Kernel.{Kernel}
use af_xdp_reimpl.Kernel.Contract.{Held, Sizes, Obeys}
use af_xdp_reimpl.Transmitter.{
  Engine, Transmitter, publish_staged, reclaim_completed_frames, kick_and_reclaim, service_tx,
  publish_and_service_tx,
}
use af_xdp_reimpl.Transmitter.Invariant.{Ledger, Inv}
use af_xdp_reimpl.Transmitter.Reclaim.{reclaim_completed_frames_lem}
use af_xdp_reimpl.Transmitter.Publish.{publish_staged_lem}
use af_xdp_reimpl.Transmitter.Errors.{Noted, Noted-trans}
use af_xdp_reimpl.Transmitter.Kick.{
  Serviced, Serviced-trans, Woken, wakeup, reclaim-Serviced, kick_and_reclaim_lem,
}

module _ {S : Type 0} (held : Held S) (z : Sizes) (l : Ledger) where
  -- The service of the published frames of `x`: none are outstanding, or none are after a pass over
  -- the completion ring, and there is no wakeup then, or there is one.
  abbrev pub Service : Kernel S → Transmitter → Engine S → Engine S → Type 0
  Service k t x e' =
      let budget = capacity x.io.xsk.completion in
      let (reaped, y) = reclaim_completed_frames k budget x in
      ((x.tx.outstanding ≡ 0) × Noted none t e'.tx)
      ⊎ ((y.tx.outstanding ≡ 0) × Noted none t e'.tx)
      ⊎ ((y.tx.outstanding ≢ 0) × Woken k budget reaped t y e')

  -- What one call of `publish_and_service_tx` leaves.
  pub record Flushed (k : Kernel S) (e e' : Engine S) : Type 0 where
    pub inv : Inv held z l e'
    pub used : e'.tx.tx_used ≡ 0
    pub reserved : e'.tx.reserved ≡ false
    pub submitted :
        e'.tx.frames_submitted % 2 ^ 64 ≡ (e.tx.frames_submitted + e.tx.tx_used) % 2 ^ 64
    pub moved : e'.tx.outstanding + e'.alloc.count ≡ e.tx.outstanding + e.tx.tx_used + e.alloc.count
    pub freed : e.alloc.count ≤ e'.alloc.count
    pub progress :
        0 < e.tx.outstanding + e.tx.tx_used
        → contents (k.run (publish_staged e).io).xsk.completion ≢ []
        → e.alloc.count < e'.alloc.count
    pub service : Service k e.tx (publish_staged e) e'

  module _ (k : Kernel S) (obeys : Obeys held z k) where
    service_tx_lem :
        (t : Transmitter) (e : Engine S)
        → Inv held z l e
        → Noted none t e.tx
        → let e' = service_tx k e in
          Serviced held z l e e'
          × Service k t e e'
          × (contents (k.run e.io).xsk.completion ≢ [] → e'.tx.outstanding < e.tx.outstanding)
    unfolding service_tx
    service_tx_lem t e v before =
        let budget = capacity e.io.xsk.completion in
        let r = reclaim_completed_frames_lem held z l k obeys budget e v in
        let first = reclaim-Serviced held z l k obeys budget e v in
        let some_room : 0 < budget = completion_room e v in
        let (reaped, e1) = reclaim_completed_frames k budget e in
        let noted : Noted none t e1.tx = (r.untouched.3 ∙ before.0, r.untouched.4 ∙ before.1) in
        let started : contents (k.run e.io).xsk.completion ≢ []
            → e1.tx.outstanding < e.tx.outstanding =
          λ there. omega (arith, r.returned, r.ready some_room there) in
        elim (Bool-cases (e1.tx.outstanding == 0)) [
          | inl done ↦ rw done (first, inr (inl (ground arith, noted)), started)
          | inr waiting ↦
              let q = kick_and_reclaim_lem held z l k obeys budget reaped e1 first.inv in
              let w = wakeup k e1 in
              let e' = kick_and_reclaim k budget reaped e1 in
              rw waiting (
                Serviced-trans held z l first q.0,
                inr (
                    inr (
                      ground arith,
                      (Noted-trans w.0 t e1.tx e'.tx e'.tx noted q.1.0 (refl, refl), q.1.1),
                    )),
                λ there. omega (arith, started there, q.0.fewer),
              )
        ]
      where
        completion_room : (e : Engine S) → Inv held z l e → 0 < capacity e.io.xsk.completion
        completion_room e v = omega (
          arith,
          v.rings.completion.shape.size,
          two-pow-small z.completion v.rings.completion.shape.small,
        )

    publish_staged-Noted : (e : Engine S) → Noted none e.tx (publish_staged e).tx
    unfolding publish_staged
    publish_staged-Noted e = elim (Bool-cases (ltb 0 e.tx.tx_used)) [
      | inl there ↦ rw there (refl, refl)
      | inr none_there ↦ rw none_there (refl, refl)
    ]

    pub publish_and_service_tx_lem :
        (e : Engine S) → Inv held z l e → Flushed k e (publish_and_service_tx k e)
    unfolding publish_and_service_tx
    publish_and_service_tx_lem e v =
        let p = publish_staged_lem held z l e v in
        let e1 = publish_staged e in
        let silent = publish_staged-Noted e in
        elim (Bool-cases (e1.tx.outstanding == 0)) [
          | inl nothing ↦ rw nothing (record {
            inv = p.inv;
            used = p.used;
            reserved = p.reserved;
            submitted = p.submitted;
            moved = omega (arith, p.outstanding, p.alloc);
            freed = omega (arith, p.alloc);
            progress = λ h there. absurd (ground (arith, p.outstanding));
            service = inl (ground arith, silent);
          })
          | inr waiting ↦
              let s = service_tx_lem e.tx e1 p.inv silent in
              rw waiting (record {
                inv = s.0.inv;
                used = s.0.used ∙ p.used;
                reserved = s.0.reserved ∙ p.reserved;
                submitted = ap (λ (n : ℕ). n % 2 ^ 64) s.0.submitted ∙ p.submitted;
                moved = omega (arith, s.0.moved, p.outstanding, p.alloc);
                freed = omega (arith, s.0.moved, s.0.fewer, p.alloc);
                progress = λ h there. omega (arith, s.0.moved, s.2 there, p.alloc);
                service = s.1;
              })
        ]
