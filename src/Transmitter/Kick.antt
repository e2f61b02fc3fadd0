-- ===== src/Transmitter/Kick.antt =====
-- `kick_and_reclaim`: one wakeup, and a pass over the completion ring behind it.
use af_xdp_reimpl.Prelude.{
  ℕ, ◌+◌, ◌-◌, ◌≤◌, ◌<◌, ◌≡◌, ◌≢◌, [], refl, sym, ◌∙◌, subst, arith, ◌||◌, Option, none, inl, inr,
  Bool-cases, ltb, if◌then◌else◌,
}
use af_xdp_reimpl.Ring.Roles.{contents}
use af_xdp_reimpl.Ring.{need_wakeup}
use af_xdp_reimpl.Kernel.{Io, Kernel}
use af_xdp_reimpl.Kernel.Contract.{Held, Sizes, Obeys}
use af_xdp_reimpl.Transmitter.{
  Engine, Transmitter, meanwhile, note_error, request_tx_progress, reclaim_completed_frames,
  kick_and_reclaim,
}
use af_xdp_reimpl.Transmitter.Invariant.{Ledger, Inv, Keeps-Inv}
use af_xdp_reimpl.Transmitter.Reclaim.{reclaim_completed_frames_lem}
use af_xdp_reimpl.Transmitter.Errors.{Noted, Noted-trans, note_error-Noted, note_error_counters}

module _ {S : Type 0} where
  -- The wakeup of an engine: its outcome, and the socket after it.
  abbrev pub wakeup : Kernel S → Engine S → Option ℕ × Io S
  wakeup k e =
      let io = k.run e.io in
      if io.xsk.busy_poll || need_wakeup io.xsk.tx then k.sendto io else (none, io)

  -- From the engine `y`, with `reaped` of at most `budget` frames just reclaimed: one wakeup, whose
  -- outcome is noted against `t`, and frames come back that are completed after it.
  abbrev pub Woken : Kernel S → ℕ → ℕ → Transmitter → Engine S → Engine S → Type 0
  Woken k budget reaped t y e' =
      let w = wakeup k y in
      Noted w.0 t e'.tx
      × (reaped < budget
          → contents (k.run w.1).xsk.completion ≢ []
          → e'.tx.outstanding < y.tx.outstanding)

module _ {S : Type 0} (held : Held S) (z : Sizes) (l : Ledger) where
  -- The counters of wakeup errors are outside the invariant.
  counters-Inv :
      (e : Engine S) (a b : ℕ)
      → Inv held z l e
      → Inv held z l
          (record e { tx = record e.tx { retryable_wakeup_errors = a; first_wakeup_error = b } })
  counters-Inv e a b v = record {
    rings = v.rings;
    alloc = v.alloc;
    room = v.room;
    mask = v.mask;
    window = λ r. let w = v.window r in record { start = w.start; used = w.used; avail = w.avail };
    idle = v.idle;
    processed = v.processed;
    books = v.books;
    conserved = v.conserved;
    counted = v.counted;
  }

  -- What servicing promises, from an engine with nothing staged.
  pub record Serviced (e e' : Engine S) : Type 0 where
    pub inv : Inv held z l e'
    pub moved : e'.tx.outstanding + e'.alloc.count ≡ e.tx.outstanding + e.alloc.count
    pub fewer : e'.tx.outstanding ≤ e.tx.outstanding
    pub used : e'.tx.tx_used ≡ e.tx.tx_used
    pub reserved : e'.tx.reserved ≡ e.tx.reserved
    pub submitted : e'.tx.frames_submitted ≡ e.tx.frames_submitted

  pub Serviced-trans : {e1 e2 e3 : Engine S} → Serviced e1 e2 → Serviced e2 e3 → Serviced e1 e3
  Serviced-trans a b = record {
    inv = b.inv;
    moved = b.moved ∙ a.moved;
    fewer = omega (arith, a.fewer, b.fewer);
    used = b.used ∙ a.used;
    reserved = b.reserved ∙ a.reserved;
    submitted = b.submitted ∙ a.submitted;
  }

  module _ (k : Kernel S) (obeys : Obeys held z k) where
    pub reclaim-Serviced :
        (budget : ℕ) (e : Engine S)
        → Inv held z l e
        → Serviced e (reclaim_completed_frames k budget e).1
    reclaim-Serviced budget e v =
        let r = reclaim_completed_frames_lem held z l k obeys budget e v in
        record {
          inv = r.inv;
          moved = omega (arith, r.returned, r.gained);
          fewer = omega (arith, r.returned);
          used = r.untouched.0;
          reserved = r.untouched.1;
          submitted = r.untouched.2;
        }

    note_error-Serviced :
        (e : Engine S) (error : Option ℕ)
        → Inv held z l e
        → Serviced e (record e { tx = note_error e.tx error })
    note_error-Serviced e error v =
        let (a, b, same) = note_error_counters e.tx error in
        subst (λ (t : Transmitter). Serviced e (record e { tx = t })) (sym same)
          (record {
            inv = counters-Inv e a b v;
            moved = refl;
            fewer = omega arith;
            used = refl;
            reserved = refl;
            submitted = refl;
          })

    -- A pass over the completion ring, if the budget is not used up.
    abbrev last_pass : ℕ → ℕ → Engine S → Engine S
    last_pass budget reaped e =
        if ltb reaped budget then (reclaim_completed_frames k (budget - reaped) e).1 else e

    last_pass_lem :
        (budget reaped : ℕ) (e : Engine S)
        → Inv held z l e
        → let e' = last_pass budget reaped e in
          Serviced e e'
          × Noted none e.tx e'.tx
          × (reaped < budget
              → contents (k.run e.io).xsk.completion ≢ []
              → e'.tx.outstanding < e.tx.outstanding)
    last_pass_lem budget reaped e v =
        let r = reclaim_completed_frames_lem held z l k obeys (budget - reaped) e v in
        elim (Bool-cases (ltb reaped budget)) [
          | inl more ↦ rw more (
            reclaim-Serviced (budget - reaped) e v,
            (r.untouched.3, r.untouched.4),
            λ h there. omega (arith, r.returned, r.ready (omega arith) there),
          )
          | inr spent ↦ rw spent (
            record {
              inv = v;
              moved = refl;
              fewer = omega arith;
              used = refl;
              reserved = refl;
              submitted = refl;
            },
            (refl, refl),
            λ h there. absurd (ground arith),
          )
        ]

    -- After a wakeup that left the socket `y`.
    after_wakeup :
        (budget reaped : ℕ) (e : Engine S) (error : Option ℕ) (y : Io S)
        → Inv held z l (record e { io = y })
        → let e1 = record e { io = y } in
          let e' = last_pass budget reaped (record e1 { tx = note_error e1.tx error }) in
          Serviced e e'
          × Noted error e.tx e'.tx
          × (reaped < budget
              → contents (k.run y).xsk.completion ≢ []
              → e'.tx.outstanding < e.tx.outstanding)
    after_wakeup budget reaped e error y v1 =
        let e1 : Engine S = record e { io = y } in
        let noted = note_error-Serviced e1 error v1 in
        let e2 : Engine S = record e1 { tx = note_error e1.tx error } in
        let p = last_pass_lem budget reaped e2 noted.inv in
        let s = Serviced-trans noted p.0 in
        (
          record {
            inv = s.inv;
            moved = s.moved;
            fewer = s.fewer;
            used = s.used;
            reserved = s.reserved;
            submitted = s.submitted;
          },
          Noted-trans error e.tx e.tx e2.tx (last_pass budget reaped e2).tx (refl, refl)
              (note_error-Noted e.tx error) p.1,
          λ h there. omega (arith, p.2 h there, noted.fewer),
        )

    pub kick_and_reclaim_lem :
        (budget reaped : ℕ) (e : Engine S)
        → Inv held z l e
        → let e' = kick_and_reclaim k budget reaped e in
          Serviced e e' × Woken k budget reaped e.tx e e'
    unfolding kick_and_reclaim request_tx_progress
    kick_and_reclaim_lem budget reaped e v =
        let io = k.run e.io in
        let v1 = Keeps-Inv held z e io (obeys.run e.io v.rings) v in
        elim (Bool-cases (io.xsk.busy_poll || need_wakeup io.xsk.tx)) [
          | inl call ↦
              let v2 =
                Keeps-Inv held z (meanwhile k e) (k.sendto io).1 (obeys.sendto io v1.rings) v1 in
              let a = after_wakeup budget reaped e (k.sendto io).0 (k.sendto io).1 v2 in
              rw call (a.0, (a.1, a.2))
          | inr quiet ↦
              let a = after_wakeup budget reaped e none io v1 in rw quiet (a.0, (a.1, a.2))
        ]
