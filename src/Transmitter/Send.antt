-- ===== src/Transmitter/Send.antt =====
-- `send_in_place`: a frame goes from the caller to the reserved slots of the TX ring, or stays
-- with the caller.
use af_xdp_reimpl.Prelude.{
  ℕ, ◌+◌, ◌^◌, ◌≤◌, ◌<◌, ◌≡◌, refl, ap, sym, ◌∙◌, subst, arith, List, [], ◌∷◌, ◌++◌, Bool, true,
  false, ◌||◌, ◌⊎◌, inl, inr, add64, length, Bool-cases, ltb, ◌==◌, if_true, if_false,
}
use af_xdp_reimpl.Ring.Roles.{contents}
use af_xdp_reimpl.Ring.Producer.{staged}
use af_xdp_reimpl.Kernel.{Kernel}
use af_xdp_reimpl.Kernel.Contract.{Held, Sizes, Obeys}
use af_xdp_reimpl.Transmitter.{
  Engine, Transmitter, reject, stage, tx_window, reserve, refresh_avail, stage_or_refresh,
  send_in_place,
}
use af_xdp_reimpl.Transmitter.Invariant.{Ledger, Inv}
use af_xdp_reimpl.Transmitter.Stage.{desc_of, tx_window_lem, reserve-Inv, stage-Inv, reserve_keeps}

module _ {S : Type 0} (held : Held S) (z : Sizes) (l : Ledger) (addr size : ℕ) (rest : List ℕ) where
  -- The frame is staged: it left the caller's hands for the last slot in use.
  pub record Accepted (e : Engine S) (out : Bool × Engine S) : Type 0 where
    pub ok : out.0 ≡ true
    pub fits : (0 < size) × (size ≤ e.tx.frame_size)
    pub inv : Inv held z (record l { hand = rest }) out.1
    pub slots :
        staged out.1.io.xsk.tx out.1.tx.tx_used
        ≡ staged e.io.xsk.tx e.tx.tx_used ++ desc_of addr size ∷ []

  -- The frame stays with the caller, for its length or because no TX slot is free.
  pub record Refused (e : Engine S) (out : Bool × Engine S) : Type 0 where
    pub ok : out.0 ≡ false
    pub inv : Inv held z l out.1
    pub slots : staged out.1.io.xsk.tx out.1.tx.tx_used ≡ staged e.io.xsk.tx e.tx.tx_used
    pub rejected : out.1.tx.frames_rejected ≡ add64 e.tx.frames_rejected 1
    pub cause :
        ((size ≡ 0) ⊎ (e.tx.frame_size < size))
        ⊎ (out.1.tx.tx_used + length (contents out.1.io.xsk.tx) ≡ 2 ^ z.tx)

  abbrev pub Sent : Engine S → Bool × Engine S → Type 0
  Sent e out = Accepted e out ⊎ Refused e out

  -- A reservation changes neither what is staged nor the counters.
  Sent-from :
      (e e' : Engine S) (out : Bool × Engine S)
      → staged e'.io.xsk.tx e'.tx.tx_used ≡ staged e.io.xsk.tx e.tx.tx_used
      → (e'.tx.frames_rejected ≡ e.tx.frames_rejected)
        × (e'.tx.frame_size ≡ e.tx.frame_size)
        × (e'.tx.reserved ≡ true)
      → Sent e' out
      → Sent e out
  Sent-from e e' out slots same (inl a) = inl (record {
    ok = a.ok;
    fits = subst (λ (n : ℕ). (0 < size) × (size ≤ n)) same.1 a.fits;
    inv = a.inv;
    slots = a.slots ∙ ap (λ ds. ds ++ desc_of addr size ∷ []) slots;
  })
  Sent-from e e' out slots same (inr r) = inr (record {
    ok = r.ok;
    inv = r.inv;
    slots = r.slots ∙ slots;
    rejected = r.rejected ∙ ap (λ (n : ℕ). add64 n 1) same.0;
    cause =
        subst
          (λ (n : ℕ).
            ((size ≡ 0) ⊎ (n < size))
            ⊎ (out.1.tx.tx_used + length (contents out.1.io.xsk.tx) ≡ 2 ^ z.tx))
          same.1 r.cause;
  })

  module _ (k : Kernel S) (obeys : Obeys held z k) (inhand : l.hand ≡ addr ∷ rest) where
    stage_lem :
        (e : Engine S)
        → Inv held z l e
        → e.tx.reserved ≡ true
        → e.tx.tx_used < e.tx.tx_avail
        → (0 < size) × (size ≤ e.tx.frame_size)
        → Accepted e (stage e addr size)
    stage_lem e v reserved h fits =
        let s = stage-Inv held z l addr size rest e v inhand reserved h in
        record { ok = unfold stage in refl; fits = fits; inv = s.0; slots = s.1 }

    -- The window measured again: at least the slots in use, and all that are free.
    record Refreshed (e e2 : Engine S) : Type 0 where
      inv : Inv held z l e2
      used : e2.tx.tx_used ≡ e.tx.tx_used
      below : e2.tx.tx_used ≤ e2.tx.tx_avail
      reserved : e2.tx.reserved ≡ e.tx.reserved
      frame_size : e2.tx.frame_size ≡ e.tx.frame_size
      rejected : e2.tx.frames_rejected ≡ e.tx.frames_rejected
      slots : staged e2.io.xsk.tx e2.tx.tx_used ≡ staged e.io.xsk.tx e.tx.tx_used
      exact : e2.tx.tx_avail + length (contents e2.io.xsk.tx) ≡ 2 ^ z.tx

    refresh_avail_lem :
        (e : Engine S) → Inv held z l e → e.tx.reserved ≡ true → Refreshed e (refresh_avail k e)
    unfolding refresh_avail
    refresh_avail_lem e v reserved =
        let q = tx_window_lem held z l k obeys e v in
        let w = v.window reserved in
        let e1 : Engine S = (tx_window k e).1 in
        let used : e1.tx.tx_used ≡ e.tx.tx_used = ap (λ (t : Transmitter). t.tx_used) q.same in
        let below : e1.tx.tx_used ≤ (tx_window k e).0.amount =
          omega (arith, q.all, q.grown, w.used, w.avail) in
        let i = q.inv in
        record {
          inv = record {
            rings = i.rings;
            alloc = i.alloc;
            room = i.room;
            mask = i.mask;
            books = i.books;
            window = λ r. record {
              start = (i.window r).start;
              used = below;
              avail = omega (arith, q.all);
            };
            idle = i.idle;
            processed = i.processed;
            conserved = i.conserved;
            counted = i.counted;
          };
          used = used;
          below = below;
          reserved = ap (λ (t : Transmitter). t.reserved) q.same;
          frame_size = ap (λ (t : Transmitter). t.frame_size) q.same;
          rejected = ap (λ (t : Transmitter). t.frames_rejected) q.same;
          slots = q.slots e1.tx.tx_used ∙ ap (staged e.io.xsk.tx) used;
          exact = q.exact;
        }

    reject-Inv : (e : Engine S) → Inv held z l e → Inv held z l (reject e).1
    reject-Inv e v = record {
      rings = v.rings;
      alloc = v.alloc;
      room = v.room;
      mask = v.mask;
      books = v.books;
      window =
          λ r. let w = v.window r in record { start = w.start; used = w.used; avail = w.avail };
      idle = v.idle;
      processed = v.processed;
      conserved = v.conserved;
      counted = v.counted;
    }

    stage_or_refresh_lem :
        (e : Engine S)
        → Inv held z l e
        → e.tx.reserved ≡ true
        → (0 < size) × (size ≤ e.tx.frame_size)
        → Sent e (stage_or_refresh k e addr size)
    unfolding stage_or_refresh
    stage_or_refresh_lem e v reserved fits =
        let w = v.window reserved in
        let fresh = refresh_avail_lem e v reserved in
        let e2 : Engine S = refresh_avail k e in
        elim (Bool-cases (e.tx.tx_used == e.tx.tx_avail)) [
          | inr room ↦ rw room (inl (stage_lem e v reserved (ground (arith, w.used)) fits))
          | inl exhausted ↦ rw exhausted (elim (Bool-cases (e2.tx.tx_used == e2.tx.tx_avail)) [
            | inl full ↦ rw full (
                inr (record {
                  ok = refl;
                  inv = reject-Inv e2 fresh.inv;
                  slots = fresh.slots;
                  rejected = ap (λ (n : ℕ). add64 n 1) fresh.rejected;
                  cause = inr (ground (arith, fresh.exact));
                }))
            | inr room ↦
                let s =
                  stage_lem e2 fresh.inv (fresh.reserved ∙ reserved) (ground (arith, fresh.below))
                    (fits.0, omega (arith, fits.1, fresh.frame_size)) in
                rw room (
                  inl (record {
                    ok = s.ok;
                    fits = fits;
                    inv = s.inv;
                    slots = s.slots ∙ ap (λ ds. ds ++ desc_of addr size ∷ []) fresh.slots;
                  }))
          ])
        ]

    -- `send_in_place` either stages a frame of a possible length behind those staged before, or
    -- leaves it with the caller and counts a rejection; it refuses only an impossible length or a
    -- full TX ring.
    pub send_in_place_lem : (e : Engine S) → Inv held z l e → Sent e (send_in_place k addr size e)
    unfolding send_in_place
    send_in_place_lem e v = elim (Bool-cases (size == 0 || ltb e.tx.frame_size size)) [
      | inl bad ↦ rw bad (
          inr (record {
            ok = refl;
            inv = reject-Inv e v;
            slots = refl;
            rejected = refl;
            cause = inl (ground arith);
          }))
      | inr good ↦ rw good (elim (Bool-cases e.tx.reserved) [
        | inl open_window ↦
            subst (λ e'. Sent e (stage_or_refresh k e' addr size))
              (sym (if_true e (reserve k e) open_window))
              (stage_or_refresh_lem e v open_window (ground arith))
        | inr closed ↦
            let r = reserve-Inv held z l k obeys e v closed in
            let fits : (0 < size) × (size ≤ e.tx.frame_size) = ground arith in
            subst (λ e'. Sent e (stage_or_refresh k e' addr size))
              (sym (if_false e (reserve k e) closed))
              (Sent-from e (reserve k e) _ r.1 (reserve_keeps k e) (
                stage_or_refresh_lem (reserve k e) r.0 (reserve_keeps k e).2
                  (fits.0, omega (arith, fits.1, (reserve_keeps k e).1))))
      ])
    ]
