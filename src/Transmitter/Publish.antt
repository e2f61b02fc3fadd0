-- ===== src/Transmitter/Publish.antt =====
-- The first part of `publish_and_service_tx`: the staged frames go to the TX ring at once.
use af_xdp_reimpl.Prelude.{
  ℕ, ◌+◌, ◌%◌, add32, ◌^◌, ◌≤◌, ◌≡◌, refl, ap, sym, ◌∙◌, arith, ◌++◌, append-nil, true, false, inl,
  inr, length, length-append, weigh, weigh-append, Bool-cases, ltb,
}
use af_xdp_reimpl.Ring.{free_n}
use af_xdp_reimpl.Ring.Roles.{contents}
use af_xdp_reimpl.Ring.Producer.{staged, length-staged, publish_written_entries_lem}
use af_xdp_reimpl.Kernel.Contract.{Held, Sizes}
use af_xdp_reimpl.Transmitter.{Engine, publish_staged}
use af_xdp_reimpl.Transmitter.Invariant.{Ledger, Inv, at_desc, number_of_frames}

module _ {S : Type 0} (held : Held S) (z : Sizes) (l : Ledger) where
  -- What publication promises.
  pub record Published (e e' : Engine S) : Type 0 where
    pub inv : Inv held z l e'
    pub entries : contents e'.io.xsk.tx ≡ contents e.io.xsk.tx ++ staged e.io.xsk.tx e.tx.tx_used
    pub outstanding : e'.tx.outstanding ≡ e.tx.outstanding + e.tx.tx_used
    pub used : e'.tx.tx_used ≡ 0
    pub reserved : e'.tx.reserved ≡ false
    pub submitted :
        e'.tx.frames_submitted % 2 ^ 64 ≡ (e.tx.frames_submitted + e.tx.tx_used) % 2 ^ 64
    pub alloc : e'.alloc.count ≡ e.alloc.count

  staged_fits : (e : Engine S) → Inv held z l e → e.tx.tx_used ≤ free_n e.io.xsk.tx
  staged_fits e v = elim (Bool-cases e.tx.reserved) [
    | inl r ↦ omega (arith, (v.window r).used, (v.window r).avail)
    | inr r ↦ omega (arith, v.idle r)
  ]

  -- Neither sum below wraps, since the frames are fewer than `2 ^ 32`.
  no_wrap :
      (e : Engine S)
      → Inv held z l e
      → add32 e.tx.outstanding e.tx.tx_used ≡ e.tx.outstanding + e.tx.tx_used
  no_wrap e v = omega (
    arith,
    number_of_frames held z e v,
    v.counted,
    v.processed,
    v.room,
    v.alloc.fits,
    v.alloc.word,
  )

  publish_some :
      (e : Engine S) → Inv held z l e → ltb 0 e.tx.tx_used ≡ true → Published e (publish_staged e)
  unfolding publish_staged
  publish_some e v h =
      let n = e.tx.tx_used in
      let p = publish_written_entries_lem n v.rings.tx (staged_fits e v) in
      rw h (record {
        inv = record {
          rings = record {
            rx = v.rings.rx;
            completion = v.rings.completion;
            fill = v.rings.fill;
            tx = p.0;
          };
          alloc = v.alloc;
          room = v.room;
          mask = v.mask;
          window = λ r. cc;
          idle = λ _. refl;
          processed = v.processed;
          books = omega (arith, v.books, no_wrap e v);
          conserved = λ f. omega (
            arith,
            v.conserved f,
            ap (weigh (at_desc held z f)) p.1,
            weigh-append (at_desc held z f) (contents e.io.xsk.tx) (staged e.io.xsk.tx n),
          );
          counted = omega (
            arith,
            v.counted,
            no_wrap e v,
            ap length p.1,
            length-append (contents e.io.xsk.tx) (staged e.io.xsk.tx n),
            length-staged e.io.xsk.tx n,
          );
        };
        entries = p.1;
        outstanding = no_wrap e v;
        used = refl;
        reserved = refl;
        submitted = omega arith;
        alloc = refl;
      })

  publish_none :
      (e : Engine S) → Inv held z l e → ltb 0 e.tx.tx_used ≡ false → Published e (publish_staged e)
  unfolding publish_staged
  publish_none e v h =
      let none_used : e.tx.tx_used ≡ 0 = ground arith in
      rw h (record {
        inv = record {
          rings = v.rings;
          alloc = v.alloc;
          room = v.room;
          mask = v.mask;
          window = λ r. cc;
          idle = λ _. refl;
          processed = v.processed;
          books = v.books;
          conserved = λ f. omega (
            arith,
            v.conserved f,
            ap (λ (n : ℕ). weigh (at_desc held z f) (staged e.io.xsk.tx n)) none_used,
          );
          counted = v.counted;
        };
        entries = sym (
            ap (λ (n : ℕ). contents e.io.xsk.tx ++ staged e.io.xsk.tx n) none_used
            ∙ append-nil (contents e.io.xsk.tx));
        outstanding = omega arith;
        used = refl;
        reserved = refl;
        submitted = omega arith;
        alloc = refl;
      })

  -- The first part of `publish_and_service_tx` appends the staged descriptors to the TX ring in
  -- order and counts them as outstanding and submitted; it frees nothing and touches no other frame.
  pub publish_staged_lem : (e : Engine S) → Inv held z l e → Published e (publish_staged e)
  publish_staged_lem e v = elim (Bool-cases (ltb 0 e.tx.tx_used)) [
    | inl some_used ↦ publish_some e v some_used
    | inr none_used ↦ publish_none e v none_used
  ]
