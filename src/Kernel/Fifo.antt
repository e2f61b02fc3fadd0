-- ===== src/Kernel/Fifo.antt =====
-- A ring with both of its sides at work: any interleaving of the kernel's moves and the engine's
-- operations is a queue, from which entries come in the order in which they went in.
use af_xdp_reimpl.Prelude.{
  ℕ, ◌-◌, ◌^◌, ◌≤◌, ◌<◌, ◌≡◌, ap, sym, ◌∙◌, arith, List, [], ◌++◌, append_assoc, append-nil, length,
  take, take-append-drop, ap₂, add32,
}
use af_xdp_reimpl.Ring.{
  MmapRing, readable_range, release_consumed_entries, cached_entries, writable_range, set_desc_at,
  publish_written_entries, free_n,
}
use af_xdp_reimpl.Ring.Window.{window, take-window}
use af_xdp_reimpl.Ring.Roles.{contents, unread, length-contents, IsConsumer, IsProducer}
use af_xdp_reimpl.Ring.Consumer.{readable_range_lem, release_consumed_entries_lem}
use af_xdp_reimpl.Ring.Producer.{
  staged, writable_range_lem, set_desc_at_lem, publish_written_entries_lem,
}
use af_xdp_reimpl.Kernel.Contract.{Produces, Consumes}
use af_xdp_reimpl.Kernel.Rings.{Produces-IsConsumer, Consumes-IsProducer, Consumes-contents}

module _ {ℓ} {A : Type ℓ} where
  -- More comes in behind what is there.
  order_put :
      (there ins outs now now' fresh : List A)
      → there ++ ins ≡ outs ++ now
      → now' ≡ now ++ fresh
      → there ++ (ins ++ fresh) ≡ outs ++ now'
  order_put there ins outs now now' fresh e more =
      sym (append_assoc there ins fresh)
      ∙ ap (λ l. l ++ fresh) e
      ∙ append_assoc outs now fresh
      ∙ ap (◌++◌ outs) (sym more)

  -- The oldest go out.
  order_get :
      (there ins outs now now' taken : List A)
      → there ++ ins ≡ outs ++ now
      → now ≡ taken ++ now'
      → there ++ ins ≡ (outs ++ taken) ++ now'
  order_get there ins outs now now' taken e split =
      e ∙ ap (◌++◌ outs) split ∙ sym (append_assoc outs taken now')

module _ {ℓ} {A : Type ℓ} (k : ℕ) where
  -- A run on a ring that the engine consumes, from `r` on: what the kernel has put in, what the
  -- engine has read and released, and the ring by then.
  pub data ConsumerRun (r : MmapRing A) : List A → List A → MmapRing A → Type ℓ where
    here : ConsumerRun r [] [] r
    kernel_puts :
        {ins outs : List A} {s : MmapRing A}
        → ConsumerRun r ins outs s
        → (t : MmapRing A) (m : Produces k s t) → ConsumerRun r (ins ++ m.fresh) outs t
    engine_asks :
        {ins outs : List A} {s : MmapRing A}
        → ConsumerRun r ins outs s
        → (batch : ℕ) → ConsumerRun r ins outs (readable_range s batch).1
    engine_releases :
        {ins outs : List A} {s : MmapRing A}
        → ConsumerRun r ins outs s
        → (n : ℕ) → n ≤ cached_entries s
        → ConsumerRun r ins
            (outs ++ window s.descs s.mask s.cached_cons 0 n)
            (release_consumed_entries s n)

  -- A queue: what was there and came in is what came out and is there, in order.
  pub record IsQueue (r : MmapRing A) (ins outs : List A) (t : MmapRing A) : Type ℓ where
    pub order : contents r ++ ins ≡ outs ++ contents t
    pub bounded : length (contents t) ≤ 2 ^ k

  consumer_run :
      (r : MmapRing A) {ins outs : List A} {t : MmapRing A}
      → IsConsumer k r
      → ConsumerRun r ins outs t
      → IsConsumer k t × (contents r ++ ins ≡ outs ++ contents t)
  consumer_run r v here = (v, append-nil (contents r))
  consumer_run r v (kernel_puts {ins} {outs} {s} run t m) =
      let ih = consumer_run r v run in
      (
        Produces-IsConsumer m ih.0,
        order_put (contents r) ins outs (contents s) (contents t) m.fresh ih.1 m.appended,
      )
  consumer_run r v (engine_asks {ins} {outs} {s} run batch) =
      let ih = consumer_run r v run in
      let q = readable_range_lem batch ih.0 in (q.valid, ih.1 ∙ ap (◌++◌ outs) (sym q.kept))
  consumer_run r v (engine_releases {ins} {outs} {s} run n h) =
      let ih = consumer_run r v run in
      let c = ih.0 in
      let q = release_consumed_entries_lem n c h in
      let read = window s.descs s.mask s.cached_cons 0 n in
      let first : take n (contents s) ≡ read =
        take-window s.descs s.mask s.consumer 0 n (unread s) (omega arith)
        ∙ ap (λ (i : ℕ). window s.descs s.mask i 0 n) c.own in
      (
        q.0,
        order_get (contents r) ins outs (contents s) (contents (release_consumed_entries s n)) read
            ih.1 (sym (take-append-drop n (contents s)) ∙ ap₂ ◌++◌ first (sym q.1)),
      )

  -- On a ring that the engine consumes, however the two sides interleave: the engine reads the
  -- entries once each and in the order in which the kernel put them in, and never more are waiting
  -- than the ring has slots.
  pub consumer_run_lem :
      (r : MmapRing A) {ins outs : List A} {t : MmapRing A}
      → IsConsumer k r
      → ConsumerRun r ins outs t
      → IsQueue r ins outs t
  consumer_run_lem r {t = t} v run =
      let c = consumer_run r v run in
      record { order = c.1; bounded = omega (arith, length-contents t, c.0.own, c.0.fits) }

  -- A run on a ring that the engine fills: what it has published, what the kernel has taken, and the
  -- ring by then. The engine writes slots past the published entries before it publishes them.
  pub data ProducerRun (r : MmapRing A) : List A → List A → MmapRing A → Type ℓ where
    start : ProducerRun r [] [] r
    kernel_takes :
        {ins outs : List A} {s : MmapRing A}
        → ProducerRun r ins outs s
        → (t : MmapRing A) → Consumes s t
        → ProducerRun r ins (outs ++ take (unread s - unread t) (contents s)) t
    engine_asks_room :
        {ins outs : List A} {s : MmapRing A}
        → ProducerRun r ins outs s
        → (n : ℕ) → ProducerRun r ins outs (writable_range s n).1
    engine_writes :
        {ins outs : List A} {s : MmapRing A}
        → ProducerRun r ins outs s
        → (i : ℕ) (x : A) → i < free_n s
        → ProducerRun r ins outs (set_desc_at s (add32 s.cached_prod i) x)
    engine_publishes :
        {ins outs : List A} {s : MmapRing A}
        → ProducerRun r ins outs s
        → (n : ℕ) → n ≤ free_n s
        → ProducerRun r (ins ++ staged s n) outs (publish_written_entries s n)

  producer_run :
      (r : MmapRing A) {ins outs : List A} {t : MmapRing A}
      → IsProducer k r
      → ProducerRun r ins outs t
      → IsProducer k t × (contents r ++ ins ≡ outs ++ contents t)
  producer_run r v start = (v, append-nil (contents r))
  producer_run r v (kernel_takes {ins} {outs} {s} run t m) =
      let ih = producer_run r v run in
      let n : ℕ = unread s - unread t in
      (
        Consumes-IsProducer m ih.0,
        order_get (contents r) ins outs (contents s) (contents t) (take n (contents s)) ih.1 (
            sym (take-append-drop n (contents s))
            ∙ ap (◌++◌ (take n (contents s))) (sym (Consumes-contents m ih.0))),
      )
  producer_run r v (engine_asks_room {ins} {outs} {s} run n) =
      let ih = producer_run r v run in
      let q = writable_range_lem n ih.0 in (q.valid, ih.1 ∙ ap (◌++◌ outs) (sym q.kept))
  producer_run r v (engine_writes {ins} {outs} {s} run i x h) =
      let ih = producer_run r v run in
      let q = set_desc_at_lem i x ih.0 h in (q.0, ih.1 ∙ ap (◌++◌ outs) (sym q.1))
  producer_run r v (engine_publishes {ins} {outs} {s} run n h) =
      let ih = producer_run r v run in
      let q = publish_written_entries_lem n ih.0 h in
      (
        q.0,
        order_put (contents r) ins outs (contents s) (contents (publish_written_entries s n))
            (staged s n) ih.1 q.1,
      )

  -- On a ring that the engine fills, however the two sides interleave: the kernel gets the published
  -- entries once each and in order, no write touches an entry that it has not taken, and never more
  -- are waiting than the ring has slots.
  pub producer_run_lem :
      (r : MmapRing A) {ins outs : List A} {t : MmapRing A}
      → IsProducer k r
      → ProducerRun r ins outs t
      → IsQueue r ins outs t
  producer_run_lem r {t = t} v run =
      let c = producer_run r v run in
      record {
        order = c.1;
        bounded = omega (arith, length-contents t, c.0.own, c.0.behind, c.0.fits);
      }
