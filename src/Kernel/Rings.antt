-- ===== src/Kernel/Rings.antt =====
-- What the kernel's moves leave of the engine's view of a ring.
use af_xdp_reimpl.Prelude.{ℕ, ◌+◌, ◌-◌, ◌≡◌, sym, ap, ap₂, ◌∙◌, arith, add32, sub32, drop}
use af_xdp_reimpl.Ring.{MmapRing, free_n}
use af_xdp_reimpl.Ring.Window.{window, drop-window, window_shift}
use af_xdp_reimpl.Ring.Roles.{contents, IsConsumer, IsProducer}
use af_xdp_reimpl.Ring.Producer.{staged}
use af_xdp_reimpl.Kernel.{Io}
use af_xdp_reimpl.Kernel.Contract.{SameLocal, Produces, Consumes, Sizes, AreRings, Held, Keeps}

module _ {ℓ} {A : Type ℓ} {r r' : MmapRing A} where
  pub free_n-SameLocal : SameLocal r r' → free_n r' ≡ free_n r
  free_n-SameLocal l = rw (l.num_descs, l.cached_prod, l.cached_cons)

  pub Produces-IsConsumer : {k : ℕ} → Produces k r r' → IsConsumer k r → IsConsumer k r'
  Produces-IsConsumer m v = ground arith

  pub Consumes-IsProducer : {k : ℕ} → Consumes r r' → IsProducer k r → IsProducer k r'
  Consumes-IsProducer m v = ground arith

  pub Consumes-staged : (n : ℕ) → Consumes r r' → staged r' n ≡ staged r n
  Consumes-staged n m = rw (m.descs, m.local.mask, m.local.cached_prod)

  -- The entries that the kernel has not taken stay, and it takes the oldest.
  pub Consumes-contents :
      {k : ℕ}
      → Consumes r r'
      → IsProducer k r
      → contents r'
        ≡ drop (sub32 r.producer r.consumer - sub32 r'.producer r'.consumer) (contents r)
  Consumes-contents m v =
      let before : ℕ = sub32 r.producer r.consumer in
      let after : ℕ = sub32 r'.producer r'.consumer in
      let taken : ℕ = before - after in
      let moved : r'.consumer ≡ add32 r.consumer taken = omega arith in
      let left : after ≡ before - taken = omega arith in
      let origin : taken + 0 ≡ 0 + taken = omega arith in
      rw (m.descs, m.local.mask)
        (ap₂ (λ (s n : ℕ). window r.descs r.mask s 0 n) moved left
          ∙ window_shift r.descs r.mask r.consumer taken 0 (before - taken)
          ∙ ap (λ (i : ℕ). window r.descs r.mask r.consumer i (before - taken)) origin
          ∙ sym (drop-window r.descs r.mask r.consumer 0 taken before (omega arith)))

module _ {S : Type 0} {held : Held S} {z : Sizes} {x y : Io S} where
  pub Keeps-AreRings : Keeps held z x y → AreRings z x.xsk → AreRings z y.xsk
  Keeps-AreRings m v = record {
    rx = Produces-IsConsumer m.rx v.rx;
    completion = Produces-IsConsumer m.completion v.completion;
    fill = Consumes-IsProducer m.fill v.fill;
    tx = Consumes-IsProducer m.tx v.tx;
  }
