-- ===== src/Kernel/Contract.antt =====
-- What AF_XDP documents of the kernel: it moves its own index of each ring forward and writes
-- descriptors only where it produces; every fill entry comes back once as a received frame of the
-- same chunk; every TX descriptor comes back once, by its address, in the completion ring.
use af_xdp_reimpl.Prelude.{ℕ, ◌+◌, ◌^◌, ◌≤◌, ◌<◌, ◌≡◌, List, ◌++◌, bit_and, sub32, weigh}
use af_xdp_reimpl.Ring.{MmapRing}
use af_xdp_reimpl.Ring.Roles.{contents, IsConsumer, IsProducer}
use af_xdp_reimpl.Xsk.{Xsk, Desc}
use af_xdp_reimpl.Kernel.{Io, Kernel}

module _ {ℓ} {A : Type ℓ} where
  -- The fields that belong to the engine.
  pub record SameLocal (r r' : MmapRing A) : Type 0 where
    pub num_descs : r'.num_descs ≡ r.num_descs
    pub mask : r'.mask ≡ r.mask
    pub cached_prod : r'.cached_prod ≡ r.cached_prod
    pub cached_cons : r'.cached_cons ≡ r.cached_cons

  -- The kernel as the producer of a ring of `2 ^ k` slots: `fresh` is what it appended.
  pub record Produces (k : ℕ) (r r' : MmapRing A) : Type ℓ where
    pub local : SameLocal r r'
    pub consumer : r'.consumer ≡ r.consumer
    pub word : r'.producer < 2 ^ 32
    pub forward : sub32 r.producer r.consumer ≤ sub32 r'.producer r'.consumer
    pub fits : sub32 r'.producer r'.consumer ≤ 2 ^ k
    pub fresh : List A
    pub appended : contents r' ≡ contents r ++ fresh

  -- The kernel as the consumer of a ring.
  pub record Consumes (r r' : MmapRing A) : Type ℓ where
    pub local : SameLocal r r'
    pub producer : r'.producer ≡ r.producer
    pub descs : r'.descs ≡ r.descs
    pub word : r'.consumer < 2 ^ 32
    pub forward : sub32 r'.producer r'.consumer ≤ sub32 r.producer r.consumer

-- Sizes of the rings as powers of two, and the chunk mask of the UMEM.
pub record Sizes : Type 0 where
  pub rx : ℕ
  pub tx : ℕ
  pub fill : ℕ
  pub completion : ℕ
  pub frame_mask : ℕ

-- The four rings, each from the side that the engine plays.
pub record AreRings (z : Sizes) (x : Xsk) : Type 0 where
  pub rx : IsConsumer z.rx x.rx
  pub completion : IsConsumer z.completion x.completion
  pub fill : IsProducer z.fill x.fill
  pub tx : IsProducer z.tx x.tx

-- The frames in the kernel's hands: buffers taken from the fill ring and not yet received into,
-- and addresses taken from the TX ring and not yet completed.
pub record Held (S : Type 0) : Type 0 where
  pub receiving : S → List ℕ
  pub sending : S → List ℕ

abbrev pub chunk : ℕ → ℕ → ℕ
chunk mask addr = bit_and addr mask

module _ {S : Type 0} (held : Held S) (z : Sizes) where
  pub record Keeps (x y : Io S) : Type 0 where
    pub rx : Produces z.rx x.xsk.rx y.xsk.rx
    pub completion : Produces z.completion x.xsk.completion y.xsk.completion
    pub fill : Consumes x.xsk.fill y.xsk.fill
    pub tx : Consumes x.xsk.tx y.xsk.tx
    pub busy_poll : y.xsk.busy_poll ≡ x.xsk.busy_poll
    pub received :
        (f : ℕ → ℕ)
        → weigh (λ a. f (chunk z.frame_mask a)) (contents y.xsk.fill)
            + weigh (λ a. f (chunk z.frame_mask a)) (held.receiving y.kernel)
            + weigh (λ (d : Desc). f (chunk z.frame_mask d.addr)) (contents y.xsk.rx)
          ≡ weigh (λ a. f (chunk z.frame_mask a)) (contents x.xsk.fill)
            + weigh (λ a. f (chunk z.frame_mask a)) (held.receiving x.kernel)
            + weigh (λ (d : Desc). f (chunk z.frame_mask d.addr)) (contents x.xsk.rx)
    pub completed :
        (f : ℕ → ℕ)
        → weigh (λ (d : Desc). f d.addr) (contents y.xsk.tx)
            + weigh f (held.sending y.kernel)
            + weigh f (contents y.xsk.completion)
          ≡ weigh (λ (d : Desc). f d.addr) (contents x.xsk.tx)
            + weigh f (held.sending x.kernel)
            + weigh f (contents x.xsk.completion)

  -- Whatever the kernel does, meanwhile or in a call on rings that are in order, keeps
  -- to this.
  pub record Obeys (k : Kernel S) : Type 0 where
    pub run : (x : Io S) → AreRings z x.xsk → Keeps x (k.run x)
    pub sendto : (x : Io S) → AreRings z x.xsk → Keeps x (k.sendto x).1
    pub recvfrom : (x : Io S) → AreRings z x.xsk → Keeps x (k.recvfrom x).1
