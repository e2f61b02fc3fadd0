-- ===== src/Kernel/Extends.antt =====
-- How a ring that the kernel produces for may change under the engine's eyes.
use af_xdp_reimpl.Prelude.{ℕ, ◌≡◌, refl, ap, sym, ◌∙◌, List, [], ◌++◌, append_assoc, append-nil}
use af_xdp_reimpl.Ring.{MmapRing}
use af_xdp_reimpl.Ring.Roles.{contents}
use af_xdp_reimpl.Kernel.Contract.{SameLocal, Produces}

-- A ring whose engine side stands still while the kernel may append.
pub record Extends {ℓ} {A : Type ℓ} (r r' : MmapRing A) : Type ℓ where
  pub local : SameLocal r r'
  pub consumer : r'.consumer ≡ r.consumer
  pub fresh : List A
  pub appended : contents r' ≡ contents r ++ fresh

module _ {ℓ} {A : Type ℓ} where
  pub Extends-refl : (r : MmapRing A) → Extends r r
  Extends-refl r = record {
    local = record { num_descs = refl; mask = refl; cached_prod = refl; cached_cons = refl };
    consumer = refl;
    fresh = [];
    appended = sym (append-nil (contents r));
  }

  pub Extends-trans : {r1 r2 r3 : MmapRing A} → Extends r1 r2 → Extends r2 r3 → Extends r1 r3
  Extends-trans {r1} {r2} {r3} a b = record {
    local = record {
      num_descs = b.local.num_descs ∙ a.local.num_descs;
      mask = b.local.mask ∙ a.local.mask;
      cached_prod = b.local.cached_prod ∙ a.local.cached_prod;
      cached_cons = b.local.cached_cons ∙ a.local.cached_cons;
    };
    consumer = b.consumer ∙ a.consumer;
    fresh = a.fresh ++ b.fresh;
    appended =
        b.appended
        ∙ ap (λ xs. xs ++ b.fresh) a.appended
        ∙ append_assoc (contents r1) a.fresh b.fresh;
  }

  pub Produces-Extends : {k : ℕ} {r r' : MmapRing A} → Produces k r r' → Extends r r'
  Produces-Extends p = record {
    local = p.local;
    consumer = p.consumer;
    fresh = p.fresh;
    appended = p.appended;
  }
