-- ===== src/Os/Quiet.antt =====
-- Steps that neither open nor close anything.
use af_xdp_reimpl.Prelude.{ℕ, ◌≡◌, ◌∙◌, refl, arith, ◌∷◌}
use af_xdp_reimpl.Os.{Call, Answer, History, failed, gave}
use af_xdp_reimpl.Os.Tidy.{Resource, opened, closed, opens, closes}

module _ (f : Resource → ℕ) where
  -- Calls that neither open nor close.
  pub record Quiet (h h1 : History) : Type 0 where
    pub same_opened : opened f h1 ≡ opened f h
    pub same_closed : closed f h1 ≡ closed f h

  pub Quiet-refl : (h : History) → Quiet h h
  Quiet-refl h = record { same_opened = refl; same_closed = refl }

  pub Quiet-trans : (h h1 h2 : History) → Quiet h h1 → Quiet h1 h2 → Quiet h h2
  Quiet-trans h h1 h2 p q = record {
    same_opened = q.same_opened ∙ p.same_opened;
    same_closed = q.same_closed ∙ p.same_closed;
  }

  pub call-Quiet :
      (c : Call) (h : History) (a : Answer)
      → ((x : ℕ) → opens f c (gave x) ≡ 0)
      → closes f c ≡ 0
      → Quiet h ((c, a) ∷ h)
  call-Quiet c h (failed e) opening closing = record {
    same_opened = omega arith;
    same_closed = omega (arith, closing);
  }
  call-Quiet c h (gave x) opening closing = record {
    same_opened = omega (arith, opening x);
    same_closed = omega (arith, closing);
  }
