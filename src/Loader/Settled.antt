-- ===== src/Loader/Settled.antt =====
-- The loader at the end of a run: `stop_redirect` and `detach` give up only what they have made a
-- call to undo, whatever the call answers; a call that failed is made again by the destructor.
use af_xdp_reimpl.Prelude.{
  ℕ, ap, sym, subst, if_true, if_false, ◌+◌, ◌≤◌, ◌≡◌, refl, arith, true, false, Option, not, ◌∷◌,
  Bool-cases, inl, inr, ◌==◌,
}
use af_xdp_reimpl.Os.{Os, Call, Answer, History, failed, gave}
use af_xdp_reimpl.Os.Tidy.{Resource, redirect, attachment, opened, closed}
use af_xdp_reimpl.Loader.{XdpLoader, stop_redirect, detach, after_delete, after_detach}
use af_xdp_reimpl.Loader.Owns.{loader_owns}

-- A weight of what may be undone more than once: redirections and attachments weigh nothing.
pub record Ignores (f : Resource → ℕ) : Type 0 where
  pub redirect : (map_fd queue : ℕ) → f (redirect map_fd queue) ≡ 0
  pub attachment : (ifindex : ℕ) → f (attachment ifindex) ≡ 0

-- From a state in which `owing` is owned on: by the history `h1` it has been given up, down to
-- `left`, and nothing was opened.
pub record Pays (f : Resource → ℕ) (owing left : ℕ) (h h1 : History) : Type 0 where
  pub same : opened f h1 ≡ opened f h
  pub least : owing + closed f h ≤ left + closed f h1
  pub exact : Ignores f → owing + closed f h ≡ left + closed f h1

pub Pays-trans :
    (f : Resource → ℕ) (a b c : ℕ) (h h1 h2 : History)
    → Pays f a b h h1
    → Pays f b c h1 h2
    → Pays f a c h h2
Pays-trans f a b c h h1 h2 p q = record {
  same = omega (arith, p.same, q.same);
  least = omega (arith, p.least, q.least);
  exact = λ i. omega (arith, p.exact i, q.exact i);
}

module _ (os : Os) (f : Resource → ℕ) where
  -- Nothing is done.
  Pays-refl : (owing : ℕ) (h : History) → Pays f owing owing h h
  Pays-refl owing h = record { same = refl; least = omega arith; exact = λ i. refl }

  delete-Pays :
      (l : XdpLoader) (h : History) (a : Answer)
      → l.redirecting ≡ true
      → Pays f
          (loader_owns f l)
          (loader_owns f (after_delete os l a).1)
          h
          ((Call.redirect_delete l.xsk_map_fd l.queue_id, a) ∷ h)
  delete-Pays l h (gave x) active = record {
    same = omega arith;
    least = ground arith;
    exact = λ i. ground arith;
  }
  delete-Pays l h (failed e) active = record {
    same = omega arith;
    least = ground arith;
    exact = λ i. ground (arith, i.redirect l.xsk_map_fd l.queue_id);
  }

  pub stop_redirect-Pays :
      (l : XdpLoader) (h : History)
      → let out = stop_redirect os l h in Pays f (loader_owns f l) (loader_owns f out.1) h out.2
  unfolding stop_redirect
  stop_redirect-Pays l h =
      let P : Option ℕ × XdpLoader × History → Type 0 =
        λ out. Pays f (loader_owns f l) (loader_owns f out.1) h out.2 in
      let call = Call.redirect_delete l.xsk_map_fd l.queue_id in
      elim (Bool-cases l.redirecting) [
        | inr idle ↦
            let test : not l.redirecting ≡ true = ap not idle in
            subst P (sym (if_true _ _ test)) (Pays-refl (loader_owns f l) h)
        | inl active ↦
            let test : not l.redirecting ≡ false = ap not active in
            subst P (sym (if_false _ _ test)) (delete-Pays l h (os.answer h call) active)
      ]

  detach_step-Pays :
      (l : XdpLoader) (h : History) (a : Answer)
      → (l.ifindex == 0) ≡ false
      → Pays f
          (loader_owns f l)
          (loader_owns f (after_detach os l a).1)
          h
          ((Call.xdp_detach l.ifindex l.native, a) ∷ h)
  detach_step-Pays l h (gave x) attached = record {
    same = omega arith;
    least = ground arith;
    exact = λ i. ground arith;
  }
  detach_step-Pays l h (failed e) attached = record {
    same = omega arith;
    least = ground arith;
    exact = λ i. ground (arith, i.attachment l.ifindex);
  }

  pub detach-Pays :
      (l : XdpLoader) (h : History)
      → let out = detach os l h in Pays f (loader_owns f l) (loader_owns f out.1) h out.2
  unfolding detach
  detach-Pays l h =
      let P : Option ℕ × XdpLoader × History → Type 0 =
        λ out. Pays f (loader_owns f l) (loader_owns f out.1) h out.2 in
      let call = Call.xdp_detach l.ifindex l.native in
      elim (Bool-cases (l.ifindex == 0)) [
        | inl idle ↦ subst P (sym (if_true _ _ idle)) (Pays-refl (loader_owns f l) h)
        | inr attached ↦
            subst P (sym (if_false _ _ attached)) (detach_step-Pays l h (os.answer h call) attached)
      ]
