-- ===== src/Loader/Owns.antt =====
-- What a loader owns, and that its destructor makes one call to undo each thing.
use af_xdp_reimpl.Prelude.{
  ℕ, ◌+◌, ◌≡◌, refl, ap, sym, subst, ◌∙◌, arith, true, Option, none, some, not, if_true, if_false,
  Bool, Bool-cases, inl, inr, ◌==◌, if◌then◌else◌,
}
use af_xdp_reimpl.Os.{Os, Call, Answer, History, failed, gave}
use af_xdp_reimpl.Os.Tidy.{Resource, object, redirect, attachment, opened, closed, opens, Destroys}
use af_xdp_reimpl.Loader.{
  XdpLoader, stop_redirect, detach, release, close_object, after_delete, after_detach, enoent,
}

abbrev pub object_owns : (Resource → ℕ) → Option ℕ → ℕ
object_owns f none = 0
object_owns f (some obj) = f (object obj)

-- What a loader owns.
abbrev pub loader_owns : (Resource → ℕ) → XdpLoader → ℕ
loader_owns f l =
    object_owns f l.obj
    + (if l.redirecting then f (redirect l.xsk_map_fd l.queue_id) else 0)
    + (if l.ifindex == 0 then 0 else f (attachment l.ifindex))

pub delete_opens :
    (f : Resource → ℕ) (map_fd queue : ℕ) (a : Answer)
    → opens f (Call.redirect_delete map_fd queue) a ≡ 0
delete_opens f map_fd queue (failed e) = refl
delete_opens f map_fd queue (gave x) = refl

detach_opens :
    (f : Resource → ℕ) (ifindex : ℕ) (native : Bool) (a : Answer)
    → opens f (Call.xdp_detach ifindex native) a ≡ 0
detach_opens f ifindex native (failed e) = refl
detach_opens f ifindex native (gave x) = refl

bpf_close_opens : (f : Resource → ℕ) (obj : ℕ) (a : Answer) → opens f (Call.bpf_close obj) a ≡ 0
bpf_close_opens f obj (failed e) = refl
bpf_close_opens f obj (gave x) = refl

module _ (os : Os) where
  pub close_object-Destroys :
      (obj : Option ℕ) (f : Resource → ℕ) → Destroys f (object_owns f obj) (close_object os obj)
  close_object-Destroys none f h = (refl, omega arith)
  close_object-Destroys (some obj) f h =
      (omega (arith, bpf_close_opens f obj (os.answer h (Call.bpf_close obj))), omega arith)

  after_delete_keeps :
      (l : XdpLoader) (a : Answer)
      → let l1 = (after_delete os l a).1 in (l1.ifindex ≡ l.ifindex) × (l1.obj ≡ l.obj)
  after_delete_keeps l (gave x) = (refl, refl)
  after_delete_keeps l (failed e) = elim (Bool-cases (not (e == enoent))) [
    | inl other ↦ rw other (refl, refl)
    | inr gone ↦ rw gone (refl, refl)
  ]

  -- The redirection is given up with one call, and all else is kept.
  pub record Stopped (f : Resource → ℕ) (l : XdpLoader) (h : History)
      (out : Option ℕ × XdpLoader × History) : Type 0 where
    pub ifindex : out.1.ifindex ≡ l.ifindex
    pub obj : out.1.obj ≡ l.obj
    pub opened_same : opened f out.2 ≡ opened f h
    pub closed_one :
        closed f out.2
        ≡ closed f h + (if l.redirecting then f (redirect l.xsk_map_fd l.queue_id) else 0)

  pub stop_redirect_lem :
      (l : XdpLoader) (h : History) (f : Resource → ℕ) → Stopped f l h (stop_redirect os l h)
  unfolding stop_redirect
  stop_redirect_lem l h f =
      let call = Call.redirect_delete l.xsk_map_fd l.queue_id in
      elim (Bool-cases l.redirecting) [
        | inr idle ↦
            rw idle
              (record { ifindex = refl; obj = refl; opened_same = refl; closed_one = omega arith })
        | inl active ↦
            let same = after_delete_keeps (record l { redirecting = true }) (os.answer h call) in
            rw active (record {
              ifindex = same.0;
              obj = same.1;
              opened_same =
                  omega (arith, delete_opens f l.xsk_map_fd l.queue_id (os.answer h call));
              closed_one = omega arith;
            })
      ]

  module _ (f : Resource → ℕ) where
    after_detach_keeps : (l : XdpLoader) (a : Answer) → (after_detach os l a).1.obj ≡ l.obj
    after_detach_keeps l (gave x) = refl
    after_detach_keeps l (failed e) = refl

    -- The attachment is given up with one call, and the object is kept.
    abbrev Detached : XdpLoader → History → Option ℕ × XdpLoader × History → Type 0
    Detached l h out =
        (out.1.obj ≡ l.obj)
        × (opened f out.2 ≡ opened f h)
        × (closed f out.2 ≡ closed f h + (if l.ifindex == 0 then 0 else f (attachment l.ifindex)))

    detach_lem : (l : XdpLoader) (h : History) → Detached l h (detach os l h)
    unfolding detach
    detach_lem l h =
        let call = Call.xdp_detach l.ifindex l.native in
        let a = os.answer h call in
        elim (Bool-cases (l.ifindex == 0)) [
          | inl idle ↦ subst (Detached l h) (sym (if_true _ _ idle)) (refl, refl, ground arith)
          | inr attached ↦ subst (Detached l h) (sym (if_false _ _ attached)) (
            after_detach_keeps l a,
            omega (arith, detach_opens f l.ifindex l.native a),
            ground arith,
          )
        ]

    -- The destructor makes one call to undo each thing that the loader owns.
    pub release_once : (l : XdpLoader) → Destroys f (loader_owns f l) (λ h. (release os l h).1)
    unfolding release
    release_once l h =
        let s = stop_redirect_lem l h f in
        let (e1, l1, h1) = stop_redirect os l h in
        let d = detach_lem l1 h1 in
        let (e2, l2, h2) = detach os l1 h1 in
        let c = close_object-Destroys l2.obj f h2 in
        let same_obj = ap (object_owns f) (d.0 ∙ s.obj) in
        let same_attachment = ap (λ (x : ℕ). if x == 0 then 0 else f (attachment x)) s.ifindex in
        (
          omega (arith, c.0, d.1, s.opened_same),
          omega (arith, c.1, d.2, s.closed_one, same_obj, same_attachment),
        )
