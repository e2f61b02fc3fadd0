-- ===== src/Loader/Errors.antt =====
-- What goes wrong in the calls of a loader: nothing has when it has just been created, and what its
-- methods report is what has gone wrong in their calls.
use af_xdp_reimpl.Prelude.{
  ℕ, ◌≢◌, ◌∙◌, ◌⊎◌, if_true, if_false, suc, ◌<◌, ◌≡◌, refl, arith, inl, inr, ◌∷◌, Bool-cases, true,
  false, not, Option, none, some, ◌==◌, Text,
}
use af_xdp_reimpl.Os.{
  Os, Call, Answer, History, Expect, unexpected, value, failed, gave, attempt, outcome,
  at_interface, at_bpf_open, at_bpf_load, at_find_xsks_map, at_redirect, at_find_ip_map, at_address,
  at_filter, at_find_program, at_attach, MapName, logic_attempt, and_then, map_value,
}
use af_xdp_reimpl.Os.Troubles.{troubles}
use af_xdp_reimpl.Loader.{
  XdpLoader, after_delete, stop_redirect, after_detach, detach, close_object, release, or_release,
  after_native, attach, loader_of, filter_and_attach, load_and_redirect, create,
}

-- A loader that was created: nothing has gone wrong so far.
pub record Starts (out : Expect XdpLoader × History) : Type 0 where
  pub untroubled : (l : XdpLoader) → out.0 ≡ value l → troubles out.1 ≡ 0

module _ (os : Os) where
  and_then-Starts :
      {A : Type 0} (out : Expect A × History) (next : A → History → Expect XdpLoader × History)
      → ((a : A) (h : History) → Starts (next a h))
      → Starts (and_then out next)
  and_then-Starts (unexpected e, h) next p = record { untroubled = λ l e1. cc }
  and_then-Starts (value a, h) next p = p a h

  or_release-Starts :
      {A : Type 0} (l : XdpLoader) (out : Expect A × History)
      (next : A → History → Expect XdpLoader × History)
      → ((a : A) (h : History) → Starts (next a h))
      → Starts (or_release os l out next)
  or_release-Starts l (unexpected e, h) next p = record { untroubled = λ l1 e1. cc }
  or_release-Starts l (value a, h) next p = p a h

  attach-Starts :
      (l : XdpLoader) (ifindex prog_fd : ℕ) (h : History)
      → Starts (
          or_release os l
            (attach os ifindex prog_fd h)
            (λ native h5. (value (record l { ifindex = ifindex; native = native }), h5)))
  unfolding attach
  attach-Starts l ifindex prog_fd h = go (os.answer h (Call.xdp_attach ifindex prog_fd true))
    where
      copied :
          (h : History) (a : Answer)
          → Starts (
              or_release os l
                (map_value
                  (λ _. false)
                  (outcome at_attach a, (Call.xdp_attach ifindex prog_fd false, a) ∷ h))
                (λ native h5. (value (record l { ifindex = ifindex; native = native }), h5)))
      copied h (gave x) = record { untroubled = λ l1 e1. refl }
      copied h (failed e) = record { untroubled = λ l1 e1. cc }

      go :
          (a : Answer)
          → Starts (
              or_release os l
                (after_native os ifindex prog_fd ((Call.xdp_attach ifindex prog_fd true, a) ∷ h) a)
                (λ native h5. (value (record l { ifindex = ifindex; native = native }), h5)))
      go (gave x) = record { untroubled = λ l1 e1. refl }
      go (failed e) =
          let h1 = (Call.xdp_attach ifindex prog_fd true, failed e) ∷ h in
          copied h1 (os.answer h1 (Call.xdp_attach ifindex prog_fd false))

  filter_and_attach-Starts :
      (l : XdpLoader) (obj ifindex : ℕ) (filter_ip : Text) (h : History)
      → Starts (filter_and_attach os l obj ifindex filter_ip h)
  unfolding filter_and_attach
  filter_and_attach-Starts l obj ifindex filter_ip h =
      or_release-Starts l
        (logic_attempt os (Call.find_map obj MapName.target_ip_map) at_find_ip_map h) _
        (λ ip_map_fd h1.
          let l1 = record l { ip_map_fd = ip_map_fd } in
          or_release-Starts l1 (logic_attempt os (Call.inet_pton filter_ip) at_address h1) _
            (λ addr h2.
              or_release-Starts l1 (attempt os (Call.filter_update ip_map_fd 0 addr) at_filter h2) _
                (λ _ h3.
                  or_release-Starts l1 (logic_attempt os (Call.find_program obj) at_find_program h3)
                    _ (λ prog_fd h4. attach-Starts l1 ifindex prog_fd h4))))

  -- A loader is returned right behind a successful attachment.
  pub create-Starts :
      (path iface : Text) (queue_id xsk_fd : ℕ) (filter_ip : Text) (h : History)
      → Starts (create os path iface queue_id xsk_fd filter_ip h)
  unfolding create load_and_redirect
  create-Starts path iface queue_id xsk_fd filter_ip h =
      and_then-Starts (attempt os (Call.if_nametoindex iface) at_interface h) _ (λ ifindex h1.
        and_then-Starts (attempt os (Call.bpf_open path) at_bpf_open h1) _ (λ obj h2.
          let l = loader_of os obj queue_id in
          or_release-Starts l (attempt os (Call.bpf_load obj) at_bpf_load h2) _ (λ _ h3.
            or_release-Starts l
              (logic_attempt os (Call.find_map obj MapName.xsks_map) at_find_xsks_map h3) _
              (λ map_fd h4.
                let l1 = record l { xsk_map_fd = map_fd } in
                or_release-Starts l1
                  (attempt os (Call.redirect_update map_fd queue_id xsk_fd) at_redirect h4) _
                  (λ _ h5.
                    filter_and_attach-Starts (record l1 { redirecting = true }) obj ifindex
                      filter_ip h5)))))

  -- The end of the redirection, which reports an error exactly when a call has gone wrong; the
  -- loader redirects no longer without one.
  pub record Stopped (l : XdpLoader) (h : History) (out : Option ℕ × XdpLoader × History)
      : Type 0 where
    pub fine : out.0 ≡ none → (troubles out.2 ≡ troubles h) × (out.1.redirecting ≡ false)
    pub flawed :
        (e : ℕ) → out.0 ≡ some e → (troubles out.2 ≡ suc (troubles h)) × (l.redirecting ≡ true)
    pub kept : out.1.ifindex ≡ l.ifindex

  pub stop_redirect-Stopped : (l : XdpLoader) (h : History) → Stopped l h (stop_redirect os l h)
  unfolding stop_redirect
  stop_redirect-Stopped l h = elim (Bool-cases (not l.redirecting)) [
    | inl idle ↦
        rw idle (record { fine = λ _. (refl, ground arith); flawed = λ e s. cc; kept = refl })
    | inr busy ↦ rw busy (go (ground arith) (os.answer h call))
  ]
    where
      call : Call
      call = Call.redirect_delete l.xsk_map_fd l.queue_id

      go :
          l.redirecting ≡ true
          → (a : Answer)
          → let out = after_delete os l a in Stopped l h (out.0, out.1, (call, a) ∷ h)
      go busy (gave x) = record { fine = λ _. (refl, refl); flawed = λ e s. cc; kept = refl }
      go busy (failed e) = elim (Bool-cases (e == 2)) [
        | inl missing ↦
            rw missing
              (record { fine = λ _. (if_true _ _ missing, refl); flawed = λ e1 s. cc; kept = refl })
        | inr there ↦
            rw there
              (record { fine = λ s. cc; flawed = λ e1 s. (if_false _ _ there, busy); kept = refl })
      ]

  -- The detachment, which reports an error exactly when its call has failed.
  pub record Detached (l : XdpLoader) (h : History) (out : Option ℕ × XdpLoader × History)
      : Type 0 where
    pub fine : out.0 ≡ none → (troubles out.2 ≡ troubles h) × (out.1.ifindex ≡ 0)
    pub idle : l.ifindex ≡ 0 → troubles out.2 ≡ troubles h
    pub kept : out.1.redirecting ≡ l.redirecting

  pub detach-Detached : (l : XdpLoader) (h : History) → Detached l h (detach os l h)
  unfolding detach
  detach-Detached l h = elim (Bool-cases (l.ifindex == 0)) [
    | inl idle ↦
        rw idle (record { fine = λ _. (refl, ground arith); idle = λ _. refl; kept = refl })
    | inr busy ↦ rw busy (go (ground arith) (os.answer h call))
  ]
    where
      call : Call
      call = Call.xdp_detach l.ifindex l.native

      go :
          l.ifindex ≢ 0
          → (a : Answer)
          → let out = after_detach os l a in Detached l h (out.0, out.1, (call, a) ∷ h)
      go busy (gave x) = record {
        fine = λ _. (refl, refl);
        idle = λ z. absurd (busy z);
        kept = refl;
      }
      go busy (failed e) = record { fine = λ s. cc; idle = λ z. absurd (busy z); kept = refl }

  troubles-close_object :
      (obj : Option ℕ) (h : History) → troubles (close_object os obj h) ≡ troubles h
  troubles-close_object none h = refl
  troubles-close_object (some obj) h = refl

  -- The destructor of a detached loader: a call goes wrong again at most when one has before.
  pub troubles-release :
      (l : XdpLoader) (h : History)
      → (l.redirecting ≡ true → 0 < troubles h)
      → l.ifindex ≡ 0
      → (troubles (release os l h).1 ≡ troubles h)
        ⊎ ((0 < troubles h) × (0 < troubles (release os l h).1))
  unfolding release
  troubles-release l h tried detached =
      let s = stop_redirect-Stopped l h in
      let (error, l1, h1) = stop_redirect os l h in
      let d = detach-Detached l1 h1 in
      let (error2, l2, h2) = detach os l1 h1 in
      let same : troubles (close_object os l2.obj h2) ≡ troubles h1 =
        troubles-close_object l2.obj h2 ∙ d.idle (s.kept ∙ detached) in
      go h1 (close_object os l2.obj h2) l1 error s.fine s.flawed same
    where
      go :
          (h1 h3 : History) (l1 : XdpLoader) (error : Option ℕ)
          → (error ≡ none → (troubles h1 ≡ troubles h) × (l1.redirecting ≡ false))
          → ((e : ℕ) → error ≡ some e → (troubles h1 ≡ suc (troubles h)) × (l.redirecting ≡ true))
          → troubles h3 ≡ troubles h1
          → (troubles h3 ≡ troubles h) ⊎ ((0 < troubles h) × (0 < troubles h3))
      go h1 h3 l1 none fine flawed same = inl (same ∙ (fine refl).0)
      go h1 h3 l1 (some e) fine flawed same =
          let f = flawed e refl in inr (tried f.1, omega (arith, same, f.0))
