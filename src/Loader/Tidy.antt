-- ===== src/Loader/Tidy.antt =====
-- Every early return of `XdpLoader::create` undoes what was done before it.
use af_xdp_reimpl.Prelude.{ℕ, Text, ◌+◌, ◌≡◌, ◌≢◌, refl, ap, ◌∙◌, arith, true, false, ◌∷◌}
use af_xdp_reimpl.Os.{
  Os, Call, Answer, History, Expect, unexpected, value, failed, gave, MapName, Context,
  at_interface, at_bpf_open, at_bpf_load, at_find_xsks_map, at_redirect, at_find_ip_map, at_address,
  at_filter, at_find_program, at_attach, attempt, outcome,
}
use af_xdp_reimpl.Os.Tidy.{
  Resource, object, redirect, attachment, opened, closed, owned, Tidy, attempt-Tidy,
  logic_attempt-Tidy, and_then-Tidy_owning, map_value-Tidy,
}
use af_xdp_reimpl.Loader
use af_xdp_reimpl.Loader.Owns.{loader_owns, release_once}
use af_xdp_reimpl.Loader.{
  XdpLoader, stop_redirect, detach, release, or_release, after_native, attach, loader_of,
  filter_and_attach, load_and_redirect, close_object, after_delete, enoent,
}

module _ (os : Os) where
  -- From a history on, with a loader as a local: what the outcome owns, and nothing else, is left.
  record Keeps (l : XdpLoader) (h : History) (out : Expect XdpLoader × History) : Type 0 where
    balance :
        (f : Resource → ℕ)
        → opened f out.1 + closed f h + loader_owns f l
          ≡ opened f h + closed f out.1 + owned loader_owns f out.0

  -- A step of `create` that opens `extra`, which the loader of the rest owns too.
  or_release-Keeps :
      {A : Type 0} (extra : (Resource → ℕ) → A → ℕ) (l : XdpLoader) (l' : A → XdpLoader)
      (h : History) (out : Expect A × History) (next : A → History → Expect XdpLoader × History)
      → Tidy extra h out
      → ((f : Resource → ℕ) (a : A) → loader_owns f (l' a) ≡ loader_owns f l + extra f a)
      → ((a : A) (h1 : History) → Keeps (l' a) h1 (next a h1))
      → Keeps l h (or_release os l out next)
  or_release-Keeps extra l l' h (unexpected e, h1) next step same rest = record {
    balance = λ f. omega (arith, step.balance f, release_once os f l h1);
  }
  or_release-Keeps extra l l' h (value a, h1) next step same rest = record {
    balance = λ f. omega (arith, step.balance f, same f a, (rest a h1).balance f);
  }

  attach-Tidy :
      (ifindex prog_fd : ℕ) (h : History)
      → Tidy (λ f _. f (attachment ifindex)) h (attach os ifindex prog_fd h)
  unfolding attach
  attach-Tidy ifindex prog_fd h = record {
    balance = λ f. go f (os.answer h (Call.xdp_attach ifindex prog_fd true));
  }
    where
      go :
          (f : Resource → ℕ) (a : Answer)
          → let h1 = (Call.xdp_attach ifindex prog_fd true, a) ∷ h in
            let out = after_native os ifindex prog_fd h1 a in
            opened f out.1 + closed f h
            ≡ opened f h + closed f out.1 + owned (λ g _. g (attachment ifindex)) f out.0
      go f (gave x) = omega arith
      go f (failed e) =
          let h1 = (Call.xdp_attach ifindex prog_fd true, failed e) ∷ h in
          let generic =
            map_value-Tidy (λ g _. g (attachment ifindex)) (λ g _. g (attachment ifindex))
              (λ _. false) h1 (attempt os (Call.xdp_attach ifindex prog_fd false) at_attach h1)
              (attempt-Tidy (λ g _. g (attachment ifindex)) os
                (Call.xdp_attach ifindex prog_fd false) at_attach h1 (λ g x. refl) (λ g. refl))
              (λ g a. refl) in
          omega (arith, generic.balance f)

  abbrev nothing : (Resource → ℕ) → ℕ → ℕ
  nothing f a = 0

  filter_and_attach-Keeps :
      (l : XdpLoader) (obj ifindex : ℕ) (filter_ip : Text) (h : History)
      → l.ifindex ≡ 0
      → ifindex ≢ 0
      → Keeps l h (filter_and_attach os l obj ifindex filter_ip h)
  unfolding filter_and_attach
  filter_and_attach-Keeps l obj ifindex filter_ip h e given =
      or_release-Keeps nothing l (λ fd. record l { ip_map_fd = fd }) h _ _
        (logic_attempt-Tidy nothing os (Call.find_map obj MapName.target_ip_map) at_find_ip_map h
          (λ f x. refl) (λ f. refl))
        (λ f a. omega arith)
        (λ ip_map_fd h1.
          let l1 = record l { ip_map_fd = ip_map_fd } in
          or_release-Keeps nothing l1 (λ _. l1) h1 _ _
            (logic_attempt-Tidy nothing os (Call.inet_pton filter_ip) at_address h1 (λ f x. refl)
              (λ f. refl))
            (λ f a. omega arith)
            (λ addr h2.
              or_release-Keeps nothing l1 (λ _. l1) h2 _ _
                (attempt-Tidy nothing os (Call.filter_update ip_map_fd 0 addr) at_filter h2
                  (λ f x. refl) (λ f. refl))
                (λ f a. omega arith)
                (λ _ h3.
                  or_release-Keeps nothing l1 (λ _. l1) h3 _ _
                    (logic_attempt-Tidy nothing os (Call.find_program obj) at_find_program h3
                      (λ f x. refl) (λ f. refl))
                    (λ f a. omega arith)
                    (λ prog_fd h4.
                      or_release-Keeps (λ f _. f (attachment ifindex)) l1
                        (λ native. record l1 { ifindex = ifindex; native = native }) h4 _ _
                        (attach-Tidy ifindex prog_fd h4) (λ f a. ground arith)
                        (λ native h5. record { balance = λ f. omega arith })))))

  load_and_redirect-Keeps :
      (obj ifindex queue_id xsk_fd : ℕ) (filter_ip : Text) (h : History)
      → ifindex ≢ 0
      → Keeps
          (loader_of os obj queue_id)
          h
          (load_and_redirect os obj ifindex queue_id xsk_fd filter_ip h)
  unfolding load_and_redirect
  load_and_redirect-Keeps obj ifindex queue_id xsk_fd filter_ip h given =
      let l = loader_of os obj queue_id in
      or_release-Keeps nothing l (λ _. l) h _ _
        (attempt-Tidy nothing os (Call.bpf_load obj) at_bpf_load h (λ f x. refl) (λ f. refl))
        (λ f a. omega arith)
        (λ _ h1.
          or_release-Keeps nothing l (λ fd. record l { xsk_map_fd = fd }) h1 _ _
            (logic_attempt-Tidy nothing os (Call.find_map obj MapName.xsks_map) at_find_xsks_map h1
              (λ f x. refl) (λ f. refl))
            (λ f a. omega arith)
            (λ map_fd h2.
              let l1 = record l { xsk_map_fd = map_fd } in
              or_release-Keeps (λ f _. f (redirect map_fd queue_id)) l1
                (λ _. record l1 { redirecting = true }) h2 _ _
                (attempt-Tidy (λ f _. f (redirect map_fd queue_id)) os
                  (Call.redirect_update map_fd queue_id xsk_fd) at_redirect h2 (λ f x. refl)
                  (λ f. refl))
                (λ f a. omega arith)
                (λ _ h3.
                  filter_and_attach-Keeps (record l1 { redirecting = true }) obj ifindex filter_ip
                    h3 refl given)))

  -- An interface index is positive, since 0 stands for a failed search.
  abbrev pub IndexesPositive : Type 0
  IndexesPositive = (h : History) (iface : Text) → os.answer h (Call.if_nametoindex iface) ≢ gave 0

  outcome_value :
      (context : Context) (a : Answer) (x : ℕ) → outcome context a ≡ value x → a ≡ gave x
  outcome_value context (failed e) x h = cc
  outcome_value context (gave y) x h = cc

  -- `XdpLoader::create` makes, on every early return, one call to undo each thing that it had done:
  -- the object is closed and a redirection deleted; a loader that it returns owns its object, the
  -- redirection and the attachment, and nothing else is left.
  pub create-Tidy_loader :
      IndexesPositive
      → (path iface : Text) (queue_id xsk_fd : ℕ) (filter_ip : Text) (h : History)
      → Tidy loader_owns h (Loader.create os path iface queue_id xsk_fd filter_ip h)
  unfolding Loader.create
  create-Tidy_loader positive path iface queue_id xsk_fd filter_ip h =
      and_then-Tidy_owning nothing loader_owns h
        (attempt os (Call.if_nametoindex iface) at_interface h) _
        (attempt-Tidy nothing os (Call.if_nametoindex iface) at_interface h (λ f x. refl)
          (λ f. refl))
        (λ ifindex h1 found f.
          let a : Answer = os.answer h (Call.if_nametoindex iface) in
          let given : ifindex ≢ 0 =
            λ e. positive h iface (outcome_value at_interface a ifindex found ∙ ap gave e) in
          let opening =
            and_then-Tidy_owning (λ g obj. g (object obj)) loader_owns h1
              (attempt os (Call.bpf_open path) at_bpf_open h1)
              (λ obj h2. load_and_redirect os obj ifindex queue_id xsk_fd filter_ip h2)
              (attempt-Tidy (λ g obj. g (object obj)) os (Call.bpf_open path) at_bpf_open h1
                (λ f x. refl) (λ f. refl))
              (λ obj h2 _ g. omega (
                arith,
                (load_and_redirect-Keeps obj ifindex queue_id xsk_fd filter_ip h2 given).balance g,
              )) in
          omega (arith, opening.balance f))
