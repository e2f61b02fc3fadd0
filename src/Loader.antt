-- ===== src/Loader.antt =====
-- include/afxdp/xdp_loader.hpp: `XdpLoader`, which loads the BPF object, redirects a queue to the
-- socket, sets the filter and attaches the program, natively if it can. libbpf is behind the system
-- calls.
pub mod Owns
pub mod Tidy
pub mod Settled
pub mod Moves
pub mod Errors
use af_xdp_reimpl.Prelude.{
  ℕ, Text, Bool, true, false, Option, none, some, not, ◌&&◌, ◌∷◌, ◌==◌, if◌then◌else◌, ◌^◌, ◌-◌,
}
use af_xdp_reimpl.Os.{
  Os, Call, Answer, History, Expect, unexpected, value, failed, gave, MapName, AfxdpError, Context,
  at_interface, at_bpf_open, at_bpf_load, at_find_xsks_map, at_redirect, at_find_ip_map, at_address,
  at_filter, at_find_program, at_attach, perform, attempt, logic_attempt, and_then, map_value,
}

pub record XdpLoader : Type 0 where
  pub obj : Option ℕ
  pub ifindex : ℕ
  pub native : Bool
  pub ip_map_fd : ℕ
  pub xsk_map_fd : ℕ
  pub queue_id : ℕ
  pub redirecting : Bool

abbrev pub enoent : ℕ
enoent = 2

-- -1, as a 32-bit word.
abbrev pub no_fd : ℕ
no_fd = 2 ^ 32 - 1

-- What a moved-from loader is left with.
abbrev pub emptied : XdpLoader → XdpLoader
emptied o = record {
  obj = none;
  ifindex = 0;
  native = false;
  ip_map_fd = no_fd;
  xsk_map_fd = no_fd;
  queue_id = o.queue_id;
  redirecting = false;
}

-- The move constructor: the new loader, and the one moved from.
unfoldable pub move : XdpLoader → XdpLoader × XdpLoader
move o = (o, emptied o)

module _ (os : Os) where
  -- What follows the deletion, which ended so: no entry is as good as a deleted one.
  abbrev pub after_delete : XdpLoader → Answer → Option ℕ × XdpLoader
  after_delete l (gave x) = (none, record l { redirecting = false })
  after_delete l (failed e) =
      if not (e == enoent) then (some e, l) else (none, record l { redirecting = false })

  unfoldable pub stop_redirect : XdpLoader → History → Option ℕ × XdpLoader × History
  stop_redirect l h =
      if not l.redirecting
      then (none, l, h)
      else (let (a, h1) = perform os (Call.redirect_delete l.xsk_map_fd l.queue_id) h in
          let (error, l1) = after_delete l a in (error, l1, h1))

  abbrev pub after_detach : XdpLoader → Answer → Option ℕ × XdpLoader
  after_detach l (gave x) = (none, record l { ifindex = 0 })
  after_detach l (failed e) = (some e, l)

  unfoldable pub detach : XdpLoader → History → Option ℕ × XdpLoader × History
  detach l h =
      if l.ifindex == 0
      then (none, l, h)
      else (let (a, h1) = perform os (Call.xdp_detach l.ifindex l.native) h in
          let (error, l1) = after_detach l a in (error, l1, h1))

  abbrev pub close_object : Option ℕ → History → History
  close_object none h = h
  close_object (some obj) h = (perform os (Call.bpf_close obj) h).1

  unfoldable pub release : XdpLoader → History → XdpLoader × History
  release l h =
      let (e1, l1, h1) = stop_redirect l h in
      let (e2, l2, h2) = detach l1 h1 in (record l2 { obj = none }, close_object l2.obj h2)

  -- An early return while the loader is a local: its destructor runs.
  abbrev pub or_release :
      {A B : Type 0}
      → XdpLoader
      → Expect A × History
      → (A → History → Expect B × History)
      → Expect B × History
  or_release l (unexpected e, h) next = (unexpected e, (release l h).1)
  or_release l (value a, h) next = next a h

  -- What follows the native attachment, which ended so; the value says whether it is native.
  abbrev pub after_native : ℕ → ℕ → History → Answer → Expect Bool × History
  after_native ifindex prog_fd h (gave x) = (value true, h)
  after_native ifindex prog_fd h (failed e) =
      map_value (λ _. false) (attempt os (Call.xdp_attach ifindex prog_fd false) at_attach h)

  unfoldable pub attach : ℕ → ℕ → History → Expect Bool × History
  attach ifindex prog_fd h =
      let (a, h1) = perform os (Call.xdp_attach ifindex prog_fd true) h in
      after_native ifindex prog_fd h1 a

  abbrev pub loader_of : ℕ → ℕ → XdpLoader
  loader_of obj queue_id = record {
    obj = some obj;
    ifindex = 0;
    native = false;
    ip_map_fd = no_fd;
    xsk_map_fd = no_fd;
    queue_id = queue_id;
    redirecting = false;
  }

  -- The filter and the attachment, with the queue redirected.
  unfoldable pub filter_and_attach : XdpLoader → ℕ → ℕ → Text → History → Expect XdpLoader × History
  filter_and_attach l obj ifindex filter_ip h =
      or_release l (logic_attempt os (Call.find_map obj MapName.target_ip_map) at_find_ip_map h)
        (λ ip_map_fd h1.
          let l1 = record l { ip_map_fd = ip_map_fd } in
          or_release l1 (logic_attempt os (Call.inet_pton filter_ip) at_address h1) (λ addr h2.
            or_release l1 (attempt os (Call.filter_update ip_map_fd 0 addr) at_filter h2) (λ _ h3.
              or_release l1 (logic_attempt os (Call.find_program obj) at_find_program h3)
                (λ prog_fd h4.
                  or_release l1 (attach ifindex prog_fd h4) (λ native h5.
                    (value (record l1 { ifindex = ifindex; native = native }), h5))))))

  -- The load of the object and the redirection of the queue.
  unfoldable pub load_and_redirect : ℕ → ℕ → ℕ → ℕ → Text → History → Expect XdpLoader × History
  load_and_redirect obj ifindex queue_id xsk_fd filter_ip h =
      let l = loader_of obj queue_id in
      or_release l (attempt os (Call.bpf_load obj) at_bpf_load h) (λ _ h1.
        or_release l (logic_attempt os (Call.find_map obj MapName.xsks_map) at_find_xsks_map h1)
          (λ map_fd h2.
            let l1 = record l { xsk_map_fd = map_fd } in
            or_release l1 (attempt os (Call.redirect_update map_fd queue_id xsk_fd) at_redirect h2)
              (λ _ h3.
                filter_and_attach (record l1 { redirecting = true }) obj ifindex filter_ip h3)))

  unfoldable pub create : Text → Text → ℕ → ℕ → Text → History → Expect XdpLoader × History
  create path iface queue_id xsk_fd filter_ip h =
      and_then (attempt os (Call.if_nametoindex iface) at_interface h) (λ ifindex h1.
        and_then (attempt os (Call.bpf_open path) at_bpf_open h1)
          (λ obj h2. load_and_redirect obj ifindex queue_id xsk_fd filter_ip h2))

  unfoldable pub update_filter_ip : XdpLoader → Text → History → Expect ℕ × History
  update_filter_ip l text h =
      and_then (logic_attempt os (Call.inet_pton text) at_address h)
        (λ addr h1. attempt os (Call.filter_update l.ip_map_fd 0 addr) at_filter h1)

  -- The move assignment from another loader: the target, and the one moved from.
  unfoldable pub move_assign : XdpLoader → XdpLoader → History → (XdpLoader × XdpLoader) × History
  move_assign l o h = let (l1, h1) = release l h in ((o, emptied o), h1)
