-- ===== src/Socket/Tidy.antt =====
-- Every early return of `Xsk::create` closes what was opened before it, and a socket that was
-- created owns its descriptor and its four mappings and nothing else.
use af_xdp_reimpl.Prelude.{ℕ, ◌+◌, ◌≡◌, refl, arith, Bool, true, false, ◌∷◌}
use af_xdp_reimpl.Os.{
  Os, Call, Answer, History, failed, gave, SocketOption, PageOffset, MmapOffsets, at_socket,
  at_umem_reg, at_offsets, at_interface, at_bind, at_option,
}
use af_xdp_reimpl.Os.Tidy.{
  Resource, descriptor, opened, closed, owned, Tidy, close_opens, attempt-Tidy, and_then-Tidy,
  acquire-Tidy, map_value-Tidy,
}
use af_xdp_reimpl.Mapping.{RingHandle, MapsNonnull, ring_owns, unmap-Destroys, create-Tidy_ring}
use af_xdp_reimpl.Umem.{Umem}
use af_xdp_reimpl.Socket
use af_xdp_reimpl.Socket.{
  XskConfig, XskHandle, set_option, set_ring_sizes, reg_of, query_offsets, bind_copy,
  after_zero_copy, bind_socket, interface_index, set_busy_poll, bind_and_poll, map_rings, handle_of,
  size_of_desc, size_of_addr, close_fd, unmap_ring,
}

-- What a socket owns.
abbrev pub socket_owns : (Resource → ℕ) → XskHandle → ℕ
socket_owns f x =
    f (descriptor x.fd)
    + (ring_owns f x.rx
        + (ring_owns f x.tx + (ring_owns f x.fill + (ring_owns f x.completion + 0))))

abbrev nothing {ℓ} : {A : Type ℓ} → (Resource → ℕ) → A → ℕ
nothing f a = 0

module _ (os : Os) (cfg : XskConfig) (umem : Umem) where
  set_option-Tidy :
      (fd : ℕ) (opt : SocketOption) (v : ℕ) (h : History)
      → Tidy nothing h (set_option os cfg umem fd opt v h)
  set_option-Tidy fd opt v h =
      attempt-Tidy nothing os (Call.setsockopt fd opt v) (at_option opt) h (λ f x. refl) (λ f. refl)

  set_ring_sizes-Tidy : (fd : ℕ) (h : History) → Tidy nothing h (set_ring_sizes os cfg umem fd h)
  unfolding set_ring_sizes
  set_ring_sizes-Tidy fd h =
      and_then-Tidy nothing h _ _ (set_option-Tidy fd SocketOption.xdp_rx_ring cfg.ring_size h)
        (λ _ h1.
          and_then-Tidy nothing h1 _ _
            (set_option-Tidy fd SocketOption.xdp_tx_ring cfg.ring_size h1)
            (λ _ h2.
              and_then-Tidy nothing h2 _ _
                (set_option-Tidy fd SocketOption.xdp_umem_fill_ring cfg.ring_size h2)
                (λ _ h3.
                  set_option-Tidy fd SocketOption.xdp_umem_completion_ring cfg.ring_size h3)))

  query_offsets-Tidy : (fd : ℕ) (h : History) → Tidy nothing h (query_offsets os cfg umem fd h)
  unfolding query_offsets
  query_offsets-Tidy fd h =
      and_then-Tidy nothing h _ _
        (attempt-Tidy nothing os (Call.umem_reg fd (reg_of os cfg umem)) at_umem_reg h (λ f x. refl)
          (λ f. refl))
        (λ _ h1.
          map_value-Tidy nothing nothing _ h1 _
            (attempt-Tidy nothing os (Call.mmap_offsets fd) at_offsets h1 (λ f x. refl) (λ f. refl))
            (λ f a. refl))

  bind_copy-Tidy :
      (fd ifindex : ℕ) (h : History) → Tidy nothing h (bind_copy os cfg umem fd ifindex h)
  bind_copy-Tidy fd ifindex h =
      map_value-Tidy nothing nothing _ h _
        (attempt-Tidy nothing os (Call.bind fd ifindex cfg.queue_id cfg.need_wakeup false true)
          at_bind h (λ f x. refl) (λ f. refl))
        (λ f a. refl)

  bind_socket-Tidy :
      (zero_copy : Bool) (fd ifindex : ℕ) (h : History)
      → Tidy nothing h (bind_socket os cfg umem zero_copy fd ifindex h)
  unfolding bind_socket
  bind_socket-Tidy false fd ifindex h = bind_copy-Tidy fd ifindex h
  bind_socket-Tidy true fd ifindex h = record {
    balance =
        λ f. go f (os.answer h (Call.bind fd ifindex cfg.queue_id cfg.need_wakeup true false));
  }
    where
      go :
          (f : Resource → ℕ) (a : Answer)
          → let h1 = (Call.bind fd ifindex cfg.queue_id cfg.need_wakeup true false, a) ∷ h in
            let out = after_zero_copy os cfg umem fd ifindex h1 a in
            opened f out.1 + closed f h ≡ opened f h + closed f out.1 + owned nothing f out.0
      go f (gave x) = omega arith
      go f (failed e) = omega (
        arith,
        (bind_copy-Tidy fd ifindex (
              (Call.bind fd ifindex cfg.queue_id cfg.need_wakeup true false, failed e) ∷ h)).balance
            f,
      )

  set_busy_poll-Tidy :
      (busy_poll : Bool) (fd : ℕ) (h : History)
      → Tidy nothing h (set_busy_poll os cfg umem busy_poll fd h)
  unfolding set_busy_poll
  set_busy_poll-Tidy false fd h = record { balance = λ f. omega arith }
  set_busy_poll-Tidy true fd h =
      and_then-Tidy nothing h _ _ (set_option-Tidy fd SocketOption.so_prefer_busy_poll 1 h) (λ _ h1.
        and_then-Tidy nothing h1 _ _
          (set_option-Tidy fd SocketOption.so_busy_poll cfg.busy_poll_timeout_us h1)
          (λ _ h2. set_option-Tidy fd SocketOption.so_busy_poll_budget cfg.busy_poll_budget h2))

  bind_and_poll-Tidy : (fd : ℕ) (h : History) → Tidy nothing h (bind_and_poll os cfg umem fd h)
  unfolding bind_and_poll
  bind_and_poll-Tidy fd h =
      and_then-Tidy nothing h _ _
        (attempt-Tidy nothing os (Call.if_nametoindex cfg.iface) at_interface h (λ f x. refl)
          (λ f. refl))
        (λ ifindex h1.
          and_then-Tidy nothing h1 _ _ (bind_socket-Tidy cfg.zero_copy fd ifindex h1)
            (λ zero_copy h2.
              map_value-Tidy nothing nothing _ h2 _ (set_busy_poll-Tidy cfg.busy_poll fd h2)
                (λ f a. refl)))

  module _ (nonnull : MapsNonnull os) where
    abbrev rings_own :
        (Resource → ℕ) → RingHandle × (RingHandle × (RingHandle × (RingHandle × Bool))) → ℕ
    rings_own f x =
        ring_owns f x.0 + (ring_owns f x.1.0 + (ring_owns f x.1.1.0 + (ring_owns f x.1.1.1.0 + 0)))

    map_rings-Tidy :
        (fd : ℕ) (offsets : MmapOffsets) (h : History)
        → Tidy rings_own h (map_rings os cfg umem fd offsets h)
    unfolding map_rings
    map_rings-Tidy fd offsets h =
        let n = cfg.ring_size in
        let destroys = unmap-Destroys os in
        let own3 : (Resource → ℕ) → RingHandle × Bool → ℕ = λ f x. ring_owns f x.0 + 0 in
        let own2 : (Resource → ℕ) → RingHandle × (RingHandle × Bool) → ℕ =
          λ f x. ring_owns f x.0 + own3 f x.1 in
        let own1 : (Resource → ℕ) → RingHandle × (RingHandle × (RingHandle × Bool)) → ℕ =
          λ f x. ring_owns f x.0 + own2 f x.1 in
        let unmap_it = unmap_ring os cfg umem in
        acquire-Tidy own1 ring_owns unmap_it h _ _
          (create-Tidy_ring os nonnull size_of_desc fd PageOffset.rx_ring offsets.rx n h)
          (λ r _ f. destroys r f)
          (λ rx h1.
            acquire-Tidy own2 ring_owns unmap_it h1 _ _
              (create-Tidy_ring os nonnull size_of_desc fd PageOffset.tx_ring offsets.tx n h1)
              (λ r _ f. destroys r f)
              (λ tx h2.
                acquire-Tidy own3 ring_owns unmap_it h2 _ _
                  (create-Tidy_ring os nonnull size_of_addr fd PageOffset.fill_ring offsets.fr n h2)
                  (λ r _ f. destroys r f)
                  (λ fill h3.
                    acquire-Tidy nothing ring_owns unmap_it h3 _ _
                      (create-Tidy_ring os nonnull size_of_addr fd PageOffset.completion_ring
                        offsets.cr n h3)
                      (λ r _ f. destroys r f) (λ comp h4. bind_and_poll-Tidy fd h4))))

    -- If no mapping is at the address 0: whatever the system answers, `Xsk::create` closes on every
    -- early return all that it had opened, each once, and the socket that it returns owns its
    -- descriptor and its four mappings, and nothing else is left open.
    pub create-Tidy_socket : (h : History) → Tidy socket_owns h (Socket.create os cfg umem h)
    unfolding Socket.create
    create-Tidy_socket h =
        map_value-Tidy (λ f x. f (descriptor x.0) + rings_own f x.1) socket_owns
          (handle_of os cfg umem) h _
          (acquire-Tidy rings_own (λ f fd. f (descriptor fd)) (close_fd os cfg umem) h _ _
            (attempt-Tidy (λ f fd. f (descriptor fd)) os Call.socket at_socket h (λ f x. refl)
              (λ f. refl))
            (λ fd _ f h1.
              (omega (arith, close_opens fd f (os.answer h1 (Call.close fd))), omega arith))
            (λ fd h1. and_then-Tidy rings_own h1 _ _ (set_ring_sizes-Tidy fd h1) (λ _ h2.
              and_then-Tidy rings_own h2 _ _ (query_offsets-Tidy fd h2)
                (λ offsets h3. map_rings-Tidy fd offsets h3))))
          (λ f x. refl)
