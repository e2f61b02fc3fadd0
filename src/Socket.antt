-- ===== src/Socket.antt =====
-- include/afxdp/xsk.hpp: `Xsk::create`, which opens the socket, sizes and maps its four rings, binds
-- it to a queue, with zero copy if it can, and sets up busy polling. A local owner is written
-- `acquire`: its destructor runs at every later early return.
pub mod Tidy
use af_xdp_reimpl.Prelude.{
  ℕ, Text, ◌+◌, ◌^◌, ◌%◌, Bool, true, false, not, ◌&&◌, ◌||◌, Option, none, some, ◌∷◌, ◌==◌,
  if◌then◌else◌,
}
use af_xdp_reimpl.Os.{
  Os, Call, Answer, History, Expect, unexpected, value, failed, gave, SocketOption, PageOffset,
  UmemReg, RingOffset, MmapOffsets, Context, at_socket, at_umem_reg, at_offsets, at_interface,
  at_bind, at_option, perform, attempt, outcome, and_then, acquire, map_value, FileDesc, reset,
}
use af_xdp_reimpl.Mapping
use af_xdp_reimpl.Mapping.{RingHandle, unmap}
use af_xdp_reimpl.Umem.{Umem}

pub record XskConfig : Type 0 where
  pub iface : Text
  pub queue_id : ℕ
  pub ring_size : ℕ
  pub zero_copy : Bool
  pub need_wakeup : Bool
  pub busy_poll : Bool
  pub busy_poll_budget : ℕ
  pub busy_poll_timeout_us : ℕ

-- The fields of a created `Xsk`.
pub record XskHandle : Type 0 where
  pub fd : ℕ
  pub rx : RingHandle
  pub tx : RingHandle
  pub fill : RingHandle
  pub completion : RingHandle
  pub busy_poll : Bool
  pub zero_copy : Bool

abbrev pub size_of_desc : ℕ
size_of_desc = 16

abbrev pub size_of_addr : ℕ
size_of_addr = 8

module _ (os : Os) (cfg : XskConfig) (umem : Umem) where
  -- `set_ring_size` and `set_opt`
  abbrev pub set_option : ℕ → SocketOption → ℕ → History → Expect ℕ × History
  set_option fd opt v h = attempt os (Call.setsockopt fd opt v) (at_option opt) h

  -- The four ring sizes.
  unfoldable pub set_ring_sizes : ℕ → History → Expect ℕ × History
  set_ring_sizes fd h = and_then (set_option fd SocketOption.xdp_rx_ring cfg.ring_size h) (λ _ h1.
      and_then (set_option fd SocketOption.xdp_tx_ring cfg.ring_size h1) (λ _ h2.
        and_then (set_option fd SocketOption.xdp_umem_fill_ring cfg.ring_size h2)
          (λ _ h3. set_option fd SocketOption.xdp_umem_completion_ring cfg.ring_size h3)))

  abbrev pub reg_of : UmemReg
  reg_of = record {
    addr = umem.base;
    len = umem.size;
    chunk_size = umem.cfg.frame_size;
    headroom = umem.cfg.headroom;
  }

  -- The offsets of the rings, once the region is registered.
  unfoldable pub query_offsets : ℕ → History → Expect MmapOffsets × History
  query_offsets fd h =
      and_then (attempt os (Call.umem_reg fd reg_of) at_umem_reg h)
        (λ _ h1. map_value (λ _. os.offsets h1) (attempt os (Call.mmap_offsets fd) at_offsets h1))

  -- The bind in copy mode.
  abbrev pub bind_copy : ℕ → ℕ → History → Expect Bool × History
  bind_copy fd ifindex h =
      map_value (λ _. false)
        (attempt os (Call.bind fd ifindex cfg.queue_id cfg.need_wakeup false true) at_bind h)

  -- What follows the attempt at zero copy, which ended so.
  abbrev pub after_zero_copy : ℕ → ℕ → History → Answer → Expect Bool × History
  after_zero_copy fd ifindex h (gave x) = (value true, h)
  after_zero_copy fd ifindex h (failed e) = bind_copy fd ifindex h

  -- The bind, whose value says whether the socket has zero copy.
  unfoldable pub bind_socket : Bool → ℕ → ℕ → History → Expect Bool × History
  bind_socket false fd ifindex h = bind_copy fd ifindex h
  bind_socket true fd ifindex h =
      let (a, h1) = perform os (Call.bind fd ifindex cfg.queue_id cfg.need_wakeup true false) h in
      after_zero_copy fd ifindex h1 a

  -- `if_nametoindex` returns 0 on a failure.
  abbrev pub interface_index : History → Expect ℕ × History
  interface_index h = attempt os (Call.if_nametoindex cfg.iface) at_interface h

  unfoldable pub set_busy_poll : Bool → ℕ → History → Expect ℕ × History
  set_busy_poll false fd h = (value 0, h)
  set_busy_poll true fd h = and_then (set_option fd SocketOption.so_prefer_busy_poll 1 h) (λ _ h1.
      and_then (set_option fd SocketOption.so_busy_poll cfg.busy_poll_timeout_us h1)
        (λ _ h2. set_option fd SocketOption.so_busy_poll_budget cfg.busy_poll_budget h2))

  -- The steps behind the last mapping.
  unfoldable pub bind_and_poll : ℕ → History → Expect Bool × History
  bind_and_poll fd h = and_then (interface_index h) (λ ifindex h1.
      and_then (bind_socket cfg.zero_copy fd ifindex h1)
        (λ zero_copy h2. map_value (λ _. zero_copy) (set_busy_poll cfg.busy_poll fd h2)))

  abbrev pub unmap_ring : RingHandle → History → History
  unmap_ring r h = (unmap os r h).1

  -- The destructor of the local `FileDesc`.
  abbrev pub close_fd : ℕ → History → History
  close_fd fd h = (perform os (Call.close fd) h).1

  -- The four mappings, and what follows while they are locals.
  unfoldable pub map_rings :
      ℕ
      → MmapOffsets
      → History
      → Expect (RingHandle × (RingHandle × (RingHandle × (RingHandle × Bool)))) × History
  map_rings fd offsets h =
      let n = cfg.ring_size in
      acquire unmap_ring (Mapping.create os size_of_desc fd PageOffset.rx_ring offsets.rx n h)
        (λ rx h1.
          acquire unmap_ring (Mapping.create os size_of_desc fd PageOffset.tx_ring offsets.tx n h1)
            (λ tx h2.
              acquire unmap_ring
                (Mapping.create os size_of_addr fd PageOffset.fill_ring offsets.fr n h2)
                (λ fill h3.
                  acquire unmap_ring
                    (Mapping.create os size_of_addr fd PageOffset.completion_ring offsets.cr n h3)
                    (λ comp h4. bind_and_poll fd h4))))

  -- The socket with its rings moved in.
  abbrev pub handle_of :
      ℕ × (RingHandle × (RingHandle × (RingHandle × (RingHandle × Bool)))) → XskHandle
  handle_of (fd, (rx, (tx, (fill, (comp, zero_copy))))) = record {
    fd = fd;
    rx = rx;
    tx = tx;
    fill = fill;
    completion = comp;
    busy_poll = cfg.busy_poll;
    zero_copy = zero_copy;
  }

  unfoldable pub create : History → Expect XskHandle × History
  create h = map_value handle_of (
      acquire close_fd (attempt os Call.socket at_socket h) (λ fd h1.
        and_then (set_ring_sizes fd h1)
          (λ _ h2. and_then (query_offsets fd h2) (λ offsets h3. map_rings fd offsets h3))))
