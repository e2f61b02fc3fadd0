-- ===== src/Os.antt =====
-- The operating system as the program sees it, and include/afxdp/common.hpp: errors and `FileDesc`.
-- What each system call answers is an argument (`Os`), which may depend on all calls before; the
-- calls and their answers are kept as a history, the last one first.
pub mod Tidy
pub mod Troubles
pub mod Quiet
use af_xdp_reimpl.Prelude.{ℕ, List, ◌∷◌, Option, none, some, Bool, Text}

-- `XDP_RX_RING`, `XDP_TX_RING`, `XDP_UMEM_FILL_RING`, `XDP_UMEM_COMPLETION_RING` and the options
-- of busy polling.
pub data SocketOption : Type 0 where
  xdp_rx_ring xdp_tx_ring xdp_umem_fill_ring xdp_umem_completion_ring : SocketOption
  so_prefer_busy_poll so_busy_poll so_busy_poll_budget : SocketOption

-- `XDP_PGOFF_RX_RING` and its like.
pub data PageOffset : Type 0 where
  rx_ring tx_ring fill_ring completion_ring : PageOffset

-- The maps of the BPF object: a search for one answers with its descriptor.
pub data MapName : Type 0 where
  xsks_map target_ip_map : MapName

pub record UmemReg : Type 0 where
  pub addr : ℕ
  pub len : ℕ
  pub chunk_size : ℕ
  pub headroom : ℕ

-- `SIGINT` and `SIGTERM`
pub data Signal : Type 0 where
  sigint sigterm : Signal

-- What a signal does: what it did before (its number stands for it), or the handler of main.cpp.
pub data Disposition : Type 0 where
  other : (action : ℕ) → Disposition
  signal_handler : Disposition

pub data SchedPolicy : Type 0 where
  sched_other sched_fifo : SchedPolicy

pub data Call : Type 0 where
  setrlimit_memlock : Call
  mmap_anonymous : (huge : Bool) (size : ℕ) → Call
  mmap_ring : (fd : ℕ) (pgoff : PageOffset) (size : ℕ) → Call
  munmap : (base size : ℕ) → Call
  mlock : (base size : ℕ) → Call
  socket : Call
  close : (fd : ℕ) → Call
  setsockopt : (fd : ℕ) (opt : SocketOption) (value : ℕ) → Call
  umem_reg : (fd : ℕ) (reg : UmemReg) → Call
  mmap_offsets : (fd : ℕ) → Call
  if_nametoindex : (iface : Text) → Call
  bpf_open : (path : Text) → Call
  bpf_load : (obj : ℕ) → Call
  bpf_close : (obj : ℕ) → Call
  find_map : (obj : ℕ) (name : MapName) → Call
  find_program : (obj : ℕ) → Call
  redirect_update : (map_fd queue xsk_fd : ℕ) → Call
  redirect_delete : (map_fd queue : ℕ) → Call
  filter_update : (map_fd key addr : ℕ) → Call
  inet_pton : (text : Text) → Call
  xdp_attach : (ifindex prog_fd : ℕ) (native : Bool) → Call
  xdp_detach : (ifindex : ℕ) (native : Bool) → Call
  bind : (fd ifindex queue : ℕ) (need_wakeup zero_copy copy : Bool) → Call
  xdp_statistics : (fd : ℕ) → Call
  sigemptyset : Call
  sigaction : (signum : Signal) (action : Disposition) → Call
  sched_getcpu : Call
  setaffinity : (cpu : ℕ) → Call
  sched_setscheduler : (policy : SchedPolicy) (priority : ℕ) → Call
  fopen : (path : Text) → Call
  fprintf : (file : ℕ) (text : Text) → Call
  fclose : (file : ℕ) → Call
  uname : Call
  clock_gettime : Call
  nanosleep : Call

-- The `errno` of a failure, or the value of a success.
pub data Answer : Type 0 where
  failed : (error : ℕ) → Answer
  gave : (value : ℕ) → Answer

abbrev pub History : Type 0
History = List (Call × Answer)

pub record RingOffset : Type 0 where
  pub producer : ℕ
  pub consumer : ℕ
  pub desc : ℕ
  pub flags : ℕ

pub record MmapOffsets : Type 0 where
  pub rx : RingOffset
  pub tx : RingOffset
  pub fr : RingOffset
  pub cr : RingOffset

-- `xdp_statistics`
pub record Counters : Type 0 where
  pub rx_dropped : ℕ
  pub rx_invalid_descs : ℕ
  pub tx_invalid_descs : ℕ
  pub rx_ring_full : ℕ
  pub rx_fill_ring_empty_descs : ℕ
  pub tx_ring_empty_descs : ℕ

-- `offsets` and `statistics` are what successful queries `XDP_MMAP_OFFSETS` and `XDP_STATISTICS`
-- fill in.
pub record Os : Type 0 where
  pub answer : History → Call → Answer
  pub offsets : History → MmapOffsets
  pub statistics : History → Counters

-- The step of the program that an error comes from, which its text names.
pub data Context : Type 0 where
  at_setrlimit at_mmap_umem at_mlock at_socket at_umem_reg at_offsets at_mmap_ring : Context
  at_interface at_bind : Context
  at_bpf_open at_bpf_load at_find_xsks_map at_redirect at_find_ip_map at_address at_filter : Context
  at_find_program at_attach : Context
  at_option : (opt : SocketOption) → Context

pub record AfxdpError : Type 0 where
  pub code : ℕ
  pub context : Context

-- `expect`
pub data Expect {ℓ} (A : Type ℓ) : Type ℓ where
  unexpected : (error : AfxdpError) → Expect A
  value : (a : A) → Expect A

abbrev pub perform : Os → Call → History → Answer × History
perform os c h = let a = os.answer h c in (a, (c, a) ∷ h)

-- A call whose failure is an error of the program, with the code that `code` makes of its `errno`.
abbrev pub coded_outcome : (ℕ → ℕ) → Context → Answer → Expect ℕ
coded_outcome code context (failed e) = unexpected (record { code = code e; context = context })
coded_outcome code context (gave x) = value x

abbrev pub coded_attempt : (ℕ → ℕ) → Os → Call → Context → History → Expect ℕ × History
coded_attempt code os c context h =
    let a = os.answer h c in (coded_outcome code context a, (c, a) ∷ h)

-- `make_errno_error`
abbrev pub outcome : Context → Answer → Expect ℕ
outcome context a = coded_outcome (λ e. e) context a

abbrev pub attempt : Os → Call → Context → History → Expect ℕ × History
attempt os c context h = coded_attempt (λ e. e) os c context h

-- `make_logic_error`, which has no `errno`.
abbrev pub logic_attempt : Os → Call → Context → History → Expect ℕ × History
logic_attempt os c context h = coded_attempt (λ e. 0) os c context h

-- An early return on an error.
abbrev pub and_then :
    {A B : Type 0} → Expect A × History → (A → History → Expect B × History) → Expect B × History
and_then (unexpected e, h) next = (unexpected e, h)
and_then (value a, h) next = next a h

module _ {A B : Type 0} where
  -- The end of the life of a local that owns a resource: its destructor runs at an early return,
  -- and otherwise it has been moved to the result.
  abbrev pub leave : (A → History → History) → A → Expect B × History → Expect (A × B) × History
  leave destructor a (unexpected e, h) = (unexpected e, destructor a h)
  leave destructor a (value b, h) = (value (a, b), h)

  -- Such a local from its construction on.
  abbrev pub acquire :
      (A → History → History)
      → Expect A × History
      → (A → History → Expect B × History)
      → Expect (A × B) × History
  acquire destructor out rest = and_then out (λ a h. leave destructor a (rest a h))

  abbrev pub map_value : (A → B) → Expect A × History → Expect B × History
  map_value f (unexpected e, h) = (unexpected e, h)
  map_value f (value a, h) = (value (f a), h)

-- `FileDesc`: none stands for -1.
pub record FileDesc : Type 0 where
  pub fd : Option ℕ

-- `FileDesc::release`: the caller owns the descriptor from here on.
unfoldable pub release : FileDesc → Option ℕ × FileDesc
release d = (d.fd, record { fd = none })

module _ (os : Os) where
  abbrev pub close_raw : Option ℕ → History → History
  close_raw none h = h
  close_raw (some raw) h = (perform os (Call.close raw) h).1

  unfoldable pub reset : FileDesc → History → FileDesc × History
  reset d h = (record { fd = none }, close_raw d.fd h)

  -- The move constructor: the new object, and the one moved from.
  unfoldable pub move : FileDesc → FileDesc × FileDesc
  move o = (o, record { fd = none })

  -- The move assignment between two objects: the target, and the one moved from.
  unfoldable pub move_assign : FileDesc → FileDesc → History → (FileDesc × FileDesc) × History
  move_assign d o h = let (d1, h1) = reset d h in ((record { fd = o.fd }, record { fd = none }), h1)
