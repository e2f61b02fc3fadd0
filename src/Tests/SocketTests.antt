-- ===== src/Tests/SocketTests.antt =====
-- Opening a socket on a system without zero copy, and on one that refuses busy polling; a loader
-- whose filter address is refused.
use af_xdp_reimpl.Prelude.{
  ℕ, codes, suc, some, ◌+◌, ◌≡◌, ◌≢◌, refl, [], length, Bool, true, false, arith,
}
use af_xdp_reimpl.Os
use af_xdp_reimpl.Os.{
  Os, Call, Answer, History, Expect, unexpected, value, failed, gave, SocketOption, PageOffset,
  RingOffset, MmapOffsets, AfxdpError, Context, attempt, perform, FileDesc, reset,
}
use af_xdp_reimpl.Os.Tidy.{Resource, Tidy, opened, closed, move_assign-reset}
use af_xdp_reimpl.Mapping
use af_xdp_reimpl.Mapping.{
  RingHandle, MapsNonnull, ring_owns, unmap, empty_handle, handle_at, create-Tidy_ring, move_assign,
  move_assign-unmap,
}
use af_xdp_reimpl.Umem
use af_xdp_reimpl.Umem.{Umem, UmemConfig, umem_owns, create-Tidy_region}
use af_xdp_reimpl.Loader
use af_xdp_reimpl.Loader.Owns.{loader_owns}
use af_xdp_reimpl.Loader.Tidy.{create-Tidy_loader}
use af_xdp_reimpl.Socket
use af_xdp_reimpl.Socket.{XskConfig, XskHandle}
use af_xdp_reimpl.Socket.Tidy.{socket_owns, create-Tidy_socket}

-- Values count the calls; zero copy and the budget of busy polling are refused.
abbrev pub answer_of : History → Call → Answer
answer_of h (Call.bind fd ifindex queue need_wakeup true copy) = failed 95
answer_of h (Call.setsockopt fd SocketOption.so_busy_poll_budget v) = failed 1
answer_of h c = gave (suc (length h))

abbrev pub offset_of : RingOffset
offset_of = record { producer = 0; consumer = 64; desc = 256; flags = 128 }

abbrev pub os : Os
os = record {
  answer = answer_of;
  offsets = λ h. record { rx = offset_of; tx = offset_of; fr = offset_of; cr = offset_of };
  statistics = λ h. record {
    rx_dropped = 0;
    rx_invalid_descs = 0;
    tx_invalid_descs = 0;
    rx_ring_full = 0;
    rx_fill_ring_empty_descs = 0;
    tx_ring_empty_descs = 0;
  };
}

pub gave_some : (n : ℕ) → gave (suc n) ≢ gave 0
gave_some n e = ground arith

pub os-MapsNonnull : MapsNonnull os
os-MapsNonnull = record {
  ring = λ h fd pgoff size. gave_some (length h);
  anonymous = λ h huge size. gave_some (length h);
}

abbrev umem_config : UmemConfig
umem_config = record { num_frames = 8; frame_size = 2048; headroom = 2; use_huge_pages = true }

abbrev umem : Umem
umem = record { base = 4096; size = 16384; cfg = umem_config; uses_hugetlb = true }

abbrev config : Bool → XskConfig
config busy_poll = record {
  iface = codes "eth0";
  queue_id = 0;
  ring_size = 8;
  zero_copy = true;
  need_wakeup = true;
  busy_poll = busy_poll;
  busy_poll_budget = 64;
  busy_poll_timeout_us = 20;
}

abbrev zero_copy_of : Expect XskHandle → Bool
zero_copy_of (unexpected e) = true
zero_copy_of (value x) = x.zero_copy

abbrev code_of : Expect XskHandle → ℕ
code_of (unexpected e) = e.code
code_of (value x) = 0

falls_back_to_copy : zero_copy_of (Socket.create os (config false) umem []).0 ≡ false
unfolding Socket.create Socket.set_ring_sizes Socket.query_offsets Socket.map_rings
    Socket.bind_and_poll Socket.bind_socket Socket.set_busy_poll Mapping.create
falls_back_to_copy = refl

reports_the_refusal : code_of (Socket.create os (config true) umem []).0 ≡ 1
unfolding Socket.create Socket.set_ring_sizes Socket.query_offsets Socket.map_rings
    Socket.bind_and_poll Socket.bind_socket Socket.set_busy_poll Mapping.create
reports_the_refusal = refl

create-Tidy_socket_example : Tidy socket_owns [] (Socket.create os (config true) umem [])
create-Tidy_socket_example = create-Tidy_socket os (config true) umem os-MapsNonnull []

create-Tidy_region_example : Tidy umem_owns [] (Umem.create os umem_config [])
create-Tidy_region_example = create-Tidy_region os umem_config []

create-Tidy_ring_example :
    Tidy ring_owns [] (Mapping.create os 16 3 PageOffset.rx_ring offset_of 8 [])
create-Tidy_ring_example = create-Tidy_ring os os-MapsNonnull 16 3 PageOffset.rx_ring offset_of 8 []

move_assign-reset_example :
    let held : FileDesc = record { fd = some 3 } in
    let (objects, h1) = Os.move_assign os held held [] in
    let h3 = (reset os objects.1 (reset os objects.0 h1).1).1 in
    (closed (λ r. 1) h3 ≡ 0 + 1 + 1) × (opened (λ r. 1) h3 ≡ 0)
move_assign-reset_example =
    move_assign-reset os (record { fd = some 3 }) (record { fd = some 3 }) [] (λ r. 1)

-- A system that takes no address text: the redirection is made and undone.
abbrev address_refused : History → Call → Answer
address_refused h (Call.inet_pton text) = failed 22
address_refused h c = gave (suc (length h))

abbrev strict : Os
strict = record os { answer = address_refused }

abbrev is_redirect : Resource → ℕ
is_redirect (Resource.redirect map_fd queue) = 1
is_redirect r = 0

redirect_undone :
    let out =
      Loader.create strict (codes "xdp_prog.bpf.o") (codes "eth0") 0 3 (codes "localhost") [] in
    (opened is_redirect out.1 ≡ 1) × (closed is_redirect out.1 ≡ 1)
unfolding Loader.create Loader.load_and_redirect Loader.filter_and_attach Loader.release
    Loader.stop_redirect Loader.detach
redirect_undone = (refl, refl)

create-Tidy_loader_example :
    Tidy loader_owns []
      (Loader.create strict (codes "xdp_prog.bpf.o") (codes "eth0") 0 3 (codes "localhost") [])
create-Tidy_loader_example =
    create-Tidy_loader strict (λ h iface. gave_some (length h)) (codes "xdp_prog.bpf.o")
      (codes "eth0") 0 3 (codes "localhost") []
