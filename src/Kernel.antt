-- ===== src/Kernel.antt =====
-- The kernel's side of the rings, which no file of the repository implements: what it does between
-- two accesses of the engine, and in a system call. A model of it is an argument of the engine;
-- `Kernel.Contract` states what the AF_XDP documentation promises of it.
pub mod Contract
pub mod Rings
pub mod Extends
pub mod Fifo
use af_xdp_reimpl.Prelude.{ℕ, Option}
use af_xdp_reimpl.Xsk.{Xsk}

-- The socket with the kernel's own state `S` and the bytes of the UMEM region.
pub record Io (S : Type 0) : Type 0 where
  pub kernel : S
  pub xsk : Xsk
  pub mem : ℕ → ℕ

-- `run` is what happens meanwhile; `sendto` and `recvfrom` are the wakeup calls, whose result is
-- the `errno` of a failed one.
pub record Kernel (S : Type 0) : Type 0 where
  pub run : Io S → Io S
  pub sendto : Io S → Option ℕ × Io S
  pub recvfrom : Io S → Option ℕ × Io S
