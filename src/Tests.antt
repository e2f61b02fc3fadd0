-- ===== src/Tests.antt =====
-- The theorems at concrete inputs.
pub mod RingTests
pub mod Worker
pub mod TransmitterTests
pub mod ReflectorTests
pub mod SocketTests
pub mod CommandTests
pub mod FilterTests
pub mod RunTests
pub mod ExportTests
