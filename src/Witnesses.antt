-- ===== src/Witnesses.antt =====
-- Concrete instances of the theorems.
pub mod Wire
pub mod Echoes
pub mod Options
pub mod Runs
pub mod Quic
pub mod Sctp
pub mod Sockets
