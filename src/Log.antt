-- ===== src/Log.antt =====
-- Log messages on their way: tvnet/log.c in the client, tvlogd/loop.c in the daemon.
pub mod Client
pub mod Severity
pub mod Files
pub mod Daemon
pub mod Loop
pub mod Storing
pub mod Reading
pub mod Delivery
pub mod Runs
pub mod Descriptors
pub mod Reopening
pub mod Marks
pub mod Malformed
mod Tests
mod RunTests
mod PacketTests
