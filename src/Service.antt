-- ===== src/Service.antt =====
-- tvnet/service.h: service numbers as addresses of sockets.
pub mod Libc
pub mod Unix
pub mod Addresses
pub mod Calls
pub mod Numbers
pub mod Kernel
pub mod Registry
pub mod Names
pub mod Refinement
pub mod Sample
mod Tests
