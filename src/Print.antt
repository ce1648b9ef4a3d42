-- ===== src/Print.antt =====
-- tvnet/pickle_print.c: printf calls as messages.
pub mod Encoder
pub mod Decoder
pub mod Arguments
pub mod RoundTrip
pub mod Size
pub mod Overflow
pub mod Typing
pub mod Calling
pub mod Untrusted
mod Tests
