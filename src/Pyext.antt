-- ===== src/Pyext.antt =====
-- pyext/tvnetmodule.c: Python objects as messages.
pub mod Objects
pub mod Encoder
pub mod Decoder
pub mod Bytes
pub mod Encoding
pub mod Leaves
pub mod RoundTrip
pub mod Message
pub mod Ends
pub mod Total
pub mod Truncated
pub mod Sockets
pub mod Exchange
mod Tests
