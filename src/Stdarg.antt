-- ===== src/Stdarg.antt =====
-- tvnet/pickle_stdarg_encoder.c and tvnet/pickle_stdarg_decoder.c: tokens from and to the arguments of
-- a C call, by a text of type letters.
pub mod Args
pub mod Encoder
pub mod Decoder
pub mod Spec
pub mod Size
pub mod RoundTrip
pub mod Safety
mod Tests
