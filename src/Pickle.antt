-- ===== src/Pickle.antt =====
-- The pickle format: the headers pickle_length.h, pickle_encoder.h and pickle_decoder.h of tvnet/.
pub mod Length
pub mod Encoder
pub mod Decoder
pub mod Bytes
pub mod Encoding
pub mod Storage
pub mod At
pub mod Safety
pub mod RoundTrip
pub mod Items
mod Tests
