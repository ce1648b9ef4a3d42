-- ===== src/Pickle/Storage.antt =====
-- How much memory each encoder needs: exactly what pickle_length.h says.
use libtvnet.Base.{ℕ, ◌%◌, ◌^◌, ◌≤◌, ◌<◌, ◌≡◌, List, length, some}
use libtvnet.Base.{ℤ}
use libtvnet.Tvutils.{Tvutils, IsF64}
use libtvnet.Buffer.{Buffer}
use libtvnet.Buffer.Laws.{Stores, put-Stores}
use libtvnet.Pickle.Length.{
  length_integer, length_float, length_compound, length_utf8_string, length_binary_string,
  length_null,
}
use libtvnet.Pickle.Encoder.{
  encode_integer, encode_float, encode_null, encode_compound, encode_utf8_string,
  encode_binary_string,
}
use libtvnet.Pickle.Bytes.{float_bytes}
use libtvnet.Pickle.Encoding.{
  encode_integer-put, length-integer_bytes, encode_float-put, length-float_bytes,
  encode_compound-put, length-compound_bytes, encode_utf8_string-put, length-utf8_bytes,
  encode_binary_string-put, length-binary_bytes,
}

module _ ⦃tv : Tvutils⦄ (b : Buffer) (inside : b.offset ≤ length b.data_bytes) where
  -- Encoding an integer faults exactly when the memory behind the offset is shorter than
  -- `tvnp_length_integer`; otherwise it moves the offset by that length and keeps the sizes.
  pub encode_integer-Stores : (x : ℤ) → Stores (length_integer x) b (encode_integer x b)
  encode_integer-Stores x =
      rw (encode_integer-put x b, ← length-integer_bytes x) (put-Stores _ b inside)

  -- Encoding a double faults exactly when the memory behind the offset is shorter than
  -- `tvnp_length_float`, whichever of the three forms the number takes; otherwise it moves the offset
  -- by that length and keeps the sizes. A double that is integral is in the range of `int64_t`.
  pub encode_float-Stores :
      (x : ℕ) → IsF64 x → (n : ℕ) × (length_float x ≡ some n) × Stores n b (encode_float x b)
  encode_float-Stores x h = (
    length (float_bytes x),
    length-float_bytes x h,
    rw (encode_float-put x b h) (put-Stores _ b inside),
  )

  -- Encoding a null faults exactly when no byte is left behind the offset; otherwise it moves the
  -- offset by one and keeps the sizes.
  pub encode_null-Stores : Stores length_null b (encode_null b)
  unfolding encode_null length_null
  encode_null-Stores = put-Stores _ b inside

  -- Encoding the header of a container, with a tag that leaves the five low bits free, faults exactly
  -- when the memory behind the offset is shorter than `tvnp_length_compound`; otherwise it moves the
  -- offset by that length and keeps the sizes.
  pub encode_compound-Stores :
      (c n : ℕ) → c < 256 → c % 32 ≡ 0 → Stores (length_compound n) b (encode_compound c n b)
  encode_compound-Stores c n hc h0 =
      rw (encode_compound-put c n b hc h0, ← length-compound_bytes c n) (put-Stores _ b inside)

  -- Encoding a UTF-8 string shorter than 2 ^ 32 bytes faults exactly when the memory behind the offset
  -- is shorter than `tvnp_length_utf8_string`; otherwise it moves the offset by that length and keeps
  -- the sizes.
  pub encode_utf8_string-Stores :
      (s : List ℕ)
      → length s < 2 ^ 32
      → Stores (length_utf8_string (length s)) b (encode_utf8_string s b)
  encode_utf8_string-Stores s h =
      rw (encode_utf8_string-put s b h, ← length-utf8_bytes s h) (put-Stores _ b inside)

  -- Encoding a binary string shorter than 2 ^ 32 bytes faults exactly when the memory behind the
  -- offset is shorter than `tvnp_length_binary_string`; otherwise it moves the offset by that length
  -- and keeps the sizes.
  pub encode_binary_string-Stores :
      (s : List ℕ)
      → length s < 2 ^ 32
      → Stores (length_binary_string (length s)) b (encode_binary_string s (length s) b)
  encode_binary_string-Stores s h =
      rw (encode_binary_string-put s b, ← length-binary_bytes s h) (put-Stores _ b inside)
