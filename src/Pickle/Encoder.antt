-- ===== src/Pickle/Encoder.antt =====
-- tvnet/pickle_encoder.h: stores of one token into a buffer. `none` is a store outside the buffer.
-- A C string is the list of its bytes before the nul.
use libtvnet.Base.{
  ℕ, ◌%◌, ◌^◌, leb, List, [], ◌∷◌, Option, none, some, ◌>>=◌, length, take, bit_or, if◌then◌else◌,
  ltb,
}
use libtvnet.Base.{ℤ, pos, negsuc, ltb_ℤ, leb_ℤ, to_unsigned}
use libtvnet.Tvutils.{Tvutils}
use libtvnet.Buffer.{Buffer, put}
use libtvnet.Pickle.Length.{
  int16_max, int16_min, int32_max, int32_min, is_integral, is_float32, cast_i64,
}

-- the first `n` bytes behind a pointer
unfoldable pub read_string : List ℕ → ℕ → Option (List ℕ)
read_string string n = if leb n (length string) then some (take n string) else none

module _ ⦃tv : Tvutils⦄ where
  -- TVNP_ENCODE_INTEGER: the control byte, then the value behind it.
  unfoldable pub put_integer : ℕ → ℤ → ℕ → Buffer → Option Buffer
  put_integer contr x bytes b = put (contr ∷ tv.set_be_i bytes x) b

  -- TVNP_ENCODE_FLOAT at 32 and 64 bits; the argument of `tvu_set_be_f32` is converted to `float`.
  unfoldable pub put_float32 : ℕ → ℕ → Buffer → Option Buffer
  put_float32 contr x b = put (contr ∷ tv.set_be_f32 (tv.narrow x)) b

  unfoldable pub put_float64 : ℕ → ℕ → Buffer → Option Buffer
  put_float64 contr x b = put (contr ∷ tv.set_be_f64 x) b

  -- `x & 0x7f` is `to_unsigned 128 x`.
  unfoldable pub encode_integer : ℤ → Buffer → Option Buffer
  unfolding put_integer
  encode_integer x b =
      if ltb_ℤ int32_max x
      then put_integer 0x43 x 8 b
      else if ltb_ℤ int16_max x
      then put_integer 0x44 x 4 b
      else if ltb_ℤ (pos 63) x
      then put_integer 0x45 x 2 b
      else if leb_ℤ (negsuc 57) x
      then put (to_unsigned 128 x ∷ []) b
      else if leb_ℤ int16_min x
      then put_integer 0x45 x 2 b
      else if leb_ℤ int32_min x
      then put_integer 0x44 x 4 b
      else put_integer 0x43 x 8 b

  unfoldable pub encode_float : ℕ → Buffer → Option Buffer
  unfolding put_float32 put_float64 cast_i64
  encode_float x b =
      if is_integral x
      then (cast_i64 x >>= λ i. encode_integer i b)
      else if is_float32 x
      then put_float32 0x42 x b
      else put_float64 0x41 x b

  unfoldable pub encode_null : Buffer → Option Buffer
  encode_null b = put (0x40 ∷ []) b

  -- `c` is a `uint8_t` and `x` a `uint32_t`.
  unfoldable pub encode_compound : ℕ → ℕ → Buffer → Option Buffer
  unfolding put_integer
  encode_compound c x b =
      if ltb 0xffff x
      then put_integer (bit_or c 0x1f) (pos x) 4 b
      else if ltb 0xff x
      then put_integer (bit_or c 0x1e) (pos x) 2 b
      else if ltb 0x1c x
      then put_integer (bit_or c 0x1d) (pos x) 1 b
      else put (bit_or c x ∷ []) b

  -- The `memcpy` faults where it would read behind the string's bytes.
  unfoldable pub encode_string : ℕ → List ℕ → ℕ → Buffer → Option Buffer
  encode_string c string string_size b =
      encode_compound c string_size b >>= λ b'. read_string string string_size >>= λ cs. put cs b'

  unfoldable pub encode_utf8_string_and_size : List ℕ → ℕ → Buffer → Option Buffer
  encode_utf8_string_and_size string string_size b =
      encode_string 0x80 string string_size b >>= put (0 ∷ [])

  -- The result of `strlen` is converted to `uint32_t`.
  unfoldable pub encode_utf8_string : List ℕ → Buffer → Option Buffer
  encode_utf8_string string b = encode_utf8_string_and_size string (length string % 2 ^ 32) b

  unfoldable pub encode_binary_string : List ℕ → ℕ → Buffer → Option Buffer
  encode_binary_string string string_size b = encode_string 0xa0 string string_size b

  unfoldable pub encode_list : ℕ → Buffer → Option Buffer
  encode_list size b = encode_compound 0xc0 size b

  unfoldable pub encode_dictionary : ℕ → Buffer → Option Buffer
  encode_dictionary size b = encode_compound 0xe0 size b
