-- ===== src/Pickle/Decoder.antt =====
-- tvnet/pickle_decoder.h: one token from a buffer. `none` is a load outside the memory.
-- `junk` is what an uninitialised `token.value.u` holds: on its error path
-- `tvnp_decode_container` leaves it unset, and `tvnp_decode_token` goes on to use it.
use libtvnet.Base.{ℕ, ◌+◌, ◌/◌, Option, some, ◌>>=◌, get_elem?, bit_and, if◌then◌else◌, ◌==◌, ltb}
use libtvnet.Base.{ℤ}
use libtvnet.Tvutils.{Tvutils}
use libtvnet.Buffer.{Buffer, advance, past_end, load}

-- `tvnp_token_t`: the type with the value and pointer that go with it. A string has its size and
-- the offset in the buffer to which `data` points.
pub data Token : Type 0 where
  end_token : Token
  error_token : Token
  null_token : Token
  integer : (i : ℤ) → Token
  float : (f : ℕ) → Token
  utf8_string : (u pointer : ℕ) → Token
  bin_string : (u pointer : ℕ) → Token
  list : (u : ℕ) → Token
  dictionary : (u : ℕ) → Token

-- What `tvnp_decode_container` leaves in `token.type` and `token.value.u`.
pub data Container : Type 0 where
  sized : (u : ℕ) → Container
  out_of_bounds : Container

module _ ⦃tv : Tvutils⦄ where
  -- TVNP_DECODE_INTEGER, TVNP_DECODE_FLOAT and TVNP_DECODE_UNSIGNED
  unfoldable pub take_integer : ℕ → Buffer → Option (Token × Buffer)
  take_integer bytes b =
      if past_end bytes b
      then some (error_token, b)
      else (load bytes b >>= λ cs. some (integer (tv.get_be_i bytes cs), advance bytes b))

  unfoldable pub take_float64 : Buffer → Option (Token × Buffer)
  take_float64 b =
      if past_end 8 b
      then some (error_token, b)
      else (load 8 b >>= λ cs. some (float (tv.get_be_f64 cs), advance 8 b))

  unfoldable pub take_float32 : Buffer → Option (Token × Buffer)
  take_float32 b =
      if past_end 4 b
      then some (error_token, b)
      else (load 4 b >>= λ cs. some (float (tv.widen (tv.get_be_f32 cs)), advance 4 b))

  unfoldable pub take_unsigned : ℕ → Buffer → Option (Container × Buffer)
  take_unsigned bytes b =
      if past_end bytes b
      then some (out_of_bounds, b)
      else (load bytes b >>= λ cs. some (sized (tv.get_be_u bytes cs), advance bytes b))

  -- `c` is below 128.
  unfoldable pub decode_number : ℕ → Buffer → Option (Token × Buffer)
  decode_number c b =
      if c == 0x40
      then some (null_token, b)
      else if c == 0x41
      then take_float64 b
      else if c == 0x42
      then take_float32 b
      else if c == 0x43
      then take_integer 8 b
      else if c == 0x44
      then take_integer 4 b
      else if c == 0x45
      then take_integer 2 b
      else some (integer (tv.sign_extend_7 c), b)

  unfoldable pub decode_container : ℕ → Buffer → Option (Container × Buffer)
  decode_container c b =
      if bit_and c 0x1f == 0x1f
      then take_unsigned 4 b
      else if bit_and c 0x1f == 0x1e
      then take_unsigned 2 b
      else if bit_and c 0x1f == 0x1d
      then take_unsigned 1 b
      else some (sized (bit_and c 0x1f), b)

-- What follows a container of a string type: the bound check on its `nul_size` bytes, where the
-- type stays TVNP_TOKEN_ERROR if the size was out of bounds, and the skip.
-- `slack` is 1 for the nul of a UTF-8 string and 0 for a binary string.
unfoldable pub finish_string :
    (ℕ → ℕ → Token) → (slack junk : ℕ) → Container × Buffer → Token × Buffer
finish_string make slack junk (sized u, b) =
    if past_end u b then (error_token, b) else (make u b.offset, advance (u + slack) b)
finish_string make slack junk (out_of_bounds, b) =
    if past_end junk b then (error_token, b) else (error_token, advance (junk + slack) b)

unfoldable pub finish_count : (ℕ → Token) → Container × Buffer → Token × Buffer
finish_count make (sized u, b) = (make u, b)
finish_count make (out_of_bounds, b) = (error_token, b)

module _ ⦃tv : Tvutils⦄ (junk : ℕ) where
  -- the `switch (c >> 5)`
  unfoldable pub decode_tagged : ℕ → Buffer → Option (Token × Buffer)
  unfolding finish_string finish_count
  decode_tagged c b =
      if ltb (c / 32) 4
      then decode_number c b
      else if c / 32 == 4
      then (decode_container c b >>= λ r. some (finish_string utf8_string 1 junk r))
      else if c / 32 == 5
      then (decode_container c b >>= λ r. some (finish_string bin_string 0 junk r))
      else if c / 32 == 6
      then (decode_container c b >>= λ r. some (finish_count list r))
      else (decode_container c b >>= λ r. some (finish_count dictionary r))

  unfoldable pub decode_token : Buffer → Option (Token × Buffer)
  decode_token b =
      if past_end 1 b
      then some (end_token, b)
      else (get_elem? b.data_bytes b.offset >>= λ c. decode_tagged c (advance 1 b))
