-- ===== src/Stdarg/Decoder.antt =====
-- tvnet/pickle_stdarg_decoder.c. What is stored through the pointers, in the order of the stores. The cast of a
-- double that is out of range, which C leaves undefined, stores some value of the type.
use libtvnet.Base.{ℕ, ◌^◌, List, [], ◌∷◌, Option, none, some, ◌>>=◌, if◌then◌else◌, ◌==◌}
use libtvnet.Base.{ℤ, pos, negsuc, to_signed, to_unsigned}
use libtvnet.Tvutils.{Tvutils}
use libtvnet.Buffer.{Buffer}
use libtvnet.Pickle.Decoder.{Token, integer, float, utf8_string, decode_token}

-- A store of an integer of some width, of a `float32_t`, a `float64_t`, or of a pointer to an offset
-- of the buffer.
pub data Slot : Type 0 where
  int_slot : (x : ℤ) → Slot
  f32_slot : (x : ℕ) → Slot
  f64_slot : (x : ℕ) → Slot
  str_slot : (pointer : ℕ) → Slot

module _ ⦃tv : Tvutils⦄ where
  -- `*pi8 = …` and its like, for a signed type of `bytes` bytes: the inner `switch`.
  unfoldable pub store_signed : ℕ → Token → Option Slot
  store_signed bytes (integer i) = some (int_slot (to_signed (256 ^ bytes) i))
  store_signed bytes (float f) = some (int_slot (tv.f64_to_int bytes f))
  store_signed bytes _ = none

  unfoldable pub store_unsigned : ℕ → Token → Option Slot
  store_unsigned bytes (integer i) = some (int_slot (pos (to_unsigned (256 ^ bytes) i)))
  store_unsigned bytes (float f) = some (int_slot (pos (tv.f64_to_uint bytes f)))
  store_unsigned bytes _ = none

  unfoldable pub store_f32 : Token → Option Slot
  store_f32 (integer i) = some (f32_slot (tv.f32_of_int i))
  store_f32 (float f) = some (f32_slot (tv.narrow f))
  store_f32 _ = none

  unfoldable pub store_f64 : Token → Option Slot
  store_f64 (integer i) = some (f64_slot (tv.f64_of_int i))
  store_f64 (float f) = some (f64_slot f)
  store_f64 _ = none

  unfoldable pub store_str : Token → Option Slot
  store_str (utf8_string u pointer) = some (str_slot pointer)
  store_str _ = none

  -- The outer `switch`; `none` is a return of -1 with errno = EINVAL.
  unfoldable pub store_token : ℕ → Token → Option Slot
  unfolding store_signed store_unsigned store_f32 store_f64 store_str
  store_token c token =
      if c == b'b'
      then store_signed 1 token
      else if c == b'B'
      then store_unsigned 1 token
      else if c == b'w'
      then store_signed 2 token
      else if c == b'W'
      then store_unsigned 2 token
      else if c == b'd'
      then store_signed 4 token
      else if c == b'D'
      then store_unsigned 4 token
      else if c == b'q'
      then store_signed 8 token
      else if c == b'Q'
      then store_unsigned 8 token
      else if c == b'f'
      then store_f32 token
      else if c == b'F'
      then store_f64 token
      else if c == b's'
      then store_str token
      else none

  -- `tvnp_vdecode`: the buffer that it leaves, the stores made, and its result.
  unfoldable pub vdecode : ℕ → Buffer → List ℕ → Option (Buffer × List Slot × ℤ)
  vdecode junk b [] = some (b, [], pos 0)
  vdecode junk b (c ∷ fmt) = decode_token junk b >>= λ (token, b'). elim (store_token c token) [
    | none ↦ some (b', [], negsuc 0)
    | some slot ↦ vdecode junk b' fmt >>= λ (b'', slots, result). some (b'', slot ∷ slots, result)
  ]
