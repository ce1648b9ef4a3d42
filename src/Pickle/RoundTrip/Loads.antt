-- ===== src/Pickle/RoundTrip/Loads.antt =====
-- The fixed-width loads of the decoder, where the bytes stand that the encoder stores.

use libtvnet.Base.{ℕ, ◌+◌, ◌*◌, ◌^◌, ◌<◌, ◌≡◌, refl, List, [], ◌∷◌, some, length, arith}
use libtvnet.Base.{ℤ, pos, magnitude}
use libtvnet.Tvutils.{Tvutils}
use libtvnet.Buffer.{Buffer}
use libtvnet.Pickle.Decoder.{
  null_token, decode_number, integer, float, take_integer, take_float32, take_float64,
  take_unsigned, decode_tagged, decode_token, sized,
}
use libtvnet.Pickle.At.{At, behind, first-At, inside, loaded, moved, past_end-no, advance_lem}

module _ ⦃tv : Tvutils⦄ {b : Buffer} where
  pub take_integer-At :
      (n : ℕ) (x : ℤ)
      → 2 * magnitude x + 1 < 256 ^ n
      → At b (tv.set_be_i n x)
      → take_integer n b ≡ some (integer x, behind n b)
  unfolding take_integer
  take_integer-At n x small a =
      let size : length (tv.set_be_i n x) ≡ n = tv.length-set_be_i n x in
      rw (inside a size, loaded a size, moved a size, tv.get_be_i-set_be_i n x small) refl

  pub take_unsigned-At :
      (n x : ℕ)
      → x < 256 ^ n
      → At b (tv.set_be_i n (pos x))
      → take_unsigned n b ≡ some (sized x, behind n b)
  unfolding take_unsigned
  take_unsigned-At n x small a =
      let size : length (tv.set_be_i n (pos x)) ≡ n = tv.length-set_be_i n (pos x) in
      rw (inside a size, loaded a size, moved a size, tv.get_be_u-set_be_i n x small) refl

  pub take_float32-At :
      (x : ℕ)
      → x < 2 ^ 32
      → At b (tv.set_be_f32 x)
      → take_float32 b ≡ some (float (tv.widen x), behind 4 b)
  unfolding take_float32
  take_float32-At x small a =
      let size : length (tv.set_be_f32 x) ≡ 4 = tv.length-set_be_f32 x in
      rw (inside a size, loaded a size, moved a size, tv.get_be_f32-set_be_f32 x small) refl

  pub take_float64-At :
      (x : ℕ) → x < 2 ^ 64 → At b (tv.set_be_f64 x) → take_float64 b ≡ some (float x, behind 8 b)
  unfolding take_float64
  take_float64-At x small a =
      let size : length (tv.set_be_f64 x) ≡ 8 = tv.length-set_be_f64 x in
      rw (inside a size, loaded a size, moved a size, tv.get_be_f64-set_be_f64 x small) refl

module _ ⦃tv : Tvutils⦄ (junk : ℕ) {b : Buffer} where
  -- The control byte is read, and the rest is left to the `switch`.
  pub decode_token-At :
      {c : ℕ} {cs : List ℕ}
      → At b (c ∷ cs)
      → decode_token junk b ≡ decode_tagged junk c (behind 1 b)
  unfolding decode_token
  decode_token-At {c} {cs} a =
      rw
        (
          past_end-no 1 b (omega (arith, a.within)) a.big,
          first-At a,
          advance_lem 1 b (omega (arith, a.within, a.big)),
        )
        refl

  pub decode_null-At : At b (0x40 ∷ []) → decode_token junk b ≡ some (null_token, behind 1 b)
  unfolding decode_tagged decode_number
  decode_null-At a = decode_token-At a
