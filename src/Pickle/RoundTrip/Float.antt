-- ===== src/Pickle/RoundTrip/Float.antt =====
-- The decoder on the bytes of a double.

use libtvnet.Base.{
  ℕ, ◌≡◌, refl, ◌∙◌, some, length, arith, Bool-cases, inl, inr, true, ℤ, if◌then◌else◌,
}
use libtvnet.Tvutils.{Tvutils, IsF64}
use libtvnet.Buffer.{Buffer}
use libtvnet.Pickle.Length.{is_integral, is_float32}
use libtvnet.Pickle.Bytes.{float_bytes}
use libtvnet.Pickle.Decoder.{
  Token, integer, float, take_float32, take_float64, decode_number, decode_tagged, decode_token,
}
use libtvnet.Pickle.RoundTrip.Integer.{decode_integer-At}
use libtvnet.Pickle.RoundTrip.Loads.{take_float32-At, take_float64-At, decode_token-At}
use libtvnet.Pickle.At.{At, behind, At-tail, behind-behind}

module _ ⦃tv : Tvutils⦄ where
  float32_dispatch : (junk : ℕ) (b : Buffer) → decode_tagged junk 0x42 b ≡ take_float32 b
  unfolding decode_tagged decode_number
  float32_dispatch junk b = refl

  float64_dispatch : (junk : ℕ) (b : Buffer) → decode_tagged junk 0x41 b ≡ take_float64 b
  unfolding decode_tagged decode_number
  float64_dispatch junk b = refl

  -- What a double decodes to: an integer if it is one, else a double, rounded through `float` if
  -- that changes nothing.
  unfoldable pub float_token : ℕ → Token
  float_token x =
      if is_integral x
      then integer (tv.f64_to_int 8 x)
      else if is_float32 x
      then float (tv.widen (tv.narrow x))
      else float x

  -- A token for the double `x`: an integer, or a double, that is equal to it, or itself.
  pub data FloatToken (x : ℕ) : Token → Type 0 where
    as_integer : (i : ℤ) → tv.f64_eq (tv.f64_of_int i) x ≡ true → FloatToken x (integer i)
    as_equal : (y : ℕ) → tv.f64_eq y x ≡ true → FloatToken x (float y)
    as_itself : FloatToken x (float x)

  pub float_token-FloatToken : (x : ℕ) → IsF64 x → FloatToken x (float_token x)
  unfolding float_token is_integral is_float32
  float_token-FloatToken x h = elim (Bool-cases (tv.f64_eq (tv.floor x) x)) [
    | inl e ↦ rw e (as_integer (tv.f64_to_int 8 x) (tv.f64_of_int-f64_to_int x h e))
    | inr e ↦ elim (Bool-cases (tv.f64_eq (tv.widen (tv.narrow x)) x)) [
      | inl e2 ↦ rw (e, e2) (as_equal (tv.widen (tv.narrow x)) e2)
      | inr e2 ↦ rw (e, e2) as_itself
    ]
  ]

  -- Where the bytes of a double stand, the decoder reads its token and moves behind them.
  pub decode_float-At :
      (junk : ℕ) {b : Buffer} (x : ℕ)
      → IsF64 x
      → At b (float_bytes x)
      → decode_token junk b ≡ some (float_token x, behind (length (float_bytes x)) b)
  unfolding float_bytes float_token
  decode_float-At junk {b} x (f64, ranged) a = elim (Bool-cases (is_integral x)) [
    | inl e ↦ rw e (
        decode_integer-At junk (tv.f64_to_int 8 x)
          (omega (arith, tv.magnitude-f64_to_int 8 x (omega arith))) (rw e at a))
    | inr e ↦ elim (Bool-cases (is_float32 x)) [
      | inl e2 ↦
          rw (e, e2)
            (decode_token-At junk (rw (e, e2) at a)
              ∙ float32_dispatch junk _
              ∙ take_float32-At (tv.narrow x) (tv.narrow-lt x) (At-tail (rw (e, e2) at a))
              ∙ rw (tv.length-set_be_f32 (tv.narrow x), behind-behind 1 4 b) (ground arith))
      | inr e2 ↦
          rw (e, e2)
            (decode_token-At junk (rw (e, e2) at a)
              ∙ float64_dispatch junk _
              ∙ take_float64-At x f64 (At-tail (rw (e, e2) at a))
              ∙ rw (tv.length-set_be_f64 x, behind-behind 1 8 b) (ground arith))
    ]
  ]
