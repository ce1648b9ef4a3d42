-- ===== src/Pickle/RoundTrip/Integer.antt =====
-- The decoder on the bytes of an integer.

use libtvnet.Base.{
  ℕ, ◌+◌, ◌*◌, ◌%◌, ◌^◌, ◌<◌, ◌≡◌, refl, ◌∙◌, List, [], ◌∷◌, some, length, arith, true, Bool-cases,
  inl, inr, ◌-◌,
}
use libtvnet.Base.{ℤ, pos, negsuc, magnitude, IsI64, to_unsigned}
use libtvnet.Tvutils.{Tvutils}
use libtvnet.Buffer.{Buffer}
use libtvnet.Pickle.Bytes.{between, integer_bytes}
use libtvnet.Pickle.Decoder.{integer, take_integer, decode_number, decode_tagged, decode_token}
use libtvnet.Pickle.RoundTrip.Loads.{take_integer-At, decode_token-At}
use libtvnet.Pickle.At.{At, behind, At-tail, behind-behind}

-- The control bytes of wide integers, with the number of bytes that follow.
data WideCode : ℕ → ℕ → Type 0 where
  int16 : {c n : ℕ} → c ≡ 0x45 → n ≡ 2 → WideCode c n
  int32 : {c n : ℕ} → c ≡ 0x44 → n ≡ 4 → WideCode c n
  int64 : {c n : ℕ} → c ≡ 0x43 → n ≡ 8 → WideCode c n

module _ ⦃tv : Tvutils⦄ where
  data IntegerForm (x : ℤ) : List ℕ → Type 0 where
    narrow : between (negsuc 57) (pos 63) x ≡ true → IntegerForm x (to_unsigned 128 x ∷ [])
    wide :
        {c n : ℕ}
        → WideCode c n
        → 2 * magnitude x + 1 < 256 ^ n
        → IntegerForm x (c ∷ tv.set_be_i n x)

  integer_bytes-IntegerForm : (x : ℤ) → IsI64 x → IntegerForm x (integer_bytes x)
  unfolding integer_bytes
  integer_bytes-IntegerForm x i64 = elim (Bool-cases (between (negsuc 57) (pos 63) x)) [
    | inl e ↦ rw e (narrow e)
    | inr e ↦ rw e (elim (Bool-cases (between (negsuc 0x7fff) (pos 0x7fff) x)) [
      | inl e2 ↦ rw e2 (wide (int16 refl refl) (ground arith))
      | inr e2 ↦ rw e2 (elim (Bool-cases (between (negsuc 0x7fff_ffff) (pos 0x7fff_ffff) x)) [
        | inl e3 ↦ rw e3 (wide (int32 refl refl) (ground arith))
        | inr e3 ↦ rw e3 (wide (int64 refl refl) (ground arith))
      ])
    ])
  ]

  wide_dispatch :
      (junk : ℕ) {c n : ℕ} (b : Buffer) → WideCode c n → decode_tagged junk c b ≡ take_integer n b
  unfolding decode_tagged decode_number
  wide_dispatch junk b (int16 p q) = rw (p, q) refl
  wide_dispatch junk b (int32 p q) = rw (p, q) refl
  wide_dispatch junk b (int64 p q) = rw (p, q) refl

  narrow_dispatch :
      (junk : ℕ) (x : ℤ) (b : Buffer)
      → between (negsuc 57) (pos 63) x ≡ true
      → decode_tagged junk (to_unsigned 128 x) b ≡ some (integer x, b)
  unfolding decode_tagged decode_number
  narrow_dispatch junk (pos v) b e = ground (arith, tv.sign_extend_7_lem (v % 128))
  narrow_dispatch junk (negsuc v) b e = ground (arith, tv.sign_extend_7_lem (127 - v % 128))

  IntegerForm-At :
      (junk : ℕ) {b : Buffer} {x : ℤ} {cs : List ℕ}
      → IntegerForm x cs
      → At b cs
      → decode_token junk b ≡ some (integer x, behind (length cs) b)
  IntegerForm-At junk {x} (narrow e) a = decode_token-At junk a ∙ narrow_dispatch junk x _ e
  IntegerForm-At junk {b} {x} (wide {n} code small) a =
      decode_token-At junk a
      ∙ wide_dispatch junk _ code
      ∙ take_integer-At n x small (At-tail a)
      ∙ rw (tv.length-set_be_i n x, behind-behind 1 n b) (ground arith)

  -- Where the bytes of a 64-bit integer stand, the decoder reads that integer and moves behind them.
  pub decode_integer-At :
      (junk : ℕ) {b : Buffer} (x : ℤ)
      → IsI64 x
      → At b (integer_bytes x)
      → decode_token junk b ≡ some (integer x, behind (length (integer_bytes x)) b)
  decode_integer-At junk x i64 a = IntegerForm-At junk (integer_bytes-IntegerForm x i64) a
