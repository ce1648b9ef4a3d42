-- ===== src/Pickle/Encoding.antt =====
-- The encoder writes the format, and pickle_length.h gives its length.
use native.Mathlib.Nat.{mod-eq_of_lt}
use libtvnet.Base.{
  ℕ, ◌%◌, ◌^◌, ◌<◌, ◌≡◌, refl, sym, List, [], ◌∷◌, ◌++◌, some, length, length-append, arith,
  bit_or_low5, take, take-append, append-nil, append_assoc, Bool-cases, inl, inr,
}
use libtvnet.Base.{ℤ, pos}
use libtvnet.Tvutils.{Tvutils, IsF64}
use libtvnet.Buffer.{Buffer, put}
use libtvnet.Buffer.Laws.{put-append}
use libtvnet.Pickle.Length.{
  length_integer, length_float, is_integral, cast_i64_lem, length_compound, length_utf8_string,
  length_binary_string,
}
use libtvnet.Pickle.Encoder.{
  encode_integer, encode_float, encode_compound, encode_string, read_string,
  encode_utf8_string_and_size, encode_utf8_string, encode_binary_string,
}
use libtvnet.Pickle.Bytes.{integer_bytes, float_bytes, compound_bytes, utf8_bytes, binary_bytes}

module _ ⦃tv : Tvutils⦄ where
  pub length-integer_bytes : (x : ℤ) → length (integer_bytes x) ≡ length_integer x
  unfolding integer_bytes length_integer
  length-integer_bytes x =
      ground (arith, tv.length-set_be_i 2 x, tv.length-set_be_i 4 x, tv.length-set_be_i 8 x)

  -- The encoder of an integer stores its bytes in the format.
  pub encode_integer-put : (x : ℤ) (b : Buffer) → encode_integer x b ≡ put (integer_bytes x) b
  unfolding encode_integer integer_bytes
  encode_integer-put x b = ground arith

  pub length-float_bytes : (x : ℕ) → IsF64 x → length_float x ≡ some (length (float_bytes x))
  unfolding float_bytes length_float
  length-float_bytes x h = elim (Bool-cases (is_integral x)) [
    | inl e ↦ rw (e, cast_i64_lem x h e, length-integer_bytes (tv.f64_to_int 8 x)) refl
    | inr e ↦ rw e (ground (arith, tv.length-set_be_f32 (tv.narrow x), tv.length-set_be_f64 x))
  ]

  pub encode_float-put : (x : ℕ) (b : Buffer) → IsF64 x → encode_float x b ≡ put (float_bytes x) b
  unfolding encode_float float_bytes
  encode_float-put x b h = elim (Bool-cases (is_integral x)) [
    | inl e ↦ rw (e, cast_i64_lem x h e) (encode_integer-put (tv.f64_to_int 8 x) b)
    | inr e ↦ rw e (ground arith)
  ]

  pub length-compound_bytes : (c n : ℕ) → length (compound_bytes c n) ≡ length_compound n
  unfolding compound_bytes length_compound
  length-compound_bytes c n = ground (
    arith,
    tv.length-set_be_i 1 (pos n),
    tv.length-set_be_i 2 (pos n),
    tv.length-set_be_i 4 (pos n),
  )

  pub encode_compound-put :
      (c n : ℕ) (b : Buffer)
      → c < 256
      → c % 32 ≡ 0
      → encode_compound c n b ≡ put (compound_bytes c n) b
  unfolding encode_compound compound_bytes
  encode_compound-put c n b hc h0 = ground (
    arith,
    bit_or_low5 c n hc h0,
    bit_or_low5 c 29 hc h0,
    bit_or_low5 c 30 hc h0,
    bit_or_low5 c 31 hc h0,
  )

  take-all : (s : List ℕ) → take (length s) s ≡ s
  take-all s = rw (append-nil s) at (take-append s [])

  read_string_all : (s : List ℕ) → read_string s (length s) ≡ some s
  unfolding read_string
  read_string_all s = rw (take-all s) (ground arith)

  encode_string-put :
      (c : ℕ) (s : List ℕ) (b : Buffer)
      → c < 256
      → c % 32 ≡ 0
      → encode_string c s (length s) b ≡ put (compound_bytes c (length s) ++ s) b
  unfolding encode_string
  encode_string-put c s b hc h0 =
      rw (encode_compound-put c (length s) b hc h0, read_string_all s, put-append) refl

  pub encode_utf8_string-put :
      (s : List ℕ) (b : Buffer) → length s < 2 ^ 32 → encode_utf8_string s b ≡ put (utf8_bytes s) b
  unfolding encode_utf8_string encode_utf8_string_and_size utf8_bytes
  encode_utf8_string-put s b h =
      rw (mod-eq_of_lt h, encode_string-put 0x80 s b (omega arith) refl, ← append_assoc)
        (sym (put-append _ (0 ∷ []) b))

  pub encode_binary_string-put :
      (s : List ℕ) (b : Buffer) → encode_binary_string s (length s) b ≡ put (binary_bytes s) b
  unfolding encode_binary_string binary_bytes
  encode_binary_string-put s b = encode_string-put 0xa0 s b (omega arith) refl

  pub length-utf8_bytes :
      (s : List ℕ) → length s < 2 ^ 32 → length (utf8_bytes s) ≡ length_utf8_string (length s)
  unfolding utf8_bytes length_utf8_string length_compound
  length-utf8_bytes s h = ground (
    arith,
    length-append (compound_bytes 0x80 (length s)) (s ++ (0 ∷ [])),
    length-append s (0 ∷ []),
    length-compound_bytes 0x80 (length s),
  )

  pub length-binary_bytes :
      (s : List ℕ) → length s < 2 ^ 32 → length (binary_bytes s) ≡ length_binary_string (length s)
  unfolding binary_bytes length_binary_string length_compound
  length-binary_bytes s h = ground (
    arith,
    length-append (compound_bytes 0xa0 (length s)) s,
    length-compound_bytes 0xa0 (length s),
  )
