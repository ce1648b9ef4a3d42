-- ===== src/Pickle/RoundTrip.antt =====
-- What the encoder stored, the decoder reads back from the same place: read with the offset set
-- back, and a size that covers it, the decoder ends where the encoder ended.
pub mod Loads
pub mod Integer
pub mod Float
pub mod Compound
use libtvnet.Base.{
  ℕ, ◌+◌, ◌%◌, ◌^◌, ◌≤◌, ◌<◌, ◌≡◌, ◌∙◌, sym, List, some, length, refl, arith, ap, ℤ, IsI64,
}
use libtvnet.Tvutils.{Tvutils, IsF64}
use libtvnet.Buffer.{Buffer, put}
use libtvnet.Pickle.At.{At, behind, put-At}
use libtvnet.Pickle.Encoder.{
  encode_integer, encode_float, encode_null, encode_compound, encode_utf8_string,
  encode_binary_string, encode_list, encode_dictionary,
}
use libtvnet.Pickle.Encoding.{
  encode_integer-put, encode_float-put, encode_compound-put, encode_utf8_string-put,
  encode_binary_string-put, length-compound_bytes,
}
use libtvnet.Pickle.Bytes.{integer_bytes, float_bytes, compound_bytes, utf8_bytes, binary_bytes}
use libtvnet.Pickle.Length.{length_compound}
use libtvnet.Pickle.Decoder.{
  Token, integer, utf8_string, bin_string, list, dictionary, decode_token,
}
use Integer.{decode_integer-At}
use Float.{float_token, decode_float-At}
use Compound.{decode_list-At, decode_dictionary-At, decode_binary-At, decode_utf8-At}

-- `b` before and `b'` after a store of a token, which is then read back.
module _ ⦃tv : Tvutils⦄ (junk : ℕ) (b b' : Buffer) (room : b.offset ≤ length b.data_bytes)
    (fits : b'.offset ≤ b'.size) (big : b'.size < 2 ^ 63) where
  -- the buffer handed to the decoder
  abbrev pub rewound : Buffer
  rewound = record b' { offset = b.offset }

  decode-put :
      (cs : List ℕ) (t : Token)
      → put cs b ≡ some b'
      → (At rewound cs → decode_token junk rewound ≡ some (t, behind (length cs) rewound))
      → decode_token junk rewound ≡ some (t, b')
  decode-put cs t e read =
      let (a, end) = put-At cs b room e fits big in read a ∙ ap (λ r. some (t, r)) end

  -- If storing a 64-bit integer succeeds, decoding from where it was stored gives that integer and
  -- leaves the offset where the encoder left it; the size has to cover the stored bytes.
  pub decode-encode_integer :
      (x : ℤ)
      → IsI64 x
      → encode_integer x b ≡ some b'
      → decode_token junk rewound ≡ some (integer x, b')
  decode-encode_integer x i64 e =
      decode-put (integer_bytes x) _ (sym (encode_integer-put x b) ∙ e)
        (decode_integer-At junk x i64)

  -- If storing a double succeeds and the size covers the stored bytes, decoding from where it was
  -- stored leaves the offset where the encoder left it. The double comes back as an integer token
  -- where `floor(x) == x`, as a double through `float` where that loses nothing, and as itself
  -- otherwise.
  pub decode-encode_float :
      (x : ℕ)
      → IsF64 x
      → encode_float x b ≡ some b'
      → decode_token junk rewound ≡ some (float_token x, b')
  decode-encode_float x f64 e =
      decode-put (float_bytes x) _ (sym (encode_float-put x b f64) ∙ e) (decode_float-At junk x f64)

  -- If storing a UTF-8 string shorter than 2 ^ 32 bytes succeeds and the size covers the stored bytes,
  -- decoding from where it was stored gives a token with its length that points behind the header, and
  -- leaves the offset where the encoder left it, behind the nul.
  pub decode-encode_utf8_string :
      (s : List ℕ)
      → length s < 2 ^ 32
      → encode_utf8_string s b ≡ some b'
      → decode_token junk rewound
        ≡ some (utf8_string (length s) (b.offset + length_compound (length s)), b')
  decode-encode_utf8_string s small e = rw (← length-compound_bytes 0x80 (length s)) (
      decode-put (utf8_bytes s) _ (sym (encode_utf8_string-put s b small) ∙ e)
        (decode_utf8-At junk s small))

  -- If storing a binary string shorter than 2 ^ 32 bytes succeeds and the size covers the stored bytes,
  -- decoding from where it was stored gives a token with its length that points behind the header, and
  -- leaves the offset where the encoder left it.
  pub decode-encode_binary_string :
      (s : List ℕ)
      → length s < 2 ^ 32
      → encode_binary_string s (length s) b ≡ some b'
      → decode_token junk rewound
        ≡ some (bin_string (length s) (b.offset + length_compound (length s)), b')
  decode-encode_binary_string s small e = rw (← length-compound_bytes 0xa0 (length s)) (
      decode-put (binary_bytes s) _ (sym (encode_binary_string-put s b) ∙ e)
        (decode_binary-At junk s small))

  -- If storing the header of a list with fewer than 2 ^ 32 items succeeds and the size covers it,
  -- decoding from where it was stored gives a list token with that number of items, and leaves the
  -- offset where the encoder left it.
  pub decode-encode_list :
      (n : ℕ)
      → n < 2 ^ 32
      → encode_list n b ≡ some b'
      → decode_token junk rewound ≡ some (list n, b')
  unfolding encode_list
  decode-encode_list n small e =
      decode-put (compound_bytes 0xc0 n) _
        (sym (encode_compound-put 0xc0 n b (omega arith) refl) ∙ e) (decode_list-At junk n small)

  -- If storing the header of a dictionary with fewer than 2 ^ 32 pairs succeeds and the size covers it,
  -- decoding from where it was stored gives a dictionary token with that number of pairs, and leaves
  -- the offset where the encoder left it.
  pub decode-encode_dictionary :
      (n : ℕ)
      → n < 2 ^ 32
      → encode_dictionary n b ≡ some b'
      → decode_token junk rewound ≡ some (dictionary n, b')
  unfolding encode_dictionary
  decode-encode_dictionary n small e =
      decode-put (compound_bytes 0xe0 n) _
        (sym (encode_compound-put 0xe0 n b (omega arith) refl) ∙ e)
        (decode_dictionary-At junk n small)
