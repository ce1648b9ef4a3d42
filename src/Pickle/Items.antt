-- ===== src/Pickle/Items.antt =====
-- Anything that one token holds, and texts of several tokens: how they are stored, and what is read.
use libtvnet.Base.{
  ℕ, zero, suc, ◌+◌, ◌^◌, ◌≤◌, ◌<◌, ◌≡◌, refl, sym, ◌∙◌, List, [], ◌∷◌, ◌++◌, Option, some, ◌>>=◌,
  length, length-append, arith, All, ap, ℤ, IsI64,
}
use native.Mathlib.Nat.{add-zero, add_assoc}
use mathlib.Core.Path.{fun_ext}
use libtvnet.Tvutils.{Tvutils, IsF64}
use libtvnet.Buffer.{Buffer, put}
use libtvnet.Buffer.Laws.{Stores, put-Stores, put-append}
use libtvnet.Pickle.Length.{
  length_integer, length_float, length_null, length_compound, length_utf8_string,
  length_binary_string, length_list, length_dictionary,
}
use libtvnet.Pickle.Bytes.{integer_bytes, float_bytes, compound_bytes, utf8_bytes, binary_bytes}
use libtvnet.Pickle.Encoder.{
  encode_integer, encode_float, encode_null, encode_utf8_string, encode_binary_string, encode_list,
  encode_dictionary,
}
use libtvnet.Pickle.Encoding.{
  encode_integer-put, length-integer_bytes, encode_float-put, length-float_bytes,
  encode_compound-put, length-compound_bytes, encode_utf8_string-put, length-utf8_bytes,
  encode_binary_string-put, length-binary_bytes,
}
use libtvnet.Pickle.At.{At, behind, At-prefix, At-suffix, put-At}
use libtvnet.Pickle.Decoder.{
  Token, null_token, integer, utf8_string, bin_string, list, dictionary, decode_token,
}
use libtvnet.Pickle.RoundTrip.Integer.{decode_integer-At}
use libtvnet.Pickle.RoundTrip.Float.{
  float_token, FloatToken, float_token-FloatToken, decode_float-At,
}
use libtvnet.Pickle.RoundTrip.Loads.{decode_null-At}
use libtvnet.Pickle.RoundTrip.Compound.{
  decode_list-At, decode_dictionary-At, decode_binary-At, decode_utf8-At,
}

-- What the encoders of pickle_encoder.h take.
pub data Item : Type 0 where
  an_integer : (x : ℤ) → Item
  a_float : (x : ℕ) → Item
  a_null : Item
  a_text : (s : List ℕ) → Item
  a_blob : (s : List ℕ) → Item
  a_list : (n : ℕ) → Item
  a_dictionary : (n : ℕ) → Item

-- An `int64_t`, a `double` whose cast to `int64_t` is defined if it is integral, a string or a container with fewer than 2 ^ 32 elements.
abbrev pub IsItem : Item → Type 0
IsItem (an_integer x) = IsI64 x
IsItem (a_float x) = IsF64 x
IsItem a_null = Unit
IsItem (a_text s) = length s < 2 ^ 32
IsItem (a_blob s) = length s < 2 ^ 32
IsItem (a_list n) = n < 2 ^ 32
IsItem (a_dictionary n) = n < 2 ^ 32

module _ ⦃tv : Tvutils⦄ where
  abbrev pub encode_item : Item → Buffer → Option Buffer
  encode_item (an_integer x) = encode_integer x
  encode_item (a_float x) = encode_float x
  encode_item a_null = encode_null
  encode_item (a_text s) = encode_utf8_string s
  encode_item (a_blob s) = encode_binary_string s (length s)
  encode_item (a_list n) = encode_list n
  encode_item (a_dictionary n) = encode_dictionary n

  abbrev pub length_item : Item → Option ℕ
  length_item (an_integer x) = some (length_integer x)
  length_item (a_float x) = length_float x
  length_item a_null = some length_null
  length_item (a_text s) = some (length_utf8_string (length s))
  length_item (a_blob s) = some (length_binary_string (length s))
  length_item (a_list n) = some (length_list n)
  length_item (a_dictionary n) = some (length_dictionary n)

  -- the bytes of an item in the format
  abbrev pub item_bytes : Item → List ℕ
  item_bytes (an_integer x) = integer_bytes x
  item_bytes (a_float x) = float_bytes x
  item_bytes a_null = 0x40 ∷ []
  item_bytes (a_text s) = utf8_bytes s
  item_bytes (a_blob s) = binary_bytes s
  item_bytes (a_list n) = compound_bytes 0xc0 n
  item_bytes (a_dictionary n) = compound_bytes 0xe0 n

  -- The token for an item stored at the offset `o`: a string points behind its header.
  abbrev pub item_token : (o : ℕ) → Item → Token
  item_token o (an_integer x) = integer x
  item_token o (a_float x) = float_token x
  item_token o a_null = null_token
  item_token o (a_text s) = utf8_string (length s) (o + length_compound (length s))
  item_token o (a_blob s) = bin_string (length s) (o + length_compound (length s))
  item_token o (a_list n) = list n
  item_token o (a_dictionary n) = dictionary n

  length-item_bytes : (i : Item) → IsItem i → length_item i ≡ some (length (item_bytes i))
  unfolding length_null length_list length_dictionary
  length-item_bytes (an_integer x) h = ap some (sym (length-integer_bytes x))
  length-item_bytes (a_float x) h = length-float_bytes x h
  length-item_bytes a_null h = refl
  length-item_bytes (a_text s) h = ap some (sym (length-utf8_bytes s h))
  length-item_bytes (a_blob s) h = ap some (sym (length-binary_bytes s h))
  length-item_bytes (a_list n) h = ap some (sym (length-compound_bytes 0xc0 n))
  length-item_bytes (a_dictionary n) h = ap some (sym (length-compound_bytes 0xe0 n))

  encode_item-put : (i : Item) (b : Buffer) → IsItem i → encode_item i b ≡ put (item_bytes i) b
  unfolding encode_null encode_list encode_dictionary
  encode_item-put (an_integer x) b h = encode_integer-put x b
  encode_item-put (a_float x) b h = encode_float-put x b h
  encode_item-put a_null b h = refl
  encode_item-put (a_text s) b h = encode_utf8_string-put s b h
  encode_item-put (a_blob s) b h = encode_binary_string-put s b
  encode_item-put (a_list n) b h = encode_compound-put 0xc0 n b (omega arith) refl
  encode_item-put (a_dictionary n) b h = encode_compound-put 0xe0 n b (omega arith) refl

  decode_item-At :
      (junk : ℕ) (i : Item) {b : Buffer}
      → IsItem i
      → At b (item_bytes i)
      → decode_token junk b ≡ some (item_token b.offset i, behind (length (item_bytes i)) b)
  decode_item-At junk (an_integer x) h a = decode_integer-At junk x h a
  decode_item-At junk (a_float x) h a = decode_float-At junk x h a
  decode_item-At junk a_null h a = decode_null-At junk a
  decode_item-At junk (a_text s) h a =
      rw (← length-compound_bytes 0x80 (length s)) (decode_utf8-At junk s h a)
  decode_item-At junk (a_blob s) h a =
      rw (← length-compound_bytes 0xa0 (length s)) (decode_binary-At junk s h a)
  decode_item-At junk (a_list n) h a = decode_list-At junk n h a
  decode_item-At junk (a_dictionary n) h a = decode_dictionary-At junk n h a

  -- One after the other.
  abbrev pub encode_items : List Item → Buffer → Option Buffer
  encode_items [] b = some b
  encode_items (i ∷ is) b = encode_item i b >>= encode_items is

  abbrev pub length_items : List Item → Option ℕ
  length_items [] = some 0
  length_items (i ∷ is) = length_item i >>= λ n. length_items is >>= λ m. some (n + m)

  abbrev items_bytes : List Item → List ℕ
  items_bytes [] = []
  items_bytes (i ∷ is) = item_bytes i ++ items_bytes is

  -- `n` tokens
  abbrev pub decode_tokens : (junk n : ℕ) → Buffer → Option (List Token × Buffer)
  decode_tokens junk zero b = some ([], b)
  decode_tokens junk (suc n) b =
      decode_token junk b >>= λ (t, b'). decode_tokens junk n b' >>= λ (ts, b''). some (t ∷ ts, b'')

  abbrev pub items_tokens : (o : ℕ) → List Item → List Token
  items_tokens o [] = []
  items_tokens o (i ∷ is) = item_token o i ∷ items_tokens (o + length (item_bytes i)) is

  length-items_bytes :
      (is : List Item) → All IsItem is → length_items is ≡ some (length (items_bytes is))
  length-items_bytes [] h = refl
  length-items_bytes (i ∷ is) (h, hs) =
      rw
        (
          length-item_bytes i h,
          length-items_bytes is hs,
          length-append (item_bytes i) (items_bytes is),
        )
        refl

  encode_items-put :
      (is : List Item) (b : Buffer) → All IsItem is → encode_items is b ≡ put (items_bytes is) b
  unfolding put
  encode_items-put [] b h = refl
  encode_items-put (i ∷ is) b (h, hs) =
      rw (encode_item-put i b h, put-append (item_bytes i) (items_bytes is) b)
        (ap (λ k. put (item_bytes i) b >>= k) (fun_ext (λ b'. encode_items-put is b' hs)))

  decode_tokens-At :
      (junk : ℕ) (is : List Item) {b : Buffer}
      → All IsItem is
      → At b (items_bytes is)
      → decode_tokens junk (length is) b
        ≡ some (items_tokens b.offset is, behind (length (items_bytes is)) b)
  decode_tokens-At junk [] {b} h a = rw (add-zero b.offset) refl
  decode_tokens-At junk (i ∷ is) {b} (h, hs) a =
      let cs : List ℕ = item_bytes i in
      let rest : List ℕ = items_bytes is in
      rw
        (
          decode_item-At junk i h (At-prefix cs rest a),
          decode_tokens-At junk is hs (At-suffix cs rest a),
        )
        (rw (length-append cs rest, add_assoc b.offset (length cs) (length rest)) refl)

  -- The token is what the item at the offset `o` is to be read as: a double as an equal number, an
  -- integer, null, list or dictionary as itself, a string as its length and a pointer behind its header.
  abbrev pub ReadAs : (o : ℕ) → Item → Token → Type 0
  ReadAs o (an_integer x) t = t ≡ integer x
  ReadAs o (a_float x) t = FloatToken x t
  ReadAs o a_null t = t ≡ null_token
  ReadAs o (a_text s) t = t ≡ utf8_string (length s) (o + length_compound (length s))
  ReadAs o (a_blob s) t = t ≡ bin_string (length s) (o + length_compound (length s))
  ReadAs o (a_list n) t = t ≡ list n
  ReadAs o (a_dictionary n) t = t ≡ dictionary n

  abbrev pub AllReadAs : (o : ℕ) → List Item → List Token → Type 0
  AllReadAs o [] [] = Unit
  AllReadAs o (i ∷ is) (t ∷ ts) = ReadAs o i t × AllReadAs (o + length (item_bytes i)) is ts
  AllReadAs o _ _ = ⊥

  item_token-ReadAs : (o : ℕ) (i : Item) → IsItem i → ReadAs o i (item_token o i)
  item_token-ReadAs o (an_integer x) h = refl
  item_token-ReadAs o (a_float x) h = float_token-FloatToken x h
  item_token-ReadAs o a_null h = refl
  item_token-ReadAs o (a_text s) h = refl
  item_token-ReadAs o (a_blob s) h = refl
  item_token-ReadAs o (a_list n) h = refl
  item_token-ReadAs o (a_dictionary n) h = refl

  items_tokens-AllReadAs :
      (o : ℕ) (is : List Item) → All IsItem is → AllReadAs o is (items_tokens o is)
  items_tokens-AllReadAs o [] h = tt
  items_tokens-AllReadAs o (i ∷ is) (h, hs) =
      (item_token-ReadAs o i h, items_tokens-AllReadAs (o + length (item_bytes i)) is hs)

  -- Storing any sequence of integers, doubles, nulls, strings and headers of lists and dictionaries, one
  -- after the other, faults exactly when the memory behind the offset is shorter than the sum of what
  -- pickle_length.h says; otherwise it moves the offset by that sum and keeps the sizes. Doubles that
  -- are integral are in the range of `int64_t`, so that their casts are defined.
  pub encode_items-Stores :
      (is : List Item) (b : Buffer)
      → b.offset ≤ length b.data_bytes
      → All IsItem is
      → (n : ℕ) × (length_items is ≡ some n) × Stores n b (encode_items is b)
  encode_items-Stores is b inside h = (
    length (items_bytes is),
    length-items_bytes is h,
    rw (encode_items-put is b h) (put-Stores _ b inside),
  )

  -- If storing such a sequence succeeds and the size covers the stored bytes, decoding as many tokens
  -- from where it starts gives one token for each, and leaves the offset where the encoder left it. An
  -- integer, null, list or dictionary comes back as itself; a double as itself or as a double or
  -- integer that is equal to it; a string as its length and a pointer to its bytes. Doubles that are
  -- integral are in the range of `int64_t`.
  pub decode_tokens-encode_items :
      (junk : ℕ) (is : List Item) (b b' : Buffer)
      → b.offset ≤ length b.data_bytes
      → b'.offset ≤ b'.size
      → b'.size < 2 ^ 63
      → All IsItem is
      → encode_items is b ≡ some b'
      → (ts : List Token) × (decode_tokens junk (length is) (record b' { offset = b.offset })
          ≡ some (ts, b'))
        × AllReadAs b.offset is ts
  decode_tokens-encode_items junk is b b' room fits big h e =
      let (a, end) = put-At (items_bytes is) b room (sym (encode_items-put is b h) ∙ e) fits big in
      (
        items_tokens b.offset is,
        decode_tokens-At junk is h a ∙ ap (λ r. some (items_tokens b.offset is, r)) end,
        items_tokens-AllReadAs b.offset is h,
      )
