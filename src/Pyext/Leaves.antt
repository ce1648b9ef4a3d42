-- ===== src/Pyext/Leaves.antt =====
-- The decoder on the tokens of simple objects, and the arithmetic of their sizes.
use libtvnet.Base.{
  ℕ, suc, ◌^◌, ◌<◌, ◌≡◌, refl, ap, List, [], ◌∷◌, ◌++◌, Option, none, some, length, length-append,
  arith, take, drop, take-append, drop-append, le→leb,
}
use libtvnet.Base.{ℤ}
use libtvnet.Tvutils.{Tvutils}
use libtvnet.Buffer.{Buffer}
use libtvnet.Pickle.Length.{length_integer, length_compound}
use libtvnet.Pickle.Bytes.{float_bytes, compound_bytes, utf8_bytes, binary_bytes}
use libtvnet.Pickle.Encoding.{length-integer_bytes, length-compound_bytes}
use libtvnet.Pickle.At.{At, behind, At-prefix, At-suffix, At-room}
use libtvnet.Pickle.Decoder.{Token, decode_token}
use libtvnet.Pickle.RoundTrip.Float.{float_token}
use libtvnet.Pickle.RoundTrip.Compound.{decode_binary-At, decode_utf8-At}
use libtvnet.Pyext.Objects.{
  Object, byte_array, string, unicode, int, float, none_object, mapping, sequence, any_set,
  unexpected, Pairs, end, pair, nr_items, nr_pairs, append_pair, Python,
}
use libtvnet.Pyext.Decoder.{
  Run, done, Decoded, object, token_bytes, Reader, decode_value, decode_recurse,
}
use libtvnet.Pyext.Bytes.{
  object_bytes, items_bytes, pairs_bytes, text_bytes, received_float, IsText, IsEncodable,
}

-- The result of a read with the bytes `bs` behind it.
abbrev pub Reads : {A : Type 0} → Run A → A → List ℕ → Buffer → Type 0
Reads r a bs b = r ≡ done a (behind (length bs) b)

pub done_here : {A : Type 0} {x : A} (b : Buffer) → Reads (done x b) x [] b
done_here {x = x} b = ap (λ o. done x (record b { offset = o })) (omega arith)

-- `m` is the buffer when the bytes are read, later.
token_bytes-At :
    (s : List ℕ) {b : Buffer} (m : Buffer)
    → m.data_bytes ≡ b.data_bytes
    → At b s
    → token_bytes m b.offset (length s) ≡ some s
unfolding token_bytes
token_bytes-At s {b} m same a = rw (same, le→leb _ _ (At-room a), found) refl
  where
    found : take (length s) (drop b.offset b.data_bytes) ≡ s
    found = rw (a.memory, a.here, drop-append) (take-append s a.after)

abbrev pub append_pairs : Pairs → Pairs → Pairs
append_pairs end qs = qs
append_pairs (pair k v ps) qs = pair k v (append_pairs ps qs)

pub append_pairs-end : (ps : Pairs) → append_pairs ps end ≡ ps
append_pairs-end end = refl
append_pairs-end (pair k v ps) = ap (pair k v) (append_pairs-end ps)

pub append_pairs-append_pair :
    (ps : Pairs) (k v : Object) (qs : Pairs)
    → append_pairs (append_pair ps k v) qs ≡ append_pairs ps (pair k v qs)
append_pairs-append_pair end k v qs = refl
append_pairs-append_pair (pair j w ps) k v qs = ap (pair j w) (append_pairs-append_pair ps k v qs)

module _ ⦃tv : Tvutils⦄ ⦃py : Python⦄ (junk : ℕ) where
  pub recurse_step :
      (fuel : ℕ) {t : Token} (b b' : Buffer) {r : Run Decoded}
      → decode_token junk b ≡ some (t, b')
      → decode_value (decode_recurse junk fuel) t b' ≡ r
      → decode_recurse junk (suc fuel) b ≡ r
  unfolding decode_recurse
  recurse_step fuel b b' e e2 = rw (e, decode_recurse) e2

  pub value_float :
      (read : Reader) (x : ℕ) (b : Buffer)
      → decode_value read (float_token x) b ≡ done (object (received_float x)) b
  unfolding decode_value float_token
  value_float read x b = ground arith

  value_string :
      (read : Reader) (s : List ℕ) {b : Buffer} (m : Buffer)
      → m.data_bytes ≡ b.data_bytes
      → At b s
      → decode_value read (Token.bin_string (length s) b.offset) m ≡ done (object (string s)) m
  unfolding decode_value
  value_string read s m same a = rw (token_bytes-At s m same a, decode_value) refl

  value_text :
      (read : Reader) (t : List ℕ) (s : List ℕ) {b : Buffer} (m : Buffer)
      → py.as_utf8 t ≡ some s
      → m.data_bytes ≡ b.data_bytes
      → At b s
      → decode_value read (Token.utf8_string (length s) b.offset) m ≡ done (object (unicode t)) m
  unfolding decode_value
  value_text read t s m e same a =
      rw (token_bytes-At s m same a, decode_value) (rw (py.decode_utf8-as_utf8 t e) refl)

  pub string-At :
      (fuel : ℕ) (s : List ℕ) {b : Buffer}
      → length s < 2 ^ 32
      → At b (binary_bytes s)
      → decode_recurse junk (suc fuel) b
        ≡ done (object (string s)) (behind (length (binary_bytes s)) b)
  unfolding binary_bytes
  string-At fuel s small a = recurse_step fuel _ _ (decode_binary-At junk s small a) (
      value_string (decode_recurse junk fuel) s _ refl
        (At-suffix (compound_bytes 0xa0 (length s)) s a))

  pub text-At :
      (fuel : ℕ) (t s : List ℕ) {b : Buffer}
      → py.as_utf8 t ≡ some s
      → length s < 2 ^ 32
      → At b (utf8_bytes s)
      → decode_recurse junk (suc fuel) b
        ≡ done (object (unicode t)) (behind (length (utf8_bytes s)) b)
  unfolding utf8_bytes
  text-At fuel t s e small a = recurse_step fuel _ _ (decode_utf8-At junk s small a) (
      value_text (decode_recurse junk fuel) t s _ e refl
        (At-prefix s (0 ∷ []) (At-suffix (compound_bytes 0x80 (length s)) (s ++ (0 ∷ [])) a)))

  compound-pos : (n : ℕ) → 0 < length_compound n
  unfolding length_compound
  compound-pos n = ground arith

  integer-pos : (x : ℤ) → 0 < length_integer x
  unfolding length_integer
  integer-pos x = ground arith

  header-pos : (c n : ℕ) (bs : List ℕ) → 0 < length (compound_bytes c n ++ bs)
  header-pos c n bs =
      omega
        (arith, length-append (compound_bytes c n) bs, length-compound_bytes c n, compound-pos n)

  float-pos : (x : ℕ) → 0 < length (float_bytes x)
  unfolding float_bytes
  float-pos x = ground (
    arith,
    length-integer_bytes (tv.f64_to_int 8 x),
    integer-pos (tv.f64_to_int 8 x),
    tv.length-set_be_f32 (tv.narrow x),
    tv.length-set_be_f64 x,
  )

  text-pos : (m : Option (List ℕ)) → IsText m → 0 < length (text_bytes m)
  unfolding utf8_bytes
  text-pos none h = absurd h
  text-pos (some s) h = header-pos 0x80 (length s) (s ++ (0 ∷ []))

  -- Every object takes a byte.
  pub object_bytes-pos : (o : Object) → IsEncodable o → 0 < length (object_bytes o)
  unfolding object_bytes IsEncodable binary_bytes
  object_bytes-pos (byte_array s) h = header-pos 0xa0 (length s) s
  object_bytes-pos (string s) h = header-pos 0xa0 (length s) s
  object_bytes-pos (unicode t) h = text-pos (py.as_utf8 t) h
  object_bytes-pos (int x) h = omega (arith, length-integer_bytes x, integer-pos x)
  object_bytes-pos (float x) h = float-pos x
  object_bytes-pos none_object h = omega arith
  object_bytes-pos (mapping ps) h = header-pos 0xe0 (nr_pairs ps) (pairs_bytes ps)
  object_bytes-pos (sequence xs) h = header-pos 0xc0 (nr_items xs) (items_bytes xs)
  object_bytes-pos (any_set xs) h = header-pos 0xc0 (nr_items xs) (items_bytes xs)
  object_bytes-pos unexpected h = absurd h

  -- What stands behind a header is shorter than the whole.
  pub header-lt : (c n : ℕ) (bs : List ℕ) → length bs < length (compound_bytes c n ++ bs)
  header-lt c n bs =
      omega
        (arith, length-append (compound_bytes c n) bs, length-compound_bytes c n, compound-pos n)
