-- ===== src/Pyext/Encoding.antt =====
-- The encoder writes the bytes of an object, and the length functions tell how many.
use native.Mathlib.Nat.{mod-eq_of_lt}
use libtvnet.Base.{
  ℕ, ◌+◌, ◌%◌, ◌^◌, ◌<◌, ◌≡◌, refl, sym, ap, ◌∙◌, List, ◌++◌, Option, none, some, ◌>>=◌, >>=_assoc,
  >>=_cong, length, length-append, arith,
}
use libtvnet.Tvutils.{Tvutils}
use libtvnet.Buffer.{Buffer, put}
use libtvnet.Buffer.Laws.{put-append}
use libtvnet.Pickle.Length.{
  length_null, length_utf8_string, length_binary_string, length_list, length_dictionary,
  length_compound,
}
use libtvnet.Pickle.Encoder.{
  encode_null, encode_utf8_string_and_size, encode_utf8_string, encode_binary_string, encode_list,
  encode_dictionary,
}
use libtvnet.Pickle.Encoding.{
  encode_integer-put, length-integer_bytes, encode_float-put, length-float_bytes,
  encode_compound-put, length-compound_bytes, encode_utf8_string-put, length-utf8_bytes,
  encode_binary_string-put, length-binary_bytes,
}
use libtvnet.Pickle.Bytes.{compound_bytes, binary_bytes}
use libtvnet.Pyext.Objects.{
  Object, byte_array, string, unicode, int, float, none_object, mapping, sequence, any_set,
  unexpected, Objects, nil, cons, Pairs, end, pair, nr_items, nr_pairs, Python,
}
use libtvnet.Pyext.Encoder.{
  length_recurse, length_items, length_pairs, encode_recurse, encode_items, encode_pairs,
}
use libtvnet.Pyext.Bytes.{
  object_bytes, items_bytes, pairs_bytes, text_bytes, IsText, IsEncodable, AllItems, AllPairs,
}

module _ ⦃tv : Tvutils⦄ ⦃py : Python⦄ where
  encode_text :
      (m : Option (List ℕ)) (b : Buffer)
      → IsText m
      → (m >>= λ s. encode_utf8_string_and_size s (length s % 2 ^ 32) b) ≡ put (text_bytes m) b
  encode_text none b h = absurd h
  encode_text (some s) b h = unfold encode_utf8_string in encode_utf8_string-put s b h

  length_text :
      (m : Option (List ℕ))
      → IsText m
      → (m >>= λ s. some (length_utf8_string (length s))) ≡ some (length (text_bytes m))
  length_text none h = absurd h
  length_text (some s) h = rw (length-utf8_bytes s h) refl

  encode_bytes :
      (s : List ℕ) (b : Buffer)
      → length s < 2 ^ 32
      → encode_binary_string s (length s % 2 ^ 32) b ≡ put (binary_bytes s) b
  encode_bytes s b h = rw (mod-eq_of_lt h) (encode_binary_string-put s b)

  length_bytes :
      (s : List ℕ)
      → length s < 2 ^ 32
      → some (length_binary_string (length s)) ≡ some (length (binary_bytes s))
  length_bytes s h = rw (length-binary_bytes s h) refl

  put-then :
      (xs ys : List ℕ) (b : Buffer) (f : Buffer → Option Buffer)
      → ((b' : Buffer) → f b' ≡ put ys b')
      → (put xs b >>= f) ≡ put (xs ++ ys) b
  put-then xs ys b f h = >>=_cong (put xs b) f (put ys) h ∙ sym (put-append xs ys b)

  list_header :
      (n : ℕ) (ys : List ℕ) (b : Buffer) (f : Buffer → Option Buffer)
      → n < 2 ^ 32
      → ((b' : Buffer) → f b' ≡ put ys b')
      → (encode_list (n % 2 ^ 32) b >>= f) ≡ put (compound_bytes 0xc0 n ++ ys) b
  unfolding encode_list
  list_header n ys b f h k =
      rw (mod-eq_of_lt h, encode_compound-put 0xc0 n b (omega arith) refl)
        (put-then (compound_bytes 0xc0 n) ys b f k)

  dictionary_header :
      (n : ℕ) (ys : List ℕ) (b : Buffer) (f : Buffer → Option Buffer)
      → n < 2 ^ 32
      → ((b' : Buffer) → f b' ≡ put ys b')
      → (encode_dictionary (n % 2 ^ 32) b >>= f) ≡ put (compound_bytes 0xe0 n ++ ys) b
  unfolding encode_dictionary
  dictionary_header n ys b f h k =
      rw (mod-eq_of_lt h, encode_compound-put 0xe0 n b (omega arith) refl)
        (put-then (compound_bytes 0xe0 n) ys b f k)

  mutual
    unfolding encode_recurse object_bytes IsEncodable encode_null put

    pub encode_recurse-put :
        (o : Object) (b : Buffer) → IsEncodable o → encode_recurse o b ≡ put (object_bytes o) b
    encode_recurse-put (byte_array s) b h = encode_bytes s b h
    encode_recurse-put (string s) b h = encode_bytes s b h
    encode_recurse-put (unicode t) b h = encode_text (py.as_utf8 t) b h
    encode_recurse-put (int x) b h = encode_integer-put x b
    encode_recurse-put (float x) b h = encode_float-put x b h
    encode_recurse-put none_object b h = refl
    encode_recurse-put (mapping ps) b (small, _, h) =
        dictionary_header (nr_pairs ps) _ b _ small (λ b'. encode_pairs-put ps b' h)
    encode_recurse-put (sequence xs) b (small, h) =
        list_header (nr_items xs) _ b _ small (λ b'. encode_items-put xs b' h)
    encode_recurse-put (any_set xs) b (small, h) =
        list_header (nr_items xs) _ b _ small (λ b'. encode_items-put xs b' h)
    encode_recurse-put unexpected b h = absurd h

    pub encode_items-put :
        (xs : Objects) (b : Buffer) → AllItems xs → encode_items xs b ≡ put (items_bytes xs) b
    encode_items-put nil b h = refl
    encode_items-put (cons x xs) b (h, hs) =
        rw (encode_recurse-put x b h)
          (put-then (object_bytes x) (items_bytes xs) b _ (λ b'. encode_items-put xs b' hs))

    encode_pairs-put :
        (ps : Pairs) (b : Buffer) → AllPairs ps → encode_pairs ps b ≡ put (pairs_bytes ps) b
    encode_pairs-put end b h = refl
    encode_pairs-put (pair k v ps) b (hk, hv, hs) =
        rw (encode_recurse-put k b hk, >>=_assoc)
          (put-then (object_bytes k) (object_bytes v ++ pairs_bytes ps) b _ (λ b'.
            rw (encode_recurse-put v b' hv) (
              put-then (object_bytes v) (pairs_bytes ps) b' _ (λ b''. encode_pairs-put ps b'' hs))))

  counted :
      {A : Type 0} (n : ℕ) (cs ys : List ℕ) (f : ℕ → A → Option ℕ) (a : A)
      → length cs ≡ length_compound n
      → f (length cs) a ≡ some (length cs + length ys)
      → f (length_compound n) a ≡ some (length (cs ++ ys))
  counted n cs ys f a e h = rw (← e, length-append cs ys) h

  -- The sums do not wrap around.
  mutual
    unfolding length_recurse object_bytes IsEncodable length_null length_list length_dictionary

    pub length_recurse-length :
        (o : Object)
        → IsEncodable o
        → length (object_bytes o) < 2 ^ 64
        → length_recurse o ≡ some (length (object_bytes o))
    length_recurse-length (byte_array s) h big = length_bytes s h
    length_recurse-length (string s) h big = length_bytes s h
    length_recurse-length (unicode t) h big = length_text (py.as_utf8 t) h
    length_recurse-length (int x) h big = rw (length-integer_bytes x) refl
    length_recurse-length (float x) h big = length-float_bytes x h
    length_recurse-length none_object h big = refl
    length_recurse-length (mapping ps) (small, _, h) big =
        let cs : List ℕ = compound_bytes 0xe0 (nr_pairs ps) in
        counted (nr_pairs ps) cs (pairs_bytes ps) length_pairs ps
          (length-compound_bytes 0xe0 (nr_pairs ps))
          (length_pairs-length ps (length cs) h (omega (arith, length-append cs (pairs_bytes ps))))
    length_recurse-length (sequence xs) (small, h) big =
        let cs : List ℕ = compound_bytes 0xc0 (nr_items xs) in
        counted (nr_items xs) cs (items_bytes xs) length_items xs
          (length-compound_bytes 0xc0 (nr_items xs))
          (length_items-length xs (length cs) h (omega (arith, length-append cs (items_bytes xs))))
    length_recurse-length (any_set xs) (small, h) big =
        let cs : List ℕ = compound_bytes 0xc0 (nr_items xs) in
        counted (nr_items xs) cs (items_bytes xs) length_items xs
          (length-compound_bytes 0xc0 (nr_items xs))
          (length_items-length xs (length cs) h (omega (arith, length-append cs (items_bytes xs))))
    length_recurse-length unexpected h big = absurd h

    pub length_items-length :
        (xs : Objects) (n : ℕ)
        → AllItems xs
        → n + length (items_bytes xs) < 2 ^ 64
        → length_items n xs ≡ some (n + length (items_bytes xs))
    length_items-length nil n h big = ap some (omega arith)
    length_items-length (cons x xs) n (h, hs) big =
        let bs : List ℕ = object_bytes x in
        let total : length (bs ++ items_bytes xs) ≡ length bs + length (items_bytes xs) =
          length-append bs (items_bytes xs) in
        let sum : (n + length bs) % 2 ^ 64 ≡ n + length bs = omega arith in
        rw (length_recurse-length x h (omega arith), sum)
          (length_items-length xs (n + length bs) hs (omega arith) ∙ ap some (omega arith))

    length_pairs-length :
        (ps : Pairs) (n : ℕ)
        → AllPairs ps
        → n + length (pairs_bytes ps) < 2 ^ 64
        → length_pairs n ps ≡ some (n + length (pairs_bytes ps))
    length_pairs-length end n h big = ap some (omega arith)
    length_pairs-length (pair k v ps) n (hk, hv, hs) big =
        let ks : List ℕ = object_bytes k in
        let vs : List ℕ = object_bytes v in
        let total : length (ks ++ (vs ++ pairs_bytes ps))
            ≡ length ks + (length vs + length (pairs_bytes ps)) =
          omega
            (arith, length-append ks (vs ++ pairs_bytes ps), length-append vs (pairs_bytes ps)) in
        let sum : (n + length ks) % 2 ^ 64 ≡ n + length ks = omega arith in
        let sum2 : (n + length ks + length vs) % 2 ^ 64 ≡ n + length ks + length vs = omega arith in
        rw
          (
            length_recurse-length k hk (omega arith),
            length_recurse-length v hv (omega arith),
            sum,
            sum2,
          )
          (length_pairs-length ps (n + length ks + length vs) hs (omega arith)
            ∙ ap some (omega arith))
