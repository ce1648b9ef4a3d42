-- ===== src/Pyext/RoundTrip.antt =====
-- Where the bytes of an object stand, the decoder reads it back.

use libtvnet.Base.{
  ℕ, zero, suc, ◌+◌, ◌^◌, ◌≤◌, ◌<◌, ◌≡◌, refl, ap, List, [], ◌∷◌, ◌++◌, Option, none, some, length,
  length-append, arith,
}
use libtvnet.Base.{ℤ, IsI64}
use libtvnet.Tvutils.{Tvutils, IsF64}
use libtvnet.Buffer.{Buffer}
use libtvnet.Pickle.Bytes.{integer_bytes, float_bytes, compound_bytes}
use libtvnet.Pickle.At.{At, behind, behind-behind, At-prefix, At-suffix}
use libtvnet.Pickle.RoundTrip.Integer.{decode_integer-At}
use libtvnet.Pickle.RoundTrip.Float.{decode_float-At}
use libtvnet.Pickle.RoundTrip.Loads.{decode_null-At}
use libtvnet.Pickle.RoundTrip.Compound.{decode_list-At, decode_dictionary-At}
use libtvnet.Pyext.Objects.{
  Object, byte_array, string, unicode, int, float, none_object, mapping, sequence, any_set,
  unexpected, Objects, nil, cons, Pairs, end, pair, nr_items, nr_pairs, append_pair, Python,
}
use libtvnet.Pyext.Decoder.{done, object, decode_items, decode_pairs, decode_value, decode_recurse}
use libtvnet.Pyext.Bytes.{
  object_bytes, items_bytes, pairs_bytes, text_bytes, received, received_items, received_pairs,
  received_float, Inserts, IsText, IsEncodable, AllItems, AllPairs,
}
use libtvnet.Pyext.Leaves.{
  append_pairs, append_pairs-end, append_pairs-append_pair, recurse_step, value_float, string-At,
  text-At, object_bytes-pos, header-lt, Reads, done_here,
}

module _ ⦃tv : Tvutils⦄ ⦃py : Python⦄ (junk : ℕ) where
  unicode-At :
      (fuel : ℕ) (t : List ℕ) (m : Option (List ℕ)) {b : Buffer}
      → py.as_utf8 t ≡ m
      → IsText m
      → At b (text_bytes m)
      → Reads (decode_recurse junk (suc fuel) b) (object (unicode t)) (text_bytes m) b
  unicode-At fuel t none e h a = absurd h
  unicode-At fuel t (some s) e h a = text-At junk fuel t s e h a

  int-At :
      (fuel : ℕ) (x : ℤ) {b : Buffer}
      → IsI64 x
      → At b (integer_bytes x)
      → Reads (decode_recurse junk (suc fuel) b) (object (int x)) (integer_bytes x) b
  unfolding decode_value
  int-At fuel x h a = recurse_step junk fuel _ _ (decode_integer-At junk x h a) refl

  float-At :
      (fuel : ℕ) (x : ℕ) {b : Buffer}
      → IsF64 x
      → At b (float_bytes x)
      → Reads (decode_recurse junk (suc fuel) b) (object (received_float x)) (float_bytes x) b
  float-At fuel x h a =
      recurse_step junk fuel _ _ (decode_float-At junk x h a)
        (value_float junk (decode_recurse junk fuel) x _)

  none-At :
      (fuel : ℕ) {b : Buffer}
      → At b (0x40 ∷ [])
      → decode_recurse junk (suc fuel) b ≡ done (object none_object) (behind 1 b)
  unfolding decode_value
  none-At fuel a = recurse_step junk fuel _ _ (decode_null-At junk a) refl

  -- A list and a dictionary by what is read behind the header.
  list-At :
      (fuel n : ℕ) (bs : List ℕ) (xs : Objects) {b : Buffer}
      → n < 2 ^ 32
      → At b (compound_bytes 0xc0 n ++ bs)
      → Reads
          (decode_items (decode_recurse junk fuel) n (behind (length (compound_bytes 0xc0 n)) b))
          (some xs)
          bs
          (behind (length (compound_bytes 0xc0 n)) b)
      → Reads
          (decode_recurse junk (suc fuel) b)
          (object (sequence xs))
          (compound_bytes 0xc0 n ++ bs)
          b
  unfolding decode_value
  list-At fuel n bs xs {b} small a e =
      let cs : List ℕ = compound_bytes 0xc0 n in
      recurse_step junk fuel _ _ (decode_list-At junk n small (At-prefix cs bs a))
        (rw e (rw (behind-behind (length cs) (length bs) b, length-append cs bs) refl))

  dictionary-At :
      (fuel n : ℕ) (bs : List ℕ) (ps : Pairs) {b : Buffer}
      → n < 2 ^ 32
      → At b (compound_bytes 0xe0 n ++ bs)
      → Reads
          (decode_pairs
            (decode_recurse junk fuel)
            n
            end
            (behind (length (compound_bytes 0xe0 n)) b))
          (some ps)
          bs
          (behind (length (compound_bytes 0xe0 n)) b)
      → Reads
          (decode_recurse junk (suc fuel) b)
          (object (mapping ps))
          (compound_bytes 0xe0 n ++ bs)
          b
  unfolding decode_value
  dictionary-At fuel n bs ps {b} small a e =
      let cs : List ℕ = compound_bytes 0xe0 n in
      recurse_step junk fuel _ _ (decode_dictionary-At junk n small (At-prefix cs bs a))
        (rw e (rw (behind-behind (length cs) (length bs) b, length-append cs bs) refl))

  -- One more item, and one more pair.
  cons-At :
      (fuel n : ℕ) (x : Object) (xs : Objects) (bs rest : List ℕ) (b : Buffer)
      → Reads (decode_recurse junk fuel b) (object x) bs b
      → Reads
          (decode_items (decode_recurse junk fuel) n (behind (length bs) b))
          (some xs)
          rest
          (behind (length bs) b)
      → Reads (decode_items (decode_recurse junk fuel) (suc n) b) (some (cons x xs)) (bs ++ rest) b
  unfolding decode_items
  cons-At fuel n x xs bs rest b e e2 =
      rw (e, decode_items)
        (rw e2 (rw (behind-behind (length bs) (length rest) b, length-append bs rest) refl))

  pair-At :
      (fuel n : ℕ) (before more ps : Pairs) (k v : Object) (ks vs rest : List ℕ) (b : Buffer)
      → Reads (decode_recurse junk fuel b) (object k) ks b
      → Reads (decode_recurse junk fuel (behind (length ks) b)) (object v) vs (behind (length ks) b)
      → py.dict_set before k v ≡ some more
      → Reads
          (decode_pairs
            (decode_recurse junk fuel)
            n
            more
            (behind (length vs) (behind (length ks) b)))
          (some ps)
          rest
          (behind (length vs) (behind (length ks) b))
      → Reads
          (decode_pairs (decode_recurse junk fuel) (suc n) before b)
          (some ps)
          (ks ++ (vs ++ rest))
          b
  unfolding decode_pairs
  pair-At fuel n before more ps k v ks vs rest b e e2 e3 e4 =
      rw (e, decode_pairs)
        (rw (e2, decode_pairs)
          (rw e3 (
            rw e4 (
              ap (λ o. done (some ps) (record b { offset = o }))
                (omega (arith, length-append ks (vs ++ rest), length-append vs rest))))))

  mutual
    unfolding object_bytes IsEncodable received decode_items decode_pairs

    -- Where the bytes of an object stand, the decoder reads it and moves behind them.
    pub decode_recurse-At :
        (o : Object) (fuel : ℕ) {b : Buffer}
        → IsEncodable o
        → length (object_bytes o) ≤ suc fuel
        → At b (object_bytes o)
        → Reads (decode_recurse junk (suc fuel) b) (object (received o)) (object_bytes o) b
    decode_recurse-At (byte_array s) fuel h le a = string-At junk fuel s h a
    decode_recurse-At (string s) fuel h le a = string-At junk fuel s h a
    decode_recurse-At (unicode t) fuel h le a = unicode-At fuel t (py.as_utf8 t) refl h a
    decode_recurse-At (int x) fuel h le a = int-At fuel x h a
    decode_recurse-At (float x) fuel h le a = float-At fuel x h a
    decode_recurse-At none_object fuel h le a = none-At fuel a
    decode_recurse-At (mapping ps) fuel (small, inserts, h) le a =
        let cs : List ℕ = compound_bytes 0xe0 (nr_pairs ps) in
        let bs : List ℕ = pairs_bytes ps in
        dictionary-At fuel (nr_pairs ps) bs (received_pairs ps) small a (
          decode_pairs-At ps fuel end h inserts
            (omega (arith, header-lt junk 0xe0 (nr_pairs ps) bs)) (At-suffix cs bs a))
    decode_recurse-At (sequence xs) fuel (small, h) le a =
        let cs : List ℕ = compound_bytes 0xc0 (nr_items xs) in
        let bs : List ℕ = items_bytes xs in
        list-At fuel (nr_items xs) bs (received_items xs) small a (
          decode_items-At xs fuel h (omega (arith, header-lt junk 0xc0 (nr_items xs) bs))
            (At-suffix cs bs a))
    decode_recurse-At (any_set xs) fuel (small, h) le a =
        let cs : List ℕ = compound_bytes 0xc0 (nr_items xs) in
        let bs : List ℕ = items_bytes xs in
        list-At fuel (nr_items xs) bs (received_items xs) small a (
          decode_items-At xs fuel h (omega (arith, header-lt junk 0xc0 (nr_items xs) bs))
            (At-suffix cs bs a))
    decode_recurse-At unexpected fuel h le a = absurd h

    decode_items-At :
        (xs : Objects) (fuel : ℕ) {b : Buffer}
        → AllItems xs
        → length (items_bytes xs) ≤ fuel
        → At b (items_bytes xs)
        → Reads
            (decode_items (decode_recurse junk fuel) (nr_items xs) b)
            (some (received_items xs))
            (items_bytes xs)
            b
    decode_items-At nil fuel {b} h le a = done_here b
    decode_items-At (cons x xs) zero (h, hs) le a =
        absurd (
          omega (arith, length-append (object_bytes x) (items_bytes xs), object_bytes-pos junk x h))
    decode_items-At (cons x xs) (suc fuel) (h, hs) le a =
        let bs : List ℕ = object_bytes x in
        let rest : List ℕ = items_bytes xs in
        cons-At (suc fuel) (nr_items xs) (received x) (received_items xs) bs rest _
          (decode_recurse-At x fuel h (omega (arith, length-append bs rest)) (At-prefix bs rest a))
          (decode_items-At xs (suc fuel) hs (omega (arith, length-append bs rest))
            (At-suffix bs rest a))

    decode_pairs-At :
        (ps : Pairs) (fuel : ℕ) (before : Pairs) {b : Buffer}
        → AllPairs ps
        → Inserts before (received_pairs ps)
        → length (pairs_bytes ps) ≤ fuel
        → At b (pairs_bytes ps)
        → Reads
            (decode_pairs (decode_recurse junk fuel) (nr_pairs ps) before b)
            (some (append_pairs before (received_pairs ps)))
            (pairs_bytes ps)
            b
    decode_pairs-At end fuel before {b} h inserts le a = rw (append_pairs-end before) (done_here b)
    decode_pairs-At (pair k v ps) zero before (hk, hv, hs) inserts le a = absurd (
        omega (
          arith,
          length-append (object_bytes k) (object_bytes v ++ pairs_bytes ps),
          object_bytes-pos junk k hk,
        ))
    decode_pairs-At (pair k v ps) (suc fuel) before {b} (hk, hv, hs) (new, inserts) le a =
        let ks : List ℕ = object_bytes k in
        let vs : List ℕ = object_bytes v in
        let rest : List ℕ = pairs_bytes ps in
        let total : length (ks ++ (vs ++ rest)) ≡ length ks + (length vs + length rest) =
          omega (arith, length-append ks (vs ++ rest), length-append vs rest) in
        let later : At (behind (length ks) b) (vs ++ rest) = At-suffix ks (vs ++ rest) a in
        let more : Pairs = append_pair before (received k) (received v) in
        pair-At (suc fuel) (nr_pairs ps) before more _ (received k) (received v) ks vs rest b
          (decode_recurse-At k fuel hk (omega arith) (At-prefix ks (vs ++ rest) a))
          (decode_recurse-At v fuel hv (omega arith) (At-prefix vs rest later)) new
          (rw (← append_pairs-append_pair before (received k) (received v) (received_pairs ps))
            (decode_pairs-At ps (suc fuel) more hs inserts (omega arith) (At-suffix vs rest later)))
