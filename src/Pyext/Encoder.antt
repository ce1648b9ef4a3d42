-- ===== src/Pyext/Encoder.antt =====
-- pyext/tvnetmodule.c, from objects to bytes.
use libtvnet.Base.{ℕ, ◌+◌, ◌%◌, ◌^◌, List, Option, none, some, ◌>>=◌, length}
use libtvnet.Tvutils.{Tvutils}
use libtvnet.Buffer.{Buffer}
use libtvnet.Pickle.Length.{
  length_integer, length_float, length_null, length_utf8_string, length_binary_string, length_list,
  length_dictionary,
}
use libtvnet.Pickle.Encoder.{
  encode_integer, encode_float, encode_null, encode_utf8_string_and_size, encode_binary_string,
  encode_list, encode_dictionary,
}
use libtvnet.Pyext.Objects.{
  Object, byte_array, string, unicode, int, float, none_object, mapping, sequence, any_set,
  unexpected, Objects, nil, cons, Pairs, end, pair, nr_items, nr_pairs, Python,
}

module _ ⦃tv : Tvutils⦄ ⦃py : Python⦄ where
  -- `pytvn_length_recurse`, and its loops with the sum so far; `none` is -1 with an exception set.
  unfoldable mutual
    pub length_recurse : Object → Option ℕ
    length_recurse (byte_array s) = some (length_binary_string (length s))
    length_recurse (string s) = some (length_binary_string (length s))
    length_recurse (unicode t) =
        py.as_utf8 t >>= λ utf8_string. some (length_utf8_string (length utf8_string))
    length_recurse (int x) = some (length_integer x)
    length_recurse (float x) = length_float x
    length_recurse none_object = some length_null
    length_recurse (mapping ps) = length_pairs (length_dictionary (nr_pairs ps)) ps
    length_recurse (sequence xs) = length_items (length_list (nr_items xs)) xs
    length_recurse (any_set xs) = length_items (length_list (nr_items xs)) xs
    length_recurse unexpected = none

    pub length_items : ℕ → Objects → Option ℕ
    length_items n nil = some n
    length_items n (cons x xs) = length_recurse x >>= λ m. length_items ((n + m) % 2 ^ 64) xs

    pub length_pairs : ℕ → Pairs → Option ℕ
    length_pairs n end = some n
    length_pairs n (pair key value ps) = length_recurse key >>= λ m.
        length_recurse value >>= λ l. length_pairs (((n + m) % 2 ^ 64 + l) % 2 ^ 64) ps

  -- `pytvn_encode_recurse` and its loops. A size is converted to `uint32_t`. `none` is a fault: a store
  -- outside the buffer, or the use of the NULL for a text that has no UTF-8. An unexpected type sets
  -- an exception and stores nothing.
  unfoldable mutual
    pub encode_recurse : Object → Buffer → Option Buffer
    encode_recurse (byte_array s) b = encode_binary_string s (length s % 2 ^ 32) b
    encode_recurse (string s) b = encode_binary_string s (length s % 2 ^ 32) b
    encode_recurse (unicode t) b = py.as_utf8 t >>= λ utf8_string.
        encode_utf8_string_and_size utf8_string (length utf8_string % 2 ^ 32) b
    encode_recurse (int x) b = encode_integer x b
    encode_recurse (float x) b = encode_float x b
    encode_recurse none_object b = encode_null b
    encode_recurse (mapping ps) b = encode_dictionary (nr_pairs ps % 2 ^ 32) b >>= encode_pairs ps
    encode_recurse (sequence xs) b = encode_list (nr_items xs % 2 ^ 32) b >>= encode_items xs
    encode_recurse (any_set xs) b = encode_list (nr_items xs % 2 ^ 32) b >>= encode_items xs
    encode_recurse unexpected b = some b

    pub encode_items : Objects → Buffer → Option Buffer
    encode_items nil b = some b
    encode_items (cons x xs) b = encode_recurse x b >>= encode_items xs

    pub encode_pairs : Pairs → Buffer → Option Buffer
    encode_pairs end b = some b
    encode_pairs (pair key value ps) b =
        encode_recurse key b >>= encode_recurse value >>= encode_pairs ps

  -- `pytvn_length_tuple` and `pytvn_encode_tuple`: their loops are those of a sequence.
  unfoldable pub length_tuple : Objects → Option ℕ
  length_tuple args = length_items 0 args

  unfoldable pub encode_tuple : Objects → Buffer → Option Buffer
  encode_tuple args b = encode_items args b

  -- `pytvn_encode`. `string_new n` is the memory that `PyString_FromStringAndSize(NULL, n)` gives when
  -- it does not fail, and
  -- `size` what the uninitialised `buffer.size` holds. The inner `none` is NULL.
  unfoldable pub encode : (string_new : ℕ → List ℕ) (size : ℕ) → Objects → Option (Option (List ℕ))
  encode string_new size args = elim (length_tuple args) [
    | none ↦ some none
    | some n ↦
        encode_tuple args (record { data_bytes = string_new n; offset = 0; size = size })
        >>= λ buffer. some (some buffer.data_bytes)
  ]
