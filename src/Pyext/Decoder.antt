-- ===== src/Pyext/Decoder.antt =====
-- pyext/tvnetmodule.c, from bytes to objects. The recursion takes fuel, one unit for each level and
-- for each round of the loop of `pytvn_decode_tuple`.
use libtvnet.Base.{
  ℕ, zero, suc, ◌+◌, List, Option, none, some, length, take, drop, leb, if◌then◌else◌,
}
use libtvnet.Tvutils.{Tvutils}
use libtvnet.Buffer.{Buffer}
use libtvnet.Pickle.Decoder.{
  Token, end_token, error_token, null_token, integer, float, utf8_string, bin_string, list,
  dictionary, decode_token,
}
use libtvnet.Pyext.Objects
use libtvnet.Pyext.Objects.{
  Object, string, unicode, none_object, mapping, sequence, Objects, nil, cons, Pairs, end, Python,
}

-- A result with the buffer that is left, undefined behaviour, or no fuel.
pub data Run (A : Type 0) : Type 0 where
  done : (a : A) (b : Buffer) → Run A
  fault : Run A
  timeout : Run A

infixl 5 ◌>>=◌
abbrev pub ◌>>=◌ : {A B : Type 0} → Run A → (A → Buffer → Run B) → Run B
done a b >>= f = f a b
fault >>= f = fault
timeout >>= f = timeout

-- What `pytvn_decode_recurse` returns: (PyObject *)-1, NULL with an exception set, or an object.
pub data Decoded : Type 0 where
  end_mark : Decoded
  failed : Decoded
  object : (o : Object) → Decoded

-- the bytes behind the pointer of a string token
unfoldable pub token_bytes : Buffer → ℕ → ℕ → Option (List ℕ)
token_bytes b pointer u =
    if leb (pointer + u) (length b.data_bytes)
    then some (take u (drop pointer b.data_bytes))
    else none

abbrev pub Reader : Type 0
Reader = Buffer → Run Decoded

-- The loop over the items of a list; `none` is NULL. To put (PyObject *)-1 into a list is a fault: the
-- list then holds an invalid pointer.
unfoldable pub decode_items : Reader → ℕ → Buffer → Run (Option Objects)
decode_items read zero b = done (some nil) b
decode_items read (suc n) b = read b >>= λ d b'. elim d [
  | end_mark ↦ fault
  | failed ↦ done none b'
  | object x ↦ decode_items read n b' >>= λ r b''.
      done (elim r [ none ↦ none | some xs ↦ some (cons x xs) ]) b''
]

module _ ⦃tv : Tvutils⦄ ⦃py : Python⦄ where
  -- The loop over the pairs of a dictionary, with the dictionary so far. (PyObject *)-1 as a key or a
  -- value is a fault in `PyDict_SetItem`.
  unfoldable pub decode_pairs : Reader → ℕ → Pairs → Buffer → Run (Option Pairs)
  decode_pairs read zero dict b = done (some dict) b
  decode_pairs read (suc n) dict b = read b >>= λ d b'. elim d [
    | end_mark ↦ read b' >>= λ e b''. elim e [ failed ↦ done none b'' | _ ↦ fault ]
    | failed ↦ done none b'
    | object key ↦ read b' >>= λ e b''. elim e [
      | end_mark ↦ fault
      | failed ↦ done none b''
      | object value ↦ elim (py.dict_set dict key value) [
        | none ↦ done none b''
        | some more ↦ decode_pairs read n more b''
      ]
    ]
  ]

  -- the `switch` of `pytvn_decode_recurse`
  unfoldable pub decode_value : Reader → Token → Buffer → Run Decoded
  unfolding decode_items decode_pairs
  decode_value read end_token b = done end_mark b
  decode_value read error_token b = done failed b
  decode_value read null_token b = done (object none_object) b
  decode_value read (integer i) b = done (object (Objects.int i)) b
  decode_value read (float f) b = done (object (Objects.float f)) b
  decode_value read (utf8_string u pointer) b = elim (token_bytes b pointer u) [
    | none ↦ fault
    | some s ↦ done (elim (py.decode_utf8 s) [ none ↦ failed | some t ↦ object (unicode t) ]) b
  ]
  decode_value read (bin_string u pointer) b = elim (token_bytes b pointer u) [
    | none ↦ fault
    | some s ↦ done (object (string s)) b
  ]
  decode_value read (list u) b = decode_items read u b >>= λ r b'.
      done (elim r [ none ↦ failed | some xs ↦ object (sequence xs) ]) b'
  decode_value read (dictionary u) b = decode_pairs read u end b >>= λ r b'.
      done (elim r [ none ↦ failed | some ps ↦ object (mapping ps) ]) b'

  unfoldable pub decode_recurse : (junk fuel : ℕ) → Reader
  decode_recurse junk zero b = timeout
  decode_recurse junk (suc fuel) b = elim (decode_token junk b) [
    | none ↦ fault
    | some (token, b') ↦ decode_value (decode_recurse junk fuel) token b'
  ]

  -- The loop of `pytvn_decode_tuple`, with the rounds that are left; `none` is NULL.
  unfoldable pub decode_tuple : (rounds : ℕ) → Reader → Buffer → Run (Option Objects)
  decode_tuple zero read b = timeout
  decode_tuple (suc rounds) read b = read b >>= λ d b'. elim d [
    | end_mark ↦ done (some nil) b'
    | failed ↦ done none b'
    | object x ↦ decode_tuple rounds read b' >>= λ r b''.
        done (elim r [ none ↦ none | some xs ↦ some (cons x xs) ]) b''
  ]

  -- `pytvn_decode`: a single object, or a tuple of them; `none` is NULL.
  unfoldable pub decode : (junk fuel : ℕ) → List ℕ → Run (Option Object)
  decode junk fuel bytes =
      decode_tuple fuel (decode_recurse junk fuel)
        (record { data_bytes = bytes; offset = 0; size = length bytes })
      >>= λ r b.
          done (elim r [ none ↦ none | some (cons x nil) ↦ some x | some xs ↦ some (sequence xs) ])
            b
