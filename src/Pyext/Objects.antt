-- ===== src/Pyext/Objects.antt =====
-- The Python objects that the extension tells apart, and what it takes from CPython.
use libtvnet.Base.{ℕ, suc, List, Option, some, ◌≡◌, ℤ}

-- An object by the first test of `pytvn_length_recurse` that it passes, with what the test's branch
-- reads of it: bytes, a text, a C `long`, a double, the pairs or the items in the order of the
-- iterator. A list or a tuple is a sequence.
mutual
  pub data Object : Type 0 where
    byte_array : (s : List ℕ) → Object
    string : (s : List ℕ) → Object
    unicode : (t : List ℕ) → Object
    int : (x : ℤ) → Object
    float : (x : ℕ) → Object
    none_object : Object
    mapping : (ps : Pairs) → Object
    sequence : (xs : Objects) → Object
    any_set : (xs : Objects) → Object
    unexpected : Object

  pub data Objects : Type 0 where
    nil : Objects
    cons : (x : Object) (xs : Objects) → Objects

  pub data Pairs : Type 0 where
    end : Pairs
    pair : (key value : Object) (ps : Pairs) → Pairs

-- `PySequence_Length` and `PySet_Size`
abbrev pub nr_items : Objects → ℕ
nr_items nil = 0
nr_items (cons x xs) = suc (nr_items xs)

-- `PyMapping_Size`
abbrev pub nr_pairs : Pairs → ℕ
nr_pairs end = 0
nr_pairs (pair k v ps) = suc (nr_pairs ps)

abbrev pub append_pair : Pairs → Object → Object → Pairs
append_pair end k v = pair k v end
append_pair (pair j w ps) k v = pair j w (append_pair ps k v)

-- CPython: `none` is an exception.
pub record Python : Type 0 where
  -- `PyUnicode_AsUTF8String` and `PyUnicode_DecodeUTF8`, strict
  pub as_utf8 : List ℕ → Option (List ℕ)
  pub decode_utf8 : List ℕ → Option (List ℕ)
  -- `PyDict_SetItem`, with the pairs of the dictionary in the order of their keys' insertion
  pub dict_set : Pairs → Object → Object → Option Pairs
  pub decode_utf8-as_utf8 : (t : List ℕ) {s : List ℕ} → as_utf8 t ≡ some s → decode_utf8 s ≡ some t
