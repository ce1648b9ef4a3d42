-- ===== src/Pyext/Bytes.antt =====
-- The bytes of an object in the pickle format, and the object that they are read back as.
use libtvnet.Base.{
  ℕ, ◌^◌, ◌<◌, ◌≡◌, List, [], ◌∷◌, ◌++◌, Option, none, some, length, if◌then◌else◌, Bool-cases, inl,
  inr, true, ℤ,
}
use libtvnet.Base.{IsI64}
use libtvnet.Tvutils.{Tvutils, IsF64}
use libtvnet.Pickle.Length.{is_integral, is_float32}
use libtvnet.Pickle.Bytes.{integer_bytes, float_bytes, compound_bytes, utf8_bytes, binary_bytes}
use libtvnet.Pyext.Objects.{
  Object, byte_array, string, unicode, int, float, none_object, mapping, sequence, any_set,
  unexpected, Objects, nil, cons, Pairs, end, pair, nr_items, nr_pairs, append_pair, Python,
}

module _ ⦃tv : Tvutils⦄ ⦃py : Python⦄ where
  abbrev pub text_bytes : Option (List ℕ) → List ℕ
  text_bytes none = []
  text_bytes (some s) = utf8_bytes s

  unfoldable mutual
    pub object_bytes : Object → List ℕ
    object_bytes (byte_array s) = binary_bytes s
    object_bytes (string s) = binary_bytes s
    object_bytes (unicode t) = text_bytes (py.as_utf8 t)
    object_bytes (int x) = integer_bytes x
    object_bytes (float x) = float_bytes x
    object_bytes none_object = 0x40 ∷ []
    object_bytes (mapping ps) = compound_bytes 0xe0 (nr_pairs ps) ++ pairs_bytes ps
    object_bytes (sequence xs) = compound_bytes 0xc0 (nr_items xs) ++ items_bytes xs
    object_bytes (any_set xs) = compound_bytes 0xc0 (nr_items xs) ++ items_bytes xs
    object_bytes unexpected = []

    pub items_bytes : Objects → List ℕ
    items_bytes nil = []
    items_bytes (cons x xs) = object_bytes x ++ items_bytes xs

    pub pairs_bytes : Pairs → List ℕ
    pairs_bytes end = []
    pairs_bytes (pair k v ps) = object_bytes k ++ (object_bytes v ++ pairs_bytes ps)

  -- A double and what it comes back as: an equal integer or double, or the same bits.
  pub data SameNumber (x : ℕ) : Object → Type 0 where
    same_integer : (i : ℤ) → tv.f64_eq (tv.f64_of_int i) x ≡ true → SameNumber x (int i)
    same_double : (y : ℕ) → tv.f64_eq y x ≡ true → SameNumber x (float y)
    same_bits : SameNumber x (float x)

  -- An object, and one with the same parts in the same order. The format does not tell byte arrays from
  -- strings, sets and tuples from lists, and doubles without a fraction from integers.
  mutual
    pub data Alike : Object → Object → Type 0 where
      like_string : (s : List ℕ) → Alike (string s) (string s)
      like_bytes : (s : List ℕ) → Alike (byte_array s) (string s)
      like_text : (t : List ℕ) → Alike (unicode t) (unicode t)
      like_int : (i : ℤ) → Alike (int i) (int i)
      like_number : (x : ℕ) (o : Object) → SameNumber x o → Alike (float x) o
      like_none : Alike none_object none_object
      like_mapping : (ps qs : Pairs) → AlikePairs ps qs → Alike (mapping ps) (mapping qs)
      like_sequence : (xs ys : Objects) → AlikeItems xs ys → Alike (sequence xs) (sequence ys)
      like_set : (xs ys : Objects) → AlikeItems xs ys → Alike (any_set xs) (sequence ys)

    pub data AlikeItems : Objects → Objects → Type 0 where
      like_nil : AlikeItems nil nil
      like_cons :
          (x y : Object) (xs ys : Objects)
          → Alike x y
          → AlikeItems xs ys
          → AlikeItems (cons x xs) (cons y ys)

    pub data AlikePairs : Pairs → Pairs → Type 0 where
      like_end : AlikePairs end end
      like_pair :
          (j k v w : Object) (ps qs : Pairs)
          → Alike j k
          → Alike v w
          → AlikePairs ps qs
          → AlikePairs (pair j v ps) (pair k w qs)

  -- Byte arrays come back as strings, sets and tuples as lists, and doubles without a fraction as
  -- integers.
  abbrev pub received_float : ℕ → Object
  received_float x =
      if is_integral x
      then int (tv.f64_to_int 8 x)
      else if is_float32 x
      then float (tv.widen (tv.narrow x))
      else float x

  unfoldable mutual
    pub received : Object → Object
    received (byte_array s) = string s
    received (float x) = received_float x
    received (mapping ps) = mapping (received_pairs ps)
    received (sequence xs) = sequence (received_items xs)
    received (any_set xs) = sequence (received_items xs)
    received (string s) = string s
    received (unicode t) = unicode t
    received (int x) = int x
    received none_object = none_object
    received unexpected = unexpected

    pub received_items : Objects → Objects
    received_items nil = nil
    received_items (cons x xs) = cons (received x) (received_items xs)

    pub received_pairs : Pairs → Pairs
    received_pairs end = end
    received_pairs (pair k v ps) = pair (received k) (received v) (received_pairs ps)

  -- Inserting the pairs one by one after `before` appends each of them: the keys can be hashed, and
  -- no two are equal.
  abbrev pub Inserts : Pairs → Pairs → Type 0
  Inserts before end = Unit
  Inserts before (pair k v ps) =
      (py.dict_set before k v ≡ some (append_pair before k v)) × Inserts (append_pair before k v) ps

  abbrev pub IsText : Option (List ℕ) → Type 0
  IsText none = ⊥
  IsText (some s) = length s < 2 ^ 32

  -- An object that the extension knows all parts of, with sizes below 2 ^ 32, texts that have a
  -- UTF-8 form, and pairs that make a dictionary.
  unfoldable mutual
    pub IsEncodable : Object → Type 0
    IsEncodable (byte_array s) = length s < 2 ^ 32
    IsEncodable (string s) = length s < 2 ^ 32
    IsEncodable (unicode t) = IsText (py.as_utf8 t)
    IsEncodable (int x) = IsI64 x
    IsEncodable (float x) = IsF64 x
    IsEncodable none_object = Unit
    IsEncodable (mapping ps) =
        (nr_pairs ps < 2 ^ 32) × Inserts end (received_pairs ps) × AllPairs ps
    IsEncodable (sequence xs) = (nr_items xs < 2 ^ 32) × AllItems xs
    IsEncodable (any_set xs) = (nr_items xs < 2 ^ 32) × AllItems xs
    IsEncodable unexpected = ⊥

    pub AllItems : Objects → Type 0
    AllItems nil = Unit
    AllItems (cons x xs) = IsEncodable x × AllItems xs

    pub AllPairs : Pairs → Type 0
    AllPairs end = Unit
    AllPairs (pair k v ps) = IsEncodable k × IsEncodable v × AllPairs ps

  received_float-SameNumber : (x : ℕ) → IsF64 x → SameNumber x (received_float x)
  unfolding is_integral is_float32
  received_float-SameNumber x h = elim (Bool-cases (tv.f64_eq (tv.floor x) x)) [
    | inl e ↦ rw e (same_integer (tv.f64_to_int 8 x) (tv.f64_of_int-f64_to_int x h e))
    | inr e ↦ elim (Bool-cases (tv.f64_eq (tv.widen (tv.narrow x)) x)) [
      | inl e2 ↦ rw (e, e2) (same_double (tv.widen (tv.narrow x)) e2)
      | inr e2 ↦ rw (e, e2) same_bits
    ]
  ]

  mutual
    unfolding received IsEncodable

    received-Alike : (o : Object) → IsEncodable o → Alike o (received o)
    received-Alike (byte_array s) h = like_bytes s
    received-Alike (string s) h = like_string s
    received-Alike (unicode t) h = like_text t
    received-Alike (int x) h = like_int x
    received-Alike (float x) h = like_number x (received_float x) (received_float-SameNumber x h)
    received-Alike none_object h = like_none
    received-Alike (mapping ps) (small, inserts, h) =
        like_mapping ps (received_pairs ps) (received_pairs-AlikePairs ps h)
    received-Alike (sequence xs) (small, h) =
        like_sequence xs (received_items xs) (received_items-AlikeItems xs h)
    received-Alike (any_set xs) (small, h) =
        like_set xs (received_items xs) (received_items-AlikeItems xs h)
    received-Alike unexpected h = absurd h

    pub received_items-AlikeItems : (xs : Objects) → AllItems xs → AlikeItems xs (received_items xs)
    received_items-AlikeItems nil h = like_nil
    received_items-AlikeItems (cons x xs) (h, hs) =
        like_cons x (received x) xs (received_items xs) (received-Alike x h)
          (received_items-AlikeItems xs hs)

    received_pairs-AlikePairs : (ps : Pairs) → AllPairs ps → AlikePairs ps (received_pairs ps)
    received_pairs-AlikePairs end h = like_end
    received_pairs-AlikePairs (pair k v ps) (hk, hv, hs) =
        like_pair k (received k) v (received v) ps (received_pairs ps) (received-Alike k hk)
          (received-Alike v hv) (received_pairs-AlikePairs ps hs)
