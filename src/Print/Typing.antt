-- ===== src/Print/Typing.antt =====
-- The arguments of the printf call that is made of any bytes: their types.
use libtvnet.Base.{
  ℕ, ◌+◌, ◌*◌, ◌^◌, ◌≤◌, ◌<◌, ◌≡◌, refl, ◌∙◌, List, [], ◌∷◌, Option, none, some, ◌>>=◌, length,
  arith, if◌then◌else◌, ◌==◌, ◌||◌, magnitude, if_intro2, magnitude-to_signed, to_unsigned-lt, Bool,
  false, ◌&&◌, ◌++◌, append_assoc, sym, Bool-cases, inl, inr,
}
use libtvnet.Tvutils.{Tvutils}
use libtvnet.Buffer.{Buffer, IsReadable}
use libtvnet.Pickle.Decoder.{
  Token, integer, float, utf8_string, bin_string, null_token, decode_token,
}
use libtvnet.Pickle.Safety.{decode_token-Steps}
use libtvnet.Pickle.Safety.Loads.{Steps, Lands, Pointed, IsValue, IsReadable-over, value-Advances}
use libtvnet.Print.Decoder.{
  VaArg, va_i32, va_u32, va_i64, va_u64, va_f64, va_f80_of_int, va_f80_of_f64, va_str, va_null_text,
  va_signed_32, va_unsigned_32, va_signed_64, va_unsigned_64, va_double, va_long_double, va_text,
  va_token, cast_fits, to_va_loop,
}

-- The types of the arguments of printf, once promoted.
pub data ArgType : Type 0 where
  int32 uint32 int64 uint64 float64 float80 char_pointer : ArgType

-- The type that a letter names.
unfoldable pub letter_type : ℕ → Option ArgType
letter_type c =
    if c == b'b' || c == b'w' || c == b'd'
    then some int32
    else if c == b'B' || c == b'W' || c == b'D'
    then some uint32
    else if c == b'q'
    then some int64
    else if c == b'Q'
    then some uint64
    else if c == b'f' || c == b'F'
    then some float64
    else if c == b'G'
    then some float80
    else if c == b's'
    then some char_pointer
    else none

-- The argument has the type, in its range; a pointer does not point behind `size`.
abbrev pub HasType : ℕ → Option ArgType → VaArg → Type 0
HasType size (some int32) (va_i32 x) = 2 * magnitude x < 2 ^ 32
HasType size (some uint32) (va_u32 x) = x < 2 ^ 32
HasType size (some int64) (va_i64 x) = 2 * magnitude x < 2 ^ 64
HasType size (some uint64) (va_u64 x) = x < 2 ^ 64
HasType size (some float64) (va_f64 x) = Unit
HasType size (some float80) (va_f80_of_int x) = Unit
HasType size (some float80) (va_f80_of_f64 x) = Unit
HasType size (some char_pointer) (va_str pointer) = pointer ≤ size
HasType size (some char_pointer) va_null_text = Unit
HasType size _ _ = ⊥

-- One argument for each letter.
abbrev pub ArgsHaveTypes : ℕ → List ℕ → List VaArg → Type 0
ArgsHaveTypes size [] [] = Unit
ArgsHaveTypes size (c ∷ types) (a ∷ args) =
    HasType size (letter_type c) a × ArgsHaveTypes size types args
ArgsHaveTypes size _ _ = ⊥

abbrev MaybeTyped : ℕ → Token → Option ArgType → Option VaArg → Type 0
MaybeTyped size t type none = Unit
MaybeTyped size t type (some a) = IsValue t × HasType size type a

module _ ⦃tv : Tvutils⦄ (size : ℕ) where
  signed_32-typed : (t : Token) → MaybeTyped size t (some int32) (va_signed_32 t)
  unfolding va_signed_32
  signed_32-typed (integer i) = (tt, magnitude-to_signed (2 ^ 32) i (omega arith))
  signed_32-typed (float f) = (tt, omega (arith, tv.magnitude-f64_to_int 4 f (omega arith)))
  signed_32-typed _ = tt

  unsigned_32-typed : (t : Token) → MaybeTyped size t (some uint32) (va_unsigned_32 t)
  unfolding va_unsigned_32
  unsigned_32-typed (integer i) = (tt, to_unsigned-lt (2 ^ 32) i (omega arith))
  unsigned_32-typed (float f) = (tt, tv.f64_to_uint-lt 4 f)
  unsigned_32-typed _ = tt

  signed_64-typed : (t : Token) → MaybeTyped size t (some int64) (va_signed_64 t)
  unfolding va_signed_64
  signed_64-typed (integer i) = (tt, magnitude-to_signed (2 ^ 64) i (omega arith))
  signed_64-typed (float f) = (tt, omega (arith, tv.magnitude-f64_to_int 8 f (omega arith)))
  signed_64-typed _ = tt

  unsigned_64-typed : (t : Token) → MaybeTyped size t (some uint64) (va_unsigned_64 t)
  unfolding va_unsigned_64
  unsigned_64-typed (integer i) = (tt, to_unsigned-lt (2 ^ 64) i (omega arith))
  unsigned_64-typed (float f) = (tt, tv.f64_to_uint-lt 8 f)
  unsigned_64-typed _ = tt

  double-typed : (t : Token) → MaybeTyped size t (some float64) (va_double t)
  unfolding va_double
  double-typed (integer i) = (tt, tt)
  double-typed (float f) = (tt, tt)
  double-typed _ = tt

  long_double-typed : (t : Token) → MaybeTyped size t (some float80) (va_long_double t)
  unfolding va_long_double
  long_double-typed (integer i) = (tt, tt)
  long_double-typed (float f) = (tt, tt)
  long_double-typed _ = tt

  text-typed : (t : Token) → Pointed size t → MaybeTyped size t (some char_pointer) (va_text t)
  unfolding va_text
  text-typed (utf8_string u pointer) h = (tt, omega arith)
  text-typed (bin_string u pointer) h = (tt, omega arith)
  text-typed null_token h = (tt, tt)
  text-typed _ h = tt

  va_token-typed :
      (c : ℕ) (t : Token) → Pointed size t → MaybeTyped size t (letter_type c) (va_token c t)
  unfolding va_token letter_type
  va_token-typed c t h =
      let P : Option ArgType → Option VaArg → Type 0 = MaybeTyped size t in
      if_intro2 P (c == b'b' || c == b'w' || c == b'd') (signed_32-typed t) (
        if_intro2 P (c == b'B' || c == b'W' || c == b'D') (unsigned_32-typed t) (
          if_intro2 P (c == b'q') (signed_64-typed t) (
            if_intro2 P (c == b'Q') (unsigned_64-typed t) (
              if_intro2 P (c == b'f' || c == b'F') (double-typed t) (
                if_intro2 P (c == b'G') (long_double-typed t)
                  (if_intro2 P (c == b's') (text-typed t h) tt))))))

-- Why setting the arguments of the types `all` can be undefined, with messages in `memory`: a double in
-- the message is out of the range of the type that it is cast to, or the buffer for the arguments has no
-- room for those of some first types.
pub data Undefined ⦃tv : Tvutils⦄ (va_fits : List ℕ → Bool) (junk : ℕ) (memory all : List ℕ)
    : Type 0 where
  out_of_range :
      (c : ℕ) (t : Token) (b b' : Buffer)
      → b.data_bytes ≡ memory
      → decode_token junk b ≡ some (t, b')
      → cast_fits c t ≡ false
      → Undefined va_fits junk memory all
  no_room :
      (set rest : List ℕ)
      → all ≡ set ++ rest
      → va_fits set ≡ false
      → Undefined va_fits junk memory all

module _ ⦃tv : Tvutils⦄ (va_fits : List ℕ → Bool) (junk : ℕ) (all : List ℕ) where
  -- The buffer keeps its bytes and its size; if arguments are set, there is one for each letter, read
  -- from at least one byte.
  abbrev pub ToVa : Buffer → List ℕ → Option (Buffer × Option (List VaArg)) → Type 0
  ToVa b types none = Undefined va_fits junk b.data_bytes all
  ToVa b types (some (b', none)) =
      (b'.data_bytes ≡ b.data_bytes) × (b'.size ≡ b.size) × (b'.offset ≤ b.size + 1)
  ToVa b types (some (b', some args)) =
      (b'.data_bytes ≡ b.data_bytes)
      × (b'.size ≡ b.size)
      × (b'.offset ≤ b.size + 1)
      × ArgsHaveTypes b.size types args
      × (b.offset + length types ≤ b'.offset)

  set_lem :
      (b b' : Buffer) (c : ℕ) (types : List ℕ) (a : VaArg)
      (m : Option (Buffer × Option (List VaArg)))
      → b'.data_bytes ≡ b.data_bytes
      → b'.size ≡ b.size
      → b.offset < b'.offset
      → HasType b.size (letter_type c) a
      → ToVa b' types m
      → ToVa b (c ∷ types) (m >>= λ (b'', r). some (b'', r >>= λ args. some (a ∷ args)))
  set_lem b b' c types a none d s o f h = rw d at h
  set_lem b b' c types a (some (b'', none)) d s o f (d', s', o') = (d' ∙ d, s' ∙ s, omega arith)
  set_lem b b' c types a (some (b'', some args)) d s o f (d', s', o', h, l) =
      (d' ∙ d, s' ∙ s, omega arith, (f, rw s at h), omega arith)

  module _ (word : junk < 2 ^ 64) where
    -- once the argument is there, by whether its cast is defined and whether it has room
    argument_set :
        (set types : List ℕ) (b b' : Buffer) (c : ℕ) (t : Token) (a : VaArg)
        (m : Option (Buffer × Option (List VaArg)))
        → all ≡ set ++ (c ∷ types)
        → decode_token junk b ≡ some (t, b')
        → ToVa b (c ∷ types) m
        → ToVa b (c ∷ types) (if cast_fits c t && va_fits (set ++ (c ∷ [])) then m else none)
    argument_set set types b b' c t a m whole e h = elim (Bool-cases (cast_fits c t)) [
      | inr k ↦ rw k (out_of_range c t b b' refl e k)
      | inl k ↦ elim (Bool-cases (va_fits (set ++ (c ∷ [])))) [
        | inr k2 ↦
            rw (k, k2)
              (no_room (set ++ (c ∷ [])) types (whole ∙ sym (append_assoc set (c ∷ []) types)) k2)
        | inl k2 ↦ rw (k, k2) h
      ]
    ]

    ToVa-step :
        (set types : List ℕ) (b b' : Buffer) (c : ℕ) (t : Token) (o : Option VaArg)
        → all ≡ set ++ (c ∷ types)
        → decode_token junk b ≡ some (t, b')
        → b'.data_bytes ≡ b.data_bytes
        → b'.size ≡ b.size
        → Lands b b.offset t b'.offset
        → MaybeTyped b.size t (letter_type c) o
        → (IsReadable b' → ToVa b' types (to_va_loop va_fits (set ++ (c ∷ [])) junk b' types))
        → IsReadable b
        → ToVa b (c ∷ types) (elim o [
          | none ↦ some (b', none)
          | some a ↦
              let rest = to_va_loop va_fits (set ++ (c ∷ [])) junk b' types in
              if cast_fits c t && va_fits (set ++ (c ∷ []))
              then (rest >>= λ (b'', r). some (b'', r >>= λ args. some (a ∷ args)))
              else none
        ])
    ToVa-step set types b b' c t none whole e d s (l, p, a) f ih r = (d, s, l)
    ToVa-step set types b b' c t (some x) whole e d s (l, p, a) (v, f) ih r =
        argument_set set types b b' c t x _ whole e (
          set_lem b b' c types x (to_va_loop va_fits (set ++ (c ∷ [])) junk b' types) d s
            (value-Advances b.offset b'.offset t v a) f (ih (IsReadable-over b' r d s l)))

    token_read :
        (set types : List ℕ) (b : Buffer) (c : ℕ) (m : Option (Token × Buffer))
        → decode_token junk b ≡ m
        → all ≡ set ++ (c ∷ types)
        → Steps b (Lands b b.offset) m
        → ((b' : Buffer)
            → IsReadable b'
            → ToVa b' types (to_va_loop va_fits (set ++ (c ∷ [])) junk b' types))
        → IsReadable b
        → ToVa b (c ∷ types) (
            m >>= λ (token, b'). elim (va_token c token) [
              | none ↦ some (b', none)
              | some a ↦
                  let rest = to_va_loop va_fits (set ++ (c ∷ [])) junk b' types in
                  if cast_fits c token && va_fits (set ++ (c ∷ []))
                  then (rest >>= λ (b'', r). some (b'', r >>= λ args. some (a ∷ args)))
                  else none
            ])
    token_read set types b c none e whole h ih r = absurd h
    token_read set types b c (some (t, b')) e whole (d, s, lands) ih r =
        ToVa-step set types b b' c t (va_token c t) whole e d s lands
          (va_token-typed b.size c t lands.1) (ih b') r

    pub to_va_loop-ToVa :
        (set types : List ℕ) (b : Buffer)
        → all ≡ set ++ types
        → IsReadable b
        → ToVa b types (to_va_loop va_fits set junk b types)
    unfolding to_va_loop
    to_va_loop-ToVa set [] b whole r = (refl, refl, r.at_most_one_past, tt, omega arith)
    to_va_loop-ToVa set (c ∷ types) b whole r =
        token_read set types b c (decode_token junk b) refl whole (decode_token-Steps junk b word r)
          (λ b' r'.
            to_va_loop-ToVa (set ++ (c ∷ [])) types b'
              (whole ∙ sym (append_assoc set (c ∷ []) types)) r')
          r
