-- ===== src/Stdarg/Size.antt =====
-- `tvnp_vlength` tells exactly how many bytes `tvnp_vencode` stores.
use native.Mathlib.Nat.{mod-eq_of_lt}
use libtvnet.Base.{
  ℕ, ◌+◌, ◌%◌, ◌*◌, ◌^◌, ◌≤◌, ◌<◌, ◌≡◌, refl, ◌∙◌, List, [], ◌∷◌, Option, none, some, ◌>>=◌,
  >>=_assoc, >>=_cong, length, length-append, arith, ◌==◌, Bool-cases, true, inl, inr,
}
use libtvnet.Base.{ℤ, pos}
use libtvnet.Tvutils.{Tvutils}
use libtvnet.Buffer.{Buffer, put}
use libtvnet.Buffer.Laws.{put-append, Stores, put-Stores}
use libtvnet.Pickle.Length.{length_integer, length_string, length_compound, length_utf8_string}
use libtvnet.Pickle.Bytes.{integer_bytes, float_bytes, utf8_bytes}
use libtvnet.Pickle.Encoding.{
  encode_integer-put, length-integer_bytes, encode_float-put, length-float_bytes,
  encode_utf8_string-put, length-utf8_bytes,
}
use libtvnet.Stdarg.Args.{
  Arg, int, dbl, ldbl, str, arg_i32, arg_u32, arg_i64, arg_u64, arg_f64, arg_f80, arg_str,
}
use libtvnet.Stdarg.Encoder.{
  Kind, i32, u32, i64, u64, f64, text, invalid, encode_kind, length_kind, length_arg, vlength_loop,
  vlength, encode_arg, vencode,
}
use libtvnet.Stdarg.Spec.{Matches, converted, Typed, arg_bytes, args_bytes}

Matches-invalid : (a : Arg) → Matches invalid a → ⊥
Matches-invalid (int x) h = h
Matches-invalid (dbl x) h = h
Matches-invalid (ldbl x) h = h
Matches-invalid (str s) h = h

long_double_kind : (c : ℕ) → (c == b'G') ≡ true → encode_kind c ≡ invalid
unfolding encode_kind
long_double_kind c e = ground arith

-- Letters that the encoder takes are treated alike by both functions.
pub length_kind-encode_kind :
    (c : ℕ) (a : Arg) → Matches (encode_kind c) a → length_kind c ≡ encode_kind c
unfolding length_kind encode_kind
length_kind-encode_kind c a h = elim (Bool-cases (c == b'G')) [
  | inl e ↦ absurd (Matches-invalid a (rw (long_double_kind c e) at h))
  | inr e ↦ ground arith
]

length_integer_le : (x : ℤ) → length_integer x ≤ 9
unfolding length_integer
length_integer_le x = ground arith

module _ ⦃tv : Tvutils⦄ where
  encode_arg-put :
      (k : Kind) (a : Arg) (rest : List Arg) (b : Buffer)
      → Matches k a
      → encode_arg k (a ∷ rest) b ≡ (put (arg_bytes k a) b >>= λ b'. some (some (b', rest)))
  unfolding encode_arg arg_i32 arg_u32 arg_i64 arg_u64 arg_f64 arg_f80 arg_str
  encode_arg-put i32 (int x) rest b h = rw (encode_integer-put _ b) refl
  encode_arg-put u32 (int x) rest b h = rw (encode_integer-put _ b) refl
  encode_arg-put i64 (int x) rest b h = rw (encode_integer-put _ b) refl
  encode_arg-put u64 (int x) rest b h = rw (encode_integer-put _ b) refl
  encode_arg-put f64 (dbl x) rest b h = rw (encode_float-put x b h) refl
  encode_arg-put text (str s) rest b h = rw (encode_utf8_string-put s b h) refl
  encode_arg-put _ _ rest b h = absurd h

  length_arg-length :
      (k : Kind) (a : Arg) (rest : List Arg)
      → Matches k a
      → length_arg k (a ∷ rest) ≡ some (some (length (arg_bytes k a), rest))
  unfolding length_arg arg_i32 arg_u32 arg_i64 arg_u64 arg_f64 arg_f80 arg_str
  length_arg-length i32 (int x) rest h = rw length-integer_bytes refl
  length_arg-length u32 (int x) rest h = rw length-integer_bytes refl
  length_arg-length i64 (int x) rest h = rw length-integer_bytes refl
  length_arg-length u64 (int x) rest h = rw length-integer_bytes refl
  length_arg-length f64 (dbl x) rest h = rw (length-float_bytes x h) refl
  length_arg-length text (str s) rest h =
      let small : length s < 2 ^ 64 = omega arith in
      rw (mod-eq_of_lt small, length-utf8_bytes s h) refl
  length_arg-length _ _ rest h = absurd h

  -- With arguments of the right types, `tvnp_vencode` returns 0 and stores the encodings of the
  -- arguments one after the other.
  pub vencode-put :
      (fmt : List ℕ) (args : List Arg) (b : Buffer)
      → Typed fmt args
      → vencode b fmt args ≡ (put (args_bytes fmt args) b >>= λ b'. some (b', pos 0))
  unfolding vencode put
  vencode-put [] args b h = refl
  vencode-put (c ∷ fmt) [] b h = absurd h
  vencode-put (c ∷ fmt) (a ∷ args) b (h, hs) =
      let bs : List ℕ = arg_bytes (encode_kind c) a in
      let rest : List ℕ = args_bytes fmt args in
      rw
        (
          encode_arg-put (encode_kind c) a args b h,
          >>=_assoc {B = Option (Buffer × List Arg)} {C = Buffer × ℤ} (put bs b)
              (λ b'. some (some (b', args))),
          put-append bs rest b,
          >>=_assoc {C = Buffer × ℤ} (put bs b) (put rest),
        )
        (>>=_cong (put bs b) _ _ (λ b'. vencode-put fmt args b' hs))

  vlength_loop-length :
      (fmt : List ℕ) (args : List Arg) (size : ℕ)
      → Typed fmt args
      → size < 2 ^ 64
      → vlength_loop size fmt args ≡ some (some ((size + length (args_bytes fmt args)) % 2 ^ 64))
  unfolding vlength_loop
  vlength_loop-length [] args size h small =
      let same : (size + 0) % 2 ^ 64 ≡ size = omega arith in rw same refl
  vlength_loop-length (c ∷ fmt) [] size h small = absurd h
  vlength_loop-length (c ∷ fmt) (a ∷ args) size (h, hs) small =
      let n : ℕ = length (arg_bytes (encode_kind c) a) in
      let m : ℕ = length (args_bytes fmt args) in
      let wrapped : ((size + n) % 2 ^ 64 + m) % 2 ^ 64 ≡ (size + (n + m)) % 2 ^ 64 = omega arith in
      rw (length_kind-encode_kind c a h, length_arg-length (encode_kind c) a args h)
        (vlength_loop-length fmt args ((size + n) % 2 ^ 64) hs (omega arith)
          ∙ rw (wrapped, length-append (arg_bytes (encode_kind c) a) (args_bytes fmt args)) refl)

  length-integer_le : (x : ℤ) → length (integer_bytes x) ≤ 9
  length-integer_le x = rw (length-integer_bytes x) (length_integer_le x)

  length-float_le : (x : ℕ) → length (float_bytes x) ≤ 9
  unfolding float_bytes
  length-float_le x = ground (
    arith,
    length-integer_le (tv.f64_to_int 8 x),
    tv.length-set_be_f32 (tv.narrow x),
    tv.length-set_be_f64 x,
  )

  pub length-utf8_le : (s : List ℕ) → length s < 2 ^ 32 → length (utf8_bytes s) ≤ 2 ^ 32 + 5
  unfolding length_utf8_string length_string length_compound
  length-utf8_le s h = rw (length-utf8_bytes s h) (ground arith)

  length-arg_le : (k : Kind) (a : Arg) → Matches k a → length (arg_bytes k a) ≤ 2 ^ 32 + 5
  length-arg_le k (int x) h = omega (arith, length-integer_le (converted k x))
  length-arg_le k (dbl x) h = omega (arith, length-float_le x)
  length-arg_le k (ldbl x) h = omega arith
  length-arg_le text (str s) h = length-utf8_le s h
  length-arg_le _ (str s) h = absurd h

  pub length-args_le :
      (fmt : List ℕ) (args : List Arg)
      → Typed fmt args
      → length (args_bytes fmt args) ≤ length fmt * (2 ^ 32 + 5)
  length-args_le [] args h = omega arith
  length-args_le (c ∷ fmt) [] h = absurd h
  length-args_le (c ∷ fmt) (a ∷ args) (h, hs) = omega (
    arith,
    length-append (arg_bytes (encode_kind c) a) (args_bytes fmt args),
    length-arg_le (encode_kind c) a h,
    length-args_le fmt args hs,
  )

  -- `tvnp_vlength` of arguments of the right types, with the total that does not wrap around.
  pub vlength-length :
      (fmt : List ℕ) (args : List Arg)
      → Typed fmt args
      → length fmt < 2 ^ 31
      → vlength fmt args ≡ some (some (length (args_bytes fmt args)))
  unfolding vlength
  vlength-length fmt args h short =
      let n : ℕ = length (args_bytes fmt args) in
      let same : (0 + n) % 2 ^ 64 ≡ n = omega (arith, length-args_le fmt args h) in
      vlength_loop-length fmt args 0 h (omega arith) ∙ rw same refl

  -- An encoding of `n` bytes succeeds with result 0, leaving `n` bytes stored; it leaves the buffer
  -- exactly when they do not fit.
  abbrev pub Outcome : ℕ → Buffer → Option (Buffer × ℤ) → Type 0
  Outcome n b none = Stores n b none
  Outcome n b (some (b', result)) = Stores n b (some b') × (result ≡ pos 0)

  put-Outcome :
      (n : ℕ) (b : Buffer) (m : Option Buffer)
      → Stores n b m
      → Outcome n b (m >>= λ b'. some (b', pos 0))
  put-Outcome n b none h = h
  put-Outcome n b (some b') h = (h, refl)

  -- For a format of fewer than 2 ^ 31 letters, with arguments of the types that the letters name,
  -- `tvnp_vlength` returns the number of bytes that `tvnp_vencode` stores: the encoder then returns 0
  -- with the offset moved by that number, and leaves the buffer exactly when there is less room. Doubles
  -- that are integral are in the range of `int64_t`.
  pub vencode-vlength :
      (fmt : List ℕ) (args : List Arg) (b : Buffer)
      → Typed fmt args
      → length fmt < 2 ^ 31
      → b.offset ≤ length b.data_bytes
      → (n : ℕ) × (vlength fmt args ≡ some (some n)) × Outcome n b (vencode b fmt args)
  vencode-vlength fmt args b h short inside =
      let bytes : List ℕ = args_bytes fmt args in
      (
        length bytes,
        vlength-length fmt args h short,
        rw (vencode-put fmt args b h)
            (put-Outcome (length bytes) b (put bytes b) (put-Stores bytes b inside)),
      )
