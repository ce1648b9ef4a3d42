-- ===== src/Stdarg/Encoder.antt =====
-- tvnet/pickle_stdarg_encoder.c. The outer `none` is undefined behaviour: an argument that does not
-- match its letter, or a store outside the buffer. A result of -1 goes with errno = EINVAL.
use libtvnet.Base.{
  ℕ, ◌+◌, ◌%◌, ◌^◌, List, [], ◌∷◌, Option, none, some, ◌>>=◌, length, if◌then◌else◌, ◌==◌,
}
use libtvnet.Base.{ℤ, pos, negsuc}
use libtvnet.Tvutils.{Tvutils}
use libtvnet.Buffer.{Buffer}
use libtvnet.Pickle.Length.{length_integer, length_float, length_utf8_string}
use libtvnet.Pickle.Encoder.{encode_integer, encode_float, encode_utf8_string}
use libtvnet.Stdarg.Args.{Arg, arg_i32, arg_u32, arg_i64, arg_u64, arg_f64, arg_f80, arg_str}

-- The cases of the two `switch` statements, by the type that they read.
pub data Kind : Type 0 where
  i32 u32 i64 u64 f64 f80 text invalid : Kind

-- the `switch` of `tvnp_vencode`
unfoldable pub encode_kind : ℕ → Kind
encode_kind c =
    if c == b'b'
    then i32
    else if c == b'B'
    then u32
    else if c == b'w'
    then i32
    else if c == b'W'
    then u32
    else if c == b'd'
    then i32
    else if c == b'D'
    then u32
    else if c == b'q'
    then i64
    else if c == b'Q'
    then u64
    else if c == b'f'
    then f64
    else if c == b'F'
    then f64
    else if c == b's'
    then text
    else invalid

-- the `switch` of `tvnp_vlength`, with the letter 'G' besides
unfoldable pub length_kind : ℕ → Kind
length_kind c =
    if c == b'b'
    then i32
    else if c == b'B'
    then u32
    else if c == b'w'
    then i32
    else if c == b'W'
    then u32
    else if c == b'd'
    then i32
    else if c == b'D'
    then u32
    else if c == b'q'
    then i64
    else if c == b'Q'
    then u64
    else if c == b'f'
    then f64
    else if c == b'F'
    then f64
    else if c == b'G'
    then f80
    else if c == b's'
    then text
    else invalid

-- what `strlen` says, in a `size_t`
abbrev pub strlen : List ℕ → ℕ
strlen s = length s % 2 ^ 64

module _ ⦃tv : Tvutils⦄ where
  -- One case of `tvnp_vlength`; the inner `none` is the default case.
  unfoldable pub length_arg : Kind → List Arg → Option (Option (ℕ × List Arg))
  length_arg i32 ap = arg_i32 ap >>= λ (x, rest). some (some (length_integer x, rest))
  length_arg u32 ap = arg_u32 ap >>= λ (x, rest). some (some (length_integer x, rest))
  length_arg i64 ap = arg_i64 ap >>= λ (x, rest). some (some (length_integer x, rest))
  length_arg u64 ap = arg_u64 ap >>= λ (x, rest). some (some (length_integer x, rest))
  length_arg f64 ap = arg_f64 ap >>= λ (x, rest). length_float x >>= λ n. some (some (n, rest))
  length_arg f80 ap = arg_f80 ap >>= λ (x, rest). length_float x >>= λ n. some (some (n, rest))
  length_arg text ap = arg_str ap >>= λ (s, rest). some (some (length_utf8_string (strlen s), rest))
  length_arg invalid ap = some none

  -- The loop of `tvnp_vlength`; the inner `none` is the result -1.
  unfoldable pub vlength_loop : ℕ → List ℕ → List Arg → Option (Option ℕ)
  vlength_loop size [] ap = some (some size)
  vlength_loop size (c ∷ fmt) ap =
      length_arg (length_kind c) ap
      >>= elim [ none ↦ some none | some (n, rest) ↦ vlength_loop ((size + n) % 2 ^ 64) fmt rest ]

  unfoldable pub vlength : List ℕ → List Arg → Option (Option ℕ)
  unfolding vlength_loop
  vlength fmt ap = vlength_loop 0 fmt ap

  -- One case of `tvnp_vencode`.
  unfoldable pub encode_arg : Kind → List Arg → Buffer → Option (Option (Buffer × List Arg))
  encode_arg i32 ap b =
      arg_i32 ap >>= λ (x, rest). encode_integer x b >>= λ b'. some (some (b', rest))
  encode_arg u32 ap b =
      arg_u32 ap >>= λ (x, rest). encode_integer x b >>= λ b'. some (some (b', rest))
  encode_arg i64 ap b =
      arg_i64 ap >>= λ (x, rest). encode_integer x b >>= λ b'. some (some (b', rest))
  encode_arg u64 ap b =
      arg_u64 ap >>= λ (x, rest). encode_integer x b >>= λ b'. some (some (b', rest))
  encode_arg f64 ap b =
      arg_f64 ap >>= λ (x, rest). encode_float x b >>= λ b'. some (some (b', rest))
  encode_arg f80 ap b =
      arg_f80 ap >>= λ (x, rest). encode_float x b >>= λ b'. some (some (b', rest))
  encode_arg text ap b =
      arg_str ap >>= λ (s, rest). encode_utf8_string s b >>= λ b'. some (some (b', rest))
  encode_arg invalid ap b = some none

  -- `tvnp_vencode`, with the buffer that it leaves and its result.
  unfoldable pub vencode : Buffer → List ℕ → List Arg → Option (Buffer × ℤ)
  vencode b [] ap = some (b, pos 0)
  vencode b (c ∷ fmt) ap =
      encode_arg (encode_kind c) ap b
      >>= elim [ none ↦ some (b, negsuc 0) | some (b', rest) ↦ vencode b' fmt rest ]
