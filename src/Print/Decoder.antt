-- ===== src/Print/Decoder.antt =====
-- tvnet/pickle_print.c, from a message to a printf call. `none` is undefined behaviour or `abort()`.
use libtvnet.Base.{
  until_nul, ℕ, ◌+◌, ◌-◌, ◌^◌, take, List, [], ◌∷◌, Option, none, some, ◌>>=◌, length, drop,
  if◌then◌else◌, ◌==◌, ◌||◌, ltb, Bool, true, ◌&&◌, ◌++◌,
}
use libtvnet.Base.{codes, ℤ, pos, negsuc, to_signed, to_unsigned}
use libtvnet.Tvutils.{Tvutils}
use libtvnet.Buffer.{Buffer}
use libtvnet.Pickle.Decoder.{
  Token, integer, float, utf8_string, bin_string, null_token, decode_token,
}
use libtvnet.Fmt.{fmt_parse}
use libtvnet.Stdarg.Args.{Arg, int, dbl, ldbl, str}

-- The calls of `tvu_va_set_gp` and `tvu_va_set_fp`: an argument with its type. A `long double` is
-- given by what it was converted from, a text by its offset in the buffer.
pub data VaArg : Type 0 where
  va_i32 : (x : ℤ) → VaArg
  va_u32 : (x : ℕ) → VaArg
  va_i64 : (x : ℤ) → VaArg
  va_u64 : (x : ℕ) → VaArg
  va_f64 : (x : ℕ) → VaArg
  va_f80_of_int : (x : ℤ) → VaArg
  va_f80_of_f64 : (x : ℕ) → VaArg
  va_str : (pointer : ℕ) → VaArg
  va_null_text : VaArg

-- The C string at a pointer into the buffer; `none` if it runs over the memory.
unfoldable pub c_string : Buffer → ℕ → Option (List ℕ)
unfolding until_nul
c_string b pointer = until_nul (drop pointer b.data_bytes)

-- What the frame gives to the arrays: `array_room n` is how many bytes an array of `n` bytes gets, and
-- `va_fits` says whether the buffer of TVU_VA_BUFFER_SIZE bytes, whose layout is that of tvutils, has
-- room for arguments of the types that the letters name.
pub record VaFrame : Type 0 where
  pub array_room : ℕ → ℕ
  pub va_fits : List ℕ → Bool

module _ ⦃tv : Tvutils⦄ where
  unfoldable pub va_signed_32 : Token → Option VaArg
  va_signed_32 (integer i) = some (va_i32 (to_signed (2 ^ 32) i))
  va_signed_32 (float f) = some (va_i32 (tv.f64_to_int 4 f))
  va_signed_32 _ = none

  unfoldable pub va_unsigned_32 : Token → Option VaArg
  va_unsigned_32 (integer i) = some (va_u32 (to_unsigned (2 ^ 32) i))
  va_unsigned_32 (float f) = some (va_u32 (tv.f64_to_uint 4 f))
  va_unsigned_32 _ = none

  unfoldable pub va_signed_64 : Token → Option VaArg
  va_signed_64 (integer i) = some (va_i64 (to_signed (2 ^ 64) i))
  va_signed_64 (float f) = some (va_i64 (tv.f64_to_int 8 f))
  va_signed_64 _ = none

  unfoldable pub va_unsigned_64 : Token → Option VaArg
  va_unsigned_64 (integer i) = some (va_u64 (to_unsigned (2 ^ 64) i))
  va_unsigned_64 (float f) = some (va_u64 (tv.f64_to_uint 8 f))
  va_unsigned_64 _ = none

  unfoldable pub va_double : Token → Option VaArg
  va_double (integer i) = some (va_f64 (tv.f64_of_int i))
  va_double (float f) = some (va_f64 f)
  va_double _ = none

  unfoldable pub va_long_double : Token → Option VaArg
  va_long_double (integer i) = some (va_f80_of_int i)
  va_long_double (float f) = some (va_f80_of_f64 f)
  va_long_double _ = none

  unfoldable pub va_text : Token → Option VaArg
  va_text (utf8_string u pointer) = some (va_str pointer)
  va_text (bin_string u pointer) = some (va_str pointer)
  va_text null_token = some va_null_text
  va_text _ = none

  -- The `switch (c)` of `tvnp_pickle_to_va`; `none` is a return of NULL with errno = EINVAL.
  unfoldable pub va_token : ℕ → Token → Option VaArg
  unfolding va_signed_32 va_unsigned_32 va_signed_64 va_unsigned_64 va_double va_long_double va_text
  va_token c token =
      if c == b'b' || c == b'w' || c == b'd'
      then va_signed_32 token
      else if c == b'B' || c == b'W' || c == b'D'
      then va_unsigned_32 token
      else if c == b'q'
      then va_signed_64 token
      else if c == b'Q'
      then va_unsigned_64 token
      else if c == b'f' || c == b'F'
      then va_double token
      else if c == b'G'
      then va_long_double token
      else if c == b's'
      then va_text token
      else none

  -- The cast of a double to the type of the letter is defined.
  unfoldable pub cast_fits : ℕ → Token → Bool
  cast_fits c (float f) =
      if c == b'b' || c == b'w' || c == b'd'
      then tv.fits_int 4 f
      else if c == b'B' || c == b'W' || c == b'D'
      then tv.fits_uint 4 f
      else if c == b'q'
      then tv.fits_int 8 f
      else if c == b'Q'
      then tv.fits_uint 8 f
      else true
  cast_fits c _ = true

  -- The loop, with the letters whose arguments are set already: the buffer that it leaves, and the arguments set; the inner `none` is NULL.
  unfoldable pub to_va_loop :
      (va_fits : List ℕ → Bool) (set : List ℕ) (junk : ℕ)
      → Buffer
      → List ℕ
      → Option (Buffer × Option (List VaArg))
  to_va_loop va_fits set junk b [] = some (b, some [])
  to_va_loop va_fits set junk b (c ∷ types) = decode_token junk b >>= λ (token, b').
      elim (va_token c token) [
        | none ↦ some (b', none)
        | some a ↦
            let rest = to_va_loop va_fits (set ++ (c ∷ [])) junk b' types in
            if cast_fits c token && va_fits (set ++ (c ∷ []))
            then (rest >>= λ (b'', r). some (b'', r >>= λ args. some (a ∷ args)))
            else none
      ]

  -- `tvnp_pickle_to_va`: the buffer that it leaves, with the offset of the format and the arguments.
  -- The array `fmt_types` gets one byte for each '%', and a store behind what the frame gives is
  -- undefined. An array of no bytes is taken to be allowed, as GCC does.
  unfoldable pub pickle_to_va :
      (frame : VaFrame) (junk : ℕ) → Buffer → Option (Buffer × Option (ℕ × List VaArg))
  pickle_to_va frame junk b = decode_token junk b >>= λ (token, b'). elim token [
    | utf8_string u fmt ↦ c_string b' fmt >>= λ text. fmt_parse text >>= λ types.
        if ltb (frame.array_room (tv.count_character text b'%')) (length types + 1)
        then none
        else (to_va_loop frame.va_fits [] junk b' types >>= λ (b'', r).
            some (b'', r >>= λ args. some (fmt, args)))
    | _ ↦ some (b', none)
  ]

  -- What `va_arg` finds where the argument was set, the text behind a pointer included.
  unfoldable pub va_value : Buffer → VaArg → Option Arg
  va_value b (va_i32 x) = some (int x)
  va_value b (va_u32 x) = some (int (pos x))
  va_value b (va_i64 x) = some (int x)
  va_value b (va_u64 x) = some (int (pos x))
  va_value b (va_f64 x) = some (dbl x)
  va_value b (va_f80_of_int x) = some (ldbl (tv.f64_of_int x))
  va_value b (va_f80_of_f64 x) = some (ldbl x)
  va_value b (va_str pointer) = c_string b pointer >>= λ s. some (str s)
  va_value b va_null_text = some (str (codes "(NULL)"))

  unfoldable pub va_values : Buffer → List VaArg → Option (List Arg)
  unfolding va_value
  va_values b [] = some []
  va_values b (a ∷ args) = va_value b a >>= λ x. va_values b args >>= λ xs. some (x ∷ xs)

  -- The body of `tvnp_fprintp` and its like, with what it makes of the format and the arguments.
  unfoldable pub print_with :
      {R : Type 0} (failed : R) (vprintf : List ℕ → List Arg → Option R) (frame : VaFrame)
      (junk : ℕ)
      → Buffer
      → Option (Buffer × R)
  print_with failed vprintf frame junk b = pickle_to_va frame junk b >>= λ (b', r). elim r [
    | none ↦ some (b', failed)
    | some (fmt, args) ↦ c_string b' fmt >>= λ text.
        va_values b' args >>= λ values. vprintf text values >>= λ r. some (b', r)
  ]

  -- `tvnp_fprintp` and its like: `vprintf` of libc, a parameter, is handed the format and the
  -- arguments; `none` is a call that libc leaves undefined, as with a directive that has no argument. The result -1 goes with errno = EINVAL.
  unfoldable pub printp :
      (vprintf : List ℕ → List Arg → Option ℤ) (frame : VaFrame) (junk : ℕ)
      → Buffer
      → Option (Buffer × ℤ)
  printp vprintf frame junk b = print_with (negsuc 0) vprintf frame junk b

  -- `tvnp_snprintp`: what it stores into `str` of `size` bytes, less the nul, or `none` if it stores
  -- nothing. `printf_text` is all that libc's printf makes of a format and its arguments, if it is defined on them.
  unfoldable pub snprintp :
      (printf_text : List ℕ → List Arg → Option (List ℕ)) (frame : VaFrame) (junk size : ℕ)
      → Buffer
      → Option (Buffer × Option (List ℕ))
  snprintp printf_text frame junk size b =
      print_with none
        (λ fmt args. printf_text fmt args >>= λ text. some (some (take (size - 1) text))) frame junk
        b
