-- ===== src/Stdarg/Args.antt =====
-- A `va_list`. An argument is read at the type that the letter names; to read one of another kind,
-- or one that is not there, is undefined: `none`.
use libtvnet.Base.{ℕ, ◌^◌, List, ◌∷◌, Option, none, some, ℤ, pos, to_unsigned, to_signed}

-- An integer with the value that was passed, a double, a `long double` by the double that it converts
-- to, or a text.
pub data Arg : Type 0 where
  int : (x : ℤ) → Arg
  dbl : (x : ℕ) → Arg
  ldbl : (x : ℕ) → Arg
  str : (s : List ℕ) → Arg

-- `va_arg(ap, int32_t)`, `uint32_t`, `int64_t` and `uint64_t`: the low bits of the argument.
unfoldable pub arg_i32 : List Arg → Option (ℤ × List Arg)
arg_i32 (int x ∷ ap) = some (to_signed (2 ^ 32) x, ap)
arg_i32 _ = none

unfoldable pub arg_u32 : List Arg → Option (ℤ × List Arg)
arg_u32 (int x ∷ ap) = some (pos (to_unsigned (2 ^ 32) x), ap)
arg_u32 _ = none

unfoldable pub arg_i64 : List Arg → Option (ℤ × List Arg)
arg_i64 (int x ∷ ap) = some (to_signed (2 ^ 64) x, ap)
arg_i64 _ = none

-- The `uint64_t` is then converted to the parameter type `int64_t`.
unfoldable pub arg_u64 : List Arg → Option (ℤ × List Arg)
arg_u64 (int x ∷ ap) = some (to_signed (2 ^ 64) x, ap)
arg_u64 _ = none

-- `va_arg(ap, float64_t)`
unfoldable pub arg_f64 : List Arg → Option (ℕ × List Arg)
arg_f64 (dbl x ∷ ap) = some (x, ap)
arg_f64 _ = none

-- `va_arg(ap, float80_t)`, converted to the parameter type `double`
unfoldable pub arg_f80 : List Arg → Option (ℕ × List Arg)
arg_f80 (ldbl x ∷ ap) = some (x, ap)
arg_f80 _ = none

unfoldable pub arg_str : List Arg → Option (List ℕ × List Arg)
arg_str (str s ∷ ap) = some (s, ap)
arg_str _ = none
