-- ===== src/Stdarg/Spec.antt =====
-- What the argument encoder is to write, argument by argument.
use libtvnet.Base.{ℕ, ◌<◌, ◌^◌, List, [], ◌∷◌, ◌++◌, length}
use libtvnet.Base.{ℤ, pos, to_signed, to_unsigned}
use libtvnet.Tvutils.{Tvutils, IsF64}
use libtvnet.Pickle.Bytes.{integer_bytes, float_bytes, utf8_bytes}
use libtvnet.Stdarg.Args.{Arg, int, dbl, ldbl, str}
use libtvnet.Stdarg.Encoder.{Kind, i32, u32, i64, u64, f64, text, encode_kind}

-- The argument has the type that the case reads; a text is shorter than 2 ^ 32 bytes.
abbrev pub Matches : Kind → Arg → Type 0
Matches i32 (int x) = Unit
Matches u32 (int x) = Unit
Matches i64 (int x) = Unit
Matches u64 (int x) = Unit
Matches f64 (dbl x) = IsF64 x
Matches text (str s) = length s < 2 ^ 32
Matches _ _ = ⊥

-- Each letter is one that the encoder takes, and finds its argument.
abbrev pub Typed : List ℕ → List Arg → Type 0
Typed [] ap = Unit
Typed (c ∷ fmt) [] = ⊥
Typed (c ∷ fmt) (a ∷ ap) = Matches (encode_kind c) a × Typed fmt ap

-- The integer that an argument is encoded as.
abbrev pub converted : Kind → ℤ → ℤ
converted i32 x = to_signed (2 ^ 32) x
converted u32 x = pos (to_unsigned (2 ^ 32) x)
converted _ x = to_signed (2 ^ 64) x

module _ ⦃tv : Tvutils⦄ where
  abbrev pub arg_bytes : Kind → Arg → List ℕ
  arg_bytes k (int x) = integer_bytes (converted k x)
  arg_bytes k (dbl x) = float_bytes x
  arg_bytes k (ldbl x) = []
  arg_bytes k (str s) = utf8_bytes s

  abbrev pub args_bytes : List ℕ → List Arg → List ℕ
  args_bytes [] ap = []
  args_bytes (c ∷ fmt) [] = []
  args_bytes (c ∷ fmt) (a ∷ ap) = arg_bytes (encode_kind c) a ++ args_bytes fmt ap
