-- ===== src/Print/Arguments.antt =====
-- The arguments of a printf call that `tvnp_pickle_to_va` builds from encoded arguments.
use native.Mathlib.Nat.{add-zero}
use libtvnet.Base.{
  IsText, until_nul-append, append_assoc, ℕ, ◌+◌, ◌^◌, ◌≡◌, refl, ◌∙◌, List, [], ◌∷◌, ◌++◌, some,
  >>=_some, length, length-append, Bool, true, drop, drop-append, arith, All,
}
use libtvnet.Base.{ℤ, pos, to_signed, to_unsigned}
use libtvnet.Tvutils.{Tvutils}
use libtvnet.Buffer.{Buffer}
use libtvnet.Pickle.Length.{length_compound}
use libtvnet.Pickle.Bytes.{compound_bytes, utf8_bytes}
use libtvnet.Pickle.At.{At, behind, behind-behind, At-prefix, At-suffix}
use libtvnet.Pickle.Encoding.{length-compound_bytes}
use libtvnet.Pickle.Decoder.{Token, integer, decode_token}
use libtvnet.Pickle.RoundTrip.Float.{float_token}
use libtvnet.Stdarg.Args.{Arg, int, dbl, ldbl, str}
use libtvnet.Stdarg.Encoder.{Kind, i32, u32, i64, u64, f64, text, encode_kind}
use libtvnet.Stdarg.Spec.{Matches, Typed, converted, arg_bytes, args_bytes}
use libtvnet.Stdarg.RoundTrip.{
  restored_f64, SameDouble, restored_f64-SameDouble, arg_token, decode_arg-At, Matches-ldbl,
}
use libtvnet.Print.Decoder.{
  VaArg, va_i32, va_u32, va_i64, va_u64, va_f64, va_f80_of_f64, va_str, c_string, va_signed_32,
  va_unsigned_32, va_signed_64, va_unsigned_64, va_double, va_text, va_token, cast_fits, to_va_loop,
  va_value, va_values,
}

abbrev pub ArgIsText : Arg → Type 0
ArgIsText (str s) = IsText s
ArgIsText _ = Unit

pub c_string-At :
    (s : List ℕ) {b : Buffer} → IsText s → At b (s ++ (0 ∷ [])) → c_string b b.offset ≡ some s
unfolding c_string
c_string-At s {b} h at =
    let found : drop b.offset b.data_bytes ≡ (s ++ (0 ∷ [])) ++ at.after =
      rw (at.memory, at.here) (drop-append at.before _) in
    rw (found, append_assoc s (0 ∷ []) at.after) (until_nul-append s at.after h)

module _ ⦃tv : Tvutils⦄ where
  -- What the type named by the kind keeps of an argument.
  abbrev pub received : Kind → Arg → Arg
  received i32 (int x) = int (to_signed (2 ^ 32) x)
  received u32 (int x) = int (pos (to_unsigned (2 ^ 32) x))
  received u64 (int x) = int (pos (to_unsigned (2 ^ 64) x))
  received _ (int x) = int (to_signed (2 ^ 64) x)
  received _ (dbl x) = dbl (restored_f64 x)
  received _ (ldbl x) = ldbl x
  received _ (str s) = str s

  abbrev pub all_received : List ℕ → List Arg → List Arg
  all_received [] args = []
  all_received (c ∷ fmt) [] = []
  all_received (c ∷ fmt) (a ∷ args) = received (encode_kind c) a ∷ all_received fmt args

  -- The argument that is handed on, for a type of that kind.
  abbrev pub ReceivedAs : Kind → Arg → Arg → Type 0
  ReceivedAs k (int x) a = a ≡ received k (int x)
  ReceivedAs k (dbl x) a = (y : ℕ) × (a ≡ dbl y) × SameDouble x y
  ReceivedAs k (ldbl x) a = ⊥
  ReceivedAs k (str s) a = a ≡ str s

  abbrev pub AllReceivedAs : List ℕ → List Arg → List Arg → Type 0
  AllReceivedAs [] args [] = Unit
  AllReceivedAs (c ∷ fmt) (a ∷ args) (x ∷ xs) =
      ReceivedAs (encode_kind c) a x × AllReceivedAs fmt args xs
  AllReceivedAs _ _ _ = ⊥

  received-ReceivedAs : (k : Kind) (a : Arg) → Matches k a → ReceivedAs k a (received k a)
  received-ReceivedAs k (int x) h = refl
  received-ReceivedAs f64 (dbl x) h = (restored_f64 x, refl, restored_f64-SameDouble x h)
  received-ReceivedAs text (str s) h = refl
  received-ReceivedAs k (ldbl x) h = absurd (Matches-ldbl k x h)
  received-ReceivedAs _ _ h = absurd h

  pub all_received-AllReceivedAs :
      (fmt : List ℕ) (args : List Arg)
      → Typed fmt args
      → AllReceivedAs fmt args (all_received fmt args)
  all_received-AllReceivedAs [] args h = tt
  all_received-AllReceivedAs (c ∷ fmt) [] h = absurd h
  all_received-AllReceivedAs (c ∷ fmt) (a ∷ args) (h, hs) =
      (received-ReceivedAs (encode_kind c) a h, all_received-AllReceivedAs fmt args hs)

  -- what is set for an argument that was encoded at the offset `o`
  abbrev set_arg : ℕ → Kind → Arg → VaArg
  set_arg o i32 (int x) = va_i32 (to_signed (2 ^ 32) x)
  set_arg o u32 (int x) = va_u32 (to_unsigned (2 ^ 32) x)
  set_arg o u64 (int x) = va_u64 (to_unsigned (2 ^ 64) x)
  set_arg o _ (int x) = va_i64 (to_signed (2 ^ 64) x)
  set_arg o _ (dbl x) = va_f64 (restored_f64 x)
  set_arg o _ (ldbl x) = va_f80_of_f64 x
  set_arg o _ (str s) = va_str (o + length_compound (length s))

  va_int :
      (o c : ℕ) (x : ℤ)
      → Matches (encode_kind c) (int x)
      → va_token c (integer (converted (encode_kind c) x))
        ≡ some (set_arg o (encode_kind c) (int x))
  unfolding va_token encode_kind va_signed_32 va_unsigned_32 va_signed_64 va_unsigned_64
  va_int o c x h = ground arith

  va_dbl :
      (o c x : ℕ)
      → Matches (encode_kind c) (dbl x)
      → va_token c (float_token x) ≡ some (set_arg o (encode_kind c) (dbl x))
  unfolding va_token encode_kind va_double float_token
  va_dbl o c x h = ground arith

  va_str_lem :
      (o c : ℕ) (s : List ℕ)
      → Matches (encode_kind c) (str s)
      → va_token c (arg_token o (encode_kind c) (str s)) ≡ some (set_arg o (encode_kind c) (str s))
  unfolding va_token encode_kind va_text
  va_str_lem o c s h = ground arith

  va_arg_lem :
      (o c : ℕ) (a : Arg)
      → Matches (encode_kind c) a
      → va_token c (arg_token o (encode_kind c) a) ≡ some (set_arg o (encode_kind c) a)
  va_arg_lem o c (int x) h = va_int o c x h
  va_arg_lem o c (dbl x) h = va_dbl o c x h
  va_arg_lem o c (ldbl x) h = absurd (Matches-ldbl (encode_kind c) x h)
  va_arg_lem o c (str s) h = va_str_lem o c s h

  -- `m` is the buffer when `va_arg` is called, later.
  va_value-At :
      (k : Kind) (a : Arg) {b : Buffer} (m : Buffer)
      → m.data_bytes ≡ b.data_bytes
      → Matches k a
      → ArgIsText a
      → At b (arg_bytes k a)
      → va_value m (set_arg b.offset k a) ≡ some (received k a)
  unfolding va_value utf8_bytes c_string
  va_value-At i32 (int x) m same h t at = refl
  va_value-At u32 (int x) m same h t at = refl
  va_value-At i64 (int x) m same h t at = refl
  va_value-At u64 (int x) m same h t at = refl
  va_value-At f64 (dbl x) m same h t at = refl
  va_value-At text (str s) {b} m same h t at =
      let header : List ℕ = compound_bytes 0x80 (length s) in
      rw (← length-compound_bytes 0x80 (length s), same)
        (rw (c_string-At s t (At-suffix header (s ++ (0 ∷ [])) at)) refl)
  va_value-At k (ldbl x) m same h t at = absurd (Matches-ldbl k x h)
  va_value-At _ _ m same h t at = absurd h

  abbrev pub set_args : ℕ → List ℕ → List Arg → List VaArg
  set_args o [] args = []
  set_args o (c ∷ types) [] = []
  set_args o (c ∷ types) (a ∷ args) =
      set_arg o (encode_kind c) a ∷ set_args (o + length (arg_bytes (encode_kind c) a)) types args

  pub va_values-At :
      (types : List ℕ) (args : List Arg) {b : Buffer} (m : Buffer)
      → m.data_bytes ≡ b.data_bytes
      → Typed types args
      → All ArgIsText args
      → At b (args_bytes types args)
      → va_values m (set_args b.offset types args) ≡ some (all_received types args)
  unfolding va_values
  va_values-At [] args m same h t at = refl
  va_values-At (c ∷ types) [] m same h t at = absurd h
  va_values-At (c ∷ types) (a ∷ args) {b} m same (h, hs) (t, ts) at =
      let bs : List ℕ = arg_bytes (encode_kind c) a in
      let rest : List ℕ = args_bytes types args in
      rw
        (
          va_value-At (encode_kind c) a m same h t (At-prefix bs rest at),
          va_values-At types args m same hs ts (At-suffix bs rest at),
        )
        refl

  -- The buffer has room for the argument of each further type.
  abbrev pub AllFit : (List ℕ → Bool) → (set types : List ℕ) → Type 0
  AllFit va_fits set [] = Unit
  AllFit va_fits set (c ∷ types) =
      (va_fits (set ++ (c ∷ [])) ≡ true) × AllFit va_fits (set ++ (c ∷ [])) types

  -- No encoded argument is cast out of range.
  cast_dbl : (c x : ℕ) → Matches (encode_kind c) (dbl x) → cast_fits c (float_token x) ≡ true
  unfolding cast_fits encode_kind float_token
  cast_dbl c x h = ground arith

  cast_arg :
      (o c : ℕ) (a : Arg)
      → Matches (encode_kind c) a
      → cast_fits c (arg_token o (encode_kind c) a) ≡ true
  unfolding cast_fits
  cast_arg o c (int x) h = refl
  cast_arg o c (dbl x) h = cast_dbl c x h
  cast_arg o c (ldbl x) h = absurd (Matches-ldbl (encode_kind c) x h)
  cast_arg o c (str s) h = refl

  to_va_loop-step :
      (va_fits : List ℕ → Bool) (set : List ℕ) (junk c : ℕ) (types : List ℕ) (b b' b'' : Buffer)
      {t : Token} {a : VaArg} {args : List VaArg}
      → decode_token junk b ≡ some (t, b')
      → va_token c t ≡ some a
      → cast_fits c t ≡ true
      → va_fits (set ++ (c ∷ [])) ≡ true
      → to_va_loop va_fits (set ++ (c ∷ [])) junk b' types ≡ some (b'', some args)
      → to_va_loop va_fits set junk b (c ∷ types) ≡ some (b'', some (a ∷ args))
  unfolding to_va_loop
  to_va_loop-step va_fits set junk c types b b' b'' e e2 k k2 e3 =
      >>=_some _ _ _ _ e (rw (e2, k, k2) (>>=_some _ _ _ _ e3 refl))

  pub to_va_loop-At :
      (va_fits : List ℕ → Bool) (set : List ℕ) (junk : ℕ) (types : List ℕ) (args : List Arg)
      {b : Buffer}
      → Typed types args
      → AllFit va_fits set types
      → At b (args_bytes types args)
      → to_va_loop va_fits set junk b types
        ≡ some (behind (length (args_bytes types args)) b, some (set_args b.offset types args))
  unfolding to_va_loop
  to_va_loop-At va_fits set junk [] args {b} h fit at = rw (add-zero b.offset) refl
  to_va_loop-At va_fits set junk (c ∷ types) [] h fit at = absurd h
  to_va_loop-At va_fits set junk (c ∷ types) (a ∷ args) {b} (h, hs) (fit, fits) at =
      let bs : List ℕ = arg_bytes (encode_kind c) a in
      let rest : List ℕ = args_bytes types args in
      to_va_loop-step va_fits set junk c types _ _ _
        (decode_arg-At junk (encode_kind c) a h (At-prefix bs rest at)) (va_arg_lem b.offset c a h)
        (cast_arg b.offset c a h) fit
        (to_va_loop-At va_fits (set ++ (c ∷ [])) junk types args hs fits (At-suffix bs rest at))
      ∙ rw (behind-behind (length bs) (length rest) b, length-append bs rest) refl
