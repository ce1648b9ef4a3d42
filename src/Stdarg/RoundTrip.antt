-- ===== src/Stdarg/RoundTrip.antt =====
-- What `tvnp_vencode` stored, `tvnp_vdecode` with the same format reads back.
use libtvnet.Base.{
  ℕ, ◌+◌, ◌^◌, ◌≤◌, ◌<◌, ◌≡◌, refl, sym, ap, ◌∙◌, List, [], ◌∷◌, Option, none, some, ◌>>=◌,
  >>=_some, length, length-append, arith, if◌then◌else◌, ◌==◌, Bool, true, false, Bool-cases, inl,
  inr, ◌⊎◌,
}
use libtvnet.Base.{ℤ, pos, IsI64, to_signed, to_unsigned}
use native.Mathlib.Nat.{add-zero}
use mathlib.Core.Option.{some-injective}
use libtvnet.Tvutils.{Tvutils, IsF64}
use libtvnet.Buffer.{Buffer, put}
use libtvnet.Pickle.Length.{length_compound, is_integral, is_float32}
use libtvnet.Pickle.At.{At, behind, behind-behind, At-prefix, At-suffix, put-At}
use libtvnet.Pickle.Encoding.{length-compound_bytes}
use libtvnet.Pickle.Decoder.{Token, integer, float, utf8_string, decode_token}
use libtvnet.Pickle.RoundTrip.Integer.{decode_integer-At}
use libtvnet.Pickle.RoundTrip.Float.{float_token, decode_float-At}
use libtvnet.Pickle.RoundTrip.Compound.{decode_utf8-At}
use libtvnet.Stdarg.Args.{Arg, int, dbl, ldbl, str}
use libtvnet.Stdarg.Encoder.{
  Kind, i32, u32, i64, u64, f64, f80, text, invalid, encode_kind, vencode,
}
use libtvnet.Stdarg.Decoder.{
  Slot, int_slot, f32_slot, f64_slot, str_slot, store_signed, store_unsigned, store_f32, store_f64,
  store_str, store_token, vdecode,
}
use libtvnet.Stdarg.Spec.{Matches, Typed, converted, arg_bytes, args_bytes}
use libtvnet.Stdarg.Size.{vencode-put}

pub Matches-ldbl : (k : Kind) (x : ℕ) → Matches k (ldbl x) → ⊥
Matches-ldbl i32 x h = h
Matches-ldbl u32 x h = h
Matches-ldbl i64 x h = h
Matches-ldbl u64 x h = h
Matches-ldbl f64 x h = h
Matches-ldbl f80 x h = h
Matches-ldbl text x h = h
Matches-ldbl invalid x h = h

first_some :
    (m : Option Buffer) {b : Buffer} (i j : ℤ)
    → ◌>>=◌ {B = Buffer × ℤ} m (λ b'. some (b', i)) ≡ some (b, j)
    → m ≡ some b
first_some none i j e = cc
first_some (some b') i j e = ap some (ap (λ (p : Buffer × ℤ). p.0) (some-injective _ _ e))

module _ ⦃tv : Tvutils⦄ where
  -- A double after the trip: through `int64_t` if it is integral, else through `float` if that keeps
  -- its value.
  abbrev pub restored_f64 : ℕ → ℕ
  restored_f64 x =
      if is_integral x
      then tv.f64_of_int (tv.f64_to_int 8 x)
      else if is_float32 x
      then tv.widen (tv.narrow x)
      else x

  abbrev pub restored_f32 : ℕ → ℕ
  restored_f32 x =
      if is_integral x
      then tv.f32_of_int (tv.f64_to_int 8 x)
      else if is_float32 x
      then tv.narrow (tv.widen (tv.narrow x))
      else tv.narrow x

  abbrev pub restored_int : ℕ → ℤ → ℤ
  restored_int c x =
      if c == b'b'
      then to_signed (2 ^ 8) x
      else if c == b'B'
      then pos (to_unsigned (2 ^ 8) x)
      else if c == b'w'
      then to_signed (2 ^ 16) x
      else if c == b'W'
      then pos (to_unsigned (2 ^ 16) x)
      else if c == b'd'
      then to_signed (2 ^ 32) x
      else if c == b'D'
      then pos (to_unsigned (2 ^ 32) x)
      else if c == b'q'
      then to_signed (2 ^ 64) x
      else pos (to_unsigned (2 ^ 64) x)

  -- The double is equal to `x`, which a NaN is not to itself, or is `x`; the `float` is so to what `x`
  -- is as a `float`.
  abbrev pub SameDouble : ℕ → ℕ → Type 0
  SameDouble x y = (tv.f64_eq y x ≡ true) ⊎ (y ≡ x)

  abbrev pub SameFloat : ℕ → ℕ → Type 0
  SameFloat x y = (tv.f64_eq (tv.widen y) (tv.widen (tv.narrow x)) ≡ true) ⊎ (y ≡ tv.narrow x)

  pub restored_f64-SameDouble : (x : ℕ) → IsF64 x → SameDouble x (restored_f64 x)
  unfolding is_integral is_float32
  restored_f64-SameDouble x h = elim (Bool-cases (tv.f64_eq (tv.floor x) x)) [
    | inl e ↦ rw e (inl (tv.f64_of_int-f64_to_int x h e))
    | inr e ↦ elim (Bool-cases (tv.f64_eq (tv.widen (tv.narrow x)) x)) [
      | inl e2 ↦ rw (e, e2) (inl e2)
      | inr e2 ↦ rw (e, e2) (inr refl)
    ]
  ]

  restored_f32-SameFloat : (x : ℕ) → IsF64 x → SameFloat x (restored_f32 x)
  unfolding is_integral is_float32
  restored_f32-SameFloat x h = elim (Bool-cases (tv.f64_eq (tv.floor x) x)) [
    | inl e ↦ rw e (inl (tv.f32_of_int-f64_to_int x h e))
    | inr e ↦ elim (Bool-cases (tv.f64_eq (tv.widen (tv.narrow x)) x)) [
      | inl e2 ↦ rw (e, e2) (inl (tv.widen-narrow x e2))
      | inr e2 ↦ rw (e, e2) (inr refl)
    ]
  ]

  -- What the letter `c` is to store for an argument that was encoded at the offset `o`.
  abbrev pub expected : ℕ → ℕ → Arg → Slot
  expected o c (int x) = int_slot (restored_int c x)
  expected o c (dbl x) = if c == b'f' then f32_slot (restored_f32 x) else f64_slot (restored_f64 x)
  expected o c (ldbl x) = f64_slot x
  expected o c (str s) = str_slot (o + length_compound (length s))

  abbrev pub all_expected : ℕ → List ℕ → List Arg → List Slot
  all_expected o [] args = []
  all_expected o (c ∷ fmt) [] = []
  all_expected o (c ∷ fmt) (a ∷ args) =
      expected o c a ∷ all_expected (o + length (arg_bytes (encode_kind c) a)) fmt args

  -- The slot is what the letter `c` is to store for an argument that was encoded at the offset `o`.
  abbrev pub StoredDouble : Bool → ℕ → Slot → Type 0
  StoredDouble true x slot = (y : ℕ) × (slot ≡ f32_slot y) × SameFloat x y
  StoredDouble false x slot = (y : ℕ) × (slot ≡ f64_slot y) × SameDouble x y

  abbrev pub StoredAs : ℕ → ℕ → Arg → Slot → Type 0
  StoredAs o c (int x) slot = slot ≡ int_slot (restored_int c x)
  StoredAs o c (dbl x) slot = StoredDouble (c == b'f') x slot
  StoredAs o c (ldbl x) slot = ⊥
  StoredAs o c (str s) slot = slot ≡ str_slot (o + length_compound (length s))

  abbrev pub AllStoredAs : ℕ → List ℕ → List Arg → List Slot → Type 0
  AllStoredAs o [] args [] = Unit
  AllStoredAs o (c ∷ fmt) (a ∷ args) (slot ∷ slots) =
      StoredAs o c a slot × AllStoredAs (o + length (arg_bytes (encode_kind c) a)) fmt args slots
  AllStoredAs o _ _ _ = ⊥

  Matches-IsF64 : (k : Kind) (x : ℕ) → Matches k (dbl x) → IsF64 x
  Matches-IsF64 f64 x h = h
  Matches-IsF64 _ x h = absurd h

  expected-double :
      (as_float : Bool) (x : ℕ)
      → IsF64 x
      → StoredDouble as_float x
          (if as_float then f32_slot (restored_f32 x) else f64_slot (restored_f64 x))
  expected-double true x h = (restored_f32 x, refl, restored_f32-SameFloat x h)
  expected-double false x h = (restored_f64 x, refl, restored_f64-SameDouble x h)

  expected-StoredAs :
      (o c : ℕ) (a : Arg) → Matches (encode_kind c) a → StoredAs o c a (expected o c a)
  expected-StoredAs o c (int x) h = refl
  expected-StoredAs o c (dbl x) h =
      expected-double (c == b'f') x (Matches-IsF64 (encode_kind c) x h)
  expected-StoredAs o c (ldbl x) h = absurd (Matches-ldbl (encode_kind c) x h)
  expected-StoredAs o c (str s) h = refl

  all_expected-AllStoredAs :
      (o : ℕ) (fmt : List ℕ) (args : List Arg)
      → Typed fmt args
      → AllStoredAs o fmt args (all_expected o fmt args)
  all_expected-AllStoredAs o [] args h = tt
  all_expected-AllStoredAs o (c ∷ fmt) [] h = absurd h
  all_expected-AllStoredAs o (c ∷ fmt) (a ∷ args) (h, hs) = (
    expected-StoredAs o c a h,
    all_expected-AllStoredAs (o + length (arg_bytes (encode_kind c) a)) fmt args hs,
  )

  -- the token that an argument is encoded as
  abbrev pub arg_token : ℕ → Kind → Arg → Token
  arg_token o k (int x) = integer (converted k x)
  arg_token o k (dbl x) = float_token x
  arg_token o k (ldbl x) = float x
  arg_token o k (str s) = utf8_string (length s) (o + length_compound (length s))

  converted-IsI64 : (k : Kind) (x : ℤ) → IsI64 (converted k x)
  converted-IsI64 i32 x = ground arith
  converted-IsI64 u32 x = ground arith
  converted-IsI64 _ x = ground arith

  pub decode_arg-At :
      (junk : ℕ) {b : Buffer} (k : Kind) (a : Arg)
      → Matches k a
      → At b (arg_bytes k a)
      → decode_token junk b ≡ some (arg_token b.offset k a, behind (length (arg_bytes k a)) b)
  decode_arg-At junk k (int x) h at =
      decode_integer-At junk (converted k x) (converted-IsI64 k x) at
  decode_arg-At junk f64 (dbl x) h at = decode_float-At junk x h at
  decode_arg-At junk {b} text (str s) h at =
      rw (← length-compound_bytes 0x80 (length s)) (decode_utf8-At junk s h at)
  decode_arg-At junk k (ldbl x) h at = absurd (Matches-ldbl k x h)
  decode_arg-At junk _ _ h at = absurd h

  store_int :
      (o c : ℕ) (x : ℤ)
      → Matches (encode_kind c) (int x)
      → store_token c (integer (converted (encode_kind c) x)) ≡ some (int_slot (restored_int c x))
  unfolding store_token encode_kind store_signed store_unsigned
  store_int o c x h = ground arith

  store_dbl :
      (o c : ℕ) (x : ℕ)
      → Matches (encode_kind c) (dbl x)
      → store_token c (float_token x) ≡ some (expected o c (dbl x))
  unfolding store_token encode_kind store_f32 store_f64 float_token
  store_dbl o c x h = ground arith

  store_text :
      (o c : ℕ) (s : List ℕ)
      → Matches (encode_kind c) (str s)
      → store_token c (arg_token o (encode_kind c) (str s)) ≡ some (expected o c (str s))
  unfolding store_token encode_kind store_str
  store_text o c s h = ground arith

  store_arg :
      (o c : ℕ) (a : Arg)
      → Matches (encode_kind c) a
      → store_token c (arg_token o (encode_kind c) a) ≡ some (expected o c a)
  store_arg o c (int x) h = store_int o c x h
  store_arg o c (dbl x) h = store_dbl o c x h
  store_arg o c (ldbl x) h = absurd (Matches-ldbl (encode_kind c) x h)
  store_arg o c (str s) h = store_text o c s h

  vdecode-step :
      (junk c : ℕ) (fmt : List ℕ) (b b' b'' : Buffer) {t : Token} {slot : Slot} {slots : List Slot}
      {result : ℤ}
      → decode_token junk b ≡ some (t, b')
      → store_token c t ≡ some slot
      → vdecode junk b' fmt ≡ some (b'', slots, result)
      → vdecode junk b (c ∷ fmt) ≡ some (b'', slot ∷ slots, result)
  unfolding vdecode
  vdecode-step junk c fmt b b' b'' e e2 e3 = >>=_some _ _ _ _ e (rw e2 (>>=_some _ _ _ _ e3 refl))

  pub vdecode-At :
      (junk : ℕ) (fmt : List ℕ) (args : List Arg) {b : Buffer}
      → Typed fmt args
      → At b (args_bytes fmt args)
      → vdecode junk b fmt
        ≡ some (behind (length (args_bytes fmt args)) b, all_expected b.offset fmt args, pos 0)
  unfolding vdecode
  vdecode-At junk [] args {b} h at = rw (add-zero b.offset) refl
  vdecode-At junk (c ∷ fmt) [] h at = absurd h
  vdecode-At junk (c ∷ fmt) (a ∷ args) {b} (h, hs) at =
      let bs : List ℕ = arg_bytes (encode_kind c) a in
      let rest : List ℕ = args_bytes fmt args in
      vdecode-step junk c fmt _ _ _ (decode_arg-At junk (encode_kind c) a h (At-prefix bs rest at))
        (store_arg b.offset c a h) (vdecode-At junk fmt args hs (At-suffix bs rest at))
      ∙ rw (behind-behind (length bs) (length rest) b, length-append bs rest) refl

  -- If `tvnp_vencode` returns with arguments of the types that the letters name, and the size covers
  -- what it stored, then `tvnp_vdecode` with the same format, from where the encoder began, returns 0,
  -- ends where the encoder ended, and stores for each letter what is expected of it: an integer
  -- reduced to the letter's width and signedness, for 'F' a double and for 'f' a `float` equal to what
  -- the argument is in that type, or the same bits, and for a text a pointer to its first byte in the
  -- buffer. Doubles that are integral are in the range of `int64_t`.
  pub vdecode-vencode :
      (junk : ℕ) (fmt : List ℕ) (args : List Arg) (b b' : Buffer) (result : ℤ)
      → Typed fmt args
      → b.offset ≤ length b.data_bytes
      → b'.offset ≤ b'.size
      → b'.size < 2 ^ 63
      → vencode b fmt args ≡ some (b', result)
      → (slots : List Slot) × (vdecode junk (record b' { offset = b.offset }) fmt
          ≡ some (b', slots, pos 0))
        × AllStoredAs b.offset fmt args slots
  vdecode-vencode junk fmt args b b' result h room fits big e =
      let stored : put (args_bytes fmt args) b ≡ some b' =
        first_some _ (pos 0) result (sym (vencode-put fmt args b h) ∙ e) in
      let (at, end) = put-At (args_bytes fmt args) b room stored fits big in
      (
        all_expected b.offset fmt args,
        vdecode-At junk fmt args h at
            ∙ ap (λ r. some (r, all_expected b.offset fmt args, pos 0)) end,
        all_expected-AllStoredAs b.offset fmt args h,
      )
