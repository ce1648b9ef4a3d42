-- ===== src/Stdarg/Safety.antt =====
-- The argument decoder on arbitrary bytes and with any text of letters.
use libtvnet.Base.{
  ℕ, ◌+◌, ◌*◌, ◌^◌, ◌≤◌, ◌<◌, ◌≡◌, refl, ◌∙◌, List, [], ◌∷◌, Option, none, some, ◌>>=◌, length,
  arith, inl, inr, ◌⊎◌, if◌then◌else◌, ◌==◌, ℤ, pos, negsuc, magnitude, if_intro2,
  magnitude-to_signed, pow-pos, to_unsigned-lt,
}
use libtvnet.Tvutils.{Tvutils}
use libtvnet.Buffer.{Buffer, IsReadable}
use libtvnet.Pickle.Decoder.{Token, integer, float, utf8_string, decode_token}
use libtvnet.Pickle.Safety.{decode_token-Steps}
use libtvnet.Pickle.Safety.Loads.{
  Lands, Steps_bind, Pointed, IsValue, IsReadable-over, value-Advances,
}
use libtvnet.Stdarg.Decoder.{
  Slot, int_slot, f32_slot, f64_slot, str_slot, store_signed, store_unsigned, store_f32, store_f64,
  store_str, store_token, vdecode,
}

-- What a letter of the format points to.
pub data Target : Type 0 where
  signed_int : (bytes : ℕ) → Target
  unsigned_int : (bytes : ℕ) → Target
  float_target : Target
  double_target : Target
  text_target : Target

unfoldable pub target : ℕ → Option Target
target c =
    if c == b'b'
    then some (signed_int 1)
    else if c == b'B'
    then some (unsigned_int 1)
    else if c == b'w'
    then some (signed_int 2)
    else if c == b'W'
    then some (unsigned_int 2)
    else if c == b'd'
    then some (signed_int 4)
    else if c == b'D'
    then some (unsigned_int 4)
    else if c == b'q'
    then some (signed_int 8)
    else if c == b'Q'
    then some (unsigned_int 8)
    else if c == b'f'
    then some float_target
    else if c == b'F'
    then some double_target
    else if c == b's'
    then some text_target
    else none

-- The store is one of that type, in its range; a pointer is not behind `size`.
abbrev pub Fits : ℕ → Option Target → Slot → Type 0
Fits size (some (signed_int n)) (int_slot x) = 2 * magnitude x < 256 ^ n
Fits size (some (unsigned_int n)) (int_slot (pos x)) = x < 256 ^ n
Fits size (some float_target) (f32_slot x) = Unit
Fits size (some double_target) (f64_slot x) = Unit
Fits size (some text_target) (str_slot pointer) = pointer ≤ size
Fits size _ _ = ⊥

abbrev SlotFits : ℕ → Token → Option Target → Option Slot → Type 0
SlotFits size t target none = Unit
SlotFits size t target (some slot) = IsValue t × Fits size target slot

module _ ⦃tv : Tvutils⦄ (size : ℕ) where
  signed-fits :
      (n : ℕ) (t : Token) → 0 < n → SlotFits size t (some (signed_int n)) (store_signed n t)
  unfolding store_signed
  signed-fits n (integer i) h = (tt, magnitude-to_signed (256 ^ n) i (pow-pos n))
  signed-fits n (float f) h = (tt, omega (arith, tv.magnitude-f64_to_int n f h))
  signed-fits n _ h = tt

  unsigned-fits :
      (n : ℕ) (t : Token) → 0 < n → SlotFits size t (some (unsigned_int n)) (store_unsigned n t)
  unfolding store_unsigned
  unsigned-fits n (integer i) h = (tt, to_unsigned-lt (256 ^ n) i (pow-pos n))
  unsigned-fits n (float f) h = (tt, tv.f64_to_uint-lt n f)
  unsigned-fits n _ h = tt

  f32-fits : (t : Token) → SlotFits size t (some float_target) (store_f32 t)
  unfolding store_f32
  f32-fits (integer i) = (tt, tt)
  f32-fits (float f) = (tt, tt)
  f32-fits _ = tt

  f64-fits : (t : Token) → SlotFits size t (some double_target) (store_f64 t)
  unfolding store_f64
  f64-fits (integer i) = (tt, tt)
  f64-fits (float f) = (tt, tt)
  f64-fits _ = tt

  str-fits : (t : Token) → Pointed size t → SlotFits size t (some text_target) (store_str t)
  unfolding store_str
  str-fits (utf8_string u pointer) h = (tt, omega arith)
  str-fits _ h = tt

  store_token-fits :
      (c : ℕ) (t : Token) → Pointed size t → SlotFits size t (target c) (store_token c t)
  unfolding store_token target
  store_token-fits c t h =
      let P : Option Target → Option Slot → Type 0 = SlotFits size t in
      if_intro2 P (c == b'b') (signed-fits 1 t (omega arith)) (
        if_intro2 P (c == b'B') (unsigned-fits 1 t (omega arith)) (
          if_intro2 P (c == b'w') (signed-fits 2 t (omega arith)) (
            if_intro2 P (c == b'W') (unsigned-fits 2 t (omega arith)) (
              if_intro2 P (c == b'd') (signed-fits 4 t (omega arith)) (
                if_intro2 P (c == b'D') (unsigned-fits 4 t (omega arith)) (
                  if_intro2 P (c == b'q') (signed-fits 8 t (omega arith)) (
                    if_intro2 P (c == b'Q') (unsigned-fits 8 t (omega arith)) (
                      if_intro2 P (c == b'f') (f32-fits t) (
                        if_intro2 P (c == b'F') (f64-fits t)
                          (if_intro2 P (c == b's') (str-fits t h) (tt)))))))))))

-- One store for each letter.
abbrev pub Filled : ℕ → List ℕ → List Slot → Type 0
Filled size [] [] = Unit
Filled size (c ∷ fmt) (slot ∷ slots) = Fits size (target c) slot × Filled size fmt slots
Filled size _ _ = ⊥

-- Stores for the first letters, but not for all.
abbrev pub Part : ℕ → List ℕ → List Slot → Type 0
Part size (c ∷ fmt) [] = Unit
Part size (c ∷ fmt) (slot ∷ slots) = Fits size (target c) slot × Part size fmt slots
Part size [] _ = ⊥

-- The buffer keeps its bytes and its size. Either all letters are served, each from at least one byte,
-- and the result is 0; or it is -1.
abbrev pub Decodes : Buffer → List ℕ → Option (Buffer × List Slot × ℤ) → Type 0
Decodes b fmt none = ⊥
Decodes b fmt (some (b', slots, result)) =
    (b'.data_bytes ≡ b.data_bytes)
    × (b'.size ≡ b.size)
    × (b'.offset ≤ b.size + 1)
    × (((result ≡ pos 0) × Filled b.size fmt slots × (b.offset + length fmt ≤ b'.offset))
        ⊎ ((result ≡ negsuc 0) × Part b.size fmt slots))

served :
    (b b' : Buffer) (c : ℕ) (fmt : List ℕ) (slot : Slot) (m : Option (Buffer × List Slot × ℤ))
    → b'.data_bytes ≡ b.data_bytes
    → b'.size ≡ b.size
    → b.offset < b'.offset
    → Fits b.size (target c) slot
    → Decodes b' fmt m
    → Decodes b (c ∷ fmt) (m >>= λ (b'', slots, result). some (b'', slot ∷ slots, result))
served b b' c fmt slot none d s o f h = h
served b b' c fmt slot (some (b'', slots, result)) d s o f (d', s', o', h) = (
  d' ∙ d,
  s' ∙ s,
  omega arith,
  elim h [
    | inl (e, fl, a) ↦ inl (e, (f, rw s at fl), omega arith)
    | inr (e, p) ↦ inr (e, (f, rw s at p))
  ],
)

module _ ⦃tv : Tvutils⦄ (junk : ℕ) (word : junk < 2 ^ 64) where
  -- what becomes of a token, by what is stored for it
  vdecode_step :
      (b b' : Buffer) (c : ℕ) (fmt : List ℕ) (t : Token) (o : Option Slot)
      → b'.data_bytes ≡ b.data_bytes
      → b'.size ≡ b.size
      → Lands b b.offset t b'.offset
      → SlotFits b.size t (target c) o
      → (IsReadable b' → Decodes b' fmt (vdecode junk b' fmt))
      → IsReadable b
      → Decodes b (c ∷ fmt) (elim o [
        | none ↦ some (b', [], negsuc 0)
        | some slot ↦
            vdecode junk b' fmt >>= λ (b'', slots, result). some (b'', slot ∷ slots, result)
      ])
  vdecode_step b b' c fmt t none d s (l, p, a) f ih r = (d, s, l, inr (refl, tt))
  vdecode_step b b' c fmt t (some slot) d s (l, p, a) (v, f) ih r =
      served b b' c fmt slot (vdecode junk b' fmt) d s (value-Advances b.offset b'.offset t v a) f
        (ih (IsReadable-over b' r d s l))

  -- On any readable buffer, and with any text of letters, `tvnp_vdecode` never loads outside the memory,
  -- and leaves the bytes and the size alone. Either it returns 0 and has stored one value for each
  -- letter, each read from at least one byte; or it returns -1 and has stored values for some first
  -- letters, not all. Each store has the type that its letter names, with its range, and a pointer to a
  -- text does not point behind the size.
  pub vdecode-Decodes :
      (fmt : List ℕ) (b : Buffer) → IsReadable b → Decodes b fmt (vdecode junk b fmt)
  unfolding vdecode
  vdecode-Decodes [] b r = (refl, refl, r.at_most_one_past, inl (refl, tt, omega arith))
  vdecode-Decodes (c ∷ fmt) b r =
      Steps_bind b (Lands b b.offset) (Decodes b (c ∷ fmt)) (decode_token junk b) _
        (decode_token-Steps junk b word r)
        (λ t b' d s lands.
          vdecode_step b b' c fmt t (store_token c t) d s lands
            (store_token-fits b.size c t lands.1) (vdecode-Decodes fmt b') r)
