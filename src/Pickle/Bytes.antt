-- ===== src/Pickle/Bytes.antt =====
-- The pickle format by itself (README, "Pickleling format"): the bytes of a token.
use libtvnet.Base.{ℕ, ◌+◌, List, [], ◌∷◌, ◌++◌, length, Bool, ◌&&◌, if◌then◌else◌, leb}
use libtvnet.Base.{ℤ, pos, negsuc, leb_ℤ, to_unsigned}
use libtvnet.Tvutils.{Tvutils}
use libtvnet.Pickle.Length.{is_integral, is_float32}

-- lo ≤ x ≤ hi
abbrev pub between : ℤ → ℤ → ℤ → Bool
between lo hi x = leb_ℤ lo x && leb_ℤ x hi

module _ ⦃tv : Tvutils⦄ where
  -- The shortest form that holds the integer; below -58 the code points of one byte are taken.
  unfoldable pub integer_bytes : ℤ → List ℕ
  integer_bytes x =
      if between (negsuc 57) (pos 63) x
      then to_unsigned 128 x ∷ []
      else if between (negsuc 0x7fff) (pos 0x7fff) x
      then 0x45 ∷ tv.set_be_i 2 x
      else if between (negsuc 0x7fff_ffff) (pos 0x7fff_ffff) x
      then 0x44 ∷ tv.set_be_i 4 x
      else 0x43 ∷ tv.set_be_i 8 x

  unfoldable pub float_bytes : ℕ → List ℕ
  float_bytes x =
      if is_integral x
      then integer_bytes (tv.f64_to_int 8 x)
      else if is_float32 x
      then 0x42 ∷ tv.set_be_f32 (tv.narrow x)
      else 0x41 ∷ tv.set_be_f64 x

  -- The header of a string, list or dictionary with tag `c` and `n` elements.
  unfoldable pub compound_bytes : ℕ → ℕ → List ℕ
  compound_bytes c n =
      if leb n 28
      then (c + n) ∷ []
      else if leb n 0xff
      then (c + 29) ∷ tv.set_be_i 1 (pos n)
      else if leb n 0xffff
      then (c + 30) ∷ tv.set_be_i 2 (pos n)
      else (c + 31) ∷ tv.set_be_i 4 (pos n)

  -- The nul stands behind the counted bytes.
  unfoldable pub utf8_bytes : List ℕ → List ℕ
  utf8_bytes s = compound_bytes 0x80 (length s) ++ (s ++ (0 ∷ []))

  unfoldable pub binary_bytes : List ℕ → List ℕ
  binary_bytes s = compound_bytes 0xa0 (length s) ++ s
