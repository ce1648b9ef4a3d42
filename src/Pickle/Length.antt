-- ===== src/Pickle/Length.antt =====
-- tvnet/pickle_length.h: how many bytes the encoder will write. `size_t` is 64 bits wide.
use libtvnet.Base.{
  ℕ, ◌+◌, ◌%◌, ◌^◌, if◌then◌else◌, ltb, Bool, Option, none, some, ◌>>=◌, ◌≡◌, refl, true,
}
use libtvnet.Base.{ℤ, pos, negsuc, ltb_ℤ, leb_ℤ}
use libtvnet.Tvutils.{Tvutils, IsF64}

abbrev pub int16_max : ℤ
int16_max = pos 0x7fff

abbrev pub int16_min : ℤ
int16_min = negsuc 0x7fff

abbrev pub int32_max : ℤ
int32_max = pos 0x7fff_ffff

abbrev pub int32_min : ℤ
int32_min = negsuc 0x7fff_ffff

-- `tvnp_length_integer`; `x > c` is `ltb_ℤ c x`, and -58 is `negsuc 57`.
unfoldable pub length_integer : ℤ → ℕ
length_integer x =
    if ltb_ℤ int32_max x
    then 9
    else if ltb_ℤ int16_max x
    then 5
    else if ltb_ℤ (pos 63) x
    then 3
    else if leb_ℤ (negsuc 57) x
    then 1
    else if leb_ℤ int16_min x
    then 3
    else if leb_ℤ int32_min x
    then 5
    else 9

-- `floor(x) == x`
unfoldable pub is_integral : ⦃tv : Tvutils⦄ → ℕ → Bool
is_integral ⦃tv⦄ x = tv.f64_eq (tv.floor x) x

-- `(double)(float)x == x`
unfoldable pub is_float32 : ⦃tv : Tvutils⦄ → ℕ → Bool
is_float32 ⦃tv⦄ x = tv.f64_eq (tv.widen (tv.narrow x)) x

-- `(int64_t)x`, which is undefined if the truncated double is out of range
unfoldable pub cast_i64 : ⦃tv : Tvutils⦄ → ℕ → Option ℤ
cast_i64 ⦃tv⦄ x = if tv.fits_int 8 x then some (tv.f64_to_int 8 x) else none

-- `tvnp_length_float`; `none` is undefined behaviour.
unfoldable pub length_float : ⦃tv : Tvutils⦄ → ℕ → Option ℕ
unfolding cast_i64
length_float ⦃tv⦄ x =
    if is_integral x
    then (cast_i64 x >>= λ i. some (length_integer i))
    else if is_float32 x
    then some 5
    else some 9

pub cast_i64_lem :
    ⦃tv : Tvutils⦄ (x : ℕ) → IsF64 x → is_integral x ≡ true → cast_i64 x ≡ some (tv.f64_to_int 8 x)
unfolding cast_i64 is_integral
cast_i64_lem ⦃tv⦄ x h e = rw (tv.fits_int_lem x h e) refl

unfoldable pub length_null : ℕ
length_null = 1

unfoldable pub length_compound : ℕ → ℕ
length_compound x =
    if ltb 0xffff x then 5 else if ltb 0xff x then 3 else if ltb 0x1c x then 2 else 1

unfoldable pub length_string : ℕ → ℕ
unfolding length_compound
length_string buffer_size = (length_compound buffer_size + buffer_size) % 2 ^ 64

unfoldable pub length_utf8_string : ℕ → ℕ
unfolding length_string
length_utf8_string buffer_size = (length_string buffer_size + 1) % 2 ^ 64

unfoldable pub length_binary_string : ℕ → ℕ
unfolding length_string
length_binary_string buffer_size = length_string buffer_size

unfoldable pub length_list : ℕ → ℕ
unfolding length_compound
length_list size = length_compound size

unfoldable pub length_dictionary : ℕ → ℕ
unfolding length_compound
length_dictionary size = length_compound size
