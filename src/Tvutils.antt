-- ===== src/Tvutils.antt =====
-- What the pickle code takes from the tvutils library and from the floating-point unit: tvutils
-- (`tvutils/tvutils.h`) is another repository, so its accessors are parameters with the laws that
-- the code relies on. `bytes` stands for the suffix of the names, 8 * bytes bits.
-- Doubles are those of IEEE 754, where narrowing to `float` is always defined; casts to integers are not.
-- A `float64_t` is its bit pattern, below 2 ^ 64, and a `float32_t` its pattern, below 2 ^ 32.
pub mod Sample
use libtvnet.Base.{
  ℕ, ◌+◌, ◌*◌, ◌^◌, ◌<◌, ◌≡◌, List, length, Bool, if◌then◌else◌, ltb, ◌-◌, occurrences, ◌%◌, ◌==◌,
  ◌||◌, true,
}
use libtvnet.Base.{ℤ, pos, negsuc, magnitude}

-- The pattern is that of a number less than 2 ^ 63 in size, of -2 ^ 63, or of no number: all others are
-- integral, and not in the range of an `int64_t`.
abbrev pub in_i64_range : ℕ → Bool
in_i64_range x =
    ltb (x % 2 ^ 63) 0x43e0_0000_0000_0000
    || x == 0xc3e0_0000_0000_0000
    || ltb 0x7ff0_0000_0000_0000 (x % 2 ^ 63)

-- A pattern of 64 bits whose cast to `int64_t` is defined if it is integral.
abbrev pub IsF64 : ℕ → Type 0
IsF64 x = (x < 2 ^ 64) × (in_i64_range x ≡ true)

pub record Tvutils : Type 0 where
  -- `tvu_set_be_i8` to `tvu_set_be_i64`: the bytes written for a value, converted to that width.
  pub set_be_i : (bytes : ℕ) → ℤ → List ℕ
  -- `tvu_get_be_i16` to `tvu_get_be_i64`
  pub get_be_i : (bytes : ℕ) → List ℕ → ℤ
  -- `tvu_get_be_u8` to `tvu_get_be_u32`
  pub get_be_u : (bytes : ℕ) → List ℕ → ℕ
  pub set_be_f32 : ℕ → List ℕ
  pub get_be_f32 : List ℕ → ℕ
  pub set_be_f64 : ℕ → List ℕ
  pub get_be_f64 : List ℕ → ℕ
  -- `tvu_sign_extend_u8(c, 7)`
  pub sign_extend_7 : ℕ → ℤ
  -- `floor` and `==` on doubles
  pub floor : ℕ → ℕ
  pub f64_eq : ℕ → ℕ → Bool
  -- the casts between `double` and `float`, and between `double` and integers of `bytes` bytes
  pub narrow : ℕ → ℕ
  pub widen : ℕ → ℕ
  pub f64_to_int : (bytes : ℕ) → ℕ → ℤ
  pub f64_to_uint : (bytes : ℕ) → ℕ → ℕ
  -- The double, truncated, is in the range of the signed or unsigned integer type of `bytes` bytes; the
  -- cast of any other is undefined.
  pub fits_int : (bytes : ℕ) → ℕ → Bool
  pub fits_uint : (bytes : ℕ) → ℕ → Bool
  pub f64_of_int : ℤ → ℕ
  pub f32_of_int : ℤ → ℕ
  -- Big-endian accessors of one width undo each other.
  pub length-set_be_i : (bytes : ℕ) (x : ℤ) → length (set_be_i bytes x) ≡ bytes
  pub get_be_i-set_be_i :
      (bytes : ℕ) (x : ℤ)
      → 2 * magnitude x + 1 < 256 ^ bytes
      → get_be_i bytes (set_be_i bytes x) ≡ x
  pub get_be_u-set_be_i :
      (bytes x : ℕ) → x < 256 ^ bytes → get_be_u bytes (set_be_i bytes (pos x)) ≡ x
  pub get_be_u-lt : (bytes : ℕ) (cs : List ℕ) → get_be_u bytes cs < 256 ^ bytes
  pub length-set_be_f32 : (x : ℕ) → length (set_be_f32 x) ≡ 4
  pub length-set_be_f64 : (x : ℕ) → length (set_be_f64 x) ≡ 8
  pub get_be_f32-set_be_f32 : (x : ℕ) → x < 2 ^ 32 → get_be_f32 (set_be_f32 x) ≡ x
  pub get_be_f64-set_be_f64 : (x : ℕ) → x < 2 ^ 64 → get_be_f64 (set_be_f64 x) ≡ x
  pub sign_extend_7_lem :
      (c : ℕ) → c < 128 → sign_extend_7 c ≡ (if ltb c 64 then pos c else negsuc (127 - c))
  -- The results of the casts have the type that is cast to.
  pub narrow-lt : (x : ℕ) → narrow x < 2 ^ 32
  pub magnitude-f64_to_int :
      (bytes x : ℕ) → 0 < bytes → 2 * magnitude (f64_to_int bytes x) + 1 < 256 ^ bytes
  pub f64_to_uint-lt : (bytes x : ℕ) → f64_to_uint bytes x < 256 ^ bytes
  -- An integral double in the range of `int64_t` is cast to its value: casting back gives an equal
  -- double, and casting to `float` gives what the double itself gives.
  pub fits_int_lem : (x : ℕ) → IsF64 x → f64_eq (floor x) x ≡ true → fits_int 8 x ≡ true
  pub f64_of_int-f64_to_int :
      (x : ℕ) → IsF64 x → f64_eq (floor x) x ≡ true → f64_eq (f64_of_int (f64_to_int 8 x)) x ≡ true
  pub f32_of_int-f64_to_int :
      (x : ℕ)
      → IsF64 x
      → f64_eq (floor x) x ≡ true
      → f64_eq (widen (f32_of_int (f64_to_int 8 x))) (widen (narrow x)) ≡ true
  -- Widening loses nothing, so that narrowing again gives an equal `float`.
  pub widen-narrow :
      (x : ℕ)
      → f64_eq (widen (narrow x)) x ≡ true
      → f64_eq (widen (narrow (widen (narrow x)))) (widen (narrow x)) ≡ true
  -- `tvu_count_character`
  pub count_character : List ℕ → ℕ → ℕ
  pub count_character_lem : (cs : List ℕ) (c : ℕ) → count_character cs c ≡ occurrences cs c
