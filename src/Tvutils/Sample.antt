-- ===== src/Tvutils/Sample.antt =====
-- A concrete tvutils, to run the model: two's complement big-endian accessors, and a toy fixed-point
-- number in place of IEEE floats.
use libtvnet.Base.{
  ℕ, zero, suc, ◌+◌, ◌*◌, ◌/◌, ◌%◌, ◌^◌, ◌-◌, ◌<◌, ◌≡◌, refl, ◌∙◌, arith, List, [], ◌∷◌, ◌++◌,
  length, length-append, if◌then◌else◌, ltb, ◌==◌, true, lt→ltb,
}
use libtvnet.Base.{
  pow-pos, ℤ, pos, negsuc, magnitude, as_signed, to_unsigned, occurrences, to_unsigned-lt,
  as_signed-to_unsigned,
}
use native.Mathlib.Nat.{pow-suc, mod-eq_of_lt, mod-lt}
use libtvnet.Tvutils.{Tvutils, IsF64}

-- the `n` low bytes of `v`, highest first
unfoldable pub be_bytes : ℕ → ℕ → List ℕ
be_bytes zero v = []
be_bytes (suc n) v = be_bytes n (v / 256) ++ (v % 256 ∷ [])

unfoldable pub be_value : ℕ → List ℕ → ℕ
be_value acc [] = acc
be_value acc (c ∷ cs) = be_value (acc * 256 + c) cs

pub length-be_bytes : (n v : ℕ) → length (be_bytes n v) ≡ n
unfolding be_bytes
length-be_bytes zero v = refl
length-be_bytes (suc n) v =
    omega (arith, length-append (be_bytes n (v / 256)) (v % 256 ∷ []), length-be_bytes n (v / 256))

be_value-append :
    (acc : ℕ) (xs : List ℕ) (c : ℕ) → be_value acc (xs ++ (c ∷ [])) ≡ be_value acc xs * 256 + c
unfolding be_value
be_value-append acc [] c = refl
be_value-append acc (x ∷ xs) c = be_value-append (acc * 256 + x) xs c

pub be_value-be_bytes : (n v : ℕ) → v < 256 ^ n → be_value 0 (be_bytes n v) ≡ v
unfolding be_bytes be_value
be_value-be_bytes zero v h = omega arith
be_value-be_bytes (suc n) v h =
    be_value-append 0 (be_bytes n (v / 256)) (v % 256)
    ∙ omega (arith, be_value-be_bytes n (v / 256) (omega (arith, pow-suc 256 n)))

pub get_be_i_law :
    (n : ℕ) (x : ℤ)
    → 2 * magnitude x + 1 < 256 ^ n
    → as_signed (256 ^ n) (be_value 0 (be_bytes n (to_unsigned (256 ^ n) x))) ≡ x
get_be_i_law n x h =
    rw (be_value-be_bytes n _ (to_unsigned-lt (256 ^ n) x (omega arith)))
      (as_signed-to_unsigned (256 ^ n) x h)

pub get_be_u_law : (n x : ℕ) → x < 256 ^ n → be_value 0 (be_bytes n (x % 256 ^ n)) % 256 ^ n ≡ x
get_be_u_law n x h = rw (mod-eq_of_lt h, be_value-be_bytes n x h) (mod-eq_of_lt h)

-- how many numbers a signed integer of `n` bytes has that are not negative
abbrev pub nr_natural : ℕ → ℕ
nr_natural zero = 1
nr_natural (suc n) = 128 * 256 ^ n

pub magnitude_law : (n x : ℕ) → 0 < n → 2 * (x % nr_natural n) + 1 < 256 ^ n
magnitude_law zero x h = absurd (omega arith)
magnitude_law (suc n) x h =
    let below : x % (128 * 256 ^ n) < 128 * 256 ^ n = mod-lt x (omega (arith, pow-pos n)) in
    omega (arith, pow-suc 256 n, pow-pos n)

pub fits_int_law : (x : ℕ) → IsF64 x → (x / 4 * 4 == x) ≡ true → ltb (x / 4) (nr_natural 8) ≡ true
fits_int_law x (h, k) e = lt→ltb _ _ (omega arith)

pub f64_of_int_law :
    (x : ℕ)
    → IsF64 x
    → (x / 4 * 4 == x) ≡ true
    → (magnitude (pos (x / 4 % nr_natural 8)) * 4 == x) ≡ true
f64_of_int_law x (h, k) e = let same : x / 4 % nr_natural 8 ≡ x / 4 = omega arith in rw same e

pub f32_of_int_law :
    (x : ℕ)
    → IsF64 x
    → (x / 4 * 4 == x) ≡ true
    → (magnitude (pos (x / 4 % nr_natural 8)) * 2 % 2 ^ 32 * 2 == x / 2 % 2 ^ 32 * 2) ≡ true
f32_of_int_law x (h, k) e = let same : x / 4 % nr_natural 8 ≡ x / 4 = omega arith in ground arith

pub widen_law :
    (x : ℕ)
    → (x / 2 % 2 ^ 32 * 2 == x) ≡ true
    → (x / 2 % 2 ^ 32 * 2 / 2 % 2 ^ 32 * 2 == x / 2 % 2 ^ 32 * 2) ≡ true
widen_law x e = ground arith

-- A fixed-point toy: the pattern counts quarters, and a `float` keeps halves below 2 ^ 33.
instance abbrev pub sample : Tvutils
sample = record {
  set_be_i = λ n x. be_bytes n (to_unsigned (256 ^ n) x);
  get_be_i = λ n cs. as_signed (256 ^ n) (be_value 0 cs);
  get_be_u = λ n cs. be_value 0 cs % 256 ^ n;
  set_be_f32 = be_bytes 4;
  get_be_f32 = be_value 0;
  set_be_f64 = be_bytes 8;
  get_be_f64 = be_value 0;
  sign_extend_7 = λ c. if ltb c 64 then pos c else negsuc (127 - c);
  floor = λ x. x / 4 * 4;
  f64_eq = λ x y. x == y;
  narrow = λ x. x / 2 % 2 ^ 32;
  widen = λ x. x * 2;
  f64_to_int = λ n x. pos (x / 4 % nr_natural n);
  f64_to_uint = λ n x. x / 4 % 256 ^ n;
  fits_int = λ n x. ltb (x / 4) (nr_natural n);
  fits_uint = λ n x. ltb (x / 4) (256 ^ n);
  f64_of_int = λ x. magnitude x * 4;
  f32_of_int = λ x. magnitude x * 2 % 2 ^ 32;
  length-set_be_i = λ n x. length-be_bytes n _;
  get_be_i-set_be_i = get_be_i_law;
  get_be_u-set_be_i = get_be_u_law;
  get_be_u-lt = λ n cs. mod-lt (be_value 0 cs) (pow-pos n);
  length-set_be_f32 = length-be_bytes 4;
  length-set_be_f64 = length-be_bytes 8;
  get_be_f32-set_be_f32 = λ x h. be_value-be_bytes 4 x (omega arith);
  get_be_f64-set_be_f64 = λ x h. be_value-be_bytes 8 x h;
  sign_extend_7_lem = λ c h. refl;
  narrow-lt = λ x. omega arith;
  magnitude-f64_to_int = λ n x h. magnitude_law n (x / 4) h;
  f64_to_uint-lt = λ n x. mod-lt (x / 4) (pow-pos n);
  fits_int_lem = fits_int_law;
  f64_of_int-f64_to_int = f64_of_int_law;
  f32_of_int-f64_to_int = f32_of_int_law;
  widen-narrow = widen_law;
  count_character = occurrences;
  count_character_lem = λ cs c. refl;
}
