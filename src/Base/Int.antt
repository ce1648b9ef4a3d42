-- ===== src/Base/Int.antt =====
-- Signed integers over the native numbers, and the conversions of C between integer widths.
use Prim.Native.Nat.{ℕ, zero, suc, ◌+◌, ◌-◌, ◌*◌, ◌%◌, ◌^◌, ◌<◌}
use mathlib.Core.Path.{◌≡◌}
use mathlib.Core.Bool.{Bool}
use native.Mathlib.Omega.{arith}
use native.Mathlib.Nat.{mod-eq_of_lt, mod-lt, pow-suc}
use libtvnet.Base.Tests.{ltb, leb, if◌then◌else◌}

pub pow-pos : (n : ℕ) → 0 < 256 ^ n
pow-pos zero = omega arith
pow-pos (suc n) = omega (arith, pow-suc 256 n, pow-pos n)

-- `negsuc n` is -(n + 1).
pub data ℤ : Type 0 where
  pos : ℕ → ℤ
  negsuc : ℕ → ℤ

abbrev pub pos_part : ℤ → ℕ
pos_part (pos n) = n
pos_part (negsuc n) = 0

abbrev pub neg_part : ℤ → ℕ
neg_part (pos n) = 0
neg_part (negsuc n) = suc n

abbrev pub ltb_ℤ : ℤ → ℤ → Bool
ltb_ℤ a b = ltb (pos_part a + neg_part b) (pos_part b + neg_part a)

abbrev pub leb_ℤ : ℤ → ℤ → Bool
leb_ℤ a b = leb (pos_part a + neg_part b) (pos_part b + neg_part a)

-- -a
abbrev pub neg : ℤ → ℤ
neg (pos n) = if ltb 0 n then negsuc (n - 1) else pos 0
neg (negsuc n) = pos (suc n)

-- `x` fits a signed integer of `n` bytes exactly when twice this is below `256 ^ n`, which is even.
abbrev pub magnitude : ℤ → ℕ
magnitude (pos n) = n
magnitude (negsuc n) = n

-- Conversion to an unsigned type with `m` values (m = 2 ^ width).
abbrev pub to_unsigned : ℕ → ℤ → ℕ
to_unsigned m (pos n) = n % m
to_unsigned m (negsuc n) = m - 1 - n % m

-- Conversion to a signed type with `m` values: two's complement.
abbrev pub as_signed : ℕ → ℕ → ℤ
as_signed m w = if ltb (2 * w) m then pos w else negsuc (m - 1 - w)

abbrev pub to_signed : ℕ → ℤ → ℤ
to_signed m x = as_signed m (to_unsigned m x)

abbrev pub IsI64 : ℤ → Type 0
IsI64 x = magnitude x < 2 ^ 63

pub to_unsigned-lt : (m : ℕ) (x : ℤ) → 0 < m → to_unsigned m x < m
to_unsigned-lt m (pos v) h = omega (arith, mod-lt v h)
to_unsigned-lt m (negsuc v) h = omega arith

pub magnitude-to_signed : (m : ℕ) (x : ℤ) → 0 < m → 2 * magnitude (to_signed m x) < m
magnitude-to_signed m x h = ground (arith, to_unsigned-lt m x h)

-- (With an even `m` the bound says that `x` fits the signed type.)
pub as_signed-to_unsigned :
    (m : ℕ) (x : ℤ) → 2 * magnitude x + 1 < m → as_signed m (to_unsigned m x) ≡ x
as_signed-to_unsigned m (pos v) h =
    let small : v < m = omega arith in rw (mod-eq_of_lt small) (ground arith)
as_signed-to_unsigned m (negsuc v) h =
    let small : v < m = omega arith in rw (mod-eq_of_lt small) (ground arith)

pub to_signed_id : (x : ℤ) → IsI64 x → to_signed (2 ^ 64) x ≡ x
to_signed_id x h = ground arith
