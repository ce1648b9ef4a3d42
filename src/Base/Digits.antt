-- ===== src/Base/Digits.antt =====
-- Masks and unions of words at a binary place.
use Prim.Native.Nat.{
  ℕ, zero, suc, ◌+◌, ◌-◌, ◌*◌, ◌/◌, ◌%◌, ◌^◌, ◌≤◌, ◌<◌, min, max, digits, bitwise, bit_and, bit_or,
  bit_and-bitwise, bit_or-bitwise,
}
use mathlib.Core.Path.{◌≡◌, refl, ◌∙◌, ap}
use native.Mathlib.Nat.{pow-suc}
use native.Mathlib.Omega.{arith}

module _ (z : ℕ → ℕ) (f : ℕ → ℕ → ℕ) where
  -- One more digit than the number has changes nothing.
  digits_settled : (n a b : ℕ) → a ≤ n → digits z f (suc n) a b ≡ digits z f n a b
  digits_settled zero zero b h = refl
  digits_settled zero (suc a) b h = absurd (omega arith)
  digits_settled (suc n) zero b h = refl
  digits_settled (suc n) (suc a) b h =
      ap (λ d. d * 2 + f (suc a % 2) (b % 2)) (digits_settled n (suc a / 2) (b / 2) (omega arith))

  digits_more : (k a b : ℕ) → digits z f (k + a) a b ≡ bitwise z f a b
  digits_more zero a b = let same : 0 + a ≡ a = omega arith in rw same refl
  digits_more (suc k) a b =
      let same : suc k + a ≡ suc (k + a) = omega arith in
      rw same (digits_settled (k + a) a b (omega arith) ∙ digits_more k a b)

  lowest_digit :
      (a b : ℕ)
      → bitwise z f (suc a) b ≡ bitwise z f (suc a / 2) (b / 2) * 2 + f (suc a % 2) (b % 2)
  lowest_digit a b =
      let enough : a - suc a / 2 + suc a / 2 ≡ a = omega arith in
      ap (λ d. d * 2 + f (suc a % 2) (b % 2))
        (rw enough at (digits_more (a - suc a / 2) (suc a / 2) (b / 2)))

and_digit : (a b : ℕ) → bit_and a b ≡ bit_and (a / 2) (b / 2) * 2 + min (a % 2) (b % 2)
and_digit zero b = simp bit_and-bitwise (omega arith)
and_digit (suc a) b = simp bit_and-bitwise (lowest_digit (λ b. 0) min a b)

or_digit : (a b : ℕ) → bit_or a b ≡ bit_or (a / 2) (b / 2) * 2 + max (a % 2) (b % 2)
or_digit zero b = simp bit_or-bitwise (omega arith)
or_digit (suc a) b = simp bit_or-bitwise (lowest_digit (λ b. b) max a b)

abbrev pub doubles : ℕ → ℕ → ℕ
doubles zero a = a
doubles (suc k) a = doubles k a * 2

abbrev pub halves : ℕ → ℕ → ℕ
halves zero a = a
halves (suc k) a = halves k (a / 2)

-- 2 ^ k - 1
abbrev pub ones : ℕ → ℕ
ones zero = 0
ones (suc k) = ones k * 2 + 1

pub halves-zero : (k a : ℕ) → a < 2 ^ k → halves k a ≡ 0
halves-zero zero a h = omega arith
halves-zero (suc k) a h = halves-zero k (a / 2) (omega (arith, pow-suc 2 k))

-- `a & (m << k)`
bit_and-doubles : (k a m : ℕ) → bit_and a (doubles k m) ≡ doubles k (bit_and (halves k a) m)
bit_and-doubles zero a m = refl
bit_and-doubles (suc k) a m =
    let d : ℕ = doubles k m in
    let half : d * 2 / 2 ≡ d = omega arith in
    let digit : bit_and a (d * 2) ≡ bit_and (a / 2) (d * 2 / 2) * 2 =
      omega (arith, and_digit a (d * 2)) in
    digit ∙ rw (half, bit_and-doubles k (a / 2) m) refl

bit_and-ones : (k a : ℕ) → halves k a ≡ 0 → bit_and a (ones k) ≡ a
bit_and-ones zero a h = rw h refl
bit_and-ones (suc k) a h =
    let half : (ones k * 2 + 1) / 2 ≡ ones k = omega arith in
    rw (and_digit a (ones k * 2 + 1), half, bit_and-ones k (a / 2) h) (omega arith)

or_none : (n a : ℕ) → a ≤ n → digits (λ b. b) max n a 0 ≡ a
or_none zero zero h = refl
or_none zero (suc a) h = absurd (omega arith)
or_none (suc n) zero h = refl
or_none (suc n) (suc a) h = omega (arith, or_none n (suc a / 2) (omega arith))

bit_or_zero : (a : ℕ) → bit_or a 0 ≡ a
bit_or_zero a = simp bit_or-bitwise (or_none a a (omega arith))

-- `(x << k) | y`
bit_or-doubles : (k x y : ℕ) → halves k y ≡ 0 → bit_or (doubles k x) y ≡ doubles k x + y
bit_or-doubles zero x y h = rw (h, bit_or_zero) (omega arith)
bit_or-doubles (suc k) x y h =
    let half : doubles k x * 2 / 2 ≡ doubles k x = omega arith in
    rw (or_digit (doubles k x * 2) y, half, bit_or-doubles k x (y / 2) h) (omega arith)

-- `a & ~0xfff` in 64 bits, and `| y` for 12 bits.
pub bit_and_high52 : (a : ℕ) → a < 2 ^ 64 → bit_and a 0xffff_ffff_ffff_f000 ≡ a / 4096 * 4096
bit_and_high52 a h =
    let h12 : halves 12 a ≡ a / 4096 = omega arith in
    bit_and-doubles 12 a (ones 52)
    ∙ rw (h12, bit_and-ones 52 (a / 4096) (halves-zero 52 (a / 4096) (omega arith))) (omega arith)

pub bit_or_low12 : (x y : ℕ) → y < 4096 → bit_or (x * 4096) y ≡ x * 4096 + y
bit_or_low12 x y h =
    let d : doubles 12 x ≡ x * 4096 = omega arith in
    rw d at (bit_or-doubles 12 x y (halves-zero 12 y (omega arith)))
