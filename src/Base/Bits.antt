-- ===== src/Base/Bits.antt =====
-- Masks on one byte as arithmetic; each is a table that evaluation checks.
use Prim.Native.Nat.{ℕ, zero, suc, ◌+◌, ◌*◌, ◌/◌, ◌%◌, ◌<◌, bit_and, bit_or}
use mathlib.Core.Path.{◌≡◌, refl}
use mathlib.Core.Bool.{Bool, true, ◌&&◌}
use native.Mathlib.Omega.{arith}
use libtvnet.Base.Tests.{◌==◌}

module _ (f g : ℕ → ℕ) where
  agree_below : ℕ → Bool
  agree_below zero = true
  agree_below (suc n) = f n == g n && agree_below n

  agree_below→eq : (n : ℕ) → agree_below n ≡ true → (i : ℕ) → i < n → f i ≡ g i
  unfolding agree_below
  agree_below→eq zero e i h = absurd (omega arith)
  agree_below→eq (suc n) e i h = ground (arith, agree_below→eq n (ground arith) i)

-- `c & 0x1f`
pub bit_and_low5 : (c : ℕ) → c < 256 → bit_and c 0x1f ≡ c % 32
unfolding agree_below
bit_and_low5 = agree_below→eq _ _ 256 refl

-- `c | x` fills the five low bits of a byte `c` that has none of them set.
bit_or_split : (v : ℕ) → v < 256 → bit_or (v / 32 * 32) (v % 32) ≡ v
unfolding agree_below
bit_or_split = agree_below→eq _ _ 256 refl

pub bit_or_low5 : (c x : ℕ) → c < 256 → c % 32 ≡ 0 → x < 32 → bit_or c x ≡ c + x
bit_or_low5 c x hc h0 hx = rw (rw (high, low) at (bit_or_split (c + x) (omega arith)))
  where
    high : (c + x) / 32 * 32 ≡ c
    high = omega arith

    low : (c + x) % 32 ≡ x
    low = omega arith
