-- ===== src/Service/Libc.antt =====
-- What the service addresses take from libc and tvutils.
use libtvnet.Base.{
  ℕ, ◌+◌, ◌^◌, ◌<◌, ◌≡◌, List, ◌∷◌, ◌++◌, Option, some, length, All, ℤ, pos_part, neg_part,
}

abbrev pub absolute : ℤ → ℕ
absolute x = pos_part x + neg_part x

pub record Libc : Type 0 where
  -- `TVU_ABS`, of what does not overflow
  pub abs : ℤ → ℕ
  -- what sprintf makes of "%019llu", and what sscanf makes of "%19llu", `none` if it stores nothing
  pub digits : ℕ → List ℕ
  pub scan : List ℕ → Option ℕ
  pub abs_lem : (x : ℤ) → absolute x < 2 ^ 63 → abs x ≡ absolute x
  pub length-digits : (n : ℕ) → n < 2 ^ 63 → length (digits n) ≡ 19
  -- no digit is a nul
  pub digits-text : (n : ℕ) → All (λ c. 0 < c) (digits n)
  pub scan-digits : (n : ℕ) (rest : List ℕ) → n < 2 ^ 63 → scan (digits n ++ (0 ∷ rest)) ≡ some n
