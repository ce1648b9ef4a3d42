-- ===== src/Base/Text.antt =====
-- Bytes of a literal text, and the texts that a nul ends.
use Prim.Native.Nat.{ℕ, zero, suc, ◌<◌}
use Prim.Native.String.{String}
use Prim.Native.Char.{code}
use mathlib.Core.List.{List, [], ◌∷◌, ◌++◌}
use mathlib.Core.Option.{Option, none, some}
use mathlib.Core.Path.{◌≡◌, refl}
use native.Mathlib.Omega.{arith}
use libtvnet.Base.Tests.{◌>>=◌}
use libtvnet.Base.Lists.{All}

abbrev pub codes : String → List ℕ
codes String.[] = []
codes (String.◌∷◌ c s) = code c ∷ codes s

-- `none` if there is no nul.
unfoldable pub until_nul : List ℕ → Option (List ℕ)
until_nul [] = none
until_nul (zero ∷ cs) = some []
until_nul (suc c ∷ cs) = until_nul cs >>= λ s. some (suc c ∷ s)

-- A C string has no nul inside.
abbrev pub IsText : List ℕ → Type 0
IsText s = All (λ c. 0 < c) s

pub until_nul-append : (s rest : List ℕ) → IsText s → until_nul (s ++ (0 ∷ rest)) ≡ some s
unfolding until_nul
until_nul-append [] rest h = refl
until_nul-append (zero ∷ s) rest (h, hs) = absurd (omega arith)
until_nul-append (suc c ∷ s) rest (h, hs) = rw (until_nul-append s rest hs) refl
