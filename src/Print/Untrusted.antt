-- ===== src/Print/Untrusted.antt =====
-- Printing any bytes that have a nul behind them.
use libtvnet.Base.{
  until_nul, ℕ, zero, suc, ◌^◌, ◌≤◌, ◌<◌, ◌≡◌, refl, List, [], ◌∷◌, Option, none, some, arith, ◌⊎◌,
  ◌*◌, magnitude, pos, negsuc, get_elem?, drop, ℤ,
}
use mathlib.Core.Option.{some-injective}
use libtvnet.Tvutils.{Tvutils}
use libtvnet.Buffer.{Buffer}
use libtvnet.Fmt.{fmt_parse}
use libtvnet.Stdarg.Args.{Arg, int, dbl, ldbl, str}
use libtvnet.Print.Decoder.{VaFrame, c_string}
use libtvnet.Print.Typing.{
  ArgType, int32, uint32, int64, uint64, float64, float80, char_pointer, letter_type, Undefined,
}

until_nul_total :
    (cs : List ℕ) (n : ℕ) → get_elem? cs n ≡ some 0 → (s : List ℕ) × (until_nul cs ≡ some s)
unfolding until_nul
until_nul_total [] n h = absurd (cc h)
until_nul_total (zero ∷ cs) n h = ([], refl)
until_nul_total (suc c ∷ cs) zero h =
    let same : ◌≡◌ {A = ℕ} (suc c) 0 = some-injective (suc c) 0 h in absurd (omega arith)
until_nul_total (suc c ∷ cs) (suc n) h =
    let (s, e) = until_nul_total cs n h in (suc c ∷ s, rw e refl)

dropped_total :
    (cs : List ℕ) (p n : ℕ)
    → p ≤ n
    → get_elem? cs n ≡ some 0
    → (s : List ℕ) × (until_nul (drop p cs) ≡ some s)
dropped_total cs zero n h e = until_nul_total cs n e
dropped_total [] (suc p) n h e = absurd (cc e)
dropped_total (c ∷ cs) (suc p) zero h e = absurd (omega arith)
dropped_total (c ∷ cs) (suc p) (suc n) h e = dropped_total cs p n (omega arith) e

-- A nul stands behind the message.
abbrev pub IsTerminated : Buffer → Type 0
IsTerminated b = get_elem? b.data_bytes b.size ≡ some 0

pub c_string_total :
    (b : Buffer) (pointer : ℕ)
    → IsTerminated b
    → pointer ≤ b.size
    → (s : List ℕ) × (c_string b pointer ≡ some s)
unfolding c_string
c_string_total b pointer t h = dropped_total b.data_bytes pointer b.size h t

-- What `vprintf` takes for a directive of the type, in its range.
abbrev pub Takes : Option ArgType → Arg → Type 0
Takes (some int32) (int x) = 2 * magnitude x < 2 ^ 32
Takes (some uint32) (int (pos x)) = x < 2 ^ 32
Takes (some int64) (int x) = 2 * magnitude x < 2 ^ 64
Takes (some uint64) (int (pos x)) = x < 2 ^ 64
Takes (some float64) (dbl x) = Unit
Takes (some float80) (ldbl x) = Unit
Takes (some char_pointer) (str s) = Unit
Takes _ _ = ⊥

abbrev pub AllTaken : List ℕ → List Arg → Type 0
AllTaken [] [] = Unit
AllTaken (c ∷ types) (x ∷ xs) = Takes (letter_type c) x × AllTaken types xs
AllTaken _ _ = ⊥

-- A format in the buffer with its types.
abbrev pub Formats : Buffer → (text types : List ℕ) → Type 0
Formats b text types = (fmt : ℕ) × (c_string b fmt ≡ some text) × (fmt_parse text ≡ some types)

module _ ⦃tv : Tvutils⦄ (vprintf : List ℕ → List Arg → Option ℤ) (junk : ℕ) (frame : VaFrame) where
  -- What `vprintf` returns for a format of the buffer with one argument for each type that
  -- `tvnp_fmt_parse` finds in it, of that type.
  abbrev pub Calls : Buffer → Option ℤ → Type 0
  Calls b result =
      (text : List ℕ) × (types : List ℕ) × (args : List Arg) × Formats b text types
      × AllTaken types args
      × (vprintf text args ≡ result)

  abbrev pub Printed : Buffer → Option (Buffer × ℤ) → Type 0
  Printed b none =
      Calls b none
      ⊎ ((text : List ℕ) × (types : List ℕ) × Formats b text types
          × Undefined frame.va_fits junk b.data_bytes types)
  Printed b (some (b', result)) =
      (b'.data_bytes ≡ b.data_bytes)
      × (b'.size ≡ b.size)
      × ((result ≡ negsuc 0) ⊎ Calls b (some result))
