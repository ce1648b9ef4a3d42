-- ===== src/Pyext/Ends.antt =====
-- Runs that do not run out of fuel.
use libtvnet.Base.{ℕ, ◌+◌, ◌≤◌, ◌<◌, ◌≡◌, ap, ◌∙◌, Option, none, some, length, arith}
use libtvnet.Buffer.{Buffer, IsReadable}
use libtvnet.Pyext.Decoder.{
  Run, done, fault, timeout, ◌>>=◌, Decoded, end_mark, failed, object, Reader,
}

-- `c` has the memory and the size of `b`, and is readable when `b` is.
abbrev pub Follows : Buffer → Buffer → Type 0
Follows b c = (c.data_bytes ≡ b.data_bytes) × (c.size ≡ b.size) × (c.offset ≤ b.size + 1)

pub Follows-trans : (a b c : Buffer) → Follows a b → Follows b c → Follows a c
Follows-trans a b c (d, s, o) (d2, s2, o2) = (d2 ∙ d, omega arith, omega arith)

pub IsReadable-Follows : (b c : Buffer) → IsReadable b → Follows b c → IsReadable c
IsReadable-Follows b c r (d, s, o) = record {
  bytes = rw d r.bytes;
  backed = omega (arith, r.backed, ap length d);
  at_most_one_past = omega arith;
  addressable = omega (arith, r.addressable);
}

-- A run on `b` that does not run out of fuel; `P` holds of its result and its last offset.
abbrev pub Ends : {A : Type 0} → Buffer → (A → ℕ → Type 0) → Run A → Type 0
Ends b P (done a c) = Follows b c × P a c.offset
Ends b P fault = Unit
Ends b P timeout = ⊥

pub Ends-bind :
    {A B : Type 0} (b : Buffer) (P : A → ℕ → Type 0) (Q : B → ℕ → Type 0) (r : Run A)
    (f : A → Buffer → Run B)
    → Ends b P r
    → ((a : A) (c : Buffer) → Follows b c → P a c.offset → Ends b Q (f a c))
    → Ends b Q (r >>= f)
Ends-bind b P Q (done a c) f (s, p) k = k a c s p
Ends-bind b P Q fault f h k = tt
Ends-bind b P Q timeout f h k = absurd h

-- What ends from a later buffer ends from an earlier one.
pub Ends-later :
    {A : Type 0} (b c : Buffer) (P Q : A → ℕ → Type 0) (r : Run A)
    → Follows b c
    → ((a : A) (o : ℕ) → P a o → Q a o)
    → Ends c P r
    → Ends b Q r
Ends-later b c P Q (done a d) s k (s2, p) = (Follows-trans b c d s s2, k a d.offset p)
Ends-later b c P Q fault s k h = tt
Ends-later b c P Q timeout s k h = absurd h

-- An object takes bytes, and nothing is given back.
abbrev pub Progress : ℕ → Decoded → ℕ → Type 0
Progress start end_mark o = start ≤ o
Progress start failed o = Unit
Progress start (object x) o = start < o

abbrev pub Onward : {A : Type 0} → ℕ → Option A → ℕ → Type 0
Onward start none o = Unit
Onward start (some a) o = start ≤ o

pub Onward-le :
    {A : Type 0} {m n : ℕ} → m ≤ n → (a : Option A) (o : ℕ) → Onward n a o → Onward m a o
Onward-le h none o p = tt
Onward-le h (some a) o p = omega arith

pub Progress-le : {m n : ℕ} → m ≤ n → (a : Decoded) (o : ℕ) → Progress n a o → Progress m a o
Progress-le h end_mark o p = omega arith
Progress-le h failed o p = tt
Progress-le h (object x) o p = omega arith

-- `fuel` units are enough for `read`.
abbrev pub IsFueled : ℕ → Reader → Type 0
IsFueled fuel read =
    (b : Buffer) → IsReadable b → b.size + 2 ≤ fuel + b.offset → Ends b (Progress b.offset) (read b)
