-- ===== src/Buffer/Laws.antt =====
-- Laws of stores into and loads from a buffer.
use libtvnet.Base.{
  ℕ, suc, ◌+◌, ◌≤◌, ◌<◌, ◌≡◌, refl, sym, ap, ◌∙◌, List, [], ◌∷◌, ◌++◌, append_assoc, none, some,
  ◌>>=◌, Option, none, >>=_assoc, length, length-append, length-set, set-append, take-append,
  drop-append, arith, set,
}
use mathlib.Core.Path.{fun_ext}
use native.Mathlib.Nat.{add-zero}
use native.Mathlib.Decide.{dec_le}
use libtvnet.Buffer.{Buffer, put_byte, put, load}

-- Stores one after the other.
pub put-append : (xs ys : List ℕ) (b : Buffer) → put (xs ++ ys) b ≡ (put xs b >>= put ys)
unfolding put
put-append [] ys b = refl
put-append (x ∷ xs) ys b =
    ap (λ k. put_byte x b >>= k) (fun_ext (put-append xs ys))
    ∙ sym (>>=_assoc (put_byte x b) (put xs) (put ys))

pub put_byte-room :
    (c : ℕ) (b : Buffer)
    → b.offset < length b.data_bytes
    → put_byte c b
      ≡ some (record b { data_bytes = set b.data_bytes b.offset c; offset = suc b.offset })
unfolding put_byte
put_byte-room c b h = ground arith

-- One store over the byte at the offset.
put_byte-over :
    (before : List ℕ) (old new : ℕ) (after : List ℕ) (size : ℕ)
    → put_byte new
        (record { data_bytes = before ++ (old ∷ after); offset = length before; size = size })
      ≡ some (record {
        data_bytes = (before ++ (new ∷ [])) ++ after;
        offset = length (before ++ (new ∷ []));
        size = size;
      })
put_byte-over before old new after size =
    put_byte-room new _ (omega (arith, length-append before (old ∷ after)))
    ∙ rw (set-append, append_assoc, length-append before (new ∷ [])) (ground arith)

-- With room for them, stores succeed; they move the offset and keep the sizes.
pub put-room :
    (xs : List ℕ) (b : Buffer)
    → b.offset + length xs ≤ length b.data_bytes
    → (b' : Buffer) × (put xs b ≡ some b')
      × (b'.offset ≡ b.offset + length xs)
      × (length b'.data_bytes ≡ length b.data_bytes)
      × (b'.size ≡ b.size)
unfolding put
put-room [] b h = (b, refl, omega arith, refl, refl)
put-room (x ∷ xs) b h =
    let d : List ℕ = set b.data_bytes b.offset x in
    let same : length d ≡ length b.data_bytes = length-set b.data_bytes b.offset x in
    let (b', e, o, l, s) =
      put-room xs (record b { data_bytes = d; offset = suc b.offset }) (omega arith) in
    (b', rw (put_byte-room x b (omega arith)) e, omega arith, omega arith, s)

-- Stores over `old` replace exactly these bytes.
pub put-over :
    (before old new after : List ℕ) (size : ℕ)
    → length old ≡ length new
    → put new
        (record { data_bytes = before ++ (old ++ after); offset = length before; size = size })
      ≡ some (record {
        data_bytes = before ++ (new ++ after);
        offset = length before + length new;
        size = size;
      })
unfolding put
put-over before [] [] after size h = rw (add-zero (length before))
put-over before [] (x ∷ new) after size h = absurd (omega arith)
put-over before (o ∷ old) [] after size h = absurd (omega arith)
put-over before (o ∷ old) (x ∷ new) after size h =
    ap (λ m. m >>= put new) (put_byte-over before o x (old ++ after) size)
    ∙ put-over (before ++ (x ∷ [])) old new after size (omega arith)
    ∙ rw (append_assoc, length-append before (x ∷ [])) (ground arith)

-- Without the room they fault.
pub put-no_room :
    (xs : List ℕ) (b : Buffer)
    → b.offset ≤ length b.data_bytes
    → length b.data_bytes < b.offset + length xs
    → put xs b ≡ none
unfolding put put_byte
put-no_room [] b h h' = absurd (omega arith)
put-no_room (x ∷ xs) b h h' = ground (
  arith,
  length-set b.data_bytes b.offset x,
  put-no_room xs (record b { data_bytes = set b.data_bytes b.offset x; offset = suc b.offset }),
)

-- A load at the start of `xs` finds it.
pub load-append :
    (before xs after : List ℕ) (size : ℕ)
    → load
        (length xs)
        (record { data_bytes = before ++ (xs ++ after); offset = length before; size = size })
      ≡ some xs
unfolding load
load-append before xs after size = ground (
  arith,
  length-append before (xs ++ after),
  length-append xs after,
  drop-append before (xs ++ after),
  take-append xs after,
)

-- What storing `n` bytes in `b` comes to: a fault exactly if they do not fit, else a buffer of the
-- same size with the offset `n` further.
abbrev pub Stores : ℕ → Buffer → Option Buffer → Type 0
Stores n b none = length b.data_bytes < b.offset + n
Stores n b (some b') =
    (b.offset + n ≤ length b.data_bytes)
    × (b'.offset ≡ b.offset + n)
    × (length b'.data_bytes ≡ length b.data_bytes)
    × (b'.size ≡ b.size)

pub put-Stores :
    (xs : List ℕ) (b : Buffer) → b.offset ≤ length b.data_bytes → Stores (length xs) b (put xs b)
put-Stores xs b h = elim (dec_le (b.offset + length xs) (length b.data_bytes)) [
  | yes fits ↦ let (b', e, o, l, s) = put-room xs b fits in rw e (fits, o, l, s)
  | no over ↦
      let past : length b.data_bytes < b.offset + length xs = omega arith in
      rw (put-no_room xs b h past) past
]
