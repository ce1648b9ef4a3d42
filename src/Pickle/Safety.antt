-- ===== src/Pickle/Safety.antt =====
-- The decoder on arbitrary bytes: it stays inside the memory, whatever the bytes are.
pub mod Loads
use libtvnet.Base.{
  if_intro, ℕ, suc, ◌+◌, ◌/◌, ◌%◌, ◌^◌, ◌≤◌, ◌<◌, ◌≡◌, refl, List, Option, none, some, ◌>>=◌,
  length, arith, take, drop, le→leb, Bool-cases, inl, inr, true, false, Bool, ◌==◌, ltb, bit_and,
  bit_and_low5, All-get_elem?, if◌then◌else◌, get_elem?_total, get_elem?,
}
use libtvnet.Tvutils.{Tvutils}
use libtvnet.Buffer.{Buffer, IsReadable, past_end, load, advance}
use libtvnet.Pickle.Decoder.{
  Token, end_token, error_token, null_token, integer, float, utf8_string, bin_string, list,
  dictionary, Container, sized, out_of_bounds, take_integer, take_float32, take_float64,
  take_unsigned, decode_number, decode_container, finish_string, finish_count, decode_tagged,
  decode_token,
}
use libtvnet.Pickle.At.{behind, advance_lem}
use Loads.{
  Pointed, Advances, IsNumber, IsSize, Steps, Ahead, Lands, past_end→le, number-Lands, Steps-map,
  decode_number-Steps, decode_container-Steps,
}

-- From here on `b` stands behind the control byte, which stood at `start`.
module _ {b : Buffer} (readable : IsReadable b) (inside : b.offset ≤ b.size) (start : ℕ)
    (behind_start : start < b.offset) (junk : ℕ) (word : junk < 2 ^ 64) where
  open readable use {backed, addressable}

  abbrev Landing : Option (Token × Buffer) → Type 0
  Landing = Steps b (Lands b start)

  -- A size that passed the check leaves the string inside the buffer; an uninitialised one can at
  -- most pass a check of its own.
  finish_string-Landing :
      (make : ℕ → ℕ → Token) (slack : ℕ)
      → slack ≤ 1
      → ((u p o : ℕ)
          → p + u ≤ b.size
          → start < o
          → Pointed b.size (make u p) × Advances start (make u p) o)
      → (t : Container) (b' : Buffer) → b'.data_bytes ≡ b.data_bytes
      → b'.size ≡ b.size
      → Ahead b IsSize t b'.offset
      → Landing (some (finish_string make slack junk (t, b')))
  unfolding finish_string past_end advance
  finish_string-Landing make slack one is_string (sized u) b' d s (lo, hi, q) =
      elim (Bool-cases (past_end u b')) [
        | inl e ↦ rw e (d, s, (omega arith, tt, tt))
        | inr e ↦
            let fits : b'.offset + u ≤ b'.size = past_end→le u b' (omega arith) (omega arith) e in
            let (p, m) =
              is_string u b'.offset ((b'.offset + (u + slack)) % 2 ^ 64) (omega arith)
                (omega arith) in
            rw e (d, s, (omega arith, p, m))
      ]
  finish_string-Landing make slack one is_string out_of_bounds b' d s (lo, hi, q) =
      elim (Bool-cases (past_end junk b')) [
        | inl e ↦ rw e (d, s, (omega arith, tt, tt))
        | inr e ↦ rw e (d, s, (ground arith, tt, tt))
      ]

  finish_list-Landing :
      (t : Container) (b' : Buffer)
      → b'.data_bytes ≡ b.data_bytes
      → b'.size ≡ b.size
      → Ahead b IsSize t b'.offset
      → Landing (some (finish_count list (t, b')))
  unfolding finish_count
  finish_list-Landing (sized u) b' d s (lo, hi, q) = (d, s, (omega arith, tt, omega arith))
  finish_list-Landing out_of_bounds b' d s (lo, hi, q) = (d, s, (omega arith, tt, tt))

  finish_dictionary-Landing :
      (t : Container) (b' : Buffer)
      → b'.data_bytes ≡ b.data_bytes
      → b'.size ≡ b.size
      → Ahead b IsSize t b'.offset
      → Landing (some (finish_count dictionary (t, b')))
  unfolding finish_count
  finish_dictionary-Landing (sized u) b' d s (lo, hi, q) = (d, s, (omega arith, tt, omega arith))
  finish_dictionary-Landing out_of_bounds b' d s (lo, hi, q) = (d, s, (omega arith, tt, tt))

  number-Landing : (m : Option (Token × Buffer)) → Steps b (Ahead b IsNumber) m → Landing m
  number-Landing none h = h
  number-Landing (some (t, b')) (d, s, (lo, hi, q)) = (d, s, number-Lands b t q (omega arith) hi)

  module _ ⦃tv : Tvutils⦄ where
    tagged-Landing : (c : ℕ) → c < 256 → Landing (decode_tagged junk c b)
    unfolding decode_tagged
    tagged-Landing c byte =
        let sized_by : (f : Container × Buffer → Token × Buffer)
            → ((t : Container) (b' : Buffer)
                → b'.data_bytes ≡ b.data_bytes
                → b'.size ≡ b.size
                → Ahead b IsSize t b'.offset
                → Landing (some (f (t, b'))))
            → Landing (decode_container c b >>= λ r. some (f r)) =
          λ f k.
            Steps-map b (Ahead b IsSize) (Lands b start) (decode_container c b) f
              (decode_container-Steps readable inside c byte) k in
        if_intro Landing (ltb (c / 32) 4)
          (number-Landing (decode_number c b) (decode_number-Steps readable inside c))
          (if_intro Landing (c / 32 == 4)
            (sized_by _ (finish_string-Landing utf8_string 1 (omega arith) (λ u p o h m. (h, m))))
            (if_intro Landing (c / 32 == 5)
              (sized_by _ (finish_string-Landing bin_string 0 (omega arith) (λ u p o h m. (h, m))))
              (if_intro Landing (c / 32 == 6) (sized_by _ finish_list-Landing)
                (sized_by _ finish_dictionary-Landing))))

IsReadable-behind : {b : Buffer} → IsReadable b → b.offset + 1 ≤ b.size → IsReadable (behind 1 b)
IsReadable-behind r h = record {
  bytes = r.bytes;
  backed = r.backed;
  at_most_one_past = omega arith;
  addressable = r.addressable;
}

-- On any readable buffer the decoder never loads outside the memory. It leaves the bytes and the
-- size alone; a string token points to bytes below the size; the offset ends at most one byte
-- behind the size, and is further than before for every token but the end (where it stays) and
-- errors. This holds whatever an uninitialised 64-bit `token.value.u` holds.
pub decode_token-Steps :
    ⦃tv : Tvutils⦄ (junk : ℕ) (b : Buffer)
    → junk < 2 ^ 64
    → IsReadable b
    → Steps b (Lands b b.offset) (decode_token junk b)
unfolding decode_token
decode_token-Steps junk b word readable = elim (Bool-cases (past_end 1 b)) [
  | inl e ↦ rw e (refl, refl, (readable.at_most_one_past, tt, refl))
  | inr e ↦
      let fits : b.offset + 1 ≤ b.size =
        past_end→le 1 b (omega (arith, readable.at_most_one_past, readable.addressable))
          (omega arith) e in
      let (c, found) = get_elem?_total b.data_bytes b.offset (omega (arith, readable.backed)) in
      let byte : c < 256 =
        All-get_elem? (λ c. c < 256) b.data_bytes b.offset readable.bytes found in
      rw (e, found, advance_lem 1 b (omega (arith, readable.addressable)))
        (tagged-Landing (IsReadable-behind readable fits) fits b.offset (omega arith) junk word c
          byte)
]
