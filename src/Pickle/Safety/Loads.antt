-- ===== src/Pickle/Safety/Loads.antt =====
-- Steps of the decoder that do not fault, and the fixed-width loads among them.
use libtvnet.Base.{
  if_intro, ℕ, ◌+◌, ◌^◌, ◌≤◌, ◌<◌, ◌≡◌, refl, List, Option, none, some, ◌>>=◌, length, arith, take,
  drop, Bool-cases, inl, inr, false, ◌==◌, bit_and, bit_and_low5, if◌then◌else◌,
}
use libtvnet.Tvutils.{Tvutils}
use libtvnet.Buffer.{Buffer, IsReadable, past_end, load, advance}
use libtvnet.Pickle.Decoder.{
  Token, end_token, error_token, null_token, integer, float, utf8_string, bin_string, list,
  dictionary, Container, sized, out_of_bounds, take_integer, take_float32, take_float64,
  take_unsigned, decode_number, decode_container,
}

-- The bytes to which a string token points lie below `size`.
abbrev pub Pointed : ℕ → Token → Type 0
Pointed size (utf8_string u pointer) = pointer + u ≤ size
Pointed size (bin_string u pointer) = pointer + u ≤ size
Pointed size _ = Unit

-- A value is read, so the offset moves.
abbrev pub Advances : ℕ → Token → ℕ → Type 0
Advances start end_token o = start ≡ o
Advances start error_token o = Unit
Advances start _ o = start < o

abbrev pub IsNumber : Token → Type 0
IsNumber error_token = Unit
IsNumber null_token = Unit
IsNumber (integer i) = Unit
IsNumber (float f) = Unit
IsNumber _ = ⊥

-- A size that was read fits 32 bits.
abbrev pub IsSize : Container → Type 0
IsSize (sized u) = u < 2 ^ 32
IsSize out_of_bounds = Unit

-- A step on `b` that does not fault and leaves the memory and the size alone; `P` holds of its
-- result and the new offset.
abbrev pub Steps : {A : Type 0} → Buffer → (A → ℕ → Type 0) → Option (A × Buffer) → Type 0
Steps b P none = ⊥
Steps b P (some (a, b')) = (b'.data_bytes ≡ b.data_bytes) × (b'.size ≡ b.size) × P a b'.offset

-- The offset is not before that of `b` and not behind its size, and `Q` holds of the result.
abbrev pub Ahead : {A : Type 0} → Buffer → (A → Type 0) → A → ℕ → Type 0
Ahead b Q a o = (b.offset ≤ o) × (o ≤ b.size) × Q a

pub past_end→le :
    (n : ℕ) (b : Buffer)
    → b.offset ≤ 2 ^ 63
    → n < 2 ^ 63
    → past_end n b ≡ false
    → b.offset + n ≤ b.size
unfolding past_end
past_end→le n b small h e = ground arith

load_total :
    (n : ℕ) (b : Buffer)
    → b.offset + n ≤ length b.data_bytes
    → load n b ≡ some (take n (drop b.offset b.data_bytes))
unfolding load
load_total n b h = ground arith

module _ {b : Buffer} (readable : IsReadable b) (inside : b.offset ≤ b.size) where
  open readable use {backed, addressable}

  -- The common shape of the fixed-width loads.
  taken :
      {A : Type 0} (Q : A → Type 0) (n : ℕ) (refused : A) (make : List ℕ → A)
      → n < 2 ^ 63
      → Q refused
      → ((cs : List ℕ) → Q (make cs))
      → Steps b (Ahead b Q) (
          if past_end n b
          then some (refused, b)
          else (load n b >>= λ cs. some (make cs, advance n b)))
  unfolding advance
  taken Q n refused make small q made = elim (Bool-cases (past_end n b)) [
    | inl e ↦ rw e (refl, refl, (omega arith, inside, q))
    | inr e ↦
        let fits : b.offset + n ≤ b.size = past_end→le n b (omega arith) small e in
        rw (e, load_total n b (omega arith)) (refl, refl, (omega arith, omega arith, made _))
  ]

  module _ ⦃tv : Tvutils⦄ where
    pub decode_number-Steps : (c : ℕ) → Steps b (Ahead b IsNumber) (decode_number c b)
    unfolding decode_number take_float64 take_float32 take_integer
    decode_number-Steps c =
        let P : Option (Token × Buffer) → Type 0 = Steps b (Ahead b IsNumber) in
        let here : (b.offset ≤ b.offset) × (b.offset ≤ b.size) × Unit {0} =
          (omega arith, inside, tt) in
        if_intro P (c == 0x40) (refl, refl, here)
          (if_intro P (c == 0x41) (taken IsNumber 8 error_token _ (omega arith) tt (λ _. tt)) (
            if_intro P (c == 0x42) (taken IsNumber 4 error_token _ (omega arith) tt (λ _. tt)) (
              if_intro P (c == 0x43) (taken IsNumber 8 error_token _ (omega arith) tt (λ _. tt)) (
                if_intro P (c == 0x44) (taken IsNumber 4 error_token _ (omega arith) tt (λ _. tt)) (
                  if_intro P (c == 0x45) (taken IsNumber 2 error_token _ (omega arith) tt (λ _. tt))
                    (refl, refl, here))))))

    -- The size of a container fits 32 bits, whatever form it has.
    pub decode_container-Steps : (c : ℕ) → c < 256 → Steps b (Ahead b IsSize) (decode_container c b)
    unfolding decode_container take_unsigned
    decode_container-Steps c byte =
        let P : Option (Container × Buffer) → Type 0 = Steps b (Ahead b IsSize) in
        if_intro P (bit_and c 0x1f == 0x1f)
          (taken IsSize 4 out_of_bounds _ (omega arith) tt (λ cs. tv.get_be_u-lt 4 cs))
          (if_intro P (bit_and c 0x1f == 0x1e)
            (taken IsSize 2 out_of_bounds _ (omega arith) tt
              (λ cs. omega (arith, tv.get_be_u-lt 2 cs)))
            (if_intro P (bit_and c 0x1f == 0x1d)
              (taken IsSize 1 out_of_bounds _ (omega arith) tt
                (λ cs. omega (arith, tv.get_be_u-lt 1 cs)))
              (refl, refl, (omega arith, inside, omega (arith, bit_and_low5 c byte)))))

-- Where a token leaves the offset: at most one byte behind the size, with the string bytes inside,
-- and further than `start` unless it is an error.
abbrev pub Lands : Buffer → ℕ → Token → ℕ → Type 0
Lands b start t o = (o ≤ b.size + 1) × Pointed b.size t × Advances start t o

pub number-Lands :
    (b : Buffer) {start o : ℕ} (t : Token) → IsNumber t → start < o → o ≤ b.size → Lands b start t o
number-Lands b error_token n p q = (omega arith, tt, tt)
number-Lands b null_token n p q = (omega arith, tt, p)
number-Lands b (integer i) n p q = (omega arith, tt, p)
number-Lands b (float f) n p q = (omega arith, tt, p)
number-Lands b (utf8_string u k) n p q = absurd n
number-Lands b (bin_string u k) n p q = absurd n
number-Lands b (list u) n p q = absurd n
number-Lands b (dictionary u) n p q = absurd n
number-Lands b end_token n p q = absurd n

pub Steps-map :
    {A B : Type 0} (b : Buffer) (P : A → ℕ → Type 0) (Q : B → ℕ → Type 0) (m : Option (A × Buffer))
    (f : A × Buffer → B × Buffer)
    → Steps b P m
    → ((a : A) (b' : Buffer)
        → b'.data_bytes ≡ b.data_bytes
        → b'.size ≡ b.size
        → P a b'.offset
        → Steps b Q (some (f (a, b'))))
    → Steps b Q (m >>= λ r. some (f r))
Steps-map b P Q none f h k = absurd h
Steps-map b P Q (some (a, b')) f (d, s, p) k = k a b' d s p

-- Whatever follows a step may rely on what the step keeps.
pub Steps_bind {κ} :
    {A B : Type 0} (b : Buffer) (P : A → ℕ → Type 0) (Q : Option B → Type κ)
    (m : Option (A × Buffer)) (f : A × Buffer → Option B)
    → Steps b P m
    → ((a : A) (b' : Buffer)
        → b'.data_bytes ≡ b.data_bytes
        → b'.size ≡ b.size
        → P a b'.offset
        → Q (f (a, b')))
    → Q (m >>= f)
Steps_bind b P Q none f h k = absurd h
Steps_bind b P Q (some (a, b')) f (d, s, p) k = k a b' d s p

-- The token is a value.
abbrev pub IsValue : Token → Type 0
IsValue end_token = ⊥
IsValue error_token = ⊥
IsValue _ = Unit

pub value-Advances : (start o : ℕ) (t : Token) → IsValue t → Advances start t o → start < o
value-Advances start o null_token v h = h
value-Advances start o (integer i) v h = h
value-Advances start o (float f) v h = h
value-Advances start o (utf8_string u p) v h = h
value-Advances start o (bin_string u p) v h = h
value-Advances start o (list u) v h = h
value-Advances start o (dictionary u) v h = h
value-Advances start o end_token v h = absurd v
value-Advances start o error_token v h = absurd v

-- What a step leaves is readable again.
pub IsReadable-over :
    {b : Buffer} (b' : Buffer)
    → IsReadable b
    → b'.data_bytes ≡ b.data_bytes
    → b'.size ≡ b.size
    → b'.offset ≤ b.size + 1
    → IsReadable b'
IsReadable-over b' r d s o = record {
  bytes = rw d r.bytes;
  backed = rw (d, s) r.backed;
  at_most_one_past = rw s o;
  addressable = rw s r.addressable;
}
