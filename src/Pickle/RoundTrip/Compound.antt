-- ===== src/Pickle/RoundTrip/Compound.antt =====
-- The decoder on the bytes of strings, lists and dictionaries.

use libtvnet.Base.{
  ℕ, ◌+◌, ◌/◌, ◌%◌, ◌^◌, ◌≤◌, ◌<◌, ◌≡◌, refl, ◌∙◌, List, [], ◌∷◌, ◌++◌, some, length, length-append,
  arith, append-nil, bit_and, bit_and_low5, leb, leb→le, Bool-cases, inl, inr,
}
use libtvnet.Base.{pos}
use libtvnet.Tvutils.{Tvutils}
use libtvnet.Buffer.{Buffer}
use libtvnet.Pickle.Bytes.{compound_bytes, utf8_bytes, binary_bytes}
use libtvnet.Pickle.Decoder.{
  Token, utf8_string, bin_string, list, dictionary, take_unsigned, decode_container, decode_tagged,
  decode_token, sized, finish_string, finish_count,
}
use libtvnet.Pickle.RoundTrip.Loads.{take_unsigned-At, decode_token-At}
use libtvnet.Pickle.At.{
  At, behind, At-tail, At-prefix, At-suffix, behind-behind, past_end-no, advance_lem,
}

-- `cs` is the header of a container with tag `tag` and `n` elements.
pub record Header ⦃tv : Tvutils⦄ (tag n : ℕ) (cs : List ℕ) : Type 0 where
  pub control : ℕ
  pub rest : List ℕ
  pub shape : cs ≡ control ∷ rest
  pub group : control / 32 ≡ tag / 32
  pub read :
      {b : Buffer} → At b rest → decode_container control b ≡ some (sized n, behind (length rest) b)

module _ ⦃tv : Tvutils⦄ (tag n : ℕ) (free : tag % 32 ≡ 0) (byte : tag < 256) where
  low_bits : (k : ℕ) → k < 32 → bit_and (tag + k) 0x1f ≡ k
  low_bits k h = bit_and_low5 (tag + k) (omega arith) ∙ omega arith

  inline-Header : n ≤ 28 → Header tag n ((tag + n) ∷ [])
  unfolding decode_container
  inline-Header h = record {
    control = tag + n;
    rest = [];
    shape = refl;
    group = omega arith;
    read = λ a. rw (low_bits n (omega arith)) (ground arith);
  }

  -- The headers with a size of `bytes` bytes behind the control byte `tag + 28 + k`.
  sized-Header :
      (k bytes : ℕ)
      → k < 32
      → n < 256 ^ bytes
      → ((b : Buffer) → decode_container (tag + k) b ≡ take_unsigned bytes b)
      → Header tag n ((tag + k) ∷ tv.set_be_i bytes (pos n))
  sized-Header k bytes small fits dispatch = record {
    control = tag + k;
    rest = tv.set_be_i bytes (pos n);
    shape = refl;
    group = omega arith;
    read = λ a.
        dispatch _ ∙ take_unsigned-At bytes n fits a ∙ rw (tv.length-set_be_i bytes (pos n)) refl;
  }

  container_29 : (b : Buffer) → decode_container (tag + 29) b ≡ take_unsigned 1 b
  unfolding decode_container
  container_29 b = rw (low_bits 29 (omega arith)) refl

  container_30 : (b : Buffer) → decode_container (tag + 30) b ≡ take_unsigned 2 b
  unfolding decode_container
  container_30 b = rw (low_bits 30 (omega arith)) refl

  container_31 : (b : Buffer) → decode_container (tag + 31) b ≡ take_unsigned 4 b
  unfolding decode_container
  container_31 b = rw (low_bits 31 (omega arith)) refl

  compound_bytes-Header : n < 2 ^ 32 → Header tag n (compound_bytes tag n)
  unfolding compound_bytes
  compound_bytes-Header h = elim (Bool-cases (leb n 28)) [
    | inl e ↦ rw e (inline-Header (leb→le _ _ e))
    | inr e ↦ rw e (elim (Bool-cases (leb n 0xff)) [
      | inl e2 ↦ rw e2 (sized-Header 29 1 (omega arith) (ground arith) container_29)
      | inr e2 ↦ rw e2 (elim (Bool-cases (leb n 0xffff)) [
        | inl e3 ↦ rw e3 (sized-Header 30 2 (omega arith) (ground arith) container_30)
        | inr e3 ↦ rw e3 (sized-Header 31 4 (omega arith) (omega arith) container_31)
      ])
    ])
  ]

-- The bytes of a string, with `tail` behind them that is skipped without a check.
finish-At :
    (make : ℕ → ℕ → Token) (junk : ℕ) (s tail : List ℕ) {b : Buffer}
    → At b (s ++ tail)
    → finish_string make (length tail) junk (sized (length s), b)
      ≡ (make (length s) b.offset, behind (length (s ++ tail)) b)
unfolding finish_string
finish-At make junk s tail {b} a =
    let total : length (s ++ tail) ≡ length s + length tail = length-append s tail in
    rw
      (
        past_end-no (length s) b (omega (arith, a.within)) a.big,
        advance_lem (length s + length tail) b (omega (arith, a.within, a.big)),
        total,
      )
      refl

module _ ⦃tv : Tvutils⦄ (junk : ℕ) {b : Buffer} where
  -- A header is dispatched on its group, with the container decoded.
  Header-At :
      {tag n : ℕ} {cs : List ℕ} (h : Header tag n cs)
      → At b cs
      → (decode_token junk b ≡ decode_tagged junk h.control (behind 1 b))
        × (decode_container h.control (behind 1 b) ≡ some (sized n, behind (length cs) b))
  Header-At h a =
      let a' : At b (h.control ∷ h.rest) = rw h.shape at a in
      (
        decode_token-At junk a',
        h.read (At-tail a') ∙ rw (h.shape, behind-behind 1 (length h.rest) b) (ground arith),
      )

  -- Where the header of a list of `n` items stands, the decoder reads it and moves behind it.
  pub decode_list-At :
      (n : ℕ)
      → n < 2 ^ 32
      → At b (compound_bytes 0xc0 n)
      → decode_token junk b ≡ some (list n, behind (length (compound_bytes 0xc0 n)) b)
  unfolding decode_tagged finish_count
  decode_list-At n small a =
      let h = compound_bytes-Header 0xc0 n refl (omega arith) small in
      let (e, r) = Header-At h a in e ∙ rw (h.group, r) refl

  pub decode_dictionary-At :
      (n : ℕ)
      → n < 2 ^ 32
      → At b (compound_bytes 0xe0 n)
      → decode_token junk b ≡ some (dictionary n, behind (length (compound_bytes 0xe0 n)) b)
  unfolding decode_tagged finish_count
  decode_dictionary-At n small a =
      let h = compound_bytes-Header 0xe0 n refl (omega arith) small in
      let (e, r) = Header-At h a in e ∙ rw (h.group, r) refl

  pub decode_binary-At :
      (s : List ℕ)
      → length s < 2 ^ 32
      → At b (binary_bytes s)
      → decode_token junk b
        ≡ some (
          bin_string (length s) (b.offset + length (compound_bytes 0xa0 (length s))),
          behind (length (binary_bytes s)) b,
        )
  unfolding decode_tagged binary_bytes
  decode_binary-At s small a =
      let cs : List ℕ = compound_bytes 0xa0 (length s) in
      let h = compound_bytes-Header 0xa0 (length s) refl (omega arith) small in
      let (e, r) = Header-At h (At-prefix cs s a) in
      let t =
        finish-At bin_string junk s [] {b = behind (length cs) b}
          (rw (append-nil s) (At-suffix cs s a)) in
      e
      ∙ rw (h.group, r, t, append-nil s, behind-behind (length cs) (length s) b, length-append cs s)
          refl

  pub decode_utf8-At :
      (s : List ℕ)
      → length s < 2 ^ 32
      → At b (utf8_bytes s)
      → decode_token junk b
        ≡ some (
          utf8_string (length s) (b.offset + length (compound_bytes 0x80 (length s))),
          behind (length (utf8_bytes s)) b,
        )
  unfolding decode_tagged utf8_bytes
  decode_utf8-At s small a =
      let cs : List ℕ = compound_bytes 0x80 (length s) in
      let h = compound_bytes-Header 0x80 (length s) refl (omega arith) small in
      let (e, r) = Header-At h (At-prefix cs (s ++ (0 ∷ [])) a) in
      let t = finish-At utf8_string junk s (0 ∷ []) (At-suffix cs (s ++ (0 ∷ [])) a) in
      e
      ∙ rw
          (
            h.group,
            r,
            t,
            behind-behind (length cs) (length (s ++ (0 ∷ []))) b,
            length-append cs (s ++ (0 ∷ [])),
          )
          refl
