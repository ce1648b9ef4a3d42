-- ===== src/Pyext/Total.antt =====
-- `decode` on arbitrary bytes: the recursion and the loops end.
use libtvnet.Base.{
  ℕ, zero, suc, ◌+◌, ◌^◌, ◌≤◌, ◌<◌, ◌≡◌, refl, List, Option, none, some, length, arith, All,
}
use libtvnet.Tvutils.{Tvutils}
use libtvnet.Buffer.{Buffer, IsReadable}
use libtvnet.Pickle.Decoder.{
  Token, end_token, error_token, null_token, integer, float, utf8_string, bin_string, list,
  dictionary, decode_token,
}
use libtvnet.Pickle.Safety.Loads.{Steps, Lands}
use libtvnet.Pickle.Safety.{decode_token-Steps}
use libtvnet.Pyext.Objects.{Object, Pairs, end, unicode, sequence, mapping, Python}
use libtvnet.Pyext.Decoder.{
  Run, done, fault, ◌>>=◌, Decoded, end_mark, failed, object, token_bytes, Reader, decode_items,
  decode_pairs, decode_value, decode_recurse, decode_tuple, decode,
}
use libtvnet.Pyext.Ends.{
  Follows, IsReadable-Follows, Ends, Ends-bind, Ends-later, Progress, Onward, Onward-le,
  Progress-le, IsFueled,
}

items-Ends :
    (fuel : ℕ) (read : Reader) (n : ℕ) (b : Buffer)
    → IsFueled fuel read
    → IsReadable b
    → b.size + 2 ≤ fuel + b.offset
    → Ends b (Onward b.offset) (decode_items read n b)
unfolding decode_items
items-Ends fuel read zero b h r e = ((refl, refl, r.at_most_one_past), omega arith)
items-Ends fuel read (suc n) b h r e =
    Ends-bind b (Progress b.offset) _ (read b) _ (h b r e) (elim [
      | end_mark ↦ λ c s p. tt
      | failed ↦ λ c s p. (s, tt)
      | object x ↦ λ c s p.
          Ends-bind b (Onward c.offset) _ (decode_items read n c) _
            (Ends-later b c _ _ _ s (λ a o q. q)
              (items-Ends fuel read n c h (IsReadable-Follows b c r s) (omega arith)))
            (elim [ none ↦ λ d s2 q. (s2, tt) | some xs ↦ λ d s2 q. (s2, omega arith) ])
    ])

decoded-Progress :
    (start o : ℕ) (m : Option (List ℕ))
    → start < o
    → Progress start (elim m [ none ↦ failed | some t ↦ object (unicode t) ]) o
decoded-Progress start o none h = tt
decoded-Progress start o (some t) h = h

string-Ends :
    (b c : Buffer) (P : Decoded → ℕ → Type 0) (m : Option (List ℕ)) (make : List ℕ → Decoded)
    → Follows b c
    → ((s : List ℕ) → P (make s) c.offset)
    → Ends b P (elim m [ none ↦ fault | some s ↦ done (make s) c ])
string-Ends b c P none make s h = tt
string-Ends b c P (some t) make s h = (s, h t)

-- The object that a list or a dictionary makes of what was read behind the header.
made-Ends :
    {A : Type 0} (b c : Buffer) (make : A → Object) (r : Run (Option A))
    → Follows b c
    → b.offset < c.offset
    → Ends c (Onward c.offset) r
    → Ends b
        (Progress b.offset)
        (r >>= λ a d. done (elim a [ none ↦ failed | some x ↦ object (make x) ]) d)
made-Ends b c make r s lt h =
    Ends-bind b (Onward c.offset) _ r _ (Ends-later b c _ _ r s (λ a o q. q) h)
      (elim [ none ↦ λ d s2 q. (s2, tt) | some x ↦ λ d s2 q. (s2, omega arith) ])

module _ ⦃tv : Tvutils⦄ ⦃py : Python⦄ where
  module _ (fuel : ℕ) (read : Reader) (h : IsFueled fuel read) where
    -- the second read of a pair, and what goes on from there
    value_read :
        (b c : Buffer) (f : Decoded → Buffer → Run (Option Pairs))
        → IsReadable b
        → Follows b c
        → b.offset ≤ c.offset
        → b.size + 2 ≤ fuel + b.offset
        → ((d : Decoded) (c' : Buffer)
            → Follows b c'
            → Progress b.offset d c'.offset
            → Ends b (Onward b.offset) (f d c'))
        → Ends b (Onward b.offset) (read c >>= f)
    value_read b c f r s le e k =
        Ends-bind b (Progress b.offset) (Onward b.offset) (read c) f
          (Ends-later b c _ _ (read c) s (Progress-le le)
            (h c (IsReadable-Follows b c r s) (omega arith)))
          k

    stored :
        (m : Option Pairs) (b c : Buffer) (f : Pairs → Run (Option Pairs))
        → Follows b c
        → b.offset ≤ c.offset
        → ((more : Pairs) → Ends c (Onward c.offset) (f more))
        → Ends b (Onward b.offset) (elim m [ none ↦ done none c | some more ↦ f more ])
    stored none b c f s le k = (s, tt)
    stored (some more) b c f s le k = Ends-later b c _ _ (f more) s (Onward-le le) (k more)

    pairs-Ends :
        (n : ℕ) (dict : Pairs) (b : Buffer)
        → IsReadable b
        → b.size + 2 ≤ fuel + b.offset
        → Ends b (Onward b.offset) (decode_pairs read n dict b)
    unfolding decode_pairs
    pairs-Ends zero dict b r e = ((refl, refl, r.at_most_one_past), omega arith)
    pairs-Ends (suc n) dict b r e =
        Ends-bind b (Progress b.offset) (Onward b.offset) (read b) _ (h b r e) (elim [
          | end_mark ↦ λ c s p. value_read b c _ r s p e (elim [
            | end_mark ↦ λ c' s2 p2. tt
            | failed ↦ λ c' s2 p2. (s2, tt)
            | object x ↦ λ c' s2 p2. tt
          ])
          | failed ↦ λ c s p. (s, tt)
          | object key ↦ λ c s p. value_read b c _ r s (omega arith) e (elim [
            | end_mark ↦ λ c' s2 p2. tt
            | failed ↦ λ c' s2 p2. (s2, tt)
            | object value ↦ λ c' s2 p2.
                stored (py.dict_set dict key value) b c' _ s2 (omega arith)
                  (λ more. pairs-Ends n more c' (IsReadable-Follows b c' r s2) (omega arith))
          ])
        ])

    value-Ends :
        (t : Token) (b c : Buffer)
        → IsReadable b
        → b.size + 2 ≤ suc fuel + b.offset
        → c.data_bytes ≡ b.data_bytes
        → c.size ≡ b.size
        → Lands b b.offset t c.offset
        → Ends b (Progress b.offset) (decode_value read t c)
    unfolding decode_value
    value-Ends end_token b c r e d s (l, p, a) = ((d, s, l), omega arith)
    value-Ends error_token b c r e d s (l, p, a) = ((d, s, l), tt)
    value-Ends null_token b c r e d s (l, p, a) = ((d, s, l), a)
    value-Ends (integer i) b c r e d s (l, p, a) = ((d, s, l), a)
    value-Ends (float f) b c r e d s (l, p, a) = ((d, s, l), a)
    value-Ends (utf8_string u k) b c r e d s (l, p, a) =
        string-Ends b c (Progress b.offset) (token_bytes c k u) _ (d, s, l)
          (λ t. decoded-Progress b.offset c.offset (py.decode_utf8 t) a)
    value-Ends (bin_string u k) b c r e d s (l, p, a) =
        string-Ends b c (Progress b.offset) (token_bytes c k u) _ (d, s, l) (λ t. a)
    value-Ends (list u) b c r e d s (l, p, a) =
        made-Ends b c sequence (decode_items read u c) (d, s, l) a
          (items-Ends fuel read u c h (IsReadable-Follows b c r (d, s, l)) (omega arith))
    value-Ends (dictionary u) b c r e d s (l, p, a) =
        made-Ends b c mapping (decode_pairs read u end c) (d, s, l) a
          (pairs-Ends u end c (IsReadable-Follows b c r (d, s, l)) (omega arith))

    token-Ends :
        (m : Option (Token × Buffer)) (b : Buffer)
        → IsReadable b
        → b.size + 2 ≤ suc fuel + b.offset
        → Steps b (Lands b b.offset) m
        → Ends b
            (Progress b.offset)
            (elim m [ none ↦ fault | some (token, b') ↦ decode_value read token b' ])
    token-Ends none b r e h = absurd h
    token-Ends (some (t, c)) b r e (d, s, lands) = value-Ends t b c r e d s lands

  -- On a readable buffer fuel above what is left of it, and two more, is enough.
  recurse-IsFueled :
      (junk : ℕ) → junk < 2 ^ 64 → (fuel : ℕ) → IsFueled fuel (decode_recurse junk fuel)
  unfolding decode_recurse
  recurse-IsFueled junk word zero b r e = absurd (omega (arith, r.at_most_one_past))
  recurse-IsFueled junk word (suc fuel) b r e =
      token-Ends fuel (decode_recurse junk fuel) (recurse-IsFueled junk word fuel)
        (decode_token junk b) b r e (decode_token-Steps junk b word r)

  tuple-Ends :
      (rounds fuel : ℕ) (read : Reader) (b : Buffer)
      → IsFueled fuel read
      → IsReadable b
      → b.size + 2 ≤ fuel + b.offset
      → b.size + 2 ≤ rounds + b.offset
      → Ends b (Onward b.offset) (decode_tuple rounds read b)
  unfolding decode_tuple
  tuple-Ends zero fuel read b h r e e2 = absurd (omega (arith, r.at_most_one_past))
  tuple-Ends (suc rounds) fuel read b h r e e2 =
      Ends-bind b (Progress b.offset) (Onward b.offset) (read b) _ (h b r e) (elim [
        | end_mark ↦ λ c s p. (s, p)
        | failed ↦ λ c s p. (s, tt)
        | object x ↦ λ c s p.
            Ends-bind b (Onward c.offset) _ (decode_tuple rounds read c) _
              (Ends-later b c _ _ (decode_tuple rounds read c) s (λ a o q. q)
                (tuple-Ends rounds fuel read c h (IsReadable-Follows b c r s) (omega arith)
                  (omega arith)))
              (elim [ none ↦ λ d s2 q. (s2, tt) | some xs ↦ λ d s2 q. (s2, omega arith) ])
      ])

  -- `decode` of any bytes, fewer than 2 ^ 63, ends: with fuel for two more levels and rounds than there
  -- are bytes neither the recursion nor the loop of the tuple runs out of it, whatever an uninitialised
  -- 64-bit `token.value.u` holds. When it returns, the bytes are as they were, and the offset is at most
  -- one byte behind their end.
  pub decode-Ends :
      (junk fuel : ℕ) (bytes : List ℕ)
      → junk < 2 ^ 64
      → All (λ c. c < 256) bytes
      → length bytes < 2 ^ 63
      → length bytes + 2 ≤ fuel
      → Ends
          (record { data_bytes = bytes; offset = 0; size = length bytes })
          (λ r o. Unit)
          (decode junk fuel bytes)
  unfolding decode
  decode-Ends junk fuel bytes word all small enough =
      let start : Buffer = record { data_bytes = bytes; offset = 0; size = length bytes } in
      let readable : IsReadable start = record {
        bytes = all;
        backed = omega arith;
        at_most_one_past = omega arith;
        addressable = small;
      } in
      Ends-bind start (Onward 0) _ (decode_tuple fuel (decode_recurse junk fuel) start) _
        (tuple-Ends fuel fuel (decode_recurse junk fuel) start (recurse-IsFueled junk word fuel)
          readable (omega arith) (omega arith))
        (λ r c s p. (s, tt))
