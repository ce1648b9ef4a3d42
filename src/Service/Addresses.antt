-- ===== src/Service/Addresses.antt =====
-- The addresses of services and clients: how long they are, and what is read back of them.
use libtvnet.Base.{
  ℕ, suc, ◌+◌, ◌^◌, ◌≤◌, ◌<◌, ◌≡◌, refl, ap, sym, ◌∙◌, List, [], ◌∷◌, ◌++◌, Option, none, some,
  >>=_some, codes, length, get_elem?, drop, arith, ℤ, pos, negsuc, neg, to_signed, false, All,
}
use mathlib.Core.Option.{some-injective}
use libtvnet.Service.Libc.{absolute, Libc}
use libtvnet.Service.Unix.{addrlen, same_bytes, store_text, path_text, make_address, parse_address}

digit_not_nul :
    (ds rest literal : List ℕ)
    → length ds ≡ 19
    → All (λ c. 0 < c) ds
    → same_bytes 7 (ds ++ rest) (0 ∷ literal) ≡ false
digit_not_nul [] rest literal e h = absurd (omega arith)
digit_not_nul (c ∷ ds) rest literal e (h, hs) = ground arith

pub store_text-room :
    (text memory : List ℕ)
    → length text + 1 ≤ length memory
    → store_text text memory ≡ some (text ++ (0 ∷ drop (length text + 1) memory))
unfolding store_text
store_text-room text memory h = ground arith

neg_pos : (n : ℕ) → suc n < 2 ^ 63 → neg (to_signed (2 ^ 64) (pos (suc n))) ≡ negsuc n
neg_pos n h = ground arith

-- Only the address of a client is taken apart again.
abbrev pub client_only : ℤ → Option ℤ
client_only (pos n) = none
client_only (negsuc n) = some (negsuc n)

module _ ⦃libc : Libc⦄ where
  pub path_length : (x : ℤ) → absolute x < 2 ^ 63 → length (path_text x) + 3 ≤ addrlen
  unfolding path_text
  path_length (pos n) h =
      omega (arith, libc.length-digits (libc.abs (pos n)), libc.abs_lem (pos n) h)
  path_length (negsuc n) h =
      omega (arith, libc.length-digits (libc.abs (negsuc n)), libc.abs_lem (negsuc n) h)

  pub parse-path :
      (x : ℤ) (literal rest : List ℕ)
      → absolute x < 2 ^ 63
      → parse_address literal (path_text x ++ (0 ∷ rest)) ≡ client_only x
  unfolding path_text parse_address
  parse-path (pos n) literal rest h =
      let small : libc.abs (pos n) < 2 ^ 63 = omega (arith, libc.abs_lem (pos n) h) in
      rw
        (digit_not_nul (libc.digits (libc.abs (pos n))) (0 ∷ rest) literal
          (libc.length-digits (libc.abs (pos n)) small) (libc.digits-text (libc.abs (pos n))))
        refl
  parse-path (negsuc n) literal rest h =
      let size : libc.abs (negsuc n) ≡ suc n = libc.abs_lem (negsuc n) h ∙ omega arith in
      let small : suc n < 2 ^ 63 = omega arith in
      rw (size, libc.scan-digits (suc n) rest small) (ap some (neg_pos n small))

  -- The address of a service number that is not the least 64-bit integer fits TVNS_ADDRLEN, so that
  -- making it stores nothing outside. Of the address of a client, a negative number, parsing gives that
  -- number again; on the address of a service it aborts, whatever stands in memory behind the prefix.
  pub parse_address-make_address :
      (x : ℤ) (memory literal : List ℕ)
      → absolute x < 2 ^ 63
      → length memory + 2 ≡ addrlen
      → (sun_path : List ℕ) × (address_len : ℕ) × (make_address x memory
          ≡ some (sun_path, address_len))
        × (address_len ≤ addrlen)
        × (parse_address literal sun_path ≡ client_only x)
  unfolding make_address
  parse_address-make_address x memory literal h size =
      let text : List ℕ = path_text x in
      let rest : List ℕ = drop (length text + 1) memory in
      let fits : length text + 3 ≤ addrlen = path_length x h in
      (
        text ++ (0 ∷ rest),
        2 + length text + 1,
        >>=_some _ _ _ _ (store_text-room text memory (omega arith)) refl,
        omega arith,
        parse-path x literal rest h,
      )

  digits-injective : (m n : ℕ) → m < 2 ^ 63 → n < 2 ^ 63 → libc.digits m ≡ libc.digits n → m ≡ n
  digits-injective m n h k e = some-injective m n (
      sym (libc.scan-digits m [] h)
      ∙ ap (λ ds. libc.scan (ds ++ (0 ∷ []))) e
      ∙ libc.scan-digits n [] k)

  -- The eighth characters differ.
  clash :
      {m n : ℕ}
      → codes "/tmp/tvns_" ++ libc.digits m ≡ codes "/tmp/tvu_client_" ++ libc.digits n
      → ⊥
  clash e =
      let eighth : ◌≡◌ {A = ℕ} 110 117 = some-injective 110 117 (ap (λ s. get_elem? s 7) e) in
      omega arith

  -- Different service numbers have different names, whether they are those of services or of clients.
  pub path_text-injective :
      (x y : ℤ) → absolute x < 2 ^ 63 → absolute y < 2 ^ 63 → path_text x ≡ path_text y → x ≡ y
  unfolding path_text
  path_text-injective (pos m) (pos n) h k e =
      let a : libc.abs (pos m) ≡ m = libc.abs_lem (pos m) h ∙ omega arith in
      let b : libc.abs (pos n) ≡ n = libc.abs_lem (pos n) k ∙ omega arith in
      ap pos (digits-injective m n (omega arith) (omega arith) (rw (a, b) at (ap (drop 10) e)))
  path_text-injective (pos m) (negsuc n) h k e = absurd (clash e)
  path_text-injective (negsuc m) (pos n) h k e = absurd (clash (sym e))
  path_text-injective (negsuc m) (negsuc n) h k e =
      let a : libc.abs (negsuc m) ≡ suc m = libc.abs_lem (negsuc m) h ∙ omega arith in
      let b : libc.abs (negsuc n) ≡ suc n = libc.abs_lem (negsuc n) k ∙ omega arith in
      let same : suc m ≡ suc n =
        digits-injective (suc m) (suc n) (omega arith) (omega arith)
          (rw (a, b) at (ap (drop 16) e)) in
      ap negsuc (omega arith)
