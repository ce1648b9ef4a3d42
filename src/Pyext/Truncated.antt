-- ===== src/Pyext/Truncated.antt =====
-- Messages that end inside a list.
use libtvnet.Base.{
  ℕ, zero, suc, ◌+◌, ◌^◌, ◌≤◌, ◌<◌, ◌≡◌, refl, List, ◌++◌, length, length-append, arith,
}
use libtvnet.Tvutils.{Tvutils}
use libtvnet.Buffer.{Buffer}
use libtvnet.Pickle.Bytes.{compound_bytes}
use libtvnet.Pickle.At.{At, behind, At-prefix, At-suffix}
use libtvnet.Pickle.RoundTrip.Compound.{decode_list-At}
use libtvnet.Pyext.Objects.{Object, Objects, nil, cons, nr_items, Python}
use libtvnet.Pyext.Decoder.{
  done, fault, end_mark, object, Reader, decode_items, decode_value, decode_recurse, decode_tuple,
  decode,
}
use libtvnet.Pyext.Bytes.{object_bytes, items_bytes, received, AllItems}
use libtvnet.Pyext.Leaves.{recurse_step, header-lt}
use libtvnet.Pyext.RoundTrip.{decode_recurse-At}
use libtvnet.Pyext.Message.{recurse_end, whole}

next_item :
    (read : Reader) (n : ℕ) (o : Object) (b c : Buffer)
    → read b ≡ done (object o) c
    → decode_items read n c ≡ fault
    → decode_items read (suc n) b ≡ fault
unfolding decode_items
next_item read n o b c e e2 = rw (e, decode_items) (rw e2 refl)

no_item :
    (read : Reader) (n : ℕ) (b : Buffer)
    → read b ≡ done end_mark b
    → decode_items read (suc n) b ≡ fault
unfolding decode_items
no_item read n b e = rw (e, decode_items) refl

module _ ⦃tv : Tvutils⦄ ⦃py : Python⦄ (junk : ℕ) where
  items_cut :
      (xs : Objects) (n fuel : ℕ) (b : Buffer)
      → nr_items xs < n
      → AllItems xs
      → At b (items_bytes xs)
      → b.offset + length (items_bytes xs) ≡ b.size
      → length (items_bytes xs) ≤ suc fuel
      → decode_items (decode_recurse junk (suc fuel)) n b ≡ fault
  unfolding items_bytes AllItems
  items_cut xs zero fuel b lt h a e le = absurd (omega arith)
  items_cut nil (suc n) fuel b lt h a e le =
      no_item _ n b (recurse_end junk fuel b (omega arith) a.big)
  items_cut (cons x xs) (suc n) fuel b lt (h, hs) a e le =
      let bs : List ℕ = object_bytes x in
      let rest : List ℕ = items_bytes xs in
      let total : length (bs ++ rest) ≡ length bs + length rest = length-append bs rest in
      next_item _ n (received x) b (behind (length bs) b)
        (decode_recurse-At junk x fuel h (omega arith) (At-prefix bs rest a))
        (items_cut xs n fuel _ (omega arith) hs (At-suffix bs rest a) (omega arith) (omega arith))

  list_cut :
      (xs : Objects) (n fuel : ℕ) (b : Buffer)
      → nr_items xs < n
      → n < 2 ^ 32
      → AllItems xs
      → At b (compound_bytes 0xc0 n ++ items_bytes xs)
      → b.offset + length (compound_bytes 0xc0 n ++ items_bytes xs) ≡ b.size
      → length (items_bytes xs) ≤ suc fuel
      → decode_recurse junk (suc (suc fuel)) b ≡ fault
  unfolding decode_value
  list_cut xs n fuel b lt small h a e le =
      let cs : List ℕ = compound_bytes 0xc0 n in
      let bs : List ℕ = items_bytes xs in
      recurse_step junk (suc fuel) b (behind (length cs) b)
        (decode_list-At junk n small (At-prefix cs bs a))
        (rw
          (items_cut xs n fuel (behind (length cs) b) lt h (At-suffix cs bs a)
            (omega (arith, length-append cs bs)) le)
          refl)

  first_fault :
      (read : Reader) (fuel : ℕ) (b : Buffer)
      → read b ≡ fault
      → decode_tuple (suc fuel) read b ≡ fault
  unfolding decode_tuple
  first_fault read fuel b e = rw (e, decode_tuple) refl

  -- `decode` of a message that ends inside a list, that is of the header of a list of n items with
  -- fewer items behind it: (PyObject *)-1, the mark of the end, is put into the list as an object.
  pub decode-truncated :
      (xs : Objects) (n fuel : ℕ)
      → nr_items xs < n
      → n < 2 ^ 32
      → AllItems xs
      → length (compound_bytes 0xc0 n ++ items_bytes xs) < 2 ^ 63
      → length (compound_bytes 0xc0 n ++ items_bytes xs) < fuel
      → decode junk fuel (compound_bytes 0xc0 n ++ items_bytes xs) ≡ fault
  unfolding decode
  decode-truncated xs n zero lt small h big le = absurd (omega arith)
  decode-truncated xs n (suc zero) lt small h big le =
      absurd (omega (arith, header-lt junk 0xc0 n (items_bytes xs)))
  decode-truncated xs n (suc (suc fuel)) lt small h big le =
      let bytes : List ℕ = compound_bytes 0xc0 n ++ items_bytes xs in
      rw
        (first_fault (decode_recurse junk (suc (suc fuel))) (suc fuel)
          (record { data_bytes = bytes; offset = 0; size = length bytes })
          (list_cut xs n fuel _ lt small h (whole junk bytes big) (omega arith)
            (omega (arith, header-lt junk 0xc0 n (items_bytes xs)))))
        refl
