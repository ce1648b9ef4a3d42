-- ===== src/Pyext/Tests.antt =====
-- A sample CPython, runs of the extension's encoder and decoder, and their theorems at concrete inputs.
use libtvnet.Base.{ℕ, ◌≡◌, refl, List, [], ◌∷◌, ◌++◌, none, some, replicate, arith, codes, pos}
use mathlib.Core.Option.{some-injective}
use libtvnet.Tvutils.Sample.{sample}
use libtvnet.Pickle.Length.{length_compound, length_integer, is_integral, is_float32}
use libtvnet.Pickle.Bytes.{compound_bytes}
use libtvnet.Pyext.Objects.{
  string, unicode, int, float, none_object, mapping, any_set, sequence, unexpected, Objects, nil,
  cons, end, pair, append_pair, Python,
}
use libtvnet.Pyext.Encoder.{length_recurse, length_tuple, encode}
use libtvnet.Pyext.Decoder.{fault, decode}
use libtvnet.Pyext.Bytes.{object_bytes, items_bytes, received, received_items, IsEncodable}
use libtvnet.Pyext.Ends.{Ends}
use libtvnet.Pyext.Message.{reply}
use libtvnet.Pyext.Total.{decode-Ends}
use libtvnet.Pyext.Truncated.{decode-truncated}
use libtvnet.Service.Sample.{sample_libc}
use libtvnet.Service.Unix.{make_address, store_text, path_text}
use libtvnet.Service.Calls.{unlink, service_bind}
use libtvnet.Service.Numbers.{address_of}
use libtvnet.Pyext.Sockets.{refused, io_error, py_bind}

-- Texts by their UTF-8, and dictionaries whose keys are never compared.
instance abbrev pub sample_python : Python
sample_python = record {
  as_utf8 = some;
  decode_utf8 = some;
  dict_set = λ ps k v. some (append_pair ps k v);
  decode_utf8-as_utf8 = λ t {s} e. rw (some-injective t s e) refl;
}

-- encode(300, {1: u"a"}, set([None, "hi"]), x, y), where x is an integral double and y a `float`
abbrev args : Objects
args = cons (int (pos 300)) (
    cons (mapping (pair (int (pos 1)) (unicode (codes "a")) end)) (
      cons (any_set (cons none_object (cons (string (codes "hi")) nil)))
        (cons (float 8) (cons (float 2) nil))))

abbrev message : List ℕ
message =
    0x45 ∷ 1 ∷ 44 ∷ 0xe1 ∷ 1 ∷ 0x81 ∷ b'a' ∷ 0 ∷ 0xc2 ∷ 0x40 ∷ 0xa2 ∷ b'h' ∷ b'i' ∷ 2 ∷ 0x42 ∷ 0 ∷ 0
    ∷ 0 ∷ 1 ∷ []

-- The set comes back as a list, and the integral double as an integer.
args-reply :
    reply (received_items args)
    ≡ sequence (
        cons (int (pos 300)) (
          cons (mapping (pair (int (pos 1)) (unicode (codes "a")) end)) (
            cons
              (sequence (cons none_object (cons (string (codes "hi")) nil)))
              (cons (int (pos 2)) (cons (float 2) nil)))))
unfolding received is_integral is_float32
args-reply = refl

-- a list of two items, the second of them a dictionary that is cut off
abbrev cut_off : List ℕ
cut_off = 0xc2 ∷ 0x40 ∷ 0xe1 ∷ 0xa2 ∷ b'h' ∷ []

decode-Ends_example :
    Ends (record { data_bytes = cut_off; offset = 0; size = 5 }) (λ r o. Unit) (decode 9 7 cut_off)
decode-Ends_example =
    decode-Ends 9 7 cut_off (omega arith)
      (omega arith, (omega arith, (omega arith, (omega arith, (omega arith, tt))))) (omega arith)
      (omega arith)

-- the header of a list of two items, and None
decode-truncated_example :
    decode 9 7 (compound_bytes 0xc0 2 ++ items_bytes (cons none_object nil)) ≡ fault
unfolding IsEncodable object_bytes compound_bytes length_compound
decode-truncated_example =
    decode-truncated 9 (cons none_object nil) 2 7 (omega arith) (omega arith) (tt, tt) (omega arith)
      (omega arith)

encode_unexpected :
    encode (λ n. replicate n 7) 0 (cons (int (pos 1)) (cons unexpected nil)) ≡ some none
unfolding encode length_tuple length_recurse length_integer
encode_unexpected = refl

-- what the frames of client and server hold
abbrev frame : List ℕ
frame = replicate 62 7

-- Without an argument nothing is called.
bind_refused : py_bind frame none (pos 0) none ≡ some (refused, [])
unfolding py_bind
bind_refused = refl

bind_denied :
    py_bind frame (some 13) (pos 0) (some (3, pos 5))
    ≡ some (io_error, unlink (address_of (pos 5) frame) ∷ [])
unfolding py_bind service_bind make_address store_text path_text
bind_denied = refl
