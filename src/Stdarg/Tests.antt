-- ===== src/Stdarg/Tests.antt =====
-- Runs of the argument encoder and decoder, and their theorems at concrete inputs.
use libtvnet.Base.{ℕ, ◌≡◌, refl, List, [], ◌∷◌, some, replicate, arith, codes, pos, negsuc}
use libtvnet.Tvutils.Sample.{sample, be_bytes}
use libtvnet.Buffer.{Buffer, IsReadable, put, put_byte}
use libtvnet.Stdarg.Safety.{Decodes, vdecode-Decodes}
use libtvnet.Pickle.Length.{
  length_compound, length_integer, length_utf8_string, length_string, length_float, cast_i64,
  is_integral, is_float32,
}
use libtvnet.Pickle.Bytes.{integer_bytes, utf8_bytes, compound_bytes}
use libtvnet.Pickle.Encoder.{
  encode_integer, encode_float, encode_compound, encode_string, encode_utf8_string,
  encode_utf8_string_and_size, read_string,
}
use libtvnet.Stdarg.Args.{Arg, int, str, dbl, arg_i32, arg_i64, arg_f64, arg_str}
use libtvnet.Stdarg.Encoder.{
  encode_kind, encode_arg, vencode, vlength, length_kind, length_arg, vlength_loop,
}
use libtvnet.Stdarg.Decoder.{Slot, vdecode, int_slot, str_slot, f32_slot, f64_slot}
use libtvnet.Stdarg.Spec.{Typed}
use libtvnet.Stdarg.Size.{Outcome, vencode-vlength}
use libtvnet.Stdarg.RoundTrip.{all_expected, AllStoredAs, vdecode-vencode}

abbrev zeros : ℕ → Buffer
zeros n = record { data_bytes = replicate n 0; offset = 0; size = n }

-- tvnp_encode(buffer, "qsbFf", 300, "hi", 511, x, y), where x is integral and y a `float`
abbrev fmt : List ℕ
fmt = codes "qsbFf"

abbrev args : List Arg
args = int (pos 300) ∷ str (codes "hi") ∷ int (pos 511) ∷ dbl 8 ∷ dbl 2 ∷ []

abbrev stored : ℕ → Buffer
stored o = record {
  data_bytes =
      0x45 ∷ 1 ∷ 44 ∷ 0x82 ∷ b'h' ∷ b'i' ∷ 0 ∷ 0x45 ∷ 1 ∷ 255 ∷ 2 ∷ 0x42 ∷ 0 ∷ 0 ∷ 0 ∷ 1 ∷ 0 ∷ 0
      ∷ [];
  offset = o;
  size = 18;
}

args-Typed : Typed fmt args
unfolding encode_kind
args-Typed = (tt, (omega arith, (tt, ((omega arith, refl), ((omega arith, refl), tt)))))

encode_args : vencode (zeros 18) fmt args ≡ some (stored 16, pos 0)
unfolding vencode encode_kind encode_arg arg_i32 arg_i64 arg_f64 arg_str encode_integer encode_float
    cast_i64 is_integral is_float32 encode_utf8_string encode_utf8_string_and_size encode_string
    encode_compound read_string put put_byte be_bytes
encode_args = refl

length_args : vlength fmt args ≡ some (some 16)
unfolding vlength vlength_loop length_kind length_arg arg_i32 arg_i64 arg_f64 arg_str length_integer
    length_float cast_i64 is_integral is_float32 length_utf8_string length_string length_compound
length_args = refl

-- The signed byte 511 is stored as -1.
expected_slots :
    all_expected 0 fmt args
    ≡ int_slot (pos 300) ∷ str_slot 4 ∷ int_slot (negsuc 0) ∷ f64_slot 8 ∷ f32_slot 1 ∷ []
unfolding encode_kind integer_bytes utf8_bytes compound_bytes length_compound be_bytes is_integral
    is_float32
expected_slots = refl

vdecode-vencode_example :
    (slots : List Slot) × (vdecode 9 (stored 0) fmt ≡ some (stored 16, slots, pos 0))
    × AllStoredAs 0 fmt args slots
vdecode-vencode_example =
    vdecode-vencode 9 fmt args (zeros 18) (stored 16) (pos 0) args-Typed (omega arith) (omega arith)
      (omega arith) encode_args

vencode-vlength_example :
    (n : ℕ) × (vlength fmt args ≡ some (some n)) × Outcome n (zeros 9) (vencode (zeros 9) fmt args)
vencode-vlength_example = vencode-vlength fmt args (zeros 9) args-Typed (omega arith) (omega arith)

-- 7 as a signed byte, and then a list where a text is expected
abbrev ends_in_list : Buffer
ends_in_list = record { data_bytes = 0x07 ∷ 0xc1 ∷ 9 ∷ []; offset = 0; size = 3 }

ends_in_list-IsReadable : IsReadable ends_in_list
ends_in_list-IsReadable = record {
  bytes = omega arith;
  backed = omega arith;
  at_most_one_past = omega arith;
  addressable = omega arith;
}

vdecode-Decodes_example : Decodes ends_in_list fmt (vdecode 9 ends_in_list fmt)
vdecode-Decodes_example = vdecode-Decodes 9 (omega arith) fmt ends_in_list ends_in_list-IsReadable
