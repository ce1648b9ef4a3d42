-- ===== src/Pickle/Tests.antt =====
-- Runs of the codec, and its theorems at concrete inputs.
use libtvnet.Base.{
  ℕ, ◌≡◌, refl, List, [], ◌∷◌, some, none, length, replicate, arith, All, pos, negsuc,
}
use libtvnet.Tvutils.Sample.{sample, be_bytes, be_value}
use libtvnet.Buffer.{Buffer, IsReadable, put, put_byte, past_end, advance, load}
use libtvnet.Buffer.Laws.{Stores}
use libtvnet.Pickle.Length.{is_integral, is_float32, cast_i64}
use libtvnet.Pickle.Encoder.{
  encode_integer, encode_float, encode_compound, encode_utf8_string, encode_binary_string,
  encode_list, encode_dictionary, encode_null, encode_string, encode_utf8_string_and_size,
  read_string,
}
use libtvnet.Pickle.Decoder.{
  Token, error_token, decode_token, decode_tagged, decode_container, take_unsigned,
}
use libtvnet.Pickle.Safety.{decode_token-Steps}
use libtvnet.Pickle.Safety.Loads.{Steps, Lands}
use libtvnet.Pickle.Items.{
  Item, an_integer, a_float, a_text, a_list, a_null, IsItem, encode_items, length_items,
  decode_tokens, AllReadAs, encode_items-Stores, decode_tokens-encode_items,
}

-- `size` zero bytes, with the offset at the start
abbrev zeros : ℕ → Buffer
zeros n = record { data_bytes = replicate n 0; offset = 0; size = n }

-- a buffer that holds `cs`, with the offset at `o`
abbrev stored : ℕ → List ℕ → Buffer
stored o cs = record { data_bytes = cs; offset = o; size = length cs }

encode_300 : encode_integer (pos 300) (zeros 4) ≡ some (stored 3 (0x45 ∷ 1 ∷ 44 ∷ 0 ∷ []))
unfolding encode_integer put put_byte be_bytes
encode_300 = refl

encode_minus_58 : encode_integer (negsuc 57) (zeros 1) ≡ some (stored 1 (0x46 ∷ []))
unfolding encode_integer put put_byte be_bytes
encode_minus_58 = refl

encode_no_room : encode_integer (pos 300) (zeros 2) ≡ none
unfolding encode_integer put put_byte be_bytes
encode_no_room = refl

encode_half : encode_float 2 (zeros 5) ≡ some (stored 5 (0x42 ∷ 0 ∷ 0 ∷ 0 ∷ 1 ∷ []))
unfolding encode_float cast_i64 encode_integer put put_byte be_bytes is_integral is_float32
encode_half = refl

-- "%i" in the format of the unit test of pickle_print
encode_text :
    encode_utf8_string (b'%' ∷ b'i' ∷ []) (zeros 4) ≡ some (stored 4 (0x82 ∷ b'%' ∷ b'i' ∷ 0 ∷ []))
unfolding encode_utf8_string encode_utf8_string_and_size encode_string encode_compound read_string
    put put_byte be_bytes
encode_text = refl

encode_blob : encode_binary_string (7 ∷ []) 1 (zeros 2) ≡ some (stored 2 (0xa1 ∷ 7 ∷ []))
unfolding encode_binary_string encode_string encode_compound read_string put put_byte be_bytes
encode_blob = refl

encode_list_3 : encode_list 3 (zeros 1) ≡ some (stored 1 (0xc3 ∷ []))
unfolding encode_list encode_compound put put_byte be_bytes
encode_list_3 = refl

encode_dictionary_40 : encode_dictionary 40 (zeros 2) ≡ some (stored 2 (0xfd ∷ 40 ∷ []))
unfolding encode_dictionary encode_compound put put_byte be_bytes
encode_dictionary_40 = refl

-- a string header that claims 200 bytes, with one byte left
cut_short : Buffer
cut_short = record { data_bytes = 0x9d ∷ 200 ∷ 65 ∷ []; offset = 0; size = 3 }

cut_short-IsReadable : IsReadable cut_short
unfolding cut_short
cut_short-IsReadable = record {
  bytes = omega arith;
  backed = omega arith;
  at_most_one_past = omega arith;
  addressable = omega arith;
}

decode_cut_short : decode_token 9 cut_short ≡ some (error_token, record cut_short { offset = 2 })
unfolding cut_short decode_token decode_tagged decode_container take_unsigned past_end advance load
    be_value
decode_cut_short = refl

decode_token-Steps_example : Steps cut_short (Lands cut_short 0) (decode_token 9 cut_short)
unfolding cut_short
decode_token-Steps_example = decode_token-Steps 9 cut_short (omega arith) cut_short-IsReadable

-- 300, "%i", a list of three, a double and a null
abbrev items : List Item
items = an_integer (pos 300) ∷ a_text (b'%' ∷ b'i' ∷ []) ∷ a_list 3 ∷ a_float 2 ∷ a_null ∷ []

items-AllItems : All IsItem items
items-AllItems = (omega arith, (omega arith, (omega arith, ((omega arith, refl), (tt, tt)))))

abbrev items_stored : ℕ → Buffer
items_stored o = record {
  data_bytes = 0x45 ∷ 1 ∷ 44 ∷ 0x82 ∷ b'%' ∷ b'i' ∷ 0 ∷ 0xc3 ∷ 0x42 ∷ 0 ∷ 0 ∷ 0 ∷ 1 ∷ 0x40 ∷ [];
  offset = o;
  size = 14;
}

encode_items_300 : encode_items items (zeros 14) ≡ some (items_stored 14)
unfolding encode_integer encode_float cast_i64 is_integral is_float32 encode_utf8_string
    encode_utf8_string_and_size encode_string encode_compound read_string encode_list encode_null
    put put_byte be_bytes
encode_items_300 = refl

encode_items-Stores_example :
    (n : ℕ) × (length_items items ≡ some n) × Stores n (zeros 6) (encode_items items (zeros 6))
encode_items-Stores_example = encode_items-Stores items (zeros 6) (omega arith) items-AllItems

decode_tokens-encode_items_example :
    (ts : List Token) × (decode_tokens 9 5 (items_stored 0) ≡ some (ts, items_stored 14))
    × AllReadAs 0 items ts
decode_tokens-encode_items_example =
    decode_tokens-encode_items 9 items (zeros 14) (items_stored 14) (omega arith) (omega arith)
      (omega arith) items-AllItems encode_items_300
