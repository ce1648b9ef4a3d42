-- ===== src/Print/Tests.antt =====
-- Messages of the unit test of pickle_print, and the theorems at concrete inputs.
use libtvnet.Base.{
  until_nul, ℕ, ◌+◌, ◌≡◌, refl, List, [], ◌∷◌, none, some, length, replicate, ℤ, pos, Option, true,
}
use libtvnet.Tvutils.Sample.{sample}
use libtvnet.Buffer.{Buffer, past_end, advance}
use libtvnet.Pickle.Decoder.{
  utf8_string, decode_token, decode_tagged, decode_container, finish_string,
}
use libtvnet.Stdarg.Args.{Arg}
use libtvnet.Fmt.Grammar.{Item, arg, bare, integer, render}
use libtvnet.Print.Decoder.{VaFrame, c_string, pickle_to_va}
use libtvnet.Print.Overflow.{pickle_to_va_overflow}

abbrev zeros : ℕ → Buffer
zeros n = record { data_bytes = replicate n 0; offset = 0; size = n }

-- tvnp_apprintf("%i", 25)
abbrev message : ℕ → Buffer
message o = record { data_bytes = 0x82 ∷ b'%' ∷ b'i' ∷ 0 ∷ 0x19 ∷ []; offset = o; size = 5 }

-- Prints the number of arguments.
abbrev count_args : List ℕ → List Arg → Option ℤ
count_args fmt args = some (pos (length args))

-- A frame with room for a nul and for any arguments.
abbrev roomy : VaFrame
roomy = record { array_room = λ n. n + 1; va_fits = λ types. true }

abbrev plain : List Item
plain = arg [] bare integer ∷ []

decode_format : decode_token 9 (message 0) ≡ some (utf8_string 2 1, message 4)
unfolding decode_token decode_tagged decode_container finish_string past_end advance
decode_format = refl

text_of_format : c_string (message 4) 1 ≡ some (render plain)
unfolding c_string until_nul render
text_of_format = refl

pickle_to_va_overflow_example :
    pickle_to_va (record { array_room = λ n. n; va_fits = λ types. true }) 9 (message 0) ≡ none
pickle_to_va_overflow_example =
    pickle_to_va_overflow (λ types. true) 9 2 1 plain (message 0) (message 4) (tt, tt) refl
      decode_format text_of_format

-- the format "%s" with an integer for its argument, and a nul behind it all
abbrev forged : Buffer
forged = record { data_bytes = 0x82 ∷ b'%' ∷ b's' ∷ 0 ∷ 0x19 ∷ 0 ∷ []; offset = 0; size = 5 }
