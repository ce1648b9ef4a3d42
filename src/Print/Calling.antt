-- ===== src/Print/Calling.antt =====
-- The printf call that is made of any bytes: its format and its arguments.
use libtvnet.Base.{ℕ, ◌≡◌, refl, List, Option, none, some, ◌⊎◌}
use libtvnet.Tvutils.{Tvutils}
use libtvnet.Buffer.{Buffer}
use libtvnet.Pickle.Decoder.{utf8_string, decode_token}
use libtvnet.Fmt.{fmt_parse}
use libtvnet.Print.Decoder.{VaFrame, VaArg, c_string}
use libtvnet.Print.Typing.{ArgsHaveTypes, Undefined}

pub c_string_same :
    (b b' : Buffer) (p : ℕ) → b'.data_bytes ≡ b.data_bytes → c_string b' p ≡ c_string b p
unfolding c_string
c_string_same b b' p d = rw d refl

module _ ⦃tv : Tvutils⦄ (junk : ℕ) (frame : VaFrame) where
  -- The printf call that is made of the bytes at the offset of `b`.
  abbrev pub Prints : Buffer → Option (Buffer × Option (ℕ × List VaArg)) → Type 0
  Prints b none =
      (u : ℕ) × (fmt : ℕ) × (b' : Buffer) × (decode_token junk b ≡ some (utf8_string u fmt, b'))
      × ((c_string b fmt ≡ none)
          ⊎ ((text : List ℕ) × (types : List ℕ) × (c_string b fmt ≡ some text)
              × (fmt_parse text ≡ some types)
              × Undefined frame.va_fits junk b.data_bytes types))
  Prints b (some (b', none)) = (b'.data_bytes ≡ b.data_bytes) × (b'.size ≡ b.size)
  Prints b (some (b', some (fmt, args))) =
      (text : List ℕ) × (types : List ℕ) × (b'.data_bytes ≡ b.data_bytes)
      × (b'.size ≡ b.size)
      × (c_string b fmt ≡ some text)
      × (fmt_parse text ≡ some types)
      × ArgsHaveTypes b.size types args
