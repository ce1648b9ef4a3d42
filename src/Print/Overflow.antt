-- ===== src/Print/Overflow.antt =====
-- The array `fmt_types` of `tvnp_pickle_to_va` has no room for the nul.
use libtvnet.Base.{
  ℕ, ◌+◌, ◌≡◌, refl, List, none, some, >>=_some, All, length, Bool, ltb, lt→ltb, true,
}
use libtvnet.Tvutils.{Tvutils}
use libtvnet.Buffer.{Buffer}
use libtvnet.Pickle.Decoder.{utf8_string, decode_token}
use libtvnet.Fmt.{fmt_parse}
use libtvnet.Fmt.Grammar.{Item, IsItem, render}
use libtvnet.Fmt.Render.{percents, types_overflow}
use libtvnet.Print.Decoder.{c_string, pickle_to_va}

-- If the frame gives the array `fmt_types` exactly its declared bytes, then on any message that starts
-- with a format of the grammar without "%%", `tvnp_pickle_to_va` stores behind that array.
pub pickle_to_va_overflow :
    ⦃tv : Tvutils⦄ (va_fits : List ℕ → Bool) (junk u pointer : ℕ) (items : List Item)
    (b b' : Buffer)
    → All IsItem items
    → percents items ≡ 0
    → decode_token junk b ≡ some (utf8_string u pointer, b')
    → c_string b' pointer ≡ some (render items)
    → pickle_to_va (record { array_room = λ n. n; va_fits = va_fits }) junk b ≡ none
unfolding pickle_to_va
pickle_to_va_overflow ⦃tv⦄ va_fits junk u pointer items b b' a plain e e2 =
    let (types, parsed, over) = types_overflow items a plain in
    let past : ltb (tv.count_character (render items) b'%') (length types + 1) ≡ true =
      lt→ltb _ _ over in
    >>=_some _ _ _ _ e
      (>>=_some _ _ _ _ e2 (>>=_some (fmt_parse (render items)) _ types _ parsed (rw past refl)))
