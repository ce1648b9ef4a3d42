-- ===== src/Fmt/Render.antt =====
-- The parser finds the arguments that the grammar gives.
use libtvnet.Base.{
  ℕ, suc, ◌+◌, ◌*◌, ◌<◌, ◌≡◌, refl, ◌∙◌, true, List, [], ◌∷◌, ◌++◌, some, ◌>>=◌, length, arith,
  append_assoc, All, occurrences,
}
use libtvnet.Tvutils.{Tvutils}
use libtvnet.Fmt.{
  emit, count, parse_int, parse_char, parse_float, directive, parse_text, parse_directive,
  fmt_parse,
}
use libtvnet.Fmt.Grammar.{
  Modifier, Conversion, Item, text, percent, arg, char_size, short, bare, long, is_flag, IsItem,
  modifier_text, conversion_char, item_text, render, letter_of, class, arg_types, string,
}

abbrev long_count : Modifier → ℕ
long_count char_size = 0
long_count short = 0
long_count bare = 0
long_count long = 1
long_count _ = 2

abbrev short_count : Modifier → ℕ
short_count char_size = 2
short_count short = 1
short_count _ = 0

flag_step : (k m n : ℕ) → is_flag k ≡ true → directive k m n ≡ count m n
unfolding is_flag directive
flag_step k m n e = ground arith

flags_step :
    (flags rest : List ℕ)
    → All (λ k. is_flag k ≡ true) flags
    → parse_directive 0 0 (flags ++ rest) ≡ parse_directive 0 0 rest
unfolding parse_directive
flags_step [] rest a = refl
flags_step (k ∷ flags) rest (e, a) =
    rw (flag_step k 0 0 e, parse_directive) (flags_step flags rest a)

modifier_step :
    (m : Modifier) (rest : List ℕ)
    → parse_directive 0 0 (modifier_text m ++ rest)
      ≡ parse_directive (long_count m) (short_count m) rest
unfolding parse_directive directive modifier_text
modifier_step char_size rest = refl
modifier_step _ rest = refl

conversion_step :
    (m : Modifier) (v : Conversion)
    → directive (conversion_char v) (long_count m) (short_count m)
      ≡ emit (some (letter_of m (class v)))
unfolding directive parse_int parse_char parse_float conversion_char letter_of class
conversion_step char_size string = refl
conversion_step _ string = refl
conversion_step char_size _ = refl
conversion_step _ _ = refl

-- One directive, in front of any text.
arg_step :
    (flags rest : List ℕ) (m : Modifier) (v : Conversion)
    → All (λ k. is_flag k ≡ true) flags
    → parse_directive 0 0 (flags ++ (modifier_text m ++ (conversion_char v ∷ rest)))
      ≡ (parse_text rest >>= λ types. some (letter_of m (class v) ∷ types))
arg_step flags rest m v a =
    flags_step flags (modifier_text m ++ (conversion_char v ∷ rest)) a
    ∙ modifier_step m (conversion_char v ∷ rest)
    ∙ unfold parse_directive in rw (conversion_step m v, parse_directive) refl

-- Of a format written by the grammar, with flags, width and precision free of '*', the parser
-- stores exactly the types of its directives, in order: two '%' and plain text have none.
pub fmt_parse-render :
    (items : List Item) → All IsItem items → fmt_parse (render items) ≡ some (arg_types items)
unfolding fmt_parse parse_text parse_directive directive render item_text arg_types
fmt_parse-render [] a = refl
fmt_parse-render (text k ∷ items) (p, a) = rw (p, parse_text) (fmt_parse-render items a)
fmt_parse-render (percent ∷ items) (p, a) = fmt_parse-render items a
fmt_parse-render (arg flags m v ∷ items) (p, a) =
    rw (append_assoc, append_assoc)
      (arg_step flags (render items) m v p ∙ rw (fmt_parse-render items a) refl)

-- How often a format holds "%%".
abbrev pub percents : List Item → ℕ
percents [] = 0
percents (text k ∷ xs) = percents xs
percents (percent ∷ xs) = suc (percents xs)
percents (arg flags m v ∷ xs) = percents xs

count-append :
    (xs ys : List ℕ) (k : ℕ) → occurrences (xs ++ ys) k ≡ occurrences xs k + occurrences ys k
count-append [] ys k = omega arith
count-append (x ∷ xs) ys k = ground (arith, count-append xs ys k)

count-flags : (flags : List ℕ) → All (λ k. is_flag k ≡ true) flags → occurrences flags b'%' ≡ 0
unfolding is_flag
count-flags [] a = refl
count-flags (k ∷ flags) (p, a) = ground (arith, count-flags flags a)

count-directive :
    (m : Modifier) (v : Conversion)
    → occurrences (modifier_text m ++ (conversion_char v ∷ [])) b'%' ≡ 0
unfolding modifier_text conversion_char
count-directive char_size string = refl
count-directive _ string = refl
count-directive char_size _ = refl
count-directive _ _ = refl

-- Each '%' of such a format starts a directive or belongs to a "%%".
pub occurrences-render :
    (items : List Item)
    → All IsItem items
    → occurrences (render items) b'%' ≡ length (arg_types items) + 2 * percents items
unfolding render item_text arg_types
occurrences-render [] a = refl
occurrences-render (text k ∷ items) (p, a) = rw p (occurrences-render items a)
occurrences-render (percent ∷ items) (p, a) = omega (arith, occurrences-render items a)
occurrences-render (arg flags m v ∷ items) (p, a) =
    let tail : List ℕ = modifier_text m ++ (conversion_char v ∷ []) in
    omega (
      arith,
      count-append (flags ++ tail) (render items) b'%',
      count-append flags tail b'%',
      count-flags flags p,
      count-directive m v,
      occurrences-render items a,
    )

-- `tvnp_pickle_to_va` gives the array `fmt_types` one byte for each '%' of the format, and parses
-- the format into it: on a format with no "%%" the nul is stored behind the array.
pub types_overflow :
    ⦃tv : Tvutils⦄ (items : List Item)
    → All IsItem items
    → percents items ≡ 0
    → (types : List ℕ) × (fmt_parse (render items) ≡ some types)
      × (tv.count_character (render items) b'%' < length types + 1)
types_overflow ⦃tv⦄ items a plain = (
  arg_types items,
  fmt_parse-render items a,
  omega (arith, tv.count_character_lem (render items) b'%', occurrences-render items a),
)
