-- ===== src/Fmt.antt =====
-- tvnet/fmt_parser.c: from a printf format to the types of its arguments. Texts are the lists of
-- their bytes before the nul. `none` is `abort()`.
pub mod Count
pub mod Grammar
pub mod Render
mod Tests
use libtvnet.Base.{
  ℕ, suc, ◌+◌, ◌%◌, ◌^◌, Bool, true, false, List, [], ◌∷◌, Option, none, some, ◌>>=◌, if◌then◌else◌,
  ◌==◌,
}

-- The LP64 data model of the target: `tvu_va_make2` builds an x86-64 `va_list`.
abbrev pub sizeof_char : ℕ
sizeof_char = 1

abbrev pub sizeof_short : ℕ
sizeof_short = 2

abbrev pub sizeof_int : ℕ
sizeof_int = 4

abbrev pub sizeof_long : ℕ
sizeof_long = 8

abbrev pub sizeof_long_long : ℕ
sizeof_long_long = 8

-- the `switch (size)` of `tvnp_fmt_parse_int`
unfoldable pub int_letter : ℕ → Bool → Option ℕ
int_letter size is_unsigned =
    if size == 1
    then some (if is_unsigned then b'B' else b'b')
    else if size == 2
    then some (if is_unsigned then b'W' else b'w')
    else if size == 4
    then some (if is_unsigned then b'D' else b'd')
    else if size == 8
    then some (if is_unsigned then b'Q' else b'q')
    else none

-- `tvnp_fmt_parse_int`
unfoldable pub parse_int : ℕ → ℕ → Bool → Option ℕ
unfolding int_letter
parse_int h l is_unsigned =
    int_letter
      (if h == 2
        then sizeof_char
        else if h == 1
        then sizeof_short
        else if l == 1
        then sizeof_long
        else if l == 2
        then sizeof_long_long
        else sizeof_int)
      is_unsigned

unfoldable pub parse_char : ℕ → ℕ
parse_char l = if l == 1 then b'W' else b'B'

unfoldable pub parse_float : ℕ → ℕ
parse_float l = if l == 2 then b'G' else b'F'

-- What one character inside a directive does: end it with nothing or with a type, or change the
-- counters `l` and `h`.
pub data Action : Type 0 where
  literal : Action
  emit : (type : Option ℕ) → Action
  count : (l h : ℕ) → Action

-- the inner `switch (c)`; `l` and `h` are `unsigned int`
unfoldable pub directive : ℕ → ℕ → ℕ → Action
directive c l h =
    if c == b'%'
    then literal
    else if c == b's'
    then emit (some b's')
    else if c == b'i'
    then emit (parse_int h l false)
    else if c == b'd'
    then emit (parse_int h l false)
    else if c == b'o'
    then emit (parse_int h l false)
    else if c == b'u'
    then emit (parse_int h l true)
    else if c == b'x'
    then emit (parse_int h l true)
    else if c == b'X'
    then emit (parse_int h l true)
    else if c == b'c'
    then emit (some (parse_char l))
    else if c == b'f'
    then emit (some (parse_float l))
    else if c == b'F'
    then emit (some (parse_float l))
    else if c == b'e'
    then emit (some (parse_float l))
    else if c == b'E'
    then emit (some (parse_float l))
    else if c == b'l'
    then count ((l + 1) % 2 ^ 32) h
    else if c == b'h'
    then count l ((h + 1) % 2 ^ 32)
    else if c == b'j'
    then count 2 h
    else if c == b't'
    then count 2 h
    else if c == b'z'
    then count 2 h
    else if c == b'q'
    then count 2 h
    else if c == b'L'
    then count 2 h
    else count l h

-- The loop of `tvnp_fmt_parse`, with the bytes that it stores before the final nul. The Boolean is
-- `format`; a directive starts with both counters at 0.
unfoldable mutual
  pub parse_text : List ℕ → Option (List ℕ)
  parse_text [] = some []
  parse_text (c ∷ cs) = elim (c == b'%') [ true ↦ parse_directive 0 0 cs | false ↦ parse_text cs ]

  pub parse_directive : ℕ → ℕ → List ℕ → Option (List ℕ)
  parse_directive l h [] = some []
  parse_directive l h (c ∷ cs) = elim (directive c l h) [
    | literal ↦ parse_text cs
    | emit none ↦ none
    | emit (some type) ↦ parse_text cs >>= λ types. some (type ∷ types)
    | count l' h' ↦ parse_directive l' h' cs
  ]

unfoldable pub fmt_parse : List ℕ → Option (List ℕ)
fmt_parse fmt = parse_text fmt
