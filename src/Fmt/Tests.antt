-- ===== src/Fmt/Tests.antt =====
-- Runs of the parser, and its theorems at concrete formats.
use libtvnet.Base.{◌+◌, ◌≡◌, refl, List, [], ◌∷◌, some, length, All, codes, occurrences}
use libtvnet.Fmt.{fmt_parse, parse_text, directive, parse_int, parse_char, parse_float}
use libtvnet.Tvutils.Sample.{sample}
use libtvnet.Fmt.Count.{Parses, fmt_parse-Parses}
use libtvnet.Fmt.Grammar.{
  Item, text, percent, arg, bare, decimal, fixed, IsItem, is_flag, render, arg_types,
}
use libtvnet.Fmt.Render.{fmt_parse-render, occurrences-render}

-- the formats of the unit test of pickle_print
parse_mixed : fmt_parse (codes "%05i,%%,%.2f") ≡ some (codes "dF")
unfolding fmt_parse parse_text directive parse_int parse_char parse_float
parse_mixed = refl

parse_wide : fmt_parse (codes "%s %ld %hhu %Lf %c") ≡ some (codes "sqBGB")
unfolding fmt_parse parse_text directive parse_int parse_char parse_float
parse_wide = refl

-- "%05d,%%,%.2f"
abbrev mixed : List Item
mixed =
    arg (b'0' ∷ b'5' ∷ []) bare decimal
    ∷ text b','
    ∷ percent
    ∷ text b','
    ∷ arg (b'.' ∷ b'2' ∷ []) bare fixed
    ∷ []

mixed-IsItem : All IsItem mixed
unfolding is_flag
mixed-IsItem = ((refl, (refl, tt)), (refl, (tt, (refl, ((refl, (refl, tt)), tt)))))

-- A lone '*', a letter that ends no directive, and a directive cut short.
fmt_parse-Parses_example : Parses 0 (codes "%*d %k %l") (fmt_parse (codes "%*d %k %l"))
fmt_parse-Parses_example = fmt_parse-Parses (codes "%*d %k %l")

fmt_parse-render_example : fmt_parse (render mixed) ≡ some (arg_types mixed)
fmt_parse-render_example = fmt_parse-render mixed mixed-IsItem

occurrences-render_example : occurrences (render mixed) b'%' ≡ length (arg_types mixed) + 2
occurrences-render_example = occurrences-render mixed mixed-IsItem
