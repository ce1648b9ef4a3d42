-- ===== src/Fmt/Grammar.antt =====
-- printf formats by their grammar, and the argument type of each directive.
use libtvnet.Base.{ℕ, Bool, true, ◌&&◌, ◌||◌, List, [], ◌∷◌, ◌++◌, ◌≡◌, All, ◌==◌, leb}

pub data Modifier : Type 0 where
  char_size short bare long long_long intmax ptrdiff size quad long_double : Modifier

pub data Conversion : Type 0 where
  string decimal integer octal unsigned hex upper_hex character fixed upper_fixed exponent
        upper_exponent :
      Conversion

-- A directive has flags, width and precision in front of its length modifier.
pub data Item : Type 0 where
  text : (char : ℕ) → Item
  percent : Item
  arg : (flags : List ℕ) (m : Modifier) (v : Conversion) → Item

-- Digits and the marks `. - + #` and blank. (A `*` would take an argument of its own.)
unfoldable pub is_flag : ℕ → Bool
is_flag k =
    leb b'0' k && leb k b'9' || k == b'.' || k == b'-' || k == b'+' || k == b'#' || k == b' '

abbrev pub IsItem : Item → Type 0
IsItem (text k) = (k == b'%') ≡ Bool.false
IsItem percent = Unit
IsItem (arg flags m v) = All (λ k. is_flag k ≡ true) flags

unfoldable pub modifier_text : Modifier → List ℕ
modifier_text char_size = b'h' ∷ b'h' ∷ []
modifier_text short = b'h' ∷ []
modifier_text bare = []
modifier_text long = b'l' ∷ []
modifier_text long_long = b'l' ∷ b'l' ∷ []
modifier_text intmax = b'j' ∷ []
modifier_text ptrdiff = b't' ∷ []
modifier_text size = b'z' ∷ []
modifier_text quad = b'q' ∷ []
modifier_text long_double = b'L' ∷ []

unfoldable pub conversion_char : Conversion → ℕ
conversion_char string = b's'
conversion_char decimal = b'd'
conversion_char integer = b'i'
conversion_char octal = b'o'
conversion_char unsigned = b'u'
conversion_char hex = b'x'
conversion_char upper_hex = b'X'
conversion_char character = b'c'
conversion_char fixed = b'f'
conversion_char upper_fixed = b'F'
conversion_char exponent = b'e'
conversion_char upper_exponent = b'E'

unfoldable pub item_text : Item → List ℕ
unfolding modifier_text conversion_char
item_text (text k) = k ∷ []
item_text percent = b'%' ∷ b'%' ∷ []
item_text (arg flags m v) = b'%' ∷ (flags ++ (modifier_text m ++ (conversion_char v ∷ [])))

unfoldable pub render : List Item → List ℕ
unfolding item_text
render [] = []
render (x ∷ xs) = item_text x ++ render xs

-- The classes of arguments that directives take.
pub data Class : Type 0 where
  signed_int unsigned_int char floating pointer : Class

unfoldable pub class : Conversion → Class
class string = pointer
class decimal = signed_int
class integer = signed_int
class octal = signed_int
class unsigned = unsigned_int
class hex = unsigned_int
class upper_hex = unsigned_int
class character = char
class fixed = floating
class upper_fixed = floating
class exponent = floating
class upper_exponent = floating

unfoldable pub signed_letter : Modifier → ℕ
signed_letter char_size = b'b'
signed_letter short = b'w'
signed_letter bare = b'd'
signed_letter _ = b'q'

unfoldable pub unsigned_letter : Modifier → ℕ
unsigned_letter char_size = b'B'
unsigned_letter short = b'W'
unsigned_letter bare = b'D'
unsigned_letter _ = b'Q'

unfoldable pub char_letter : Modifier → ℕ
char_letter long = b'W'
char_letter _ = b'B'

-- The modifiers of eight bytes other than `l` make a `long double`.
unfoldable pub float_letter : Modifier → ℕ
float_letter char_size = b'F'
float_letter short = b'F'
float_letter bare = b'F'
float_letter long = b'F'
float_letter _ = b'G'

unfoldable pub letter_of : Modifier → Class → ℕ
unfolding signed_letter unsigned_letter char_letter float_letter
letter_of m signed_int = signed_letter m
letter_of m unsigned_int = unsigned_letter m
letter_of m char = char_letter m
letter_of m floating = float_letter m
letter_of m pointer = b's'

unfoldable pub arg_types : List Item → List ℕ
unfolding letter_of class
arg_types [] = []
arg_types (text k ∷ xs) = arg_types xs
arg_types (percent ∷ xs) = arg_types xs
arg_types (arg flags m v ∷ xs) = letter_of m (class v) ∷ arg_types xs
