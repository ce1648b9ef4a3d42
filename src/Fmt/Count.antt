-- ===== src/Fmt/Count.antt =====
-- The parser on any text: it does not abort, and stores at most one type for each '%'.
use libtvnet.Base.{
  ℕ, ◌+◌, ◌≤◌, ◌≡◌, refl, Bool, true, false, ◌||◌, List, [], ◌∷◌, Option, none, some, ◌>>=◌, length,
  arith, ◌==◌, occurrences, All, Bool-cases, inl, inr,
}
use libtvnet.Fmt.{
  Action, literal, emit, count, parse_int, parse_char, parse_float, directive, parse_text,
  parse_directive, fmt_parse,
}

-- The letters that the stdarg encoder is documented to take, and 'G' for `long double`.
unfoldable pub is_type : ℕ → Bool
is_type t =
    t == b'b'
    || t == b'B'
    || t == b'w'
    || t == b'W'
    || t == b'd'
    || t == b'D'
    || t == b'q'
    || t == b'Q'
    || t == b'F'
    || t == b'G'
    || t == b's'

abbrev pub IsType : ℕ → Type 0
IsType t = is_type t ≡ true

abbrev pub Emits : Option ℕ → Type 0
Emits none = ⊥
Emits (some t) = IsType t

abbrev pub ActionEmits : Action → Type 0
ActionEmits literal = Unit
ActionEmits (emit o) = Emits o
ActionEmits (count l h) = Unit

pub parse_int-Emits : (h l : ℕ) (u : Bool) → Emits (parse_int h l u)
unfolding parse_int is_type
parse_int-Emits h l true = ground arith
parse_int-Emits h l false = ground arith

string-IsType : IsType b's'
unfolding is_type
string-IsType = refl

parse_char-IsType : (l : ℕ) → IsType (parse_char l)
unfolding parse_char is_type
parse_char-IsType l = ground arith

parse_float-IsType : (l : ℕ) → IsType (parse_float l)
unfolding parse_float is_type
parse_float-IsType l = ground arith

directive-ActionEmits : (c l h : ℕ) → ActionEmits (directive c l h)
unfolding directive
directive-ActionEmits c l h = ground (
  arith,
  parse_int-Emits h l true,
  parse_int-Emits h l false,
  parse_char-IsType l,
  parse_float-IsType l,
  string-IsType,
)

-- The result of parsing `cs` with `extra` directives open.
abbrev pub Parses : ℕ → List ℕ → Option (List ℕ) → Type 0
Parses extra cs none = ⊥
Parses extra cs (some types) = (length types ≤ extra + occurrences cs b'%') × All IsType types

-- What the '%' itself adds.
opened : (cs : List ℕ) (m : Option (List ℕ)) → Parses 1 cs m → Parses 0 (b'%' ∷ cs) m
opened cs none h = h
opened cs (some types) (p, q) = (omega arith, q)

-- Any other character, and the second '%' of a pair.
passed :
    (extra c : ℕ) (cs : List ℕ) (m : Option (List ℕ)) → Parses extra cs m → Parses extra (c ∷ cs) m
passed extra c cs none h = h
passed extra c cs (some types) (p, q) = (ground arith, q)

closed : (cs : List ℕ) (m : Option (List ℕ)) → Parses 0 cs m → Parses 1 cs m
closed cs none h = h
closed cs (some types) (p, q) = (omega arith, q)

emitted :
    (t : ℕ) (cs : List ℕ) (m : Option (List ℕ))
    → IsType t
    → Parses 0 cs m
    → Parses 1 cs (m >>= λ types. some (t ∷ types))
emitted t cs none k h = h
emitted t cs (some types) k (p, q) = (omega arith, (k, q))

pub data ActionCases (a : Action) : Type 0 where
  is_literal : a ≡ literal → ActionCases a
  is_abort : a ≡ emit none → ActionCases a
  is_emit : (t : ℕ) → a ≡ emit (some t) → ActionCases a
  is_count : (l h : ℕ) → a ≡ count l h → ActionCases a

pub Action-cases : (a : Action) → ActionCases a
Action-cases literal = is_literal refl
Action-cases (emit none) = is_abort refl
Action-cases (emit (some t)) = is_emit t refl
Action-cases (count l h) = is_count l h refl

mutual
  unfolding parse_text parse_directive

  parse_text-Parses : (cs : List ℕ) → Parses 0 cs (parse_text cs)
  parse_text-Parses [] = (omega arith, tt)
  parse_text-Parses (c ∷ cs) = elim (Bool-cases (c == b'%')) [
    | inl e ↦
        let p : c ≡ b'%' = ground arith in
        rw (p, parse_text) (opened cs (parse_directive 0 0 cs) (parse_directive-Parses cs 0 0))
    | inr e ↦ rw (e, parse_text) (passed 0 c cs (parse_text cs) (parse_text-Parses cs))
  ]

  parse_directive-Parses : (cs : List ℕ) (l h : ℕ) → Parses 1 cs (parse_directive l h cs)
  parse_directive-Parses [] l h = (omega arith, tt)
  parse_directive-Parses (c ∷ cs) l h = elim (Action-cases (directive c l h)) [
    | is_literal e ↦
        rw (e, parse_directive)
          (passed 1 c cs (parse_text cs) (closed cs (parse_text cs) (parse_text-Parses cs)))
    | is_abort e ↦ absurd (rw e at (directive-ActionEmits c l h))
    | is_emit t e ↦
        rw (e, parse_directive)
          (passed 1 c cs _ (
            emitted t cs (parse_text cs) (rw e at (directive-ActionEmits c l h))
              (parse_text-Parses cs)))
    | is_count l' h' e ↦
        rw (e, parse_directive)
          (passed 1 c cs (parse_directive l' h' cs) (parse_directive-Parses cs l' h'))
  ]

-- Parsing never aborts. It stores at most one type for each '%' of the format, so the array of
-- `tvnp_vapprintf`, one longer than the number of '%', also has room for the nul; and each type is
-- one of the letters of the argument encoder, or 'G'.
pub fmt_parse-Parses : (fmt : List ℕ) → Parses 0 fmt (fmt_parse fmt)
unfolding fmt_parse
fmt_parse-Parses fmt = parse_text-Parses fmt
