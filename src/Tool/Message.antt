-- ===== src/Tool/Message.antt =====
-- What the tool logs.
use libtvnet.Base.{
  ℕ, suc, ◌+◌, ◌<◌, ◌≡◌, refl, ap, sym, ◌∙◌, List, [], ◌∷◌, ◌++◌, append_assoc, append-nil, Option,
  none, some, ◌>>=◌, >>=_cong, or_assoc, or_false, Bool, true, false, not, ◌||◌, if◌then◌else◌,
  ◌==◌, ltb, codes, length, length-append, arith, pos, Bool-cases, inl, inr, ltb→lt, lt→ltb,
}
use libtvnet.Stdarg.Args.{str}
use libtvnet.Tool.{
  ToolOptions, tool_defaults, tool_option, tool_options, message_size, strcat, join_from,
  ToolEffect, print_usage, debug, tool_main,
}

-- the arguments with a space between each two
abbrev pub spaced : List (List ℕ) → List ℕ
spaced [] = []
spaced (arg ∷ args) = b' ' ∷ (arg ++ spaced args)

abbrev pub joined : List (List ℕ) → List ℕ
joined [] = []
joined (arg ∷ args) = arg ++ spaced args

abbrev pub fitting : List ℕ → Option (List ℕ)
fitting text = if ltb (length text) message_size then some text else none

-- Two stores fit if the longer text does.
strcat-fitting :
    (text s : List ℕ) (f : List ℕ → Option (List ℕ)) (more : List ℕ)
    → (length (text ++ s) < message_size → f (text ++ s) ≡ fitting ((text ++ s) ++ more))
    → (strcat text s >>= f) ≡ fitting ((text ++ s) ++ more)
unfolding strcat
strcat-fitting text s f more e = elim (Bool-cases (ltb (length text + length s) message_size)) [
  | inl fits ↦ rw fits (e (omega (arith, ltb→lt _ _ fits, length-append text s)))
  | inr over ↦
      let long : ltb (length ((text ++ s) ++ more)) message_size ≡ false =
        ground (arith, length-append (text ++ s) more, length-append text s) in
      rw (over, long) refl
]

join_from-spaced :
    (i : ℕ) (text : List ℕ) (args : List (List ℕ))
    → length text < message_size
    → join_from (suc i) text args ≡ fitting (text ++ spaced args)
unfolding join_from
join_from-spaced i text [] h =
    let fits : ltb (length (text ++ [])) message_size ≡ true =
      rw (append-nil text) (lt→ltb (length text) message_size h) in
    rw (fits) (ap some (sym (append-nil text)))
join_from-spaced i text (arg ∷ args) h =
    let wide : List ℕ = text ++ codes " " in
    let first : ltb 0 (suc i) ≡ true = lt→ltb 0 (suc i) (omega arith) in
    let goal : fitting (wide ++ (arg ++ spaced args)) ≡ fitting (text ++ spaced (arg ∷ args)) =
      ap fitting (append_assoc text (codes " ") (arg ++ spaced args)) in
    rw first (
      strcat-fitting text (codes " ")
        (λ t. strcat t arg >>= λ more. join_from (suc (suc i)) more args) (arg ++ spaced args)
        (λ _.
          strcat-fitting wide arg (λ more. join_from (suc (suc i)) more args) (spaced args)
            (λ fits. join_from-spaced (suc i) (wide ++ arg) args fits)
          ∙ ap fitting (append_assoc wide arg (spaced args))))
    ∙ goal

join_from-joined : (args : List (List ℕ)) → join_from 0 [] args ≡ fitting (joined args)
unfolding join_from
join_from-joined [] = refl
join_from-joined (arg ∷ args) =
    strcat-fitting [] arg (λ more. join_from 1 more args) (spaced args)
      (λ fits. join_from-spaced 0 arg args fits)

-- All letters but v; 0 is a long option that sets its flag by itself.
abbrev pub wants_usage : List ℕ → Bool
wants_usage [] = false
wants_usage (c ∷ results) = wants_usage results || not (c == b'v' || c == 0)

one_option :
    (c : ℕ) (o : ToolOptions) → (tool_option c o).usage ≡ (not (c == b'v' || c == 0) || o.usage)
unfolding tool_option
one_option c o = ground arith

tool_options-usage :
    (results : List ℕ) (o : ToolOptions)
    → (tool_options results o).usage ≡ (wants_usage results || o.usage)
unfolding tool_options
tool_options-usage [] o = refl
tool_options-usage (c ∷ results) o =
    tool_options-usage results (tool_option c o)
    ∙ ap (λ u. wants_usage results || u) (one_option c o)
    ∙ or_assoc (wants_usage results) (not (c == b'v' || c == 0)) o.usage

either_effect :
    (b : Bool) (x y : ToolEffect)
    → ◌≡◌ {A = Option (List ToolEffect × ℕ)}
        (if b then some (x ∷ [], 0) else some (y ∷ [], 0))
        (some ((if b then x else y) ∷ [], 0))
either_effect true x y = refl
either_effect false x y = refl

-- `main` of the tool, when `tvu_init` succeeds. With arguments that take fewer than 256 bytes, spaces
-- between them included, it shows its usage if a result of `getopt_long` is not the letter v or 0, and
-- else makes one call of TVNL_DEBUG, with the arguments and a space between each two as the text of a
-- "%s"; it returns 0. With longer ones it stores behind its array. What that call comes to is not stated.
pub tool_main-joined :
    (n : ℕ) (results : List ℕ) (args : List (List ℕ))
    → tool_main (pos n) results args ≡ (
        fitting (joined args) >>= λ text.
        some (
          (if wants_usage results then print_usage else debug (codes "%s") (str text ∷ [])) ∷ [],
          0,
        ))
unfolding tool_main tool_defaults
tool_main-joined n results args =
    let usage : (tool_options results tool_defaults).usage ≡ wants_usage results =
      tool_options-usage results tool_defaults ∙ or_false (wants_usage results) in
    rw (join_from-joined args, usage)
      (>>=_cong (fitting (joined args)) _ _ (λ text.
        either_effect (wants_usage results) print_usage (debug (codes "%s") (str text ∷ []))))
