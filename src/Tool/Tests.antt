-- ===== src/Tool/Tests.antt =====
-- The tool at concrete inputs.
use libtvnet.Base.{
  ℕ, ◌≡◌, refl, List, [], ◌∷◌, none, some, ◌>>=◌, codes, pos, replicate, if◌then◌else◌,
}
use libtvnet.Tool.{
  print_usage, debug, tool_main, join_from, strcat, tool_options, tool_option, tool_defaults,
}
use libtvnet.Tool.Message.{joined, fitting, wants_usage, tool_main-joined}
use libtvnet.Stdarg.Args.{str}

abbrev words : List (List ℕ)
words = codes "disk" ∷ codes "is" ∷ codes "full" ∷ []

three_words :
    tool_main (pos 0) (b'v' ∷ []) words
    ≡ some (debug (codes "%s") (str (codes "disk is full") ∷ []) ∷ [], 0)
unfolding tool_main join_from strcat tool_options tool_option tool_defaults
three_words = refl

too_long : tool_main (pos 0) [] (replicate 255 b'x' ∷ [] ∷ []) ≡ none
unfolding tool_main join_from strcat
too_long = refl

tool_main-joined_example : tool_main (pos 0) (b'v' ∷ []) words ≡ (
    fitting (joined words) >>= λ text.
    some (
      (if wants_usage (b'v' ∷ []) then print_usage else debug (codes "%s") (str text ∷ [])) ∷ [],
      0,
    ))
tool_main-joined_example = tool_main-joined 0 (b'v' ∷ []) words
