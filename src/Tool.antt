-- ===== src/Tool.antt =====
-- tvlog/main.c: the tool that logs its arguments. `none` is undefined behaviour.
pub mod Message
mod Tests
use libtvnet.Base.{
  ℕ, zero, suc, ◌+◌, List, [], ◌∷◌, ◌++◌, Option, none, some, ◌>>=◌, Bool, true, false,
  if◌then◌else◌, ◌==◌, ltb, codes, length, ℤ, pos, negsuc,
}
use libtvnet.Stdarg.Args.{Arg, str}

pub record ToolOptions : Type 0 where
  pub usage : Bool
  pub verbose : Bool

unfoldable pub tool_defaults : ToolOptions
tool_defaults = record { usage = false; verbose = false }

-- the `switch` on a result of `getopt_long`
unfoldable pub tool_option : ℕ → ToolOptions → ToolOptions
tool_option c o =
    if c == b'h'
    then record o { usage = true }
    else if c == b'v'
    then record o { verbose = true }
    else if c == b':'
    then record o { usage = true }
    else if c == b'?'
    then record o { usage = true }
    else if c == 0
    then o
    else record o { usage = true }

-- The loop, over the results of `getopt_long` before the -1.
unfoldable pub tool_options : List ℕ → ToolOptions → ToolOptions
tool_options [] o = o
tool_options (c ∷ results) o = tool_options results (tool_option c o)

-- `sizeof option_message`
abbrev pub message_size : ℕ
message_size = 256

-- `strcat(option_message, s)`
unfoldable pub strcat : (option_message s : List ℕ) → Option (List ℕ)
strcat option_message s =
    if ltb (length option_message + length s) message_size then some (option_message ++ s) else none

-- The loop over the arguments behind `optind`, from the `i`th on.
unfoldable pub join_from : (i : ℕ) (option_message : List ℕ) → List (List ℕ) → Option (List ℕ)
join_from i option_message [] = some option_message
join_from i option_message (arg ∷ args) =
    (if ltb 0 i then strcat option_message (codes " ") else some option_message) >>= λ spaced.
    strcat spaced arg >>= λ more. join_from (suc i) more args

-- What `main` calls: `debug` is the call of TVNL_DEBUG, whatever comes of it. The tool never calls `tvn_init`,
-- so that `tvnl_ringbuffer` is still NULL then, and what `tvu_ring_head` does with it is not modelled.
pub data ToolEffect : Type 0 where
  print_error : ToolEffect
  print_usage : ToolEffect
  debug : (fmt : List ℕ) (args : List Arg) → ToolEffect

-- `main`, by the result of `tvu_init`, those of `getopt_long`, and the arguments behind `optind`.
unfoldable pub tool_main : (init : ℤ) → List ℕ → List (List ℕ) → Option (List ToolEffect × ℕ)
tool_main (negsuc zero) results rest = some (print_error ∷ [], 1)
tool_main init results rest = join_from 0 [] rest >>= λ option_message.
    if (tool_options results tool_defaults).usage
    then some (print_usage ∷ [], 0)
    else some (debug (codes "%s") (str option_message ∷ []) ∷ [], 0)
