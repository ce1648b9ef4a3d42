-- ===== src/Log/RunTests.antt =====
-- Runs of the daemon over several packets and rounds, and the theorems on them at concrete inputs.
use libtvnet.Base.{
  until_nul, ℕ, ◌+◌, ◌≤◌, ◌≡◌, refl, List, [], ◌∷◌, Option, none, some, arith, codes, false, true,
}
use libtvnet.Tvutils.Sample.{sample}
use libtvnet.Buffer.{Buffer, past_end, advance}
use libtvnet.Pickle.Decoder.{
  decode_token, decode_tagged, decode_container, decode_number, finish_string,
}
use libtvnet.Stdarg.Decoder.{vdecode, store_token, store_signed, store_str}
use libtvnet.Fmt.{fmt_parse, parse_text, directive, parse_int}
use libtvnet.Print.Decoder.{
  c_string, pickle_to_va, print_with, snprintp, to_va_loop, cast_fits, va_token, va_signed_32,
  va_values, va_value,
}
use libtvnet.Log.Files.{
  Files, no_files, Call, close, open_append, write, free_packet, file_type, logfile_filename,
  open_logfile,
}
use libtvnet.Log.Daemon.{read_entry, severity_name, written, message_of, logline, iteration}
use libtvnet.Log.Runs.{iterations}
use libtvnet.Log.Descriptors.{opens, closes, holds, iterations-Balance}
use libtvnet.Log.Reopening.{nr_opens, iterations-reopen}
use libtvnet.Log.Loop.{
  Round, Effect, info, usleep, service_started, service_terminated, hour_mark, sigterm, LoopState,
  start, idle, handle, handle_all, loop_round, loop,
}
use libtvnet.Log.Marks.{nr_starts, nr_hour_marks, loop-Marked}
use libtvnet.Log.Tests.{packet, x_text, roomy, date_of}

-- two such messages, and then none
abbrev inputs : List (Option Buffer × (List ℕ → Option ℕ))
inputs = (some (packet 0), λ s. some 3) ∷ (some (packet 0), λ s. some 4) ∷ (none, λ s. none) ∷ []

abbrev files_after : Files
files_after = record {
  dates = some [] ∷ some [] ∷ some [] ∷ none ∷ [];
  fds = none ∷ none ∷ some 4 ∷ some 0 ∷ [];
}

abbrev calls_made : List Call
calls_made =
    open_append (codes "/l/debug-D.log") 3
    ∷ write (some 3) (codes "x")
    ∷ free_packet
    ∷ close 3
    ∷ open_append (codes "/l/debug-D.log") 4
    ∷ write (some 4) (codes "x")
    ∷ free_packet
    ∷ []

two_messages :
    iterations date_of 100 (some (codes "/l")) date_of date_of x_text roomy 9 inputs no_files
    ≡ some (files_after, calls_made, 2)
unfolding iterations iteration vdecode store_token store_signed store_str decode_token decode_tagged
    decode_container decode_number finish_string past_end advance read_entry c_string until_nul
    message_of snprintp print_with pickle_to_va fmt_parse parse_text directive parse_int to_va_loop
    cast_fits va_token va_signed_32 va_values va_value severity_name open_logfile file_type
    logfile_filename written logline no_files
two_messages = refl

iterations-Balance_example :
    opens 3 calls_made + holds 3 no_files.fds ≡ closes 3 calls_made + holds 3 files_after.fds
iterations-Balance_example =
    iterations-Balance date_of 100 (some (codes "/l")) date_of date_of x_text roomy 9 3 inputs
      no_files files_after calls_made 2 two_messages

iterations-reopen_example : nr_opens calls_made ≡ 2
iterations-reopen_example =
    iterations-reopen date_of 100 (some (codes "/l")) date_of date_of x_text roomy 9 inputs
      files_after calls_made 2 (λ t. omega arith) two_messages

-- an idle round, one in the next hour, one that ends with SIGTERM, and one that does not come
abbrev rounds : List Round
rounds =
    record { packet = none; open_file = λ s. none; now = 7; signals = [] }
    ∷ record { packet = none; open_file = λ s. none; now = 8; signals = [] }
    ∷ record { packet = none; open_file = λ s. none; now = 8; signals = sigterm ∷ [] }
    ∷ record { packet = none; open_file = λ s. none; now = 9; signals = [] }
    ∷ []

abbrev effects_made : List Effect
effects_made =
    info service_started
    ∷ usleep 10000
    ∷ info hour_mark
    ∷ usleep 10000
    ∷ usleep 10000
    ∷ info service_terminated
    ∷ []

abbrev stopped : LoopState
stopped = record {
  running = false;
  opening_mark_send = true;
  last_hour_mark = 8;
  files = record {
    dates = some [] ∷ some [] ∷ some [] ∷ none ∷ [];
    fds = none ∷ none ∷ none ∷ some 0 ∷ [];
  };
}

three_rounds :
    loop date_of date_of date_of x_text roomy 9 100 (some (codes "/l")) rounds (start 7)
    ≡ some (stopped, effects_made)
unfolding loop loop_round iteration start idle handle handle_all no_files
three_rounds = refl

loop-Marked_example : (nr_starts effects_made ≤ 1) × (7 + nr_hour_marks effects_made ≤ 9)
loop-Marked_example =
    loop-Marked date_of date_of date_of x_text roomy 9 100 (some (codes "/l")) 7 9 rounds stopped
      effects_made (omega arith) (omega arith, (omega arith, (omega arith, (omega arith, tt))))
      three_rounds
