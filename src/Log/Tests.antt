-- ===== src/Log/Tests.antt =====
-- Runs of the log client and the daemon, and their theorems at concrete inputs.
use libtvnet.Base.{
  ℕ, ◌+◌, ◌≡◌, refl, List, [], ◌∷◌, ◌++◌, Option, none, some, replicate, arith, codes, ℤ, pos, true,
}
use libtvnet.Tvutils.Sample.{sample, be_bytes}
use libtvnet.Buffer.{Buffer, put, put_byte}
use libtvnet.Pickle.Length.{length_compound, length_integer, length_utf8_string, length_string}
use libtvnet.Pickle.Encoder.{
  encode_integer, encode_compound, encode_string, encode_utf8_string, encode_utf8_string_and_size,
  read_string,
}
use libtvnet.Stdarg.Args.{Arg, int, arg_i32, arg_i64, arg_str}
use libtvnet.Stdarg.Encoder.{
  encode_kind, encode_arg, vencode, length_kind, length_arg, vlength, vlength_loop,
}
use libtvnet.Fmt.{fmt_parse, parse_text, directive, parse_int}
use libtvnet.Print.Arguments.{AllReceivedAs, all_received}
use libtvnet.Print.Decoder.{VaFrame}
use libtvnet.Print.Encoder.{vpprintf_len, vpprintf}
use libtvnet.Log.Client.{Info, header_args, marked, vmessage}
use libtvnet.Log.Files.{
  no_files, open_append, write, free_packet, file_type, logfile_filename, open_logfile,
}
use libtvnet.Log.Daemon.{logline, iteration}
use libtvnet.Log.Storing.{IsLoggable}
use libtvnet.Log.Reading.{IsEntry, sent_entry}
use libtvnet.Log.Delivery.{iteration-vmessage}

abbrev sample_info : Info
sample_info = record { user = pos 0; session = pos 0; transaction = pos 0; service = codes "a" }

abbrev ring_of : ℕ → Option (List ℕ)
ring_of n = some (replicate n 0)

-- TVNL_DEBUG("%i", 25)
abbrev pub packet : ℕ → Buffer
packet o = record {
  data_bytes =
      0 ∷ 1 ∷ 0 ∷ 0 ∷ 0 ∷ 0x81 ∷ b'a' ∷ 0 ∷ 5 ∷ 0x81 ∷ b'f' ∷ 0 ∷ 7 ∷ 0x82 ∷ b'%' ∷ b'i' ∷ 0 ∷ 25
      ∷ [];
  offset = o;
  size = 18;
}

parsed_i : fmt_parse (codes "%i") ≡ some (codes "d")
unfolding fmt_parse parse_text directive parse_int
parsed_i = refl

debug_25-IsLoggable :
    IsLoggable sample_info (codes "f") (codes "d") (codes "%i") (int (pos 25) ∷ [])
unfolding encode_kind
debug_25-IsLoggable = record {
  parsed = parsed_i;
  fmt_small = omega arith;
  few = omega arith;
  typed = (tt, tt);
  service_small = omega arith;
  filename_small = omega arith;
}

debug_25-IsEntry : IsEntry (sent_entry sample_info (pos 1) (codes "f") (pos 7) (pos 5))
debug_25-IsEntry = record {
  timestamp_fits = omega arith;
  user_fits = omega arith;
  session_fits = omega arith;
  transaction_fits = omega arith;
  severity_fits = omega arith;
  lineno_fits = omega arith;
  service_text = (omega arith, tt);
  filename_text = (omega arith, tt);
}

debug_25 :
    vmessage ring_of sample_info
      (pos 1)
      (codes "f")
      (pos 7)
      (pos 5)
      (codes "%i")
      (int (pos 25) ∷ [])
    ≡ some (marked (packet 18))
unfolding vmessage fmt_parse parse_text directive parse_int header_args vlength vlength_loop
    length_kind length_arg arg_i64 arg_i32 arg_str length_integer length_utf8_string length_string
    length_compound vpprintf_len vpprintf vencode encode_kind encode_arg encode_integer
    encode_utf8_string encode_utf8_string_and_size encode_string encode_compound read_string put
    put_byte be_bytes
debug_25 = refl

-- A printf that makes "x" of everything.
abbrev pub x_text : List ℕ → List Arg → Option (List ℕ)
x_text fmt args = some (codes "x")

-- A frame with room for a nul and for any arguments.
abbrev pub roomy : VaFrame
roomy = record { array_room = λ n. n + 1; va_fits = λ types. true }

abbrev pub date_of : ℤ → List ℕ
date_of t = codes "D"

opened_debug :
    open_logfile date_of 100 (some (codes "/l")) (λ s. some 3) no_files (pos 1) (pos 5)
    ≡ some (
      record {
        dates = some [] ∷ some [] ∷ some [] ∷ none ∷ [];
        fds = none ∷ none ∷ some 3 ∷ some 0 ∷ [];
      },
      open_append (codes "/l/debug-D.log") 3 ∷ [],
      some 3,
    )
unfolding open_logfile file_type logfile_filename no_files
opened_debug = refl

iteration-vmessage_example :
    (iteration date_of date_of date_of x_text roomy 9 100
        (some (codes "/l"))
        (λ s. some 3)
        no_files
        (some (packet 0))
      ≡ some (
        record {
          dates = some [] ∷ some [] ∷ some [] ∷ none ∷ [];
          fds = none ∷ none ∷ some 3 ∷ some 0 ∷ [];
        },
        (open_append (codes "/l/debug-D.log") 3 ∷ [])
            ++ (write (some 3) (codes "x") ∷ free_packet ∷ []),
        true,
      ))
    × AllReceivedAs (codes "d") (int (pos 25) ∷ []) (all_received (codes "d") (int (pos 25) ∷ []))
unfolding logline
iteration-vmessage_example =
    iteration-vmessage sample_info (pos 1) (codes "f") (pos 7) (pos 5) debug_25-IsEntry date_of
      date_of date_of x_text roomy 9 ring_of 100 (some (codes "/l")) (λ s. some 3) no_files _
      (open_append (codes "/l/debug-D.log") 3 ∷ []) (some 3) (codes "d") (codes "%i")
      (int (pos 25) ∷ []) (codes "x") (codes "x") (packet 18) (packet 0) debug_25-IsLoggable
      (omega arith, (omega arith, tt)) (omega arith, (refl, tt)) (tt, tt) debug_25 refl refl
      (omega arith) (omega arith) opened_debug refl refl (omega arith)
