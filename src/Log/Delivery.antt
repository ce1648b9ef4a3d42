-- ===== src/Log/Delivery.antt =====
-- What a client logs, the daemon writes into a file.
use libtvnet.Base.{
  IsText, le→leb, take-append, take-long, ℕ, ◌^◌, ◌≤◌, ◌<◌, ◌≡◌, refl, sym, ◌∙◌, List, [], ◌∷◌,
  ◌++◌, Option, none, some, ◌>>=◌, >>=_some, length, arith, ℤ, All, take, Bool, true,
}
use libtvnet.Tvutils.{Tvutils}
use libtvnet.Buffer.{Buffer}
use libtvnet.Pickle.At.{At, behind, At-prefix, At-suffix}
use libtvnet.Stdarg.Args.{Arg}
use libtvnet.Stdarg.Spec.{Typed, args_bytes}
use libtvnet.Stdarg.RoundTrip.{vdecode-At}
use libtvnet.Print.Decoder.{snprintp}
use libtvnet.Print.Arguments.{ArgIsText, all_received, AllReceivedAs, all_received-AllReceivedAs}
use libtvnet.Print.RoundTrip.{message_bytes, HasRoom, print_with-At}
use libtvnet.Print.Decoder.{VaFrame}
use libtvnet.Log.Client.{Info, header, marked, vmessage}
use libtvnet.Log.Files.{Files, Call, write, free_packet, open_logfile}
use libtvnet.Log.Daemon.{severity_name, written, message_of, logline, iteration}
use libtvnet.Log.Storing.{IsLoggable, fields, fields-Typed, log_bytes, vmessage-put}
use libtvnet.Log.Reading.{sent_entry, IsEntry, read_entry-At, packet-At}

-- A line that fits the array is written whole.
written-short : (line : List ℕ) → length line < 256 → written line ≡ some line
unfolding written
written-short line h =
    rw
      (
        le→leb (length line) 256 (omega arith),
        take-long 255 line (omega arith),
        take-append line (0 ∷ []),
      )
      refl

module _ ⦃tv : Tvutils⦄ (info : Info) (timestamp : ℤ) (filename : List ℕ) (lineno severity : ℤ)
    (ok : IsEntry (sent_entry info timestamp filename lineno severity)) where
  module _ (fmt_timestamp base85 shortdate : ℤ → List ℕ)
      (printf_text : List ℕ → List Arg → Option (List ℕ)) (frame : VaFrame) (junk : ℕ) where
    message_of-At :
        (types fmt : List ℕ) (args : List Arg) (text : List ℕ) (b : Buffer)
        → IsLoggable info filename types fmt args
        → IsText fmt
        → HasRoom frame types fmt
        → All ArgIsText args
        → At b (message_bytes types fmt args)
        → printf_text fmt (all_received types args) ≡ some text
        → message_of fmt_timestamp base85 shortdate printf_text frame junk
            (sent_entry info timestamp filename lineno severity)
            b
          ≡ some (severity_name severity, take 255 text)
    unfolding message_of snprintp
    message_of-At types fmt args text b h t room ts at printed =
        >>=_some _ _ _ _
          (print_with-At none (λ f xs. printf_text f xs >>= λ text. some (some (take 255 text)))
              frame junk types fmt args b h.parsed t h.fmt_small room h.typed ts at
            ∙ >>=_some _ _ _ _ (>>=_some _ _ _ _ printed refl) refl)
          refl

    -- What `iteration` does with an entry and a message.
    abbrev logged :
        (maxpathlen : ℕ) (option_logdir : Option (List ℕ)) (open_file : List ℕ → Option ℕ)
        → Files
        → (message : List ℕ) → Option (Files × List Call × Bool)
    logged maxpathlen option_logdir open_file files message =
        open_logfile shortdate maxpathlen option_logdir open_file files timestamp severity
        >>= λ (files', calls, fd).
            (logline fmt_timestamp base85 shortdate printf_text frame junk
                (sent_entry info timestamp filename lineno severity) (severity_name severity)
                message
              >>= written)
            >>= λ text. some (files', calls ++ (write fd text ∷ free_packet ∷ []), true)

    iteration-At :
        (maxpathlen : ℕ) (option_logdir : Option (List ℕ)) (open_file : List ℕ → Option ℕ)
        (files : Files) (types fmt : List ℕ) (args : List Arg) (text : List ℕ) (packet : Buffer)
        → IsLoggable info filename types fmt args
        → IsText fmt
        → HasRoom frame types fmt
        → All ArgIsText args
        → At packet (log_bytes info timestamp filename lineno severity types fmt args)
        → printf_text fmt (all_received types args) ≡ some text
        → iteration fmt_timestamp base85 shortdate printf_text frame junk maxpathlen option_logdir
            open_file files
            (some packet)
          ≡ logged maxpathlen option_logdir open_file files (take 255 text)
    unfolding iteration
    iteration-At maxpathlen option_logdir open_file files types fmt args text packet h t room ts at
          printed =
        let hs : Typed header (fields info timestamp filename lineno severity) =
          fields-Typed info timestamp filename lineno severity h.service_small h.filename_small in
        let bs : List ℕ = args_bytes header (fields info timestamp filename lineno severity) in
        let rest : List ℕ = message_bytes types fmt args in
        >>=_some _ _ _ _
          (vdecode-At junk header (fields info timestamp filename lineno severity) hs
            (At-prefix bs rest at))
          (>>=_some _ _ _ _
            (read_entry-At info timestamp filename lineno severity ok (behind (length bs) packet)
              refl (At-prefix bs rest at))
            (>>=_some _ _ _ _
              (message_of-At types fmt args text (behind (length bs) packet) h t room ts
                (At-suffix bs rest at) printed)
              refl))

    -- What printf makes of the values that the client gave and of the first 255 bytes of a text.
    abbrev pub sent_line : (text : List ℕ) → Option (List ℕ)
    sent_line text =
        logline fmt_timestamp base85 shortdate printf_text frame junk
          (sent_entry info timestamp filename lineno severity) (severity_name severity)
          (take 255 text)

    -- What `tvnl_vmessage` stores into a packet, `iteration` of the daemon decodes, when it gets the
    -- packet's memory from its start and `open_logfile` succeeds for the client's timestamp and severity:
    -- it writes into that file the line that printf makes of the timestamp, severity, user, session,
    -- transaction, service, file name, line number and message that the client gave, if it is
    -- shorter than 256 bytes, frees the packet and returns true. The message is the first 255 bytes of
    -- what printf makes of the client's format and arguments: integers reduced to the width of their
    -- type, for doubles equal doubles or the same bits, and the same texts. Both calls of printf are
    -- defined. The names, the format and text arguments are C strings, the numbers fit 64 bits, doubles
    -- that are integral are in the range of `int64_t`, the call is one that the client can store, and
    -- the frame has room for the types of the format and their nul, and for the arguments.
    pub iteration-vmessage :
        (ring_head : ℕ → Option (List ℕ)) (maxpathlen : ℕ) (option_logdir : Option (List ℕ))
        (open_file : List ℕ → Option ℕ) (files files' : Files) (calls : List Call) (fd : Option ℕ)
        (types fmt : List ℕ) (args : List Arg) (text line : List ℕ) (b packet : Buffer)
        → IsLoggable info filename types fmt args
        → IsText fmt
        → HasRoom frame types fmt
        → All ArgIsText args
        → vmessage ring_head info timestamp filename lineno severity fmt args ≡ some (marked b)
        → packet.data_bytes ≡ b.data_bytes
        → packet.offset ≡ 0
        → b.offset ≤ packet.size
        → packet.size < 2 ^ 63
        → open_logfile shortdate maxpathlen option_logdir open_file files timestamp severity
          ≡ some (files', calls, fd)
        → printf_text fmt (all_received types args) ≡ some text
        → sent_line text ≡ some line
        → length line < 256
        → (iteration fmt_timestamp base85 shortdate printf_text frame junk maxpathlen option_logdir
              open_file files
              (some packet)
            ≡ some (files', calls ++ (write fd line ∷ free_packet ∷ []), true))
          × AllReceivedAs types args (all_received types args)
    iteration-vmessage ring_head maxpathlen option_logdir open_file files files' calls fd types fmt
          args text line b packet h t room ts e same start fits big opened printed lined short =
        (
          iteration-At maxpathlen option_logdir open_file files types fmt args text packet h t room
                ts
                (packet-At info timestamp filename lineno severity ok types fmt args _ b packet
                  (sym (
                      vmessage-put info timestamp filename lineno severity types fmt args h
                        ring_head)
                    ∙ e)
                  same start fits big)
                printed
              ∙ >>=_some _ _ _ _ opened
                  (>>=_some _ _ _ _ (>>=_some _ _ _ _ lined (written-short line short)) refl),
          all_received-AllReceivedAs types args h.typed,
        )
