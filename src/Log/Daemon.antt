-- ===== src/Log/Daemon.antt =====
-- tvlogd/loop.c: one message from the ring buffer into a file. `none` is undefined behaviour or
-- `abort()`.
use libtvnet.Base.{
  ℕ, ◌^◌, List, [], ◌∷◌, ◌++◌, Option, none, some, ◌>>=◌, codes, ℤ, to_unsigned, to_signed, length,
  take, if◌then◌else◌, ◌==◌, leb, Bool, true, false,
}
use libtvnet.Tvutils.{Tvutils}
use libtvnet.Buffer.{Buffer}
use libtvnet.Stdarg.Args.{Arg, int, str}
use libtvnet.Stdarg.Decoder.{Slot, int_slot, str_slot, vdecode}
use libtvnet.Print.Decoder.{VaFrame, c_string, snprintp}
use libtvnet.Log.Client.{header}
use libtvnet.Log.Files.{Files, Call, write, free_packet, as_severity, open_logfile}

-- The variables that `tvnp_decode` fills in, with the texts behind the pointers.
pub record Entry : Type 0 where
  pub message_type : ℤ
  pub timestamp : ℤ
  pub user : ℤ
  pub session : ℤ
  pub transaction : ℤ
  pub service : List ℕ
  pub severity : ℤ
  pub filename : List ℕ
  pub lineno : ℤ

-- To use a variable that was not filled in is undefined.
unfoldable pub read_entry : Buffer → List Slot → Option Entry
read_entry b
      (int_slot message_type
        ∷ int_slot timestamp
        ∷ int_slot user
        ∷ int_slot session
        ∷ int_slot transaction
        ∷ str_slot service
        ∷ int_slot severity
        ∷ str_slot filename
        ∷ int_slot lineno
        ∷ []) =
    c_string b service >>= λ service_s. c_string b filename >>= λ filename_s. some (record {
      message_type = message_type;
      timestamp = timestamp;
      user = user;
      session = session;
      transaction = transaction;
      service = service_s;
      severity = severity;
      filename = filename_s;
      lineno = lineno;
    })
read_entry b _ = none

unfoldable pub severity_name : ℤ → List ℕ
severity_name severity =
    let s = as_severity severity in
    if s == 0
    then codes "FATAL"
    else if s == 1
    then codes "ERROR"
    else if s == 2
    then codes "WARN "
    else if s == 3
    then codes "AUDIT"
    else if s == 4
    then codes "INFO "
    else if s == 5
    then codes "DEBUG"
    else codes "UNKN "

-- What libc's snprintf stores into 256 bytes, less the nul.
abbrev pub stored_text : List ℕ → List ℕ
stored_text text = take 255 text

-- What `write` reads of an array of 256 bytes that begins with a text and its nul: a length behind the
-- array is undefined.
unfoldable pub written : List ℕ → Option (List ℕ)
written text =
    if leb (length text) 256 then some (take (length text) (stored_text text ++ (0 ∷ []))) else none

-- `fmt_timestamp`, `base85` and `shortdate` are those of tvutils, `printf_text` is all that libc's printf
-- makes of a format and its arguments, `none` if it is undefined on them, and `frame` and `junk` are those of the decoder.
module _ ⦃tv : Tvutils⦄ (fmt_timestamp base85 shortdate : ℤ → List ℕ)
    (printf_text : List ℕ → List Arg → Option (List ℕ)) (frame : VaFrame) (junk : ℕ) where
  -- The second `switch`: the severity and the message that are printed.
  unfoldable pub message_of : Entry → Buffer → Option (List ℕ × List ℕ)
  message_of e b =
      if to_unsigned (2 ^ 32) e.message_type == 0
      then (snprintp printf_text frame junk 256 b >>= λ (b', message).
          message >>= λ message_s. some (severity_name e.severity, message_s))
      else (printf_text (codes "Unknown message type %i.")
            (int (to_signed (2 ^ 32) e.message_type) ∷ [])
          >>= λ message_s. some (codes "ERROR", stored_text message_s))

  unfoldable pub logline : Entry → (severity_s message_s : List ℕ) → Option (List ℕ)
  logline e severity_s message_s = printf_text (codes "%s %s %s %s %s %s:%s:%lli %s\n") (
      str (fmt_timestamp e.timestamp)
      ∷ str severity_s
      ∷ str (base85 e.user)
      ∷ str (base85 e.session)
      ∷ str (base85 e.transaction)
      ∷ str e.service
      ∷ str e.filename
      ∷ int e.lineno
      ∷ str message_s
      ∷ [])

  -- `iteration`, with the calls that it makes. `packet` is the buffer that `tvu_ring_tail` and
  -- `tvu_ringpacket_to_buffer` give, `none` if the ring is empty. The result of `tvnp_decode` is dropped.
  unfoldable pub iteration :
      (maxpathlen : ℕ) (option_logdir : Option (List ℕ)) (open_file : List ℕ → Option ℕ)
      → Files
      → Option Buffer
      → Option (Files × List Call × Bool)
  iteration maxpathlen option_logdir open_file files none = some (files, [], false)
  iteration maxpathlen option_logdir open_file files (some packet) =
      vdecode junk packet header >>= λ (buffer, slots, result). read_entry buffer slots >>= λ e.
      message_of e buffer >>= λ (severity_s, message_s).
      open_logfile shortdate maxpathlen option_logdir open_file files e.timestamp e.severity
      >>= λ (files', calls, fd). (logline e severity_s message_s >>= written) >>= λ text.
          some (files', calls ++ (write fd text ∷ free_packet ∷ []), true)
