-- ===== src/Log/Reading.antt =====
-- The daemon reads the header that the client stored.
use libtvnet.Base.{
  IsText, ℕ, ◌+◌, ◌^◌, ◌≤◌, ◌<◌, ◌≡◌, ◌∙◌, List, [], ◌∷◌, ◌++◌, Option, none, some, ◌>>=◌, length,
  arith, ℤ, pos, IsI64, to_signed_id, All,
}
use libtvnet.Tvutils.{Tvutils}
use libtvnet.Buffer.{Buffer, put}
use libtvnet.Pickle.Length.{length_compound}
use libtvnet.Pickle.Bytes.{compound_bytes, utf8_bytes}
use libtvnet.Pickle.At.{At, At-prefix, At-suffix, put-split}
use libtvnet.Pickle.Encoding.{length-compound_bytes}
use libtvnet.Stdarg.Args.{Arg, int, dbl, ldbl, str}
use libtvnet.Stdarg.Encoder.{Kind, text, encode_kind}
use libtvnet.Stdarg.Decoder.{Slot, str_slot}
use libtvnet.Stdarg.Spec.{arg_bytes, args_bytes}
use libtvnet.Stdarg.RoundTrip.{expected, all_expected}
use libtvnet.Print.Decoder.{c_string}
use libtvnet.Print.Arguments.{ArgIsText, c_string-At}
use libtvnet.Log.Client.{Info, header, header_args, Sent, marked}
use libtvnet.Log.Daemon.{Entry, read_entry}
use libtvnet.Log.Storing.{fields, log_bytes, stored}

-- A text argument can be read behind its slot.
abbrev Read : Buffer → Arg → Slot → Type 0
Read m (str s) (str_slot p) = c_string m p ≡ some s
Read m (str s) _ = ⊥
Read m _ _ = Unit

abbrev AllRead : Buffer → List Arg → List Slot → Type 0
AllRead m [] slots = Unit
AllRead m (a ∷ args) [] = Unit
AllRead m (a ∷ args) (slot ∷ slots) = Read m a slot × AllRead m args slots

module _ ⦃tv : Tvutils⦄ where
  text-Read :
      (k : Kind) (s : List ℕ) {b : Buffer} (m : Buffer)
      → m.data_bytes ≡ b.data_bytes
      → IsText s
      → At b (utf8_bytes s)
      → c_string m (b.offset + length_compound (length s)) ≡ some s
  unfolding utf8_bytes c_string
  text-Read k s {b} m same t at =
      rw (← length-compound_bytes 0x80 (length s), same)
        (c_string-At s t (At-suffix (compound_bytes 0x80 (length s)) (s ++ (0 ∷ [])) at))

  arg-Read :
      (c : ℕ) (a : Arg) {b : Buffer} (m : Buffer)
      → m.data_bytes ≡ b.data_bytes
      → ArgIsText a
      → At b (arg_bytes (encode_kind c) a)
      → Read m a (expected b.offset c a)
  arg-Read c (int x) m same t at = tt
  arg-Read c (dbl x) m same t at = tt
  arg-Read c (ldbl x) m same t at = tt
  arg-Read c (str s) m same t at = text-Read text s m same t at

  args-AllRead :
      (fmt : List ℕ) (args : List Arg) {b : Buffer} (m : Buffer)
      → m.data_bytes ≡ b.data_bytes
      → All ArgIsText args
      → At b (args_bytes fmt args)
      → AllRead m args (all_expected b.offset fmt args)
  args-AllRead [] [] m same ts at = tt
  args-AllRead [] (a ∷ args) m same ts at = tt
  args-AllRead (c ∷ fmt) [] m same ts at = tt
  args-AllRead (c ∷ fmt) (a ∷ args) m same (t, ts) at =
      let bs : List ℕ = arg_bytes (encode_kind c) a in
      let rest : List ℕ = args_bytes fmt args in
      (
        arg-Read c a m same t (At-prefix bs rest at),
        args-AllRead fmt args m same ts (At-suffix bs rest at),
      )

marked_buffer :
    (m : Option Buffer) {b : Buffer}
    → ◌>>=◌ {B = Sent} m (λ b'. some (marked b')) ≡ some (marked b)
    → m ≡ some b
marked_buffer none e = cc
marked_buffer (some b') e = cc

-- What the client said, as the daemon is to see it.
abbrev pub sent_entry : Info → (timestamp : ℤ) (filename : List ℕ) (lineno severity : ℤ) → Entry
sent_entry info timestamp filename lineno severity = record {
  message_type = pos 0;
  timestamp = timestamp;
  user = info.user;
  session = info.session;
  transaction = info.transaction;
  service = info.service;
  severity = severity;
  filename = filename;
  lineno = lineno;
}

-- The values are those of 64-bit integers, and the names are C strings.
pub record IsEntry (e : Entry) : Type 0 where
  pub timestamp_fits : IsI64 e.timestamp
  pub user_fits : IsI64 e.user
  pub session_fits : IsI64 e.session
  pub transaction_fits : IsI64 e.transaction
  pub severity_fits : IsI64 e.severity
  pub lineno_fits : IsI64 e.lineno
  pub service_text : IsText e.service
  pub filename_text : IsText e.filename

module _ ⦃tv : Tvutils⦄ (info : Info) (timestamp : ℤ) (filename : List ℕ) (lineno severity : ℤ)
    (ok : IsEntry (sent_entry info timestamp filename lineno severity)) where
  fields-text : All ArgIsText (fields info timestamp filename lineno severity)
  unfolding header_args
  fields-text = (tt, (tt, (tt, (tt, (tt, (ok.service_text, (tt, (ok.filename_text, (tt, tt)))))))))

  pub read_entry-At :
      {b : Buffer} (m : Buffer)
      → m.data_bytes ≡ b.data_bytes
      → At b (args_bytes header (fields info timestamp filename lineno severity))
      → read_entry m (all_expected b.offset header (fields info timestamp filename lineno severity))
        ≡ some (sent_entry info timestamp filename lineno severity)
  unfolding read_entry header_args encode_kind
  read_entry-At m same at =
      let (_, (_, (_, (_, (_, (service_read, (_, (filename_read, _)))))))) =
        args-AllRead header (fields info timestamp filename lineno severity) m same fields-text
          at in
      rw (service_read, filename_read)
        (λ i. some (record {
          message_type = pos 0;
          timestamp = to_signed_id timestamp ok.timestamp_fits i;
          user = to_signed_id info.user ok.user_fits i;
          session = to_signed_id info.session ok.session_fits i;
          transaction = to_signed_id info.transaction ok.transaction_fits i;
          service = info.service;
          severity = to_signed_id severity ok.severity_fits i;
          filename = filename;
          lineno = to_signed_id lineno ok.lineno_fits i;
        }))

  -- The packet as the daemon gets it: the memory that the client filled, from its start.
  pub packet-At :
      (types fmt : List ℕ) (args : List Arg) (data_bytes : Option (List ℕ)) (b packet : Buffer)
      → stored info timestamp filename lineno severity data_bytes
          (log_bytes info timestamp filename lineno severity types fmt args)
        ≡ some (marked b)
      → packet.data_bytes ≡ b.data_bytes
      → packet.offset ≡ 0
      → b.offset ≤ packet.size
      → packet.size < 2 ^ 63
      → At packet (log_bytes info timestamp filename lineno severity types fmt args)
  packet-At types fmt args none b packet e same start fits big = cc
  packet-At types fmt args (some d) b packet e same start fits big =
      let bytes : List ℕ = log_bytes info timestamp filename lineno severity types fmt args in
      let fresh : Buffer = record { data_bytes = d; offset = 0; size = length bytes } in
      let (before, after, memory, l, o, _) =
        put-split bytes fresh (omega arith) (marked_buffer (put bytes fresh) e) in
      record {
        before = before;
        after = after;
        memory = same ∙ memory;
        here = omega arith;
        within = omega arith;
        big = big;
      }
