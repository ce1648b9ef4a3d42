-- ===== src/Log/Storing.antt =====
-- `tvnl_vmessage` asks the ring for as many bytes as it stores.

use libtvnet.Base.{
  ℕ, ◌+◌, ◌%◌, ◌^◌, ◌<◌, ◌≡◌, refl, sym, ◌∙◌, List, ◌++◌, Option, none, some, ◌>>=◌, >>=_some,
  >>=_cong, >>=_assoc, length, length-append, arith, ℤ, pos,
}
use libtvnet.Tvutils.{Tvutils}
use libtvnet.Buffer.{Buffer, put}
use libtvnet.Buffer.Laws.{put-append}
use libtvnet.Pickle.Bytes.{utf8_bytes}
use libtvnet.Stdarg.Args.{Arg}
use libtvnet.Stdarg.Encoder.{encode_kind, vencode}
use libtvnet.Stdarg.Spec.{Typed, args_bytes}
use libtvnet.Stdarg.Size.{vencode-put, vlength-length, length-args_le, length-utf8_le}
use libtvnet.Fmt.{fmt_parse}
use libtvnet.Print.Encoder.{vpprintf}
use libtvnet.Print.RoundTrip.{message_bytes, vpprintf-put}
use libtvnet.Print.Size.{vpprintf_len-length}
use libtvnet.Log.Client.{Info, header, header_args, Sent, again, marked, vmessage}

-- The arguments of a log call that `tvnl_vmessage` can store: a format of fewer than 2 ^ 32 bytes and
-- 2 ^ 31 arguments, which have the types that it names, and names of fewer than 2 ^ 32 bytes.
pub record IsLoggable (info : Info) (filename types fmt : List ℕ) (args : List Arg) : Type 0 where
  pub parsed : fmt_parse fmt ≡ some types
  pub fmt_small : length fmt < 2 ^ 32
  pub few : length types < 2 ^ 31
  pub typed : Typed types args
  pub service_small : length info.service < 2 ^ 32
  pub filename_small : length filename < 2 ^ 32

without_result :
    (m : Option Buffer) (g : Buffer → Option Sent)
    → (◌>>=◌ {B = Buffer × ℤ} m (λ b. some (b, pos 0)) >>= λ (b, result). g b) ≡ (m >>= g)
without_result none g = refl
without_result (some b) g = refl

module _ ⦃tv : Tvutils⦄ (info : Info) (timestamp : ℤ) (filename : List ℕ)
    (lineno severity : ℤ) where
  abbrev pub fields : List Arg
  fields = header_args info timestamp filename lineno severity

  pub fields-Typed : length info.service < 2 ^ 32 → length filename < 2 ^ 32 → Typed header fields
  unfolding header_args encode_kind
  fields-Typed h k = (tt, (tt, (tt, (tt, (tt, (h, (tt, (k, (tt, tt)))))))))

  -- the message in the ring: the header, and the format with its arguments
  abbrev pub log_bytes : (types fmt : List ℕ) → List Arg → List ℕ
  log_bytes types fmt args = args_bytes header fields ++ message_bytes types fmt args

  abbrev pub stored : (ring_head : Option (List ℕ)) (bytes : List ℕ) → Option Sent
  stored none bytes = some again
  stored (some data_bytes) bytes =
      put bytes (record { data_bytes = data_bytes; offset = 0; size = length bytes }) >>= λ b.
      some (marked b)

  module _ (types fmt : List ℕ) (args : List Arg)
      (h : IsLoggable info filename types fmt args) where
    total :
        (length (args_bytes header fields) + length (message_bytes types fmt args)) % 2 ^ 64
        ≡ length (log_bytes types fmt args)
    total =
        let hs : Typed header fields = fields-Typed h.service_small h.filename_small in
        omega (
          arith,
          length-append (args_bytes header fields) (message_bytes types fmt args),
          length-append (utf8_bytes fmt) (args_bytes types args),
          length-args_le header fields hs,
          length-utf8_le fmt h.fmt_small,
          length-args_le types args h.typed,
          h.few,
        )

    filled :
        (b : Buffer)
        → (vencode b header fields >>= λ (b', result).
            vpprintf b' types fmt args >>= λ b''. some (marked b''))
          ≡ (put (log_bytes types fmt args) b >>= λ b'. some (marked b'))
    filled b =
        let hs : Typed header fields = fields-Typed h.service_small h.filename_small in
        let bs : List ℕ = args_bytes header fields in
        rw (vencode-put header fields b hs, put-append bs (message_bytes types fmt args) b)
          (without_result (put bs b) _
            ∙ >>=_cong (put bs b) _ _
                (λ b'. rw (vpprintf-put types fmt args b' h.fmt_small h.typed) refl)
            ∙ sym (
                >>=_assoc (put bs b) (put (message_bytes types fmt args)) (λ b'. some (marked b'))))

    abbrev packet_filled : ℕ → Option (List ℕ) → Option Sent
    packet_filled n none = some again
    packet_filled n (some data_bytes) =
        vencode (record { data_bytes = data_bytes; offset = 0; size = n }) header fields
        >>= λ (b, result). vpprintf b types fmt args >>= λ b'. some (marked b')

    packet-stored :
        (m : Option (List ℕ))
        → packet_filled (length (log_bytes types fmt args)) m ≡ stored m (log_bytes types fmt args)
    packet-stored none = refl
    packet-stored (some d) =
        filled (record { data_bytes = d; offset = 0; size = length (log_bytes types fmt args) })

    asked :
        (ring_head : ℕ → Option (List ℕ)) (n : ℕ)
        → n ≡ length (log_bytes types fmt args)
        → packet_filled n (ring_head n)
          ≡ stored (ring_head (length (log_bytes types fmt args))) (log_bytes types fmt args)
    asked ring_head n e = rw e (packet-stored (ring_head (length (log_bytes types fmt args))))

    pub vmessage-put :
        (ring_head : ℕ → Option (List ℕ))
        → vmessage ring_head info timestamp filename lineno severity fmt args
          ≡ stored (ring_head (length (log_bytes types fmt args))) (log_bytes types fmt args)
    unfolding vmessage
    vmessage-put ring_head =
        let hs : Typed header fields = fields-Typed h.service_small h.filename_small in
        >>=_some (fmt_parse fmt) _ types _ h.parsed (
          >>=_some _ _ _ _ (vlength-length header fields hs (omega arith)) (
            >>=_some _ _ _ _ (vpprintf_len-length types fmt args h.fmt_small h.few h.typed)
              (asked ring_head _ total)))
