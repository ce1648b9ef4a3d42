-- ===== src/Log/Client.antt =====
-- tvnet/log.c: a log message into the ring buffer. `none` is undefined behaviour or `abort()`.
use libtvnet.Base.{ℕ, ◌+◌, ◌%◌, ◌^◌, List, [], ◌∷◌, Option, none, some, ◌>>=◌, codes, ℤ, pos}
use libtvnet.Tvutils.{Tvutils}
use libtvnet.Buffer.{Buffer}
use libtvnet.Stdarg.Args.{Arg, int, str}
use libtvnet.Stdarg.Encoder.{vlength, vencode}
use libtvnet.Fmt.{fmt_parse}
use libtvnet.Print.Encoder.{as_size, vpprintf_len, vpprintf}

-- `tvn_info_t`, without the flags that no code reads
pub record Info : Type 0 where
  pub user : ℤ
  pub session : ℤ
  pub transaction : ℤ
  pub service : List ℕ

abbrev pub header : List ℕ
header = codes "qqqqqsqsq"

-- The arguments that go with the header, TVNL_MESSAGE_TYPE first.
unfoldable pub header_args :
    Info → (timestamp : ℤ) (filename : List ℕ) (lineno severity : ℤ) → List Arg
header_args info timestamp filename lineno severity =
    int (pos 0)
    ∷ int timestamp
    ∷ int info.user
    ∷ int info.session
    ∷ int info.transaction
    ∷ str info.service
    ∷ int severity
    ∷ str filename
    ∷ int lineno
    ∷ []

-- `again` is a return with errno = EAGAIN. The offset of a packet's buffer is where the message ends.
pub data Sent : Type 0 where
  again : Sent
  marked : (b : Buffer) → Sent

-- `tvnl_vmessage`. `ring_head n` is the memory of the packet of n bytes that `tvu_ring_head` gives, if
-- it has one. The result of `tvnp_fmt_parse` is never -1, and that of `tvnp_encode` is dropped.
unfoldable pub vmessage :
    ⦃tv : Tvutils⦄ (ring_head : ℕ → Option (List ℕ))
    → Info
    → (timestamp : ℤ) (filename : List ℕ) (lineno severity : ℤ) (fmt : List ℕ) → List Arg
    → Option Sent
vmessage ring_head info timestamp filename lineno severity fmt ap = fmt_parse fmt >>= λ types.
    vlength header (header_args info timestamp filename lineno severity) >>= λ n.
    vpprintf_len types fmt ap >>= λ m.
    let size = (as_size n + m) % 2 ^ 64 in
    elim (ring_head size) [
      | none ↦ some again
      | some data_bytes ↦
          vencode (record { data_bytes = data_bytes; offset = 0; size = size }) header
            (header_args info timestamp filename lineno severity)
          >>= λ (b, result). vpprintf b types fmt ap >>= λ b'. some (marked b')
    ]
