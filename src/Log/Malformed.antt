-- ===== src/Log/Malformed.antt =====
-- Packets of any bytes: what the daemon reads of a header.
use libtvnet.Base.{
  ℕ, ◌^◌, ◌<◌, ◌≡◌, ◌⊎◌, inl, inr, refl, List, [], ◌∷◌, Option, none, some, ℤ, pos, negsuc, arith,
}
use libtvnet.Tvutils.{Tvutils}
use libtvnet.Buffer.{Buffer, IsReadable}
use libtvnet.Stdarg.Args.{Arg}
use libtvnet.Stdarg.Decoder.{Slot, int_slot, str_slot, vdecode}
use libtvnet.Stdarg.Safety.{target, Filled, Part, Decodes, vdecode-Decodes}
use libtvnet.Print.Untrusted.{IsTerminated, c_string_total}
use libtvnet.Print.Decoder.{VaFrame}
use libtvnet.Log.Client.{header}
use libtvnet.Log.Daemon.{Entry, read_entry, iteration}
use libtvnet.Log.Files.{Files}

read_entry-Filled :
    (b : Buffer) (size : ℕ) (slots : List Slot)
    → IsTerminated b
    → b.size ≡ size
    → Filled size header slots
    → (e : Entry) × (read_entry b slots ≡ some e)
unfolding read_entry target
read_entry-Filled b size
      (int_slot message_type
        ∷ int_slot timestamp
        ∷ int_slot user
        ∷ int_slot session
        ∷ int_slot transaction
        ∷ str_slot service
        ∷ int_slot severity
        ∷ str_slot filename
        ∷ int_slot lineno
        ∷ [])
      t same h =
    let (service_s, e) = c_string_total b service t (ground arith) in
    let (filename_s, e') = c_string_total b filename t (ground arith) in
    (
      record {
        message_type = message_type;
        timestamp = timestamp;
        user = user;
        session = session;
        transaction = transaction;
        service = service_s;
        severity = severity;
        filename = filename_s;
        lineno = lineno;
      },
      rw (e, e') refl,
    )
read_entry-Filled b size _ t same h = absurd (ground arith)

read_entry-Part :
    (b : Buffer) (size : ℕ) (slots : List Slot) → Part size header slots → read_entry b slots ≡ none
unfolding read_entry target
read_entry-Part b size
      (int_slot message_type
        ∷ int_slot timestamp
        ∷ int_slot user
        ∷ int_slot session
        ∷ int_slot transaction
        ∷ str_slot service
        ∷ int_slot severity
        ∷ str_slot filename
        ∷ int_slot lineno
        ∷ [])
      h =
    absurd (ground arith)
read_entry-Part b size _ h = refl

-- What becomes of a packet once its header is decoded.
abbrev pub Reads : (packet : Buffer) → Option (Buffer × List Slot × ℤ) → Type 0
Reads packet none = ⊥
Reads packet (some (b, slots, result)) =
    (b.data_bytes ≡ packet.data_bytes)
    × (b.size ≡ packet.size)
    × (((result ≡ pos 0) × ((e : Entry) × (read_entry b slots ≡ some e)))
        ⊎ ((result ≡ negsuc 0) × (read_entry b slots ≡ none)))

module _ ⦃tv : Tvutils⦄ (junk : ℕ) (word : junk < 2 ^ 64) where
  decoded-Reads :
      (packet : Buffer) (m : Option (Buffer × List Slot × ℤ))
      → IsTerminated packet
      → Decodes packet header m
      → Reads packet m
  decoded-Reads packet none t h = h
  decoded-Reads packet (some (b, slots, result)) t (d, s, o, inl (e, filled, far)) =
      let t' : IsTerminated b = rw (d, s) t in
      (d, s, inl (e, read_entry-Filled b packet.size slots t' s filled))
  decoded-Reads packet (some (b, slots, result)) t (d, s, o, inr (e, part)) =
      (d, s, inr (e, read_entry-Part b packet.size slots part))

  -- On any readable packet with a nul behind it, decoding its header stays inside the memory. If its result is
  -- 0, all the variables that the daemon reads are set and the texts are C strings in the packet;
  -- if it is -1, one of them is not.
  pub vdecode-Reads :
      (packet : Buffer)
      → IsReadable packet
      → IsTerminated packet
      → Reads packet (vdecode junk packet header)
  vdecode-Reads packet r t =
      decoded-Reads packet (vdecode junk packet header) t
        (vdecode-Decodes junk word header packet r)

  module _ (fmt_timestamp base85 shortdate : ℤ → List ℕ)
      (printf_text : List ℕ → List Arg → Option (List ℕ)) (frame : VaFrame) where
    -- The daemon does not look at the result of `tvnp_decode`: if the header of a readable packet with a
    -- nul behind it does not decode, `iteration` goes on with variables that are not set.
    pub iteration-malformed :
        (maxpathlen : ℕ) (option_logdir : Option (List ℕ)) (open_file : List ℕ → Option ℕ)
        (files : Files) (packet b : Buffer) (slots : List Slot)
        → IsReadable packet
        → IsTerminated packet
        → vdecode junk packet header ≡ some (b, slots, negsuc 0)
        → iteration fmt_timestamp base85 shortdate printf_text frame junk maxpathlen option_logdir
            open_file files
            (some packet)
          ≡ none
    unfolding iteration
    iteration-malformed maxpathlen option_logdir open_file files packet b slots r t e =
        let (d, s, reads) : Reads packet (some (b, slots, negsuc 0)) =
          rw e at (vdecode-Reads packet r t) in
        elim reads [
          | inl (zero_result, found) ↦ absurd (cc zero_result)
          | inr (same, unset) ↦ rw (e, unset) refl
        ]
