-- ===== src/Log/PacketTests.antt =====
-- Packets that no client has stored.
use libtvnet.Base.{ℕ, ◌≡◌, refl, List, [], ◌∷◌, none, some, arith, codes, ℤ, negsuc, pos}
use libtvnet.Tvutils.Sample.{sample}
use libtvnet.Buffer.{Buffer, IsReadable, past_end, advance}
use libtvnet.Pickle.Decoder.{decode_token, decode_tagged, decode_number}
use libtvnet.Stdarg.Decoder.{int_slot, vdecode, store_token, store_signed}
use libtvnet.Log.Tests.{roomy}
use libtvnet.Log.Client.{header}
use libtvnet.Log.Files.{no_files}
use libtvnet.Log.Daemon.{iteration}
use libtvnet.Log.Malformed.{Reads, vdecode-Reads, iteration-malformed}

-- Two integers and a null, where the header has a third integer.
abbrev forged : ℕ → Buffer
forged o = record { data_bytes = 0 ∷ 1 ∷ 0x40 ∷ 0 ∷ []; offset = o; size = 3 }

forged-IsReadable : IsReadable (forged 0)
forged-IsReadable = record {
  bytes = omega arith;
  backed = omega arith;
  at_most_one_past = omega arith;
  addressable = omega arith;
}

vdecode-forged :
    vdecode 9 (forged 0) header
    ≡ some (forged 3, int_slot (pos 0) ∷ int_slot (pos 1) ∷ [], negsuc 0)
unfolding vdecode store_token store_signed decode_token decode_tagged decode_number past_end advance
vdecode-forged = refl

vdecode-Reads_example : Reads (forged 0) (vdecode 9 (forged 0) header)
vdecode-Reads_example = vdecode-Reads 9 (omega arith) (forged 0) forged-IsReadable refl

abbrev text_of : ℤ → List ℕ
text_of x = codes "D"

iteration-malformed_example :
    iteration text_of text_of text_of
      (λ fmt args. some fmt)
      roomy
      9
      100
      (some (codes "/l"))
      (λ s. some 3)
      no_files
      (some (forged 0))
    ≡ none
iteration-malformed_example =
    iteration-malformed 9 (omega arith) text_of text_of text_of (λ fmt args. some fmt) roomy 100
      (some (codes "/l")) (λ s. some 3) no_files (forged 0) (forged 3)
      (int_slot (pos 0) ∷ int_slot (pos 1) ∷ []) forged-IsReadable refl vdecode-forged
