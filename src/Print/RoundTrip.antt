-- ===== src/Print/RoundTrip.antt =====
-- A printf call that went through a message reaches `vprintf` with its format and its arguments.

use mathlib.Core.Option.{some-injective}
use libtvnet.Base.{
  IsText, ℕ, ◌+◌, ◌^◌, ◌≤◌, ◌<◌, ◌≡◌, refl, ap, List, [], ◌∷◌, ◌++◌, Option, none, some, ◌>>=◌,
  >>=_some, >>=_cong, false, length, length-append, arith, All, ltb,
}
use libtvnet.Base.{ℤ, pos}
use libtvnet.Tvutils.{Tvutils}
use libtvnet.Buffer.{Buffer, put}
use libtvnet.Buffer.Laws.{put-append}
use libtvnet.Pickle.Length.{length_compound}
use libtvnet.Pickle.Bytes.{compound_bytes, utf8_bytes}
use libtvnet.Pickle.At.{At, behind, behind-behind, At-prefix, At-suffix}
use libtvnet.Pickle.Encoding.{encode_utf8_string-put, length-compound_bytes}
use libtvnet.Pickle.RoundTrip.Compound.{decode_utf8-At}
use libtvnet.Stdarg.Args.{Arg}
use libtvnet.Stdarg.Spec.{Typed, args_bytes}
use libtvnet.Stdarg.Size.{vencode-put}
use libtvnet.Fmt.{fmt_parse}
use libtvnet.Print.Encoder.{vpprintf}
use libtvnet.Print.Decoder.{VaFrame, c_string, pickle_to_va, print_with}
use libtvnet.Print.Arguments.{
  ArgIsText, AllFit, c_string-At, all_received, set_args, va_values-At, to_va_loop-At,
}

first_buffer :
    (m : Option (Buffer × ℤ)) {b : Buffer}
    → ◌>>=◌ {B = Buffer} m (λ r. some r.0) ≡ some b
    → (result : ℤ) × (m ≡ some (b, result))
first_buffer none e = cc
first_buffer (some (b', i)) e = (i, ap (λ b. some (b, i)) (some-injective _ _ e))

drop_result :
    (m : Option Buffer) (result : ℤ)
    → (◌>>=◌ {B = Buffer × ℤ} m (λ b. some (b, result)) >>= λ r. some r.0) ≡ m
drop_result none result = refl
drop_result (some b) result = refl

module _ ⦃tv : Tvutils⦄ where
  abbrev pub message_bytes : List ℕ → List ℕ → List Arg → List ℕ
  message_bytes types fmt args = utf8_bytes fmt ++ args_bytes types args

  -- A message is its format and its arguments.
  pub vpprintf-put :
      (types fmt : List ℕ) (args : List Arg) (b : Buffer)
      → length fmt < 2 ^ 32
      → Typed types args
      → vpprintf b types fmt args ≡ put (message_bytes types fmt args) b
  unfolding vpprintf
  vpprintf-put types fmt args b small h =
      rw (encode_utf8_string-put fmt b small, put-append (utf8_bytes fmt) (args_bytes types args) b)
        (>>=_cong (put (utf8_bytes fmt) b) _ _ (λ b'.
          rw (vencode-put types args b' h) (drop_result (put (args_bytes types args) b') (pos 0))))

  -- `m` is the buffer when the format is read, later.
  format-At :
      (fmt : List ℕ) {b : Buffer} (m : Buffer)
      → m.data_bytes ≡ b.data_bytes
      → IsText fmt
      → At b (utf8_bytes fmt)
      → c_string m (b.offset + length (compound_bytes 0x80 (length fmt))) ≡ some fmt
  unfolding utf8_bytes c_string
  format-At fmt {b} m same t at =
      rw same
        (c_string-At fmt t (At-suffix (compound_bytes 0x80 (length fmt)) (fmt ++ (0 ∷ [])) at))

  -- The frame has room for the types of the format and their nul, and for the arguments.
  abbrev pub HasRoom : VaFrame → (types fmt : List ℕ) → Type 0
  HasRoom frame types fmt =
      (length types + 1 ≤ frame.array_room (tv.count_character fmt b'%'))
      × AllFit frame.va_fits [] types

  pickle_to_va-At :
      (frame : VaFrame) (junk : ℕ) (types fmt : List ℕ) (args : List Arg) (b : Buffer)
      → fmt_parse fmt ≡ some types
      → IsText fmt
      → length fmt < 2 ^ 32
      → HasRoom frame types fmt
      → Typed types args
      → At b (message_bytes types fmt args)
      → pickle_to_va frame junk b
        ≡ some (
          behind (length (message_bytes types fmt args)) b,
          some (
            b.offset + length_compound (length fmt),
            set_args (b.offset + length (utf8_bytes fmt)) types args,
          ),
        )
  unfolding pickle_to_va
  pickle_to_va-At frame junk types fmt args b parsed t small (fits, fit) h at =
      let header : List ℕ = compound_bytes 0x80 (length fmt) in
      let whole : List ℕ = utf8_bytes fmt in
      let rest : List ℕ = args_bytes types args in
      let room : ltb (frame.array_room (tv.count_character fmt b'%')) (length types + 1) ≡ false =
        ground arith in
      >>=_some _ _ _ _ (decode_utf8-At junk fmt small (At-prefix whole rest at)) (
        >>=_some _ _ _ _ (format-At fmt _ refl t (At-prefix whole rest at)) (
          >>=_some (fmt_parse fmt) _ types _ parsed (
            rw room (
              >>=_some _ _ _ _
                (to_va_loop-At frame.va_fits [] junk types args h fit (At-suffix whole rest at))
                (rw
                  (
                    behind-behind (length whole) (length rest) b,
                    length-append whole rest,
                    length-compound_bytes 0x80 (length fmt),
                  )
                  refl)))))

  pub print_with-At :
      {R : Type 0} (failed : R) (vprintf : List ℕ → List Arg → Option R) (frame : VaFrame)
      (junk : ℕ) (types fmt : List ℕ) (args : List Arg) (b : Buffer)
      → fmt_parse fmt ≡ some types
      → IsText fmt
      → length fmt < 2 ^ 32
      → HasRoom frame types fmt
      → Typed types args
      → All ArgIsText args
      → At b (message_bytes types fmt args)
      → print_with failed vprintf frame junk b ≡ (
          vprintf fmt (all_received types args) >>= λ r.
          some (behind (length (message_bytes types fmt args)) b, r))
  unfolding print_with
  print_with-At failed vprintf frame junk types fmt args b parsed t small fits h ts at =
      let whole : List ℕ = utf8_bytes fmt in
      let rest : List ℕ = args_bytes types args in
      >>=_some _ _ _ _ (pickle_to_va-At frame junk types fmt args b parsed t small fits h at) (
        >>=_some _ _ _ _
          (rw (length-compound_bytes 0x80 (length fmt)) at (
            format-At fmt (behind (length (message_bytes types fmt args)) b) refl t
              (At-prefix whole rest at)))
          (>>=_some _ _ _ _ (va_values-At types args _ refl h ts (At-suffix whole rest at)) refl))
