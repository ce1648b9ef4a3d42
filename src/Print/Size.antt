-- ===== src/Print/Size.antt =====
-- The buffer that `tvnp_vapprintf` allocates is as long as the message.
use native.Mathlib.Nat.{mod-eq_of_lt}
use libtvnet.Base.{ℕ, ◌+◌, ◌%◌, ◌^◌, ◌<◌, ◌≡◌, refl, List, ◌++◌, some, length, length-append, arith}
use libtvnet.Tvutils.{Tvutils}
use libtvnet.Buffer.{Buffer}
use libtvnet.Pickle.Bytes.{utf8_bytes}
use libtvnet.Pickle.Encoding.{length-utf8_bytes}
use libtvnet.Stdarg.Args.{Arg}
use libtvnet.Stdarg.Spec.{Typed, args_bytes}
use libtvnet.Stdarg.Size.{vlength-length, length-utf8_le, length-args_le}
use libtvnet.Print.Encoder.{vpprintf_len}

-- What the code relies on of `tvu_buffer_alloc`: memory of the given size, used from its start.
pub record Allocates (buffer_alloc : ℕ → Buffer) : Type 0 where
  pub memory : (n : ℕ) → length (buffer_alloc n).data_bytes ≡ n
  pub start : (n : ℕ) → (buffer_alloc n).offset ≡ 0
  pub whole : (n : ℕ) → (buffer_alloc n).size ≡ n

module _ ⦃tv : Tvutils⦄ where
  pub vpprintf_len-length :
      (types fmt : List ℕ) (args : List Arg)
      → length fmt < 2 ^ 32
      → length types < 2 ^ 31
      → Typed types args
      → vpprintf_len types fmt args ≡ some (length (utf8_bytes fmt ++ args_bytes types args))
  unfolding vpprintf_len
  vpprintf_len-length types fmt args small few h =
      let word : length fmt < 2 ^ 64 = omega arith in
      let n : ℕ = length (utf8_bytes fmt) in
      let m : ℕ = length (args_bytes types args) in
      let sum : (n + m) % 2 ^ 64 ≡ n + m =
        omega (arith, length-utf8_le fmt small, length-args_le types args h) in
      rw (vlength-length types args h few, mod-eq_of_lt word, ← length-utf8_bytes fmt small)
        (rw (sum, length-append (utf8_bytes fmt) (args_bytes types args)) refl)
