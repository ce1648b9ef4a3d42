-- ===== src/Print/Encoder.antt =====
-- tvnet/pickle_print.c, from a printf call to a message. `none` is undefined behaviour or `abort()`.
use libtvnet.Base.{ℕ, ◌+◌, ◌-◌, ◌%◌, ◌^◌, List, Option, none, some, ◌>>=◌}
use libtvnet.Tvutils.{Tvutils}
use libtvnet.Buffer.{Buffer}
use libtvnet.Pickle.Length.{length_utf8_string}
use libtvnet.Pickle.Encoder.{encode_utf8_string}
use libtvnet.Stdarg.Args.{Arg}
use libtvnet.Stdarg.Encoder.{strlen, vlength, vencode}
use libtvnet.Fmt.{fmt_parse}

-- a `ssize_t` as a `size_t`; `none` is -1
abbrev pub as_size : Option ℕ → ℕ
as_size none = 2 ^ 64 - 1
as_size (some n) = n

module _ ⦃tv : Tvutils⦄ where
  unfoldable pub vpprintf_len : List ℕ → List ℕ → List Arg → Option ℕ
  vpprintf_len types fmt ap =
      vlength types ap >>= λ n. some ((length_utf8_string (strlen fmt) + as_size n) % 2 ^ 64)

  -- The result of `tvnp_vencode` is dropped.
  unfoldable pub vpprintf : Buffer → List ℕ → List ℕ → List Arg → Option Buffer
  vpprintf b types fmt ap =
      encode_utf8_string fmt b >>= λ b'. vencode b' types ap >>= λ (b'', result). some b''

  -- `tvu_buffer_alloc` of tvutils is a parameter. The array `types` is long enough (the module
  -- Fmt.Count), and the result of `tvnp_fmt_parse` is never -1.
  unfoldable pub vapprintf : (ℕ → Buffer) → List ℕ → List Arg → Option Buffer
  vapprintf buffer_alloc fmt ap = fmt_parse fmt >>= λ types.
      vpprintf_len types fmt ap >>= λ n. vpprintf (buffer_alloc n) types fmt ap
