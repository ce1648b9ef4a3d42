-- ===== src/Log/Descriptors.antt =====
-- The file descriptors of the daemon over many messages.
use libtvnet.Base.{
  ℕ, zero, suc, ◌+◌, ◌≡◌, List, [], ◌∷◌, ◌++◌, Option, none, some, get_elem?, set, if◌then◌else◌,
  ◌==◌, arith, ℤ,
}
use mathlib.Core.Option.{some-injective}
use libtvnet.Tvutils.{Tvutils}
use libtvnet.Buffer.{Buffer}
use libtvnet.Stdarg.Args.{Arg}
use libtvnet.Print.Decoder.{VaFrame}
use libtvnet.Log.Files.{Files, Call, close, open_append, write, free_packet, close_old}
use libtvnet.Log.Runs.{open_logfile-Result, iterations, iterations-Result}

-- how often the descriptor `d` was opened, and closed, and how many files it is the descriptor of
abbrev pub opens : ℕ → List Call → ℕ
opens d [] = 0
opens d (close fd ∷ calls) = opens d calls
opens d (open_append filename fd ∷ calls) = if fd == d then suc (opens d calls) else opens d calls
opens d (write fd text ∷ calls) = opens d calls
opens d (free_packet ∷ calls) = opens d calls

abbrev pub closes : ℕ → List Call → ℕ
closes d [] = 0
closes d (close fd ∷ calls) = if fd == d then suc (closes d calls) else closes d calls
closes d (open_append filename fd ∷ calls) = closes d calls
closes d (write fd text ∷ calls) = closes d calls
closes d (free_packet ∷ calls) = closes d calls

abbrev pub holds : ℕ → List (Option ℕ) → ℕ
holds d [] = 0
holds d (none ∷ fds) = holds d fds
holds d (some fd ∷ fds) = if fd == d then suc (holds d fds) else holds d fds

opens-append : (d : ℕ) (xs ys : List Call) → opens d (xs ++ ys) ≡ opens d xs + opens d ys
opens-append d [] ys = omega arith
opens-append d (close fd ∷ xs) ys = opens-append d xs ys
opens-append d (open_append filename fd ∷ xs) ys = ground (arith, opens-append d xs ys)
opens-append d (write fd text ∷ xs) ys = opens-append d xs ys
opens-append d (free_packet ∷ xs) ys = opens-append d xs ys

closes-append : (d : ℕ) (xs ys : List Call) → closes d (xs ++ ys) ≡ closes d xs + closes d ys
closes-append d [] ys = omega arith
closes-append d (close fd ∷ xs) ys = ground (arith, closes-append d xs ys)
closes-append d (open_append filename fd ∷ xs) ys = closes-append d xs ys
closes-append d (write fd text ∷ xs) ys = closes-append d xs ys
closes-append d (free_packet ∷ xs) ys = closes-append d xs ys

first_replaced :
    (d : ℕ) (x : Option ℕ) (fds : List (Option ℕ)) (fd : ℕ) (filename : List ℕ)
    → opens d (close_old x ++ (open_append filename fd ∷ [])) + holds d (x ∷ fds)
      ≡ closes d (close_old x ++ (open_append filename fd ∷ [])) + holds d (some fd ∷ fds)
first_replaced d none fds fd filename = ground arith
first_replaced d (some x) fds fd filename = ground arith

-- One slot takes a new descriptor, and the old one is closed.
replaced :
    (d : ℕ) (fds : List (Option ℕ)) (i fd : ℕ) (filename : List ℕ) {old : Option ℕ}
    → get_elem? fds i ≡ some old
    → opens d (close_old old ++ (open_append filename fd ∷ [])) + holds d fds
      ≡ closes d (close_old old ++ (open_append filename fd ∷ [])) + holds d (set fds i (some fd))
replaced d [] i fd filename e = cc
replaced d (x ∷ fds) zero fd filename {old} e =
    rw (← some-injective x old e) (first_replaced d x fds fd filename)
replaced d (none ∷ fds) (suc i) fd filename e = replaced d fds i fd filename e
replaced d (some x ∷ fds) (suc i) fd filename e = ground (arith, replaced d fds i fd filename e)

-- Calls from `files` to `files'` that open as often as they close and hold on.
abbrev Balance : ℕ → Files → Files → List Call → Type 0
Balance d files files' calls =
    opens d calls + holds d files.fds ≡ closes d calls + holds d files'.fds

Balance-append :
    (d : ℕ) (files files' files'' : Files) (xs ys : List Call)
    → Balance d files files' xs
    → Balance d files' files'' ys
    → Balance d files files'' (xs ++ ys)
Balance-append d files files' files'' xs ys h k =
    omega (arith, opens-append d xs ys, closes-append d xs ys)

module _ (shortdate : ℤ → List ℕ) (maxpathlen : ℕ) (option_logdir : Option (List ℕ)) ⦃tv : Tvutils⦄
    (fmt_timestamp base85 : ℤ → List ℕ) (printf_text : List ℕ → List Arg → Option (List ℕ))
    (frame : VaFrame) (junk : ℕ) where
  -- Over any number of iterations that the daemon survives: how often each descriptor was opened, and
  -- how many of the four files had it before, is how often it was closed, and how many of them have it
  -- after. So the daemon loses no descriptor, and closes none that it does not have.
  pub iterations-Balance :
      (d : ℕ) (inputs : List (Option Buffer × (List ℕ → Option ℕ))) (before after : Files)
      (calls : List Call) (n : ℕ)
      → iterations shortdate maxpathlen option_logdir fmt_timestamp base85 printf_text frame junk
          inputs before
        ≡ some (after, calls, n)
      → opens d calls + holds d before.fds ≡ closes d calls + holds d after.fds
  iterations-Balance d inputs before after calls n e =
      let all =
        iterations-Result shortdate maxpathlen option_logdir fmt_timestamp base85 printf_text frame
          junk (λ f f' calls n. Balance d f f' calls) (λ f. omega arith)
          (λ a b c xs ys m n. Balance-append d a b c xs ys)
          (λ open_file files timestamp severity.
            open_logfile-Result shortdate maxpathlen option_logdir
              (λ files' calls fd.
                (text : List ℕ)
                → Balance d files files' (calls ++ (write fd text ∷ free_packet ∷ [])))
              open_file files timestamp severity (λ date i old e e2 text. omega arith)
              (λ i old filename fd e text.
                Balance-append d files (record files { fds = set files.fds i (some fd) })
                  (record files { fds = set files.fds i (some fd) })
                  (close_old old ++ (open_append filename fd ∷ []))
                  (write (some fd) text ∷ free_packet ∷ []) (replaced d files.fds i fd filename e)
                  (omega arith)))
          inputs before in
      rw e at all
