-- ===== src/Log/Reopening.antt =====
-- How often the daemon opens its files.
use libtvnet.Base.{
  ℕ, suc, ◌+◌, ◌<◌, ◌≡◌, refl, List, [], ◌∷◌, ◌++◌, Option, none, some, true, arith, ℤ, length, All,
  All-get_elem?,
}
use libtvnet.Tvutils.{Tvutils}
use libtvnet.Buffer.{Buffer}
use libtvnet.Stdarg.Args.{Arg}
use libtvnet.Print.Decoder.{VaFrame}
use libtvnet.Log.Files.{
  Files, no_files, Call, close, open_append, write, free_packet, same_text, close_old, open_logfile,
}
use libtvnet.Log.Runs.{Result, open_logfile-Result, iterations, iterations-Result}

abbrev pub nr_opens : List Call → ℕ
nr_opens [] = 0
nr_opens (open_append filename fd ∷ calls) = suc (nr_opens calls)
nr_opens (close fd ∷ calls) = nr_opens calls
nr_opens (write fd text ∷ calls) = nr_opens calls
nr_opens (free_packet ∷ calls) = nr_opens calls

nr_opens-append : (xs ys : List Call) → nr_opens (xs ++ ys) ≡ nr_opens xs + nr_opens ys
nr_opens-append [] ys = omega arith
nr_opens-append (open_append filename fd ∷ xs) ys = omega (arith, nr_opens-append xs ys)
nr_opens-append (close fd ∷ xs) ys = nr_opens-append xs ys
nr_opens-append (write fd text ∷ xs) ys = nr_opens-append xs ys
nr_opens-append (free_packet ∷ xs) ys = nr_opens-append xs ys

nr_opens-close_old :
    (old : Option ℕ) (calls : List Call) → nr_opens (close_old old ++ calls) ≡ nr_opens calls
nr_opens-close_old none calls = refl
nr_opens-close_old (some fd) calls = refl

abbrev IsUnset : Option (List ℕ) → Type 0
IsUnset none = Unit
IsUnset (some date) = date ≡ []

abbrev NoDates : Files → Type 0
NoDates files = All IsUnset files.dates

-- Without a date before there is none after, and every message opens a file.
abbrev Reopens : Files → Files → List Call → ℕ → Type 0
Reopens files files' calls n = NoDates files → NoDates files' × (nr_opens calls ≡ n)

not_the_date : (date s : List ℕ) → date ≡ [] → 0 < length s → same_text date s ≡ true → ⊥
not_the_date [] [] e h same = omega arith
not_the_date [] (c ∷ s) e h same = cc
not_the_date (d ∷ date) s e h same = cc

module _ (shortdate : ℤ → List ℕ) (maxpathlen : ℕ) (option_logdir : Option (List ℕ)) ⦃tv : Tvutils⦄
    (fmt_timestamp base85 : ℤ → List ℕ) (printf_text : List ℕ → List Arg → Option (List ℕ))
    (frame : VaFrame) (junk : ℕ) where
  Reopens-append :
      (a b c : Files) (xs ys : List Call) (m n : ℕ)
      → Reopens a b xs m
      → Reopens b c ys n
      → Reopens a c (xs ++ ys) (m + n)
  Reopens-append a b c xs ys m n h k undated =
      let (no_b, e) = h undated in
      let (no_c, e2) = k no_b in (no_c, omega (arith, nr_opens-append xs ys))

  open_logfile-Reopens :
      ((timestamp : ℤ) → 0 < length (shortdate timestamp))
      → (open_file : List ℕ → Option ℕ) (files : Files) (timestamp severity : ℤ)
      → Result
          (λ files' calls fd.
            (text : List ℕ) → Reopens files files' (calls ++ (write fd text ∷ free_packet ∷ [])) 1)
          (open_logfile shortdate maxpathlen option_logdir open_file files timestamp severity)
  open_logfile-Reopens dated open_file files timestamp severity =
      open_logfile-Result shortdate maxpathlen option_logdir
        (λ files' calls fd.
          (text : List ℕ) → Reopens files files' (calls ++ (write fd text ∷ free_packet ∷ [])) 1)
        open_file files timestamp severity
        (λ date i old e same text undated. absurd (
          not_the_date date (shortdate timestamp) (All-get_elem? IsUnset files.dates i undated e)
            (dated timestamp) same))
        (λ i old filename fd e text undated. (undated, reopened old filename fd text))
    where
      reopened :
          (old : Option ℕ) (filename : List ℕ) (fd : ℕ) (text : List ℕ)
          → nr_opens (
              (close_old old ++ (open_append filename fd ∷ []))
              ++ (write (some fd) text ∷ free_packet ∷ []))
            ≡ 1
      reopened none filename fd text = refl
      reopened (some x) filename fd text = refl

  -- Over any number of iterations that the daemon survives, from its start: it calls `open` for each
  -- message that it logs, since `logfile_date` stays empty and a short date is not.
  pub iterations-reopen :
      (inputs : List (Option Buffer × (List ℕ → Option ℕ))) (files : Files) (calls : List Call)
      (n : ℕ)
      → ((timestamp : ℤ) → 0 < length (shortdate timestamp))
      → iterations shortdate maxpathlen option_logdir fmt_timestamp base85 printf_text frame junk
          inputs no_files
        ≡ some (files, calls, n)
      → nr_opens calls ≡ n
  unfolding no_files
  iterations-reopen inputs files calls n dated e =
      let all =
        iterations-Result shortdate maxpathlen option_logdir fmt_timestamp base85 printf_text frame
          junk Reopens (λ files undated. (undated, refl)) Reopens-append
          (open_logfile-Reopens dated) inputs no_files in
      let reopens : Reopens no_files files calls n = rw e at all in
      (reopens (refl, (refl, (refl, (tt, tt))))).1
