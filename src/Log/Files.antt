-- ===== src/Log/Files.antt =====
-- tvlogd/loop.c: the files that the daemon logs into.
use libtvnet.Base.{
  ℕ, ◌^◌, List, [], ◌∷◌, ◌++◌, Option, none, some, ◌>>=◌, codes, ℤ, to_unsigned, length, get_elem?,
  set, if◌then◌else◌, ◌==◌, ◌||◌, ltb, Bool, true, false,
}

-- `logfile_date` and `logfile_fd`, of four elements each; a date is `none` if it is NULL, and a
-- descriptor if it is -1.
pub record Files : Type 0 where
  pub dates : List (Option (List ℕ))
  pub fds : List (Option ℕ)

-- The fourth elements have no initializer.
unfoldable pub no_files : Files
no_files = record {
  dates = some [] ∷ some [] ∷ some [] ∷ none ∷ [];
  fds = none ∷ none ∷ none ∷ some 0 ∷ [];
}

-- The calls of the system, and the last ones of `iteration`.
pub data Call : Type 0 where
  close : (fd : ℕ) → Call
  open_append : (filename : List ℕ) (fd : ℕ) → Call
  write : (fd : Option ℕ) (text : List ℕ) → Call
  free_packet : Call

-- `strcmp` is 0
abbrev pub same_text : List ℕ → List ℕ → Bool
same_text [] [] = true
same_text [] (d ∷ t) = false
same_text (c ∷ s) [] = false
same_text (c ∷ s) (d ∷ t) = if c == d then same_text s t else false

-- The severity, converted to the 32 bits of `tvnl_severity_t`.
abbrev pub as_severity : ℤ → ℕ
as_severity severity = to_unsigned (2 ^ 32) severity

-- the `switch` of `open_logfile`
unfoldable pub file_type : ℤ → ℕ × List ℕ
file_type severity =
    let s = as_severity severity in
    if s == 0 || s == 1 || s == 2
    then (0, codes "error")
    else if s == 3
    then (1, codes "audit")
    else if s == 4 || s == 5
    then (2, codes "debug")
    else (4, codes "unknown")

abbrev pub close_old : Option ℕ → List Call
close_old none = []
close_old (some fd) = close fd ∷ []

-- `open_logfile`, with the calls that it makes and the descriptor that it returns; `none` is undefined
-- behaviour or `abort()`. `shortdate` is `tvu_fmt_shortdate`, `open_file` what `open` returns, `none`
-- if that is -1, and `maxpathlen` is MAXPATHLEN. A NULL for `option_logdir` is `none`.
module _ (shortdate : ℤ → List ℕ) (maxpathlen : ℕ) (option_logdir : Option (List ℕ)) where
  unfoldable pub logfile_filename : List ℕ → List ℕ → Option (List ℕ)
  logfile_filename file_type_s date_s = option_logdir >>= λ logdir.
      let filename =
        logdir ++ (codes "/" ++ (file_type_s ++ (codes "-" ++ (date_s ++ codes ".log")))) in
      if ltb (length filename) maxpathlen then some filename else none

  unfoldable pub open_logfile :
      (open_file : List ℕ → Option ℕ)
      → Files
      → (timestamp severity : ℤ) → Option (Files × List Call × Option ℕ)
  open_logfile open_file files timestamp severity =
      let date_s = shortdate timestamp in
      let (index, file_type_s) = file_type severity in
      get_elem? files.dates index >>= λ known. known >>= λ date.
      get_elem? files.fds index >>= λ old.
      if same_text date date_s
      then some (files, [], old)
      else (logfile_filename file_type_s date_s >>= λ filename. open_file filename >>= λ fd. some (
        record files { fds = set files.fds index (some fd) },
        close_old old ++ (open_append filename fd ∷ []),
        some fd,
      ))
