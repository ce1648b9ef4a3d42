-- ===== src/Log/Runs.antt =====
-- Many iterations of the daemon, by what `open_logfile` does in each.
use libtvnet.Base.{
  ℕ, suc, ◌+◌, ◌≡◌, refl, ap, ◌∙◌, List, [], ◌∷◌, ◌++◌, Option, none, some, ◌>>=◌, get_elem?, set,
  if◌then◌else◌, Bool, Bool-cases, inl, inr, true, false, arith, ℤ,
}
use libtvnet.Tvutils.{Tvutils}
use libtvnet.Buffer.{Buffer}
use libtvnet.Stdarg.Args.{Arg}
use libtvnet.Print.Decoder.{VaFrame}
use libtvnet.Log.Files.{
  Files, Call, open_append, write, free_packet, same_text, close_old, file_type, open_logfile,
  logfile_filename,
}
use libtvnet.Log.Daemon.{read_entry, message_of, written, logline, iteration}
use libtvnet.Log.Client.{header}
use libtvnet.Stdarg.Decoder.{vdecode}

-- `P` holds of the result, if there is one.
abbrev pub Result :
    {A : Type 0} → (Files → List Call → A → Type 0) → Option (Files × List Call × A) → Type 0
Result P none = Unit
Result P (some (files, calls, a)) = P files calls a

bind-Result :
    {A B : Type 0} (P : Files → List Call → B → Type 0) (m : Option A)
    (f : A → Option (Files × List Call × B))
    → ((a : A) → m ≡ some a → Result P (f a))
    → Result P (m >>= f)
bind-Result P none f h = tt
bind-Result P (some a) f h = h a refl

added : (logged : Bool) (n : ℕ) → (if logged then suc n else n) ≡ (if logged then 1 else 0) + n
added true n = omega arith
added false n = omega arith

module _ (shortdate : ℤ → List ℕ) (maxpathlen : ℕ) (option_logdir : Option (List ℕ)) where
  -- `open_logfile` leaves the files alone or opens one of them anew.
  pub open_logfile-Result :
      (P : Files → List Call → Option ℕ → Type 0) (open_file : List ℕ → Option ℕ) (files : Files)
      (timestamp severity : ℤ)
      → ((date : List ℕ) (i : ℕ) (old : Option ℕ)
          → get_elem? files.dates i ≡ some (some date)
          → same_text date (shortdate timestamp) ≡ true
          → P files [] old)
      → ((i : ℕ) (old : Option ℕ) (filename : List ℕ) (fd : ℕ)
          → get_elem? files.fds i ≡ some old
          → P
              (record files { fds = set files.fds i (some fd) })
              (close_old old ++ (open_append filename fd ∷ []))
              (some fd))
      → Result P
          (open_logfile shortdate maxpathlen option_logdir open_file files timestamp severity)
  unfolding open_logfile
  open_logfile-Result P open_file files timestamp severity same new =
      let index : ℕ = (file_type severity).0 in
      bind-Result P (get_elem? files.dates index) _ (λ known e0. bind-Result P known _ (λ date e1.
        let e : get_elem? files.dates index ≡ some (some date) = e0 ∙ ap some e1 in
        bind-Result P (get_elem? files.fds index) _ (λ old e2.
          elim (Bool-cases (same_text date (shortdate timestamp))) [
            | inl e3 ↦ rw e3 (same date index old e e3)
            | inr e3 ↦ rw e3 (
                bind-Result P
                  (logfile_filename shortdate maxpathlen option_logdir (file_type severity).1
                    (shortdate timestamp))
                  _
                  (λ filename _.
                    bind-Result P (open_file filename) _ (λ fd _. new index old filename fd e2)))
          ])))

  module _ ⦃tv : Tvutils⦄ (fmt_timestamp base85 : ℤ → List ℕ)
      (printf_text : List ℕ → List Arg → Option (List ℕ)) (frame : VaFrame) (junk : ℕ) where
    -- Iterations one after the other, each with what the ring and `open` give, and how many of them
    -- logged something.
    unfoldable pub iterations :
        List (Option Buffer × (List ℕ → Option ℕ)) → Files → Option (Files × List Call × ℕ)
    iterations [] files = some (files, [], 0)
    iterations ((packet, open_file) ∷ inputs) files =
        iteration fmt_timestamp base85 shortdate printf_text frame junk maxpathlen option_logdir
          open_file files packet
        >>= λ (files', calls, logged). iterations inputs files' >>= λ (files'', more, n).
            some (files'', calls ++ more, if logged then suc n else n)

    iteration-Result :
        (P : Files → List Call → Bool → Type 0) (open_file : List ℕ → Option ℕ) (files : Files)
        (packet : Option Buffer)
        → P files [] false
        → ((timestamp severity : ℤ)
            → Result
                (λ files' calls fd.
                  (text : List ℕ) → P files' (calls ++ (write fd text ∷ free_packet ∷ [])) true)
                (open_logfile shortdate maxpathlen option_logdir open_file files timestamp
                  severity))
        → Result P (
            iteration fmt_timestamp base85 shortdate printf_text frame junk maxpathlen option_logdir
              open_file files packet)
    unfolding iteration
    iteration-Result P open_file files none idle logs = idle
    iteration-Result P open_file files (some packet) idle logs =
        bind-Result P (vdecode junk packet header) _ (λ (buffer, slots, result) _.
          bind-Result P (read_entry buffer slots) _ (λ e _.
            bind-Result P
              (message_of fmt_timestamp base85 shortdate printf_text frame junk e buffer) _
              (λ (severity_s, message_s) _.
                bind-Result P
                  (open_logfile shortdate maxpathlen option_logdir open_file files e.timestamp
                    e.severity)
                  _
                  (λ (files', calls, fd) opened.
                    bind-Result P
                      (logline fmt_timestamp base85 shortdate printf_text frame junk e severity_s
                          message_s
                        >>= written)
                      _ (λ text _. (rw opened at (logs e.timestamp e.severity)) text)))))

    -- A relation between the files before and after, the calls, and the number of messages that were
    -- logged, from what `open_logfile` does.
    pub iterations-Result :
        (R : Files → Files → List Call → ℕ → Type 0)
        → ((files : Files) → R files files [] 0)
        → ((a b c : Files) (xs ys : List Call) (m n : ℕ)
            → R a b xs m
            → R b c ys n
            → R a c (xs ++ ys) (m + n))
        → ((open_file : List ℕ → Option ℕ) (files : Files) (timestamp severity : ℤ)
            → Result
                (λ files' calls fd.
                  (text : List ℕ) → R files files' (calls ++ (write fd text ∷ free_packet ∷ [])) 1)
                (open_logfile shortdate maxpathlen option_logdir open_file files timestamp
                  severity))
        → (inputs : List (Option Buffer × (List ℕ → Option ℕ))) (files : Files)
        → Result (λ files' calls n. R files files' calls n) (iterations inputs files)
    unfolding iterations
    iterations-Result R here trans logs [] files = here files
    iterations-Result R here trans logs ((packet, open_file) ∷ inputs) files =
        let one : Result (λ files' calls logged. R files files' calls (if logged then 1 else 0))
            (iteration fmt_timestamp base85 shortdate printf_text frame junk maxpathlen
              option_logdir open_file files packet) =
          iteration-Result (λ files' calls logged. R files files' calls (if logged then 1 else 0))
            open_file files packet (here files) (logs open_file files) in
        bind-Result (λ files' calls n. R files files' calls n)
          (iteration fmt_timestamp base85 shortdate printf_text frame junk maxpathlen option_logdir
            open_file files packet)
          _
          (λ (files', calls, logged) e.
            bind-Result (λ files' calls n. R files files' calls n) (iterations inputs files') _
              (λ (files'', more, n) e2. rw (added logged n) (
                trans files files' files'' calls more (if logged then 1 else 0) n (rw e at one)
                  (rw e2 at (iterations-Result R here trans logs inputs files')))))
