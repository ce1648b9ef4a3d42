-- ===== src/Daemon/Laws.antt =====
-- What the options say, whatever their order.
use libtvnet.Base.{
  ℕ, zero, ◌≡◌, refl, ap, ◌∙◌, List, [], ◌∷◌, Option, Bool, true, false, ◌||◌, ◌&&◌, not, or_assoc,
  or_false, if◌then◌else◌, ◌==◌, ℤ, negsuc, arith,
}
use libtvnet.Daemon.{
  Options, defaults, apply_option, read_options, parse_options, Effect, run_loop, start_daemon,
  kill_daemon, main,
}

-- Some result satisfies `f`.
abbrev pub any : (ℕ → Bool) → List (ℕ × Option (List ℕ)) → Bool
any f [] = false
any f ((c, optarg) ∷ results) = any f results || f c

-- The argument of the last result that satisfies `f`.
abbrev pub last_arg : (ℕ → Bool) → List (ℕ × Option (List ℕ)) → Option (List ℕ) → Option (List ℕ)
last_arg f [] start = start
last_arg f ((c, optarg) ∷ results) start = last_arg f results (if f c then optarg else start)

-- All but the letters that the daemon knows; 0 is a long option that sets its flag by itself.
abbrev pub asks_usage : ℕ → Bool
asks_usage c = not (c == b'v' || c == b'f' || c == b'k' || c == b'l' || c == b'p' || c == 0)

abbrev pub described : List (ℕ × Option (List ℕ)) → Options → Options
described results o = record {
  usage = any asks_usage results || o.usage;
  verbose = any (λ c. c == b'v') results || o.verbose;
  foreground = any (λ c. c == b'f') results || o.foreground;
  kill = any (λ c. c == b'k') results || o.kill;
  logdir = last_arg (λ c. c == b'k' || c == b'l') results o.logdir;
  pidfile = last_arg (λ c. c == b'p') results o.pidfile;
}

one_option :
    (c : ℕ) (optarg : Option (List ℕ)) (o : Options)
    → apply_option (c, optarg) o ≡ described ((c, optarg) ∷ []) o
unfolding apply_option
one_option c optarg o = ground arith

read_options-described :
    (results : List (ℕ × Option (List ℕ))) (o : Options)
    → read_options results o ≡ described results o
unfolding read_options
read_options-described [] o = refl
read_options-described ((c, optarg) ∷ results) o =
    read_options-described results (apply_option (c, optarg) o)
    ∙ ap (described results) (one_option c optarg o)
    ∙ λ i. record {
      usage = or_assoc (any asks_usage results) (asks_usage c) o.usage i;
      verbose = or_assoc (any (λ c. c == b'v') results) (c == b'v') o.verbose i;
      foreground = or_assoc (any (λ c. c == b'f') results) (c == b'f') o.foreground i;
      kill = or_assoc (any (λ c. c == b'k') results) (c == b'k') o.kill i;
      logdir =
          last_arg (λ c. c == b'k' || c == b'l') results
            (if c == b'k' || c == b'l' then optarg else o.logdir);
      pidfile = last_arg (λ c. c == b'p') results (if c == b'p' then optarg else o.pidfile);
    }

-- Whatever the order of the options: usage is shown exactly if a result of `getopt_long` is not one of
-- the letters v, f, k, l and p or 0, or if arguments are left; each flag is set exactly if its letter
-- occurs; the pid file is the argument of the last 'p', or the default, and the log directory that of
-- the last of 'l' and 'k' (which has none), or the default.
pub parse_options-described :
    (results : List (ℕ × Option (List ℕ))) (rest : List (List ℕ))
    → parse_options results rest ≡ record (described results defaults) {
      usage = elim rest [ [] ↦ any asks_usage results | _ ∷ _ ↦ true ];
    }
unfolding parse_options defaults
parse_options-described results [] = read_options-described results defaults ∙ rw or_false refl
parse_options-described results (x ∷ rest) =
    ap (λ (o : Options). record o { usage = true }) (read_options-described results defaults)

-- Does the log loop run?
abbrev pub runs_loop : List Effect → Bool
runs_loop [] = false
runs_loop (run_loop logdir ∷ effects) = true
runs_loop (_ ∷ effects) = runs_loop effects

abbrev pub failed : ℤ → Bool
failed (negsuc zero) = true
failed _ = false

-- `main` runs the log loop exactly if no usage is asked for, no process is to be killed, and the
-- daemon stays in the foreground or detaches without an error.
pub main-runs_loop :
    (daemon_kill daemon : Option (List ℕ) → ℤ) (results : List (ℕ × Option (List ℕ)))
    (rest : List (List ℕ))
    → let o = parse_options results rest in
      runs_loop (main daemon_kill daemon results rest).0
      ≡ (not o.usage && not o.kill && (o.foreground || not (failed (daemon o.pidfile))))
unfolding main start_daemon kill_daemon
main-runs_loop daemon_kill daemon results rest = ground arith
