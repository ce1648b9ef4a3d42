-- ===== src/Daemon.antt =====
-- tvlogd/main.c: the options of the log daemon, and what `main` does with them.
pub mod Laws
mod Tests
use libtvnet.Base.{
  ℕ, zero, List, [], ◌∷◌, ◌++◌, Option, none, some, Bool, true, false, if◌then◌else◌, ◌==◌, codes,
  ℤ, pos, negsuc, ltb_ℤ,
}

-- The global variables; a string is `none` if the pointer is NULL.
pub record Options : Type 0 where
  pub usage : Bool
  pub verbose : Bool
  pub foreground : Bool
  pub kill : Bool
  pub logdir : Option (List ℕ)
  pub pidfile : Option (List ℕ)

unfoldable pub defaults : Options
defaults = record {
  usage = false;
  verbose = false;
  foreground = false;
  kill = false;
  logdir = some (codes "/var/log/tvlog");
  pidfile = some (codes "/var/run/tvlogd.pid");
}

-- The `switch` on a result of `getopt_long`, with its `optarg`: the case 'k' has no `break`.
unfoldable pub apply_option : ℕ × Option (List ℕ) → Options → Options
apply_option (c, optarg) o =
    if c == b'h'
    then record o { usage = true }
    else if c == b'v'
    then record o { verbose = true }
    else if c == b'f'
    then record o { foreground = true }
    else if c == b'k'
    then record o { kill = true; logdir = optarg }
    else if c == b'l'
    then record o { logdir = optarg }
    else if c == b'p'
    then record o { pidfile = optarg }
    else if c == b':'
    then record o { usage = true }
    else if c == b'?'
    then record o { usage = true }
    else if c == 0
    then o
    else record o { usage = true }

-- The loop, over the results of `getopt_long` before the -1.
unfoldable pub read_options : List (ℕ × Option (List ℕ)) → Options → Options
read_options [] o = o
read_options (x ∷ results) o = read_options results (apply_option x o)

-- `parse_options`; `rest` are the arguments behind `optind`.
unfoldable pub parse_options : List (ℕ × Option (List ℕ)) → List (List ℕ) → Options
parse_options results rest = elim rest [
  | [] ↦ read_options results defaults
  | _ ∷ _ ↦ record (read_options results defaults) { usage = true }
]

-- What `main` does, in order.
pub data Effect : Type 0 where
  print_usage : Effect
  kill_process : (pidfile : Option (List ℕ)) → Effect
  report : (killed : Bool) → Effect
  daemonize : (pidfile : Option (List ℕ)) → Effect
  run_loop : (logdir : Option (List ℕ)) → Effect

-- `tvu_daemon_kill` and `tvu_daemon` of tvutils are parameters. The second result is that of `main`.
module _ (daemon_kill daemon : Option (List ℕ) → ℤ) where
  unfoldable pub start_daemon : Options → List Effect × ℕ
  start_daemon o = if o.foreground then (run_loop o.logdir ∷ [], 0) else elim (daemon o.pidfile) [
    | negsuc zero ↦ (daemonize o.pidfile ∷ [], 2)
    | _ ↦ (daemonize o.pidfile ∷ run_loop o.logdir ∷ [], 0)
  ]

  unfoldable pub kill_daemon : Options → List Effect × ℕ
  kill_daemon o = elim (daemon_kill o.pidfile) [
    | negsuc zero ↦ (kill_process o.pidfile ∷ [], 1)
    | old_pid ↦ (kill_process o.pidfile ∷ report (ltb_ℤ (pos 0) old_pid) ∷ [], 0)
  ]

  unfoldable pub main : List (ℕ × Option (List ℕ)) → List (List ℕ) → List Effect × ℕ
  unfolding start_daemon kill_daemon
  main results rest =
      let o = parse_options results rest in
      if o.usage then (print_usage ∷ [], 0) else if o.kill then kill_daemon o else start_daemon o
