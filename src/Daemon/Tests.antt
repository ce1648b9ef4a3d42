-- ===== src/Daemon/Tests.antt =====
-- tvlogd -l /tmp -f, and tvlogd -l /tmp -k
use libtvnet.Base.{
  ℕ, ◌≡◌, refl, List, [], ◌∷◌, Option, none, some, true, not, ◌||◌, ◌&&◌, codes, ℤ, pos,
}
use libtvnet.Daemon.{
  defaults, parse_options, read_options, apply_option, run_loop, main, start_daemon,
}
use libtvnet.Daemon.Laws.{described, failed, runs_loop, parse_options-described, main-runs_loop}

abbrev foreground_run : List (ℕ × Option (List ℕ))
foreground_run = (b'l', some (codes "/tmp")) ∷ (b'f', none) ∷ []

abbrev kill_run : List (ℕ × Option (List ℕ))
kill_run = (b'l', some (codes "/tmp")) ∷ (b'k', none) ∷ []

abbrev succeeds : Option (List ℕ) → ℤ
succeeds pidfile = pos 0

main_foreground :
    main succeeds succeeds foreground_run [] ≡ (run_loop (some (codes "/tmp")) ∷ [], 0)
unfolding main parse_options read_options apply_option defaults start_daemon
main_foreground = refl

-- The log directory is gone.
kill_logdir : (parse_options kill_run []).logdir ≡ none
unfolding parse_options read_options apply_option defaults
kill_logdir = refl

parse_options-described_example :
    parse_options kill_run (codes "x" ∷ []) ≡ record (described kill_run defaults) { usage = true }
parse_options-described_example = parse_options-described kill_run (codes "x" ∷ [])

main-runs_loop_example : runs_loop (main succeeds succeeds foreground_run []).0 ≡ (
    not (parse_options foreground_run []).usage
    && not (parse_options foreground_run []).kill
    && ((parse_options foreground_run []).foreground
        || not (failed (succeeds (parse_options foreground_run []).pidfile))))
main-runs_loop_example = main-runs_loop succeeds succeeds foreground_run []
