-- ===== src/Log/Loop.antt =====
-- tvlogd/loop.c: the loop of the daemon and its signal handlers. `none` is undefined behaviour or
-- `abort()`.
use libtvnet.Base.{
  ℕ, List, [], ◌∷◌, ◌++◌, Option, some, ◌>>=◌, codes, ℤ, if◌then◌else◌, ltb, Bool, true, false,
}
use libtvnet.Tvutils.{Tvutils}
use libtvnet.Buffer.{Buffer}
use libtvnet.Stdarg.Args.{Arg}
use libtvnet.Print.Decoder.{VaFrame}
use libtvnet.Log.Files.{Files, no_files, Call}
use libtvnet.Log.Daemon.{iteration}

-- The messages that the daemon logs itself, with TVNL_INFO.
pub data Notice : Type 0 where
  service_started service_terminated hour_mark usr1_mark usr2_mark hup_mark unknown_mark : Notice

unfoldable pub notice_text : Notice → List ℕ
notice_text service_started = codes "Logging service has started."
notice_text service_terminated = codes "Logging service has terminated."
notice_text hour_mark = codes "--- HOUR MARK ---"
notice_text usr1_mark = codes "--- USR1 MARK ---"
notice_text usr2_mark = codes "--- USR2 MARK ---"
notice_text hup_mark = codes "--- HUP MARK ---"
notice_text unknown_mark = codes "--- UNKNOWN MARK ---"

pub data Effect : Type 0 where
  call : (c : Call) → Effect
  info : (notice : Notice) → Effect
  usleep : (microseconds : ℕ) → Effect

pub data Signal : Type 0 where
  sigint sigterm sighup sigusr1 sigusr2 : Signal

-- The global variables and those of `loop`; hours since the epoch are natural numbers.
pub record LoopState : Type 0 where
  pub running : Bool
  pub opening_mark_send : Bool
  pub last_hour_mark : ℕ
  pub files : Files

unfoldable pub start : (hour : ℕ) → LoopState
start hour = record {
  running = true;
  opening_mark_send = false;
  last_hour_mark = hour;
  files = no_files;
}

-- `kill_handler` and `user_handler`, as `loop` installs them
unfoldable pub handle : Signal → LoopState → LoopState × List Effect
handle sigint s = (record s { running = false }, info service_terminated ∷ [])
handle sigterm s = (record s { running = false }, info service_terminated ∷ [])
handle sighup s = (s, info hup_mark ∷ [])
handle sigusr1 s = (s, info usr1_mark ∷ [])
handle sigusr2 s = (s, info usr2_mark ∷ [])

unfoldable pub handle_all : List Signal → LoopState → LoopState × List Effect
handle_all [] s = (s, [])
handle_all (signal ∷ signals) s =
    let (s', effects) = handle signal s in
    let (s'', more) = handle_all signals s' in (s'', effects ++ more)

-- What a round of the loop gets: a packet of the ring, what `open` returns, the hour of the clock, and
-- the signals that arrive before the next round.
pub record Round : Type 0 where
  pub packet : Option Buffer
  pub open_file : List ℕ → Option ℕ
  pub now : ℕ
  pub signals : List Signal

-- The body under `!iteration()`.
unfoldable pub idle : (now : ℕ) → LoopState → LoopState × List Effect
idle now s = (
  record s {
    opening_mark_send = true;
    last_hour_mark = if ltb s.last_hour_mark now then now else s.last_hour_mark;
  },
  (if s.opening_mark_send then [] else info service_started ∷ [])
      ++ ((if ltb s.last_hour_mark now then info hour_mark ∷ [] else []) ++ (usleep 10000 ∷ [])),
)

abbrev pub calls_of : List Call → List Effect
calls_of [] = []
calls_of (c ∷ calls) = call c ∷ calls_of calls

module _ ⦃tv : Tvutils⦄ (fmt_timestamp base85 shortdate : ℤ → List ℕ)
    (printf_text : List ℕ → List Arg → Option (List ℕ)) (frame : VaFrame) (junk maxpathlen : ℕ)
    (option_logdir : Option (List ℕ)) where
  unfoldable pub loop_round : Round → LoopState → Option (LoopState × List Effect)
  loop_round r s =
      iteration fmt_timestamp base85 shortdate printf_text frame junk maxpathlen option_logdir
        r.open_file s.files r.packet
      >>= λ (files', calls, logged).
          let (s', effects) =
            if logged
            then (record s { files = files' }, [])
            else idle r.now (record s { files = files' }) in
          let (s'', more) = handle_all r.signals s' in
          some (s'', calls_of calls ++ (effects ++ more))

  -- `loop`, over the rounds that it is observed for.
  unfoldable pub loop : List Round → LoopState → Option (LoopState × List Effect)
  loop [] s = some (s, [])
  loop (r ∷ rounds) s =
      if s.running
      then (loop_round r s >>= λ (s', effects).
          loop rounds s' >>= λ (s'', more). some (s'', effects ++ more))
      else some (s, [])
