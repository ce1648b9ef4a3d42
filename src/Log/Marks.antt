-- ===== src/Log/Marks.antt =====
-- The messages that the daemon logs itself.
use libtvnet.Base.{
  ℕ, ◌+◌, ◌≤◌, ◌≡◌, refl, List, [], ◌∷◌, ◌++◌, Option, none, some, ◌>>=◌, if◌then◌else◌, Bool,
  if_intro, true, false, arith, ltb, ℤ, All,
}
use libtvnet.Tvutils.{Tvutils}
use libtvnet.Stdarg.Args.{Arg}
use libtvnet.Print.Decoder.{VaFrame}
use libtvnet.Log.Files.{Files, Call}
use libtvnet.Log.Daemon.{iteration}
use libtvnet.Log.Loop.{
  Notice, service_started, hour_mark, Effect, call, info, usleep, Signal, sigint, sigterm, sighup,
  sigusr1, sigusr2, LoopState, start, handle, handle_all, Round, idle, calls_of, loop_round, loop,
}

abbrev weight : (Notice → ℕ) → Effect → ℕ
weight w (call c) = 0
weight w (info notice) = w notice
weight w (usleep n) = 0

abbrev total : (Notice → ℕ) → List Effect → ℕ
total w [] = 0
total w (e ∷ effects) = weight w e + total w effects

abbrev is_start : Notice → ℕ
is_start service_started = 1
is_start _ = 0

abbrev is_hour : Notice → ℕ
is_hour hour_mark = 1
is_hour _ = 0

-- how often the daemon says that it started, and how many hour marks it logs
abbrev pub nr_starts : List Effect → ℕ
nr_starts effects = total is_start effects

abbrev pub nr_hour_marks : List Effect → ℕ
nr_hour_marks effects = total is_hour effects

total-append : (w : Notice → ℕ) (xs ys : List Effect) → total w (xs ++ ys) ≡ total w xs + total w ys
total-append w [] ys = omega arith
total-append w (x ∷ xs) ys = omega (arith, total-append w xs ys)

total-calls_of : (w : Notice → ℕ) (calls : List Call) → total w (calls_of calls) ≡ 0
total-calls_of w [] = refl
total-calls_of w (c ∷ calls) = omega (arith, total-calls_of w calls)

abbrev count : Bool → ℕ
count true = 1
count false = 0

count-le : {n : ℕ} (sent : Bool) → n ≡ count sent → n ≤ 1
count-le true e = omega arith
count-le false e = omega arith

-- From one state to a later one, where the clock does not go behind `limit`.
pub record Marked (limit : ℕ) (s s' : LoopState) (effects : List Effect) : Type 0 where
  pub starts : nr_starts effects + count s.opening_mark_send ≡ count s'.opening_mark_send
  pub hours : s.last_hour_mark + nr_hour_marks effects ≤ s'.last_hour_mark
  pub past : s.last_hour_mark ≤ limit → s'.last_hour_mark ≤ limit

Marked-append :
    (limit : ℕ) (s s' s'' : LoopState) (xs ys : List Effect)
    → Marked limit s s' xs
    → Marked limit s' s'' ys
    → Marked limit s s'' (xs ++ ys)
Marked-append limit s s' s'' xs ys h k = record {
  starts = omega (arith, h.starts, k.starts, total-append is_start xs ys);
  hours = omega (arith, h.hours, k.hours, total-append is_hour xs ys);
  past = λ p. k.past (h.past p);
}

Marked-quiet :
    (limit : ℕ) (s : LoopState) (files : Files) (calls : List Call)
    → Marked limit s (record s { files = files }) (calls_of calls)
Marked-quiet limit s files calls = record {
  starts = omega (arith, total-calls_of is_start calls);
  hours = omega (arith, total-calls_of is_hour calls);
  past = λ p. p;
}

idle_starts :
    (sent later : Bool)
    → nr_starts (
          (if sent then [] else info service_started ∷ [])
          ++ ((if later then info hour_mark ∷ [] else []) ++ (usleep 10000 ∷ [])))
        + count sent
      ≡ 1
idle_starts true true = refl
idle_starts true false = refl
idle_starts false true = refl
idle_starts false false = refl

idle_hours :
    (sent : Bool) (last now : ℕ)
    → last
        + nr_hour_marks (
            (if sent then [] else info service_started ∷ [])
            ++ ((if ltb last now then info hour_mark ∷ [] else []) ++ (usleep 10000 ∷ [])))
      ≤ (if ltb last now then now else last)
idle_hours true last now = ground arith
idle_hours false last now = ground arith

idle-Marked :
    (limit now : ℕ) (s : LoopState) → now ≤ limit → Marked limit s (idle now s).0 (idle now s).1
unfolding idle
idle-Marked limit now s small = record {
  starts = idle_starts s.opening_mark_send (ltb s.last_hour_mark now);
  hours = idle_hours s.opening_mark_send s.last_hour_mark now;
  past = λ p. ground arith;
}

handle-Marked :
    (limit : ℕ) (signal : Signal) (s : LoopState)
    → Marked limit s (handle signal s).0 (handle signal s).1
unfolding handle
handle-Marked limit sigint s = record { starts = omega arith; hours = omega arith; past = λ p. p }
handle-Marked limit sigterm s = record { starts = omega arith; hours = omega arith; past = λ p. p }
handle-Marked limit sighup s = record { starts = omega arith; hours = omega arith; past = λ p. p }
handle-Marked limit sigusr1 s = record { starts = omega arith; hours = omega arith; past = λ p. p }
handle-Marked limit sigusr2 s = record { starts = omega arith; hours = omega arith; past = λ p. p }

handle_all-Marked :
    (limit : ℕ) (signals : List Signal) (s : LoopState)
    → Marked limit s (handle_all signals s).0 (handle_all signals s).1
unfolding handle_all
handle_all-Marked limit [] s = record { starts = omega arith; hours = omega arith; past = λ p. p }
handle_all-Marked limit (signal ∷ signals) s =
    Marked-append limit s (handle signal s).0 (handle_all signals (handle signal s).0).0
      (handle signal s).1 (handle_all signals (handle signal s).0).1 (handle-Marked limit signal s)
      (handle_all-Marked limit signals (handle signal s).0)

-- `Marked` of a result, if there is one.
abbrev After : ℕ → LoopState → Option (LoopState × List Effect) → Type 0
After limit s none = Unit
After limit s (some (s', effects)) = Marked limit s s' effects

bind-After :
    {A : Type 0} (limit : ℕ) (s : LoopState) (m : Option A)
    (f : A → Option (LoopState × List Effect))
    → ((a : A) → m ≡ some a → After limit s (f a))
    → After limit s (m >>= f)
bind-After limit s none f h = tt
bind-After limit s (some a) f h = h a refl

round_end :
    (limit : ℕ) (signals : List Signal) (s s' : LoopState) (files : Files) (calls : List Call)
    (effects : List Effect)
    → Marked limit (record s { files = files }) s' effects
    → Marked limit s
        (handle_all signals s').0
        (calls_of calls ++ (effects ++ (handle_all signals s').1))
round_end limit signals s s' files calls effects h =
    Marked-append limit s (record s { files = files }) (handle_all signals s').0 (calls_of calls)
      (effects ++ (handle_all signals s').1) (Marked-quiet limit s files calls)
      (Marked-append limit (record s { files = files }) s' (handle_all signals s').0 effects
        (handle_all signals s').1 h (handle_all-Marked limit signals s'))

Marked-refl : (limit : ℕ) (s : LoopState) → Marked limit s s []
Marked-refl limit s = record { starts = omega arith; hours = omega arith; past = λ p. p }

round_logged :
    (limit : ℕ) (r : Round) (s : LoopState) (files : Files) (calls : List Call) (logged : Bool)
    → r.now ≤ limit
    → After limit s (
        let (s', effects) =
          if logged
          then (record s { files = files }, [])
          else idle r.now (record s { files = files }) in
        let (s'', more) = handle_all r.signals s' in
        some (s'', calls_of calls ++ (effects ++ more)))
round_logged limit r s files calls true small =
    round_end limit r.signals s (record s { files = files }) files calls []
      (Marked-refl limit (record s { files = files }))
round_logged limit r s files calls false small =
    round_end limit r.signals s (idle r.now (record s { files = files })).0 files calls
      (idle r.now (record s { files = files })).1
      (idle-Marked limit r.now (record s { files = files }) small)

module _ ⦃tv : Tvutils⦄ (fmt_timestamp base85 shortdate : ℤ → List ℕ)
    (printf_text : List ℕ → List Arg → Option (List ℕ)) (frame : VaFrame) (junk maxpathlen : ℕ)
    (option_logdir : Option (List ℕ)) where
  round-After :
      (limit : ℕ) (r : Round) (s : LoopState)
      → r.now ≤ limit
      → After limit s (
          loop_round fmt_timestamp base85 shortdate printf_text frame junk maxpathlen option_logdir
            r s)
  unfolding loop_round
  round-After limit r s small =
      bind-After limit s
        (iteration fmt_timestamp base85 shortdate printf_text frame junk maxpathlen option_logdir
          r.open_file s.files r.packet)
        _ (λ (files', calls, logged) e. round_logged limit r s files' calls logged small)

  loop-After :
      (limit : ℕ) (rounds : List Round) (s : LoopState)
      → All (λ r. r.now ≤ limit) rounds
      → After limit s (
          loop fmt_timestamp base85 shortdate printf_text frame junk maxpathlen option_logdir rounds
            s)
  unfolding loop
  loop-After limit [] s h = Marked-refl limit s
  loop-After limit (r ∷ rounds) s (h, hs) =
      if_intro (After limit s) s.running
        (bind-After limit s
          (loop_round fmt_timestamp base85 shortdate printf_text frame junk maxpathlen option_logdir
            r s)
          _
          (λ (s', effects) e.
            bind-After limit s
              (loop fmt_timestamp base85 shortdate printf_text frame junk maxpathlen option_logdir
                rounds s')
              _
              (λ (s'', more) e2.
                Marked-append limit s s' s'' effects more (rw e at (round-After limit r s h))
                  (rw e2 at (loop-After limit rounds s' hs)))))
        (Marked-refl limit s)

  -- However long the daemon runs, whatever it logs and whatever signals it gets: it says at most once
  -- that it started, and logs at most as many hour marks as hours have gone by from its start to the
  -- latest time that its clock showed.
  pub loop-Marked :
      (hour limit : ℕ) (rounds : List Round) (s : LoopState) (effects : List Effect)
      → hour ≤ limit
      → All (λ r. r.now ≤ limit) rounds
      → loop fmt_timestamp base85 shortdate printf_text frame junk maxpathlen option_logdir rounds
          (start hour)
        ≡ some (s, effects)
      → (nr_starts effects ≤ 1) × (hour + nr_hour_marks effects ≤ limit)
  unfolding start
  loop-Marked hour limit rounds s effects h hs e =
      let m : Marked limit (start hour) s effects =
        rw e at (loop-After limit rounds (start hour) hs) in
      (count-le s.opening_mark_send (omega (arith, m.starts)), omega (arith, m.hours, m.past h))
