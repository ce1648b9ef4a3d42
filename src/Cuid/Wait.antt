-- ===== src/Cuid/Wait.antt =====
-- `tvn_cuid` is wait-free: a thread that runs gets its identifier in four steps of its own.
use mathlib.Core.Path.{subst}
use libtvnet.Base.{
  ℕ, suc, ◌+◌, ◌*◌, ◌≤◌, ◌<◌, ◌≡◌, ◌≢◌, refl, List, [], ◌∷◌, Option, none, some, if◌then◌else◌,
  ◌==◌, ◌&&◌, length, length-set, length-replicate, get_elem?, get_elem?_total, get_elem?-set,
  get_elem?-set_other, arith, Bool-cases, inl, inr, false, Option-cases, if_intro, ◌%◌, ◌^◌,
}
use libtvnet.Cuid.{
  Thread, idle, timed, holding, adding, State, is_newer, move_to, return_id, operation, step, run,
  boot, new_cuid,
}

abbrev pub turn : ℕ → ℕ → ℕ
turn i k = if k == i then 1 else 0

-- how often the thread `i` runs
abbrev pub turns : ℕ → List (ℕ × ℕ) → ℕ
turns i [] = 0
turns i ((k, time) ∷ schedule) = turn i k + turns i schedule

-- how many identifiers it got
abbrev pub returned : ℕ → List (ℕ × ℕ) → ℕ
returned i [] = 0
returned i ((k, id) ∷ ids) = if k == i then suc (returned i ids) else returned i ids

-- the steps of the current call
abbrev progress : Option Thread → ℕ
progress none = 0
progress (some idle) = 0
progress (some (timed new)) = 1
progress (some (holding new old)) = 2
progress (some adding) = 3

abbrev work : ℕ → State → ℕ
work i s = 4 * returned i s.issued + progress (get_elem? s.threads i)

move_to-work :
    (i : ℕ) (t : Thread) (s : State)
    → i < length s.threads
    → work i (move_to i t s) ≡ 4 * returned i s.issued + progress (some t)
unfolding move_to
move_to-work i t s h = rw (get_elem?-set s.threads i t h) refl

return_id-work :
    (i id : ℕ) (s : State)
    → i < length s.threads
    → work i (return_id i id s) ≡ 4 * suc (returned i s.issued)
unfolding return_id
return_id-work i id s h = rw (get_elem?-set s.threads i idle h) (ground arith)

own_operation :
    (i time : ℕ) (t : Thread) (s : State)
    → i < length s.threads
    → 4 * returned i s.issued + progress (some t) < work i (operation i time t s)
unfolding operation
own_operation i time idle s h =
    let e : work i (operation i time idle s) ≡ _ =
      move_to-work i (timed (new_cuid s.node_id time)) s h in
    omega arith
own_operation i time (timed new) s h =
    let e : work i (operation i time (timed new) s) ≡ _ =
      move_to-work i (holding new s.prev_cuid) s h in
    omega arith
own_operation i time (holding new old) s h =
    if_intro (λ s'. 4 * returned i s.issued + 2 < work i s')
      (is_newer new old && s.prev_cuid == old) (rw (return_id-work i new s h) (omega arith))
      (rw (move_to-work i adding s h) (omega arith))
own_operation i time adding s h =
    let id : ℕ = (s.prev_cuid + 0x1000) % 2 ^ 64 in
    let e : work i (operation i time adding s) ≡ _ = return_id-work i id s h in omega arith

move_to-work_other : (i k : ℕ) (t : Thread) (s : State) → i ≢ k → work i (move_to k t s) ≡ work i s
unfolding move_to
move_to-work_other i k t s h = rw (get_elem?-set_other s.threads i k t h) refl

return_id-work_other : (i k id : ℕ) (s : State) → i ≢ k → work i (return_id k id s) ≡ work i s
unfolding return_id
return_id-work_other i k id s h =
    let other : (k == i) ≡ false = ground arith in
    rw (get_elem?-set_other s.threads i k idle h, other) refl

other_operation :
    (i k time : ℕ) (t : Thread) (s : State) → i ≢ k → work i (operation k time t s) ≡ work i s
unfolding operation
other_operation i k time idle s h = move_to-work_other i k _ s h
other_operation i k time (timed new) s h = move_to-work_other i k _ s h
other_operation i k time (holding new old) s h =
    if_intro (λ s'. work i s' ≡ work i s) (is_newer new old && s.prev_cuid == old)
      (return_id-work_other i k new s h) (move_to-work_other i k adding s h)
other_operation i k time adding s h = return_id-work_other i k _ s h

operation-length :
    (k time : ℕ) (t : Thread) (s : State) → length (operation k time t s).threads ≡ length s.threads
unfolding operation move_to return_id
operation-length k time idle s = length-set s.threads k _
operation-length k time (timed new) s = length-set s.threads k _
operation-length k time (holding new old) s =
    if_intro (λ (s' : State). length s'.threads ≡ length s.threads)
      (is_newer new old && s.prev_cuid == old) (length-set s.threads k idle)
      (length-set s.threads k adding)
operation-length k time adding s = length-set s.threads k idle

step-length : (k time : ℕ) (s : State) → length (step (k, time) s).threads ≡ length s.threads
unfolding step
step-length k time s = elim (Option-cases (get_elem? s.threads k)) [
  | inl e ↦ rw (e, step) refl
  | inr (t, e) ↦ rw (e, step) (operation-length k time t s)
]

-- A thread's own step is work done, and no other step undoes it.
own_step : (i time : ℕ) (s : State) → i < length s.threads → work i s < work i (step (i, time) s)
unfolding step
own_step i time s h =
    let (t, e) = get_elem?_total s.threads i h in rw (e, step) (own_operation i time t s h)

other_step : (i k time : ℕ) (s : State) → i ≢ k → work i (step (k, time) s) ≡ work i s
unfolding step
other_step i k time s h = elim (Option-cases (get_elem? s.threads k)) [
  | inl e ↦ rw (e, step) refl
  | inr (t, e) ↦ rw (e, step) (other_operation i k time t s h)
]

step-work :
    (i k time : ℕ) (s : State)
    → i < length s.threads
    → work i s + turn i k ≤ work i (step (k, time) s)
step-work i k time s h = elim (Bool-cases (k == i)) [
  | inl e ↦
      let same : k ≡ i = ground arith in
      let more : work i s < work i (step (k, time) s) =
        subst (λ j. work j s < work j (step (k, time) s)) same (own_step k time s (omega arith)) in
      rw e (omega arith)
  | inr e ↦
      let differs : i ≢ k = ground arith in rw e (omega (arith, other_step i k time s differs))
]

run-work :
    (i : ℕ) (schedule : List (ℕ × ℕ)) (s : State)
    → i < length s.threads
    → work i s + turns i schedule ≤ work i (run schedule s)
unfolding run
run-work i [] s h = omega arith
run-work i ((k, time) ∷ schedule) s h = omega (
  arith,
  step-work i k time s h,
  run-work i schedule (step (k, time) s) (omega (arith, step-length k time s)),
)

progress-lt : (t : Option Thread) → progress t < 4
progress-lt none = omega arith
progress-lt (some idle) = omega arith
progress-lt (some (timed new)) = omega arith
progress-lt (some (holding new old)) = omega arith
progress-lt (some adding) = omega arith

-- Whatever the other threads do and the clock shows, a thread that ran n steps since boot got an
-- identifier at least (n - 3) / 4 times.
pub run_wait_free :
    (node threads i : ℕ) (schedule : List (ℕ × ℕ))
    → i < threads
    → turns i schedule ≤ 4 * returned i (run schedule (boot node threads)).issued + 3
unfolding boot
run_wait_free node threads i schedule h =
    let s : State = run schedule (boot node threads) in
    omega (
      arith,
      run-work i schedule (boot node threads) (omega (arith, length-replicate threads idle)),
      progress-lt (get_elem? s.threads i),
    )
