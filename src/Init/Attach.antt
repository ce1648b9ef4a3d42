-- ===== src/Init/Attach.antt =====
-- Processes whose calls of `tvn_init` meet no error, and one whose `shmat` fails.
use libtvnet.Base.{
  ℕ, ◌≡◌, ◌⊎◌, inl, inr, refl, ◌∙◌, List, [], ◌∷◌, some, pos, negsuc, Bool, true, false, Bool-cases,
  ◌==◌, arith, All, length, replicate,
}
use libtvnet.Init.{
  Segment, null, failed, attached, Process, fresh, is_error, find_node, Answers, shm_size,
  init_segment, tvn_init,
}
use libtvnet.Init.Once.{World, Call, IsInitialized, no_error, run_call, run_calls}

abbrev pub IsAttached : Process → Type 0
IsAttached p = (p.ringbuffer ≡ attached) × (p.cuid_state ≡ true)

-- Not called yet, or attached.
abbrev pub IsFine : Process → Type 0
IsFine p = (p.ringbuffer ≡ null) ⊎ IsAttached p

-- No system call of it fails.
abbrev pub Works : (tipc : Bool) → Call → Type 0
Works tipc call =
    let a = call.answers in
    (is_error a.shmid ≡ false)
    × (a.attaches ≡ true)
    × (find_node tipc a.fd a.named a.closed a.node ≡ some a.node)

module _ (segment : Segment) (tipc : Bool) where
  -- on a segment that is initialised
  joins :
      (name : List ℕ) (a : Answers) (p : Process) (m : segment.Memory)
      → IsInitialized segment tipc m
      → is_error a.shmid ≡ false
      → a.attaches ≡ true
      → IsFine p
      → ((tvn_init segment tipc name a (p, m)).0 ≡ pos 0)
        × IsAttached (tvn_init segment tipc name a (p, m)).1
        × ((tvn_init segment tipc name a (p, m)).2 ≡ m)
  unfolding tvn_init init_segment
  joins name a p m i s t (inl e) = rw (e, s, t, i) (refl, (refl, refl), refl)
  joins name a p m i s t (inr (e, c)) = rw (e, c) (refl, (refl, refl), refl)

  AllFine : World segment → Type 0
  AllFine w = (i : ℕ) → IsFine (w.processes i)

  fine_after :
      (call : Call) (w : World segment)
      → AllFine w
      → IsAttached ((run_call segment tipc call w).1.processes call.process)
      → AllFine (run_call segment tipc call w).1
  unfolding AllFine
  fine_after call w fine done i = elim (Bool-cases (i == call.process)) [
    | inl e ↦ let same : i ≡ call.process = ground arith in rw same (inr done)
    | inr e ↦ rw e (fine i)
  ]

  IsAttached-after :
      (call : Call) (w : World segment) (i : ℕ)
      → IsAttached ((run_call segment tipc call w).1.processes call.process)
      → IsAttached (w.processes i)
      → IsAttached ((run_call segment tipc call w).1.processes i)
  IsAttached-after call w i done before = elim (Bool-cases (i == call.process)) [
    | inl e ↦ let same : i ≡ call.process = ground arith in rw same done
    | inr e ↦ rw e before
  ]

  -- the process of the call itself
  own :
      (call : Call) (w : World segment)
      → IsAttached
          (tvn_init segment tipc call.program_name call.answers
            (w.processes call.process, w.memory)).1
      → IsAttached ((run_call segment tipc call w).1.processes call.process)
  own call w done = let same : (call.process == call.process) ≡ true = ground arith in rw same done

  join-All :
      (calls : List Call) (w : World segment)
      → IsInitialized segment tipc w.memory
      → AllFine w
      → All (Works tipc) calls
      → ((run_calls segment tipc calls w).0 ≡ replicate (length calls) (pos 0))
        × ((run_calls segment tipc calls w).1.memory ≡ w.memory)
        × ((i : ℕ)
            → IsAttached (w.processes i)
            → IsAttached ((run_calls segment tipc calls w).1.processes i))
        × All (λ call. IsAttached ((run_calls segment tipc calls w).1.processes call.process)) calls
  unfolding AllFine
  join-All [] w i fine works = (refl, refl, λ i h. h, tt)
  join-All (call ∷ calls) w i fine ((s, t, n), works) =
      let w' : World segment = (run_call segment tipc call w).1 in
      let (zero_result, done, same) =
        joins call.program_name call.answers (w.processes call.process) w.memory i s t
          (fine call.process) in
      let mine : IsAttached (w'.processes call.process) = own call w done in
      let (results, kept, stay, all) =
        join-All calls w' (rw same i) (fine_after call w fine mine) works in
      (
        rw (zero_result, results) refl,
        kept ∙ same,
        λ j h. stay j (IsAttached-after call w j mine h),
        (stay call.process mine, all),
      )

  module _
      (ring_works : (m : segment.Memory) → is_error (segment.ring_init shm_size m).0 ≡ false) where
    -- on a segment that is not
    founds :
        (name : List ℕ) (a : Answers) (p : Process) (m : segment.Memory)
        → segment.is_initialized shm_size m ≡ false
        → is_error a.shmid ≡ false
        → a.attaches ≡ true
        → find_node tipc a.fd a.named a.closed a.node ≡ some a.node
        → p.ringbuffer ≡ null
        → ((tvn_init segment tipc name a (p, m)).0 ≡ pos 1)
          × IsAttached (tvn_init segment tipc name a (p, m)).1
          × ((tvn_init segment tipc name a (p, m)).2
              ≡ segment.set_node_id a.node (segment.ring_init shm_size m).1)
    unfolding tvn_init init_segment
    founds name a p m i s t n e = rw (e, s, t, i, n, ring_works m) (refl, (refl, refl), refl)

    -- Processes that have not called `tvn_init` before, on a segment that is not initialised, if no system
    -- call fails: the first call returns 1, initialises the ring and writes its node number; every other
    -- call, of whichever process, returns 0 and leaves the segment alone, so that it keeps that number. In
    -- the end each process that called has both its pointers set.
    pub run_calls-IsAttached :
        (call : Call) (calls : List Call) (w : World segment)
        → segment.is_initialized shm_size w.memory ≡ false
        → ((i : ℕ) → (w.processes i).ringbuffer ≡ null)
        → All (Works tipc) (call ∷ calls)
        → ((run_calls segment tipc (call ∷ calls) w).0 ≡ pos 1 ∷ replicate (length calls) (pos 0))
          × ((run_calls segment tipc (call ∷ calls) w).1.memory
              ≡ segment.set_node_id call.answers.node (segment.ring_init shm_size w.memory).1)
          × (segment.node_id (run_calls segment tipc (call ∷ calls) w).1.memory ≡ call.answers.node)
          × All
              (λ c. IsAttached ((run_calls segment tipc (call ∷ calls) w).1.processes c.process))
              (call ∷ calls)
    unfolding AllFine
    run_calls-IsAttached call calls w i start ((s, t, n), works) =
        let w' : World segment = (run_call segment tipc call w).1 in
        let m' : segment.Memory = (segment.ring_init shm_size w.memory).1 in
        let (one, done, written) =
          founds call.program_name call.answers (w.processes call.process) w.memory i s t n
            (start call.process) in
        let mine : IsAttached (w'.processes call.process) = own call w done in
        let now : IsInitialized segment tipc w'.memory = rw written (
          segment.is_initialized-set_node_id shm_size call.answers.node m'
          ∙ segment.ring_init_lem shm_size w.memory
              (no_error segment tipc _ (ring_works w.memory))) in
        let (results, kept, stay, all) =
          join-All calls w' now (fine_after call w (λ j. inl (start j)) mine) works in
        (
          rw (one, results) refl,
          kept ∙ written,
          rw (kept, written) (segment.node_id-set_node_id call.answers.node m'),
          (stay call.process mine, all),
        )

  -- A process that has not called `tvn_init` before, and whose `shmat` fails: the call returns -1, and a
  -- second call, whatever the system calls would return then, returns 0 as if the process were attached,
  -- with `tvnl_ringbuffer` still `(void *)-1` and `tvn_cuid_state` not set. The segment is left alone.
  pub tvn_init-failed :
      (name : List ℕ) (a a' : Answers) (m : segment.Memory)
      → is_error a.shmid ≡ false
      → a.attaches ≡ false
      → (p : Process) × (tvn_init segment tipc name a (fresh, m) ≡ (negsuc 0, p, m))
        × (tvn_init segment tipc name a' (p, m) ≡ (pos 0, p, m))
        × (p.ringbuffer ≡ failed)
        × (p.cuid_state ≡ false)
  unfolding tvn_init
  tvn_init-failed name a a' m s t = (
    record { ringbuffer = failed; cuid_state = false; service = name },
    rw (s, t) refl,
    refl,
    refl,
    refl,
  )
