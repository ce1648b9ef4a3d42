-- ===== src/Cuid/Invariant.antt =====
-- What every step of the threads keeps.
use native.Mathlib.Omega.{arith}
use libtvnet.Base.{
  ℕ, zero, suc, ◌+◌, ◌*◌, ◌/◌, ◌%◌, ◌^◌, ◌≤◌, ◌<◌, ◌≡◌, refl, ◌⊎◌, inl, inr, List, [], ◌∷◌, true,
  false, ◌==◌, All, length, get_elem?, bit_and_high52, bit_or_low12, All-get_elem?, All-set,
  All-map, Bool-cases, Option-cases, replicate,
}
use libtvnet.Cuid.{
  Thread, idle, timed, holding, adding, State, new_cuid, is_newer, move_to, return_id, operation,
  step, run, boot,
}

pub new_cuid_lem :
    (node time : ℕ) → node < 4096 → time < 2 ^ 64 → new_cuid node time ≡ time / 4096 * 4096 + node
unfolding new_cuid
new_cuid_lem node time h big = rw (bit_and_high52 time big) (bit_or_low12 (time / 4096) node h)

is_newer→lt : (new old : ℕ) → new < 2 ^ 63 → old < 2 ^ 63 → is_newer new old ≡ true → old < new
unfolding is_newer
is_newer→lt new old h h' e = ground arith

is_newer→le : (new old : ℕ) → new < 2 ^ 63 → old < 2 ^ 63 → is_newer new old ≡ false → new ≤ old
unfolding is_newer
is_newer→le new old h h' e = ground arith

-- Below `bound`, and each below the one issued after it.
abbrev pub Decreasing : ℕ → List (ℕ × ℕ) → Type 0
Decreasing bound [] = Unit
Decreasing bound ((i, id) ∷ ids) = (id < bound) × Decreasing id ids

-- The node is in the low bits.
abbrev pub HasNode : ℕ → ℕ → Type 0
HasNode node id = id % 4096 ≡ node

-- A candidate that was made from the clock; the word may still be as the system left it, until the
-- first identifier is issued.
abbrev ThreadIsValid : ℕ → ℕ → Thread → Type 0
ThreadIsValid node prev idle = Unit
ThreadIsValid node prev (timed new) = HasNode node new × (4096 ≤ new) × (new < 2 ^ 62)
ThreadIsValid node prev (holding new old) =
    HasNode node new × (4096 ≤ new) × (new < 2 ^ 62) × (old ≤ prev)
ThreadIsValid node prev adding = HasNode node prev × (4096 ≤ prev)

-- `limit` bounds the word and all that it was.
pub record IsValid (limit : ℕ) (s : State) : Type 0 where
  pub node_small : s.node_id < 4096
  pub word : (s.prev_cuid ≡ 0) ⊎ (HasNode s.node_id s.prev_cuid × (4096 ≤ s.prev_cuid))
  pub bounded : s.prev_cuid ≤ limit
  pub threads_valid : All (ThreadIsValid s.node_id s.prev_cuid) s.threads
  pub ordered : Decreasing (suc s.prev_cuid) s.issued
  pub nodes : All (λ (p : ℕ × ℕ). HasNode s.node_id p.1) s.issued

Thread-grows :
    (node prev later : ℕ) (t : Thread)
    → prev ≤ later
    → HasNode node later
    → 4096 ≤ later
    → ThreadIsValid node prev t
    → ThreadIsValid node later t
Thread-grows node prev later idle le n low h = tt
Thread-grows node prev later (timed new) le n low h = h
Thread-grows node prev later (holding new old) le n low (a, b, c, d) = (a, b, c, omega arith)
Thread-grows node prev later adding le n low h = (n, low)

-- The state of one thread changes.
move_to-IsValid :
    (i limit : ℕ) (t : Thread) (s : State)
    → IsValid limit s
    → ThreadIsValid s.node_id s.prev_cuid t
    → IsValid limit (move_to i t s)
unfolding move_to
move_to-IsValid i limit t s v h = record {
  node_small = v.node_small;
  word = v.word;
  bounded = v.bounded;
  threads_valid = All-set _ s.threads i t v.threads_valid h;
  ordered = v.ordered;
  nodes = v.nodes;
}

-- A larger identifier that has the node is issued.
return_id-IsValid :
    (i id limit more : ℕ) (s : State)
    → IsValid limit s
    → s.prev_cuid < id
    → HasNode s.node_id id
    → 4096 ≤ id
    → id ≤ more
    → IsValid more (return_id i id s)
unfolding return_id
return_id-IsValid i id limit more s v larger n low fits = record {
  node_small = v.node_small;
  word = inr (n, low);
  bounded = fits;
  threads_valid =
      All-set _ s.threads i idle
        (All-map _ _ s.threads
          (λ t h. Thread-grows s.node_id s.prev_cuid id t (omega arith) n low h) v.threads_valid)
        tt;
  ordered = (omega arith, lower s.issued v.ordered);
  nodes = (n, v.nodes);
}
  where
    lower : (ids : List (ℕ × ℕ)) → Decreasing (suc s.prev_cuid) ids → Decreasing id ids
    lower [] h = tt
    lower (x ∷ ids) (p, h) = (omega arith, h)

IsValid-more : (limit more : ℕ) (s : State) → limit ≤ more → IsValid limit s → IsValid more s
IsValid-more limit more s le v = record {
  node_small = v.node_small;
  word = v.word;
  bounded = omega (arith, v.bounded);
  threads_valid = v.threads_valid;
  ordered = v.ordered;
  nodes = v.nodes;
}

-- Once the word is not zero, the node is in it, and a thread may go on to add to it.
adding-IsValid :
    (i limit : ℕ) (s : State)
    → 0 < s.prev_cuid
    → IsValid limit s
    → IsValid (limit + 4096) (move_to i adding s)
adding-IsValid i limit s used v =
    let written : HasNode s.node_id s.prev_cuid × (4096 ≤ s.prev_cuid) = elim v.word [
      | inl e ↦ absurd (omega arith)
      | inr h ↦ h
    ] in
    IsValid-more limit (limit + 4096) _ (omega arith) (move_to-IsValid i limit adding s v written)

operation-IsValid :
    (i time limit : ℕ) (t : Thread) (s : State)
    → 2 ^ 62 ≤ limit
    → limit < 2 ^ 62 + 2 ^ 61
    → 4096 ≤ time
    → time < 2 ^ 62
    → ThreadIsValid s.node_id s.prev_cuid t
    → IsValid limit s
    → IsValid (limit + 4096) (operation i time t s)
unfolding operation
operation-IsValid i time limit idle s big small late early h v =
    let made = new_cuid_lem s.node_id time v.node_small (omega arith) in
    IsValid-more limit (limit + 4096) _ (omega arith) (
      move_to-IsValid i limit (timed (new_cuid s.node_id time)) s v
        (rw made (omega (arith, v.node_small), omega arith, omega (arith, v.node_small))))
operation-IsValid i time limit (timed new) s big small late early h v =
    let (n, low, lt) = h in
    IsValid-more limit (limit + 4096) _ (omega arith)
      (move_to-IsValid i limit (holding new s.prev_cuid) s v (n, low, lt, omega arith))
operation-IsValid i time limit (holding new old) s big small late early (n, low, lt, le) v =
    elim (Bool-cases (is_newer new old)) [
      | inr e ↦
          let newest : new ≤ old = is_newer→le new old (omega arith) (omega (arith, v.bounded)) e in
          rw e (adding-IsValid i limit s (omega arith) v)
      | inl e ↦
          let larger : old < new = is_newer→lt new old (omega arith) (omega (arith, v.bounded)) e in
          elim (Bool-cases (s.prev_cuid == old)) [
            | inl e2 ↦
                let same : s.prev_cuid ≡ old = ground arith in
                rw (e, e2)
                  (return_id-IsValid i new limit (limit + 4096) s v (omega arith) n low
                    (omega arith))
            | inr e2 ↦
                let moved : old < s.prev_cuid = ground arith in
                rw (e, e2) (adding-IsValid i limit s (omega arith) v)
          ]
    ]
operation-IsValid i time limit adding s big small late early (n, low) v =
    let sum : (s.prev_cuid + 0x1000) % 2 ^ 64 ≡ s.prev_cuid + 4096 = omega (arith, v.bounded) in
    rw sum (
      return_id-IsValid i (s.prev_cuid + 4096) limit (limit + 4096) s v (omega arith) (omega arith)
        (omega arith) (omega (arith, v.bounded)))

step-IsValid :
    (i time limit : ℕ) (s : State)
    → 2 ^ 62 ≤ limit
    → limit < 2 ^ 62 + 2 ^ 61
    → 4096 ≤ time
    → time < 2 ^ 62
    → IsValid limit s
    → IsValid (limit + 4096) (step (i, time) s)
unfolding step
step-IsValid i time limit s big small late early v = elim (Option-cases (get_elem? s.threads i)) [
  | inl e ↦ rw (e, step) (IsValid-more limit (limit + 4096) s (omega arith) v)
  | inr (t, e) ↦
      rw (e, step)
        (operation-IsValid i time limit t s big small late early
          (All-get_elem? _ s.threads i v.threads_valid e) v)
]

-- The clock is past its first 4096 units and below 2 ^ 62.
abbrev pub IsClock : ℕ × ℕ → Type 0
IsClock (i, time) = (4096 ≤ time) × (time < 2 ^ 62)

pub run-IsValid_from :
    (schedule : List (ℕ × ℕ)) (limit : ℕ) (s : State)
    → 2 ^ 62 ≤ limit
    → limit + 4096 * length schedule ≤ 2 ^ 62 + 2 ^ 61
    → All IsClock schedule
    → IsValid limit s
    → IsValid (limit + 4096 * length schedule) (run schedule s)
unfolding run
run-IsValid_from [] limit s big small clock v = IsValid-more limit _ s (omega arith) v
run-IsValid_from ((i, time) ∷ schedule) limit s big small ((late, early), clock) v =
    IsValid-more ((limit + 4096) + 4096 * length schedule) _ _ (omega arith) (
      run-IsValid_from schedule (limit + 4096) (step (i, time) s) (omega arith) (omega arith) clock
        (step-IsValid i time limit s big (omega arith) late early v))

pub boot-IsValid : (node threads : ℕ) → node < 4096 → IsValid (2 ^ 62) (boot node threads)
unfolding boot
boot-IsValid node threads h = record {
  node_small = h;
  word = inl refl;
  bounded = omega arith;
  threads_valid = all_idle threads;
  ordered = tt;
  nodes = tt;
}
  where
    all_idle : (n : ℕ) → All (ThreadIsValid node 0) (replicate n idle)
    all_idle zero = tt
    all_idle (suc n) = (tt, all_idle n)
