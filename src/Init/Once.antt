-- ===== src/Init/Once.antt =====
-- Any number of processes that call `tvn_init`, on one segment.
use libtvnet.Base.{
  ℕ, suc, ◌≡◌, ◌≢◌, ◌⊎◌, inl, inr, refl, sym, ◌∙◌, ap, List, [], ◌∷◌, ℤ, pos, negsuc, Bool, true,
  false, if_intro, Bool-cases, Option-cases, if◌then◌else◌, ◌==◌, arith,
}
use libtvnet.Init.{
  Segment, Process, is_set, is_error, find_node, Answers, shm_size, init_segment, tvn_init,
}

-- Processes by number, and the memory that they share.
pub record World (segment : Segment) : Type 0 where
  pub processes : ℕ → Process
  pub memory : segment.Memory

-- A call, by the number and the name of its process.
pub record Call : Type 0 where
  pub process : ℕ
  pub program_name : List ℕ
  pub answers : Answers

abbrev pub nr_ones : List ℤ → ℕ
nr_ones [] = 0
nr_ones (pos (suc ℕ.zero) ∷ rs) = suc (nr_ones rs)
nr_ones (_ ∷ rs) = nr_ones rs

module _ (segment : Segment) (tipc : Bool) where
  abbrev pub IsInitialized : segment.Memory → Type 0
  IsInitialized m = segment.is_initialized shm_size m ≡ true

  abbrev pub run_call : Call → World segment → ℤ × World segment
  run_call call w =
      let (result, p, m) =
        tvn_init segment tipc call.program_name call.answers (w.processes call.process, w.memory) in
      (
        result,
        record { processes = λ i. if i == call.process then p else w.processes i; memory = m },
      )

  abbrev pub run_calls : List Call → World segment → List ℤ × World segment
  run_calls [] w = ([], w)
  run_calls (call ∷ calls) w =
      let (result, w') = run_call call w in
      let (results, w'') = run_calls calls w' in (result ∷ results, w'')

  -- How the segment fares in a call: either it is left alone and the result is not 1, or it was not
  -- initialised; then the result is 1 or -1, and with 1 it is initialised.
  abbrev Fares : segment.Memory → ℤ → segment.Memory → Type 0
  Fares m result m' =
      ((m' ≡ m) × (result ≢ pos 1))
      ⊎ ((segment.is_initialized shm_size m ≡ false)
          × (((result ≡ pos 1) × IsInitialized m') ⊎ (result ≡ negsuc 0)))

  pub no_error : (r : ℤ) → is_error r ≡ false → r ≢ negsuc 0
  no_error r e same = absurd (cc (e, ap is_error same))

  init_segment-Fares :
      (answers : Answers) (m : segment.Memory)
      → Fares m (init_segment segment tipc answers m).0 (init_segment segment tipc answers m).1
  unfolding init_segment
  init_segment-Fares answers m =
      let r : ℤ = (segment.ring_init shm_size m).0 in
      let m' : segment.Memory = (segment.ring_init shm_size m).1 in
      elim (Bool-cases (segment.is_initialized shm_size m)) [
        | inl e ↦ rw e (inl (refl, λ c. absurd (cc c)))
        | inr e ↦ elim (Bool-cases (is_error r)) [
          | inl bad ↦ rw (e, bad) (inr (refl, inr refl))
          | inr good ↦
              elim (Option-cases
                (find_node tipc answers.fd answers.named answers.closed answers.node)) [
                  | inl n ↦ rw (e, good, n) (inr (refl, inr refl))
                  | inr (node, n) ↦
                      rw (e, good, n)
                        (inr (
                          refl,
                          inl (
                            refl,
                            segment.is_initialized-set_node_id shm_size node m'
                                ∙ segment.ring_init_lem shm_size m (no_error r good),
                          ),
                        ))
                ]
        ]
      ]

  tvn_init-Fares :
      (name : List ℕ) (answers : Answers) (p : Process) (m : segment.Memory)
      → Fares m
          (tvn_init segment tipc name answers (p, m)).0
          (tvn_init segment tipc name answers (p, m)).2
  unfolding tvn_init
  tvn_init-Fares name answers p m =
      let P : ℤ × Process × segment.Memory → Type 0 = λ x. Fares m x.0 x.2 in
      if_intro P (is_set p.ringbuffer) (inl (refl, λ c. absurd (cc c))) (
        if_intro P (is_error answers.shmid) (inl (refl, λ c. absurd (cc c))) (
          if_intro P answers.attaches (init_segment-Fares answers m)
            (inl (refl, λ c. absurd (cc c)))))

  nr_ones_other : (r : ℤ) (rs : List ℤ) → r ≢ pos 1 → nr_ones (r ∷ rs) ≡ nr_ones rs
  nr_ones_other (pos (suc ℕ.zero)) rs d = absurd (d refl)
  nr_ones_other (pos ℕ.zero) rs d = refl
  nr_ones_other (pos (suc (suc n))) rs d = refl
  nr_ones_other (negsuc n) rs d = refl

  -- Once initialised, the segment is left alone.
  left_alone :
      (calls : List Call) (w : World segment)
      → IsInitialized w.memory
      → (nr_ones (run_calls calls w).0 ≡ 0) × ((run_calls calls w).1.memory ≡ w.memory)
  left_alone [] w h = (refl, refl)
  left_alone (call ∷ calls) w h =
      let w' : World segment = (run_call call w).1 in
      elim (tvn_init-Fares call.program_name call.answers (w.processes call.process) w.memory) [
        | inl (same, other) ↦
            let (none_more, kept) = left_alone calls w' (rw same h) in
            (nr_ones_other _ _ other ∙ none_more, kept ∙ same)
        | inr (e, _) ↦ absurd (cc (e, h))
      ]

  IsInitialized-once :
      (calls : List Call) (w : World segment)
      → nr_ones (run_calls calls w).0 ≡ 1
      → IsInitialized (run_calls calls w).1.memory
  IsInitialized-once [] w h = absurd (omega arith)
  IsInitialized-once (call ∷ calls) w h =
      let w' : World segment = (run_call call w).1 in
      let r : ℤ = (run_call call w).0 in
      let rest : List ℤ = (run_calls calls w').0 in
      elim (tvn_init-Fares call.program_name call.answers (w.processes call.process) w.memory) [
        | inl (same, other) ↦ IsInitialized-once calls w' (sym (nr_ones_other r rest other) ∙ h)
        | inr (e, inl (one, now)) ↦ rw (left_alone calls w' now).1 now
        | inr (e, inr minus) ↦
            let other : r ≢ pos 1 = λ one. cc (one, minus) in
            IsInitialized-once calls w' (sym (nr_ones_other r rest other) ∙ h)
      ]

  -- Whatever system calls return, in whichever order processes call `tvn_init`: behind calls of which one
  -- returned 1, no further call returns 1, and none changes the segment, so that the node number stays
  -- what that call wrote.
  pub run_calls-once :
      (calls more : List Call) (w : World segment)
      → nr_ones (run_calls calls w).0 ≡ 1
      → (nr_ones (run_calls more (run_calls calls w).1).0 ≡ 0)
        × ((run_calls more (run_calls calls w).1).1.memory ≡ (run_calls calls w).1.memory)
        × (segment.node_id (run_calls more (run_calls calls w).1).1.memory
            ≡ segment.node_id (run_calls calls w).1.memory)
  run_calls-once calls more w h =
      let (none_more, kept) =
        left_alone more (run_calls calls w).1 (IsInitialized-once calls w h) in
      (none_more, kept, ap segment.node_id kept)
