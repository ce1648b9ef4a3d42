-- ===== src/Init/Tests.antt =====
-- A sample segment, and the theorems on `tvn_init` at concrete inputs.
use libtvnet.Base.{
  ℕ, ◌+◌, ◌≡◌, refl, List, [], ◌∷◌, pos, negsuc, true, false, All, replicate, codes, arith,
  if◌then◌else◌, ◌==◌,
}
use libtvnet.Init.{
  Segment, Process, fresh, failed, find_node, Answers, shm_size, init_segment, tvn_init,
}
use libtvnet.Init.Once.{World, Call, nr_ones, run_calls, run_calls-once}
use libtvnet.Init.Attach.{IsAttached, Works, run_calls-IsAttached, tvn_init-failed}

-- The size that the ring was initialised with, 0 before, and the node number.
abbrev sample_segment : Segment
sample_segment = record {
  Memory = ℕ × ℕ;
  is_initialized = λ size m. if m.0 == 0 then false else true;
  ring_init = λ size m. (pos 0, (size + 1, m.1));
  node_id = λ m. m.1;
  set_node_id = λ n m. (m.0, n);
  ring_init_lem = λ size m h. ground arith;
  is_initialized-set_node_id = λ size n m. refl;
  node_id-set_node_id = λ n m. refl;
}

abbrev zeroed : World sample_segment
zeroed = record { processes = λ i. fresh; memory = (0, 0) }

-- the node is 9
abbrev fine : Answers
fine = record {
  shmid = pos 4;
  attaches = true;
  fd = pos 3;
  named = pos 0;
  closed = pos 0;
  node = 9;
}

-- `close` fails
abbrev unclosed : Answers
unclosed = record fine { closed = negsuc 0 }

abbrev unattached : Answers
unattached = record fine { attaches = false }

abbrev call_of : ℕ → Answers → Call
call_of i a = record { process = i; program_name = codes "tvlog"; answers = a }

abbrev calls : List Call
calls = call_of 1 unattached ∷ call_of 2 fine ∷ []

abbrev more : List Call
more = call_of 1 fine ∷ call_of 3 unclosed ∷ []

one_succeeds : (run_calls sample_segment true calls zeroed).0 ≡ negsuc 0 ∷ pos 1 ∷ []
unfolding tvn_init init_segment find_node
one_succeeds = refl

-- If `close` fails, the ring is initialised all the same, and no later call writes the node number.
node_is_lost :
    (run_calls sample_segment true (call_of 1 unclosed ∷ call_of 2 fine ∷ []) zeroed).0
    ≡ negsuc 0 ∷ pos 0 ∷ []
unfolding tvn_init init_segment find_node
node_is_lost = refl

run_calls-once_example :
    let w : World sample_segment = (run_calls sample_segment true calls zeroed).1 in
    (nr_ones (run_calls sample_segment true more w).0 ≡ 0)
    × ((run_calls sample_segment true more w).1.memory ≡ w.memory)
    × (sample_segment.node_id (run_calls sample_segment true more w).1.memory
        ≡ sample_segment.node_id w.memory)
run_calls-once_example = run_calls-once sample_segment true calls more zeroed (rw one_succeeds refl)

All-work : All (Works true) (call_of 1 fine ∷ call_of 2 fine ∷ call_of 1 fine ∷ [])
unfolding find_node
All-work = ((refl, refl, refl), ((refl, refl, refl), ((refl, refl, refl), tt)))

run_calls-IsAttached_example :
    let w : World sample_segment =
      (run_calls sample_segment true
        (call_of 1 fine ∷ call_of 2 fine ∷ call_of 1 fine ∷ [])
        zeroed).1 in
    ((run_calls sample_segment true
        (call_of 1 fine ∷ call_of 2 fine ∷ call_of 1 fine ∷ [])
        zeroed).0
      ≡ pos 1 ∷ replicate 2 (pos 0))
    × (w.memory ≡ sample_segment.set_node_id 9 (sample_segment.ring_init shm_size (0, 0)).1)
    × (sample_segment.node_id w.memory ≡ 9)
    × All
        (λ c. IsAttached (w.processes c.process))
        (call_of 1 fine ∷ call_of 2 fine ∷ call_of 1 fine ∷ [])
run_calls-IsAttached_example =
    run_calls-IsAttached sample_segment true (λ m. refl) (call_of 1 fine)
      (call_of 2 fine ∷ call_of 1 fine ∷ []) zeroed refl (λ i. refl) All-work

tvn_init-failed_example :
    (p : Process) × (tvn_init sample_segment true (codes "tvlog") unattached (fresh, (0, 0))
      ≡ (negsuc 0, p, (0, 0)))
    × (tvn_init sample_segment true (codes "tvlog") fine (p, (0, 0)) ≡ (pos 0, p, (0, 0)))
    × (p.ringbuffer ≡ failed)
    × (p.cuid_state ≡ false)
tvn_init-failed_example =
    tvn_init-failed sample_segment true (codes "tvlog") unattached fine (0, 0) refl refl
