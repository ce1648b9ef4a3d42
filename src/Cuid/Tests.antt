-- ===== src/Cuid/Tests.antt =====
-- Two threads that read the same clock, and the theorems on that schedule.
use libtvnet.Base.{ℕ, suc, ◌+◌, ◌*◌, ◌≤◌, ◌<◌, ◌^◌, ◌≡◌, refl, List, [], ◌∷◌, All, arith}
use libtvnet.Cuid.{run, step, operation, move_to, return_id, new_cuid, is_newer, boot}
use libtvnet.Cuid.Invariant.{Decreasing, HasNode}
use libtvnet.Cuid.Order.{run-Decreasing}
use libtvnet.Cuid.Wait.{turns, returned, run_wait_free}

-- Thread 0 writes 4103, so thread 1 fails to, and adds 4096 to it.
abbrev race : List (ℕ × ℕ)
race = (0, 5000) ∷ (1, 5000) ∷ (1, 5001) ∷ (0, 5001) ∷ (0, 5002) ∷ (1, 5003) ∷ (1, 5004) ∷ []

race_issued : (run race (boot 7 2)).issued ≡ (1, 8199) ∷ (0, 4103) ∷ []
unfolding run step operation move_to return_id new_cuid is_newer boot
race_issued = refl

race_clock : All (λ (p : ℕ × ℕ). (4096 ≤ p.1) × (p.1 < 2 ^ 62)) race
race_clock = (
  (omega arith, omega arith),
  (
    (omega arith, omega arith),
    (
      (omega arith, omega arith),
      (
        (omega arith, omega arith),
        (
          (omega arith, omega arith),
          ((omega arith, omega arith), ((omega arith, omega arith), tt)),
        ),
      ),
    ),
  ),
)

run-Decreasing_example :
    Decreasing (suc (run race (boot 7 2)).prev_cuid) (run race (boot 7 2)).issued
    × ((run race (boot 7 2)).prev_cuid < 2 ^ 63)
    × All (λ (p : ℕ × ℕ). HasNode (run race (boot 7 2)).node_id p.1) (run race (boot 7 2)).issued
run-Decreasing_example = run-Decreasing 7 2 race (omega arith) race_clock (omega arith)

run_wait_free_example : turns 1 race ≤ 4 * returned 1 (run race (boot 7 2)).issued + 3
run_wait_free_example = run_wait_free 7 2 1 race (omega arith)
