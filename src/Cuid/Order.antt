-- ===== src/Cuid/Order.antt =====
-- Identifiers are issued in strictly increasing order, and carry the node in their low bits.
use native.Mathlib.Omega.{arith}
use libtvnet.Base.{ℕ, suc, ◌+◌, ◌*◌, ◌^◌, ◌<◌, List, All, length}
use libtvnet.Cuid.{run, boot}
use libtvnet.Cuid.Invariant.{Decreasing, HasNode, IsValid, IsClock, run-IsValid_from, boot-IsValid}

module _ (node threads : ℕ) (schedule : List (ℕ × ℕ)) (small : node < 4096)
    (clock : All IsClock schedule) (short : length schedule < 2 ^ 49) where
  reached-IsValid : IsValid (2 ^ 62 + 4096 * length schedule) (run schedule (boot node threads))
  reached-IsValid =
      run-IsValid_from schedule (2 ^ 62) (boot node threads) (omega arith) (omega arith) clock
        (boot-IsValid node threads small)

  -- However threads interleave, from zeroed memory and within 2 ^ 49 steps, with a 12-bit node and a
  -- clock between 4096 and 2 ^ 62: each identifier is larger than all that were issued before it, by
  -- any thread, the shared word stays below 2 ^ 63 and is not less than any of them, and the low 12
  -- bits of each identifier are the node.
  pub run-Decreasing :
      Decreasing
        (suc (run schedule (boot node threads)).prev_cuid)
        (run schedule (boot node threads)).issued
      × ((run schedule (boot node threads)).prev_cuid < 2 ^ 63)
      × All
          (λ (p : ℕ × ℕ). HasNode (run schedule (boot node threads)).node_id p.1)
          (run schedule (boot node threads)).issued
  run-Decreasing =
      (reached-IsValid.ordered, omega (arith, reached-IsValid.bounded), reached-IsValid.nodes)
