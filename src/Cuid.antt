-- ===== src/Cuid.antt =====
-- tvnet/cuid.h: threads and processes that draw identifiers from one shared word, interleaved at the
-- atomic operations of `tvn_cuid`. A 64-bit word is its bit pattern, below 2 ^ 64.
pub mod Invariant
pub mod Order
pub mod Wait
mod Tests
use libtvnet.Base.{
  ℕ, ◌+◌, ◌%◌, ◌^◌, List, [], ◌∷◌, Option, none, some, Bool, ◌&&◌, if◌then◌else◌, ◌==◌, get_elem?,
  set, replicate, bit_and, bit_or,
}
use libtvnet.Base.{ltb_ℤ, as_signed}

-- Where a thread is in `tvn_cuid`: outside, behind the first, the second or the failed third step.
pub data Thread : Type 0 where
  idle : Thread
  timed : (new : ℕ) → Thread
  holding : (new old : ℕ) → Thread
  adding : Thread

-- The fields of `tvn_cuid_state_t`, the threads, and what the calls returned, with the thread, the
-- last first.
pub record State : Type 0 where
  pub node_id : ℕ
  pub prev_cuid : ℕ
  pub threads : List Thread
  pub issued : List (ℕ × ℕ)

-- `(tvu_time() & time_mask) | node_id`
unfoldable pub new_cuid : ℕ → ℕ → ℕ
new_cuid node_id time = bit_or (bit_and time 0xffff_ffff_ffff_f000) node_id

-- `>` on `int64_t`
unfoldable pub is_newer : ℕ → ℕ → Bool
is_newer new old = ltb_ℤ (as_signed (2 ^ 64) old) (as_signed (2 ^ 64) new)

unfoldable pub move_to : ℕ → Thread → State → State
move_to i thread s = record s { threads = set s.threads i thread }

-- A write of the shared word, and the return of the value written.
unfoldable pub return_id : ℕ → ℕ → State → State
return_id i id s = record s {
  prev_cuid = id;
  threads = set s.threads i idle;
  issued = (i, id) ∷ s.issued;
}

-- The next atomic operation of thread `i`; the clock is read in the first.
unfoldable pub operation : ℕ → ℕ → Thread → State → State
operation i time idle s = move_to i (timed (new_cuid s.node_id time)) s
operation i time (timed new) s = move_to i (holding new s.prev_cuid) s
operation i time (holding new old) s =
    if is_newer new old && s.prev_cuid == old then return_id i new s else move_to i adding s
operation i time adding s = return_id i ((s.prev_cuid + 0x1000) % 2 ^ 64) s

unfoldable pub step : ℕ × ℕ → State → State
step (i, time) s = elim (get_elem? s.threads i) [
  | none ↦ s
  | some thread ↦ operation i time thread s
]

-- A schedule names the thread that runs next, and what the clock then shows.
unfoldable pub run : List (ℕ × ℕ) → State → State
run [] s = s
run (x ∷ schedule) s = run schedule (step x s)

-- Shared memory as the system hands it out, with the node that `tvn_init` writes.
unfoldable pub boot : ℕ → ℕ → State
boot node threads = record {
  node_id = node;
  prev_cuid = 0;
  threads = replicate threads idle;
  issued = [];
}
