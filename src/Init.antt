-- ===== src/Init.antt =====
-- tvnet/common.c: how a process attaches to the shared memory of the log ring and of `tvn_cuid`.
pub mod Once
pub mod Attach
mod Tests
use libtvnet.Base.{
  ℕ, ◌+◌, ◌^◌, ◌≡◌, ◌≢◌, List, codes, Option, none, some, ℤ, pos, negsuc, Bool, true, false,
  if◌then◌else◌, ◌==◌,
}

-- TVNL_RINGBUFFER_SIZE, and `sizeof (tvn_cuid_state_t)`: two aligned blocks of 64 bytes
abbrev pub ringbuffer_size : ℕ
ringbuffer_size = 0x0010_0000

abbrev pub shm_size : ℕ
shm_size = ringbuffer_size + 128

-- The contents of the segment, with the functions of tvutils for the ring in it; `ring_init` gives its
-- result first. A process reads and writes the node number through `tvn_cuid_state`.
pub record Segment : Type 1 where
  pub Memory : Type 0
  pub is_initialized : (size : ℕ) → Memory → Bool
  pub ring_init : (size : ℕ) → Memory → ℤ × Memory
  pub node_id : Memory → ℕ
  pub set_node_id : ℕ → Memory → Memory
  pub ring_init_lem :
      (size : ℕ) (m : Memory)
      → (ring_init size m).0 ≢ negsuc 0
      → is_initialized size (ring_init size m).1 ≡ true
  -- The number is behind the header of the ring.
  pub is_initialized-set_node_id :
      (size n : ℕ) (m : Memory) → is_initialized size (set_node_id n m) ≡ is_initialized size m
  pub node_id-set_node_id : (n : ℕ) (m : Memory) → node_id (set_node_id n m) ≡ n

-- `tvnl_ringbuffer`; `failed` is `(void *)-1`.
pub data Pointer : Type 0 where
  null : Pointer
  failed : Pointer
  attached : Pointer

-- The variables of a process; `cuid_state` says whether `tvn_cuid_state` is set, and the fields of
-- `tvn_info` other than `service` are left alone.
pub record Process : Type 0 where
  pub ringbuffer : Pointer
  pub cuid_state : Bool
  pub service : List ℕ

abbrev pub fresh : Process
fresh = record { ringbuffer = null; cuid_state = false; service = codes "<unknown>" }

-- `!= NULL`
abbrev pub is_set : Pointer → Bool
is_set null = false
is_set _ = true

abbrev pub is_error : ℤ → Bool
is_error (negsuc ℕ.zero) = true
is_error _ = false

-- The node of this server, or `none` for a return of -1: from the results of `socket`, `getsockname` and
-- `close`, and from what `tipc_node` makes of the socket's node. Without TIPC it is 0.
unfoldable pub find_node : (tipc : Bool) (fd named closed : ℤ) (node : ℕ) → Option ℕ
find_node tipc fd named closed node =
    if tipc
    then (if is_error fd
        then none
        else if is_error named
        then none
        else if is_error closed
        then none
        else some node)
    else some 0

-- What the calls of one `tvn_init` return: `attaches` says whether `shmat` does not return -1.
pub record Answers : Type 0 where
  pub shmid : ℤ
  pub attaches : Bool
  pub fd : ℤ
  pub named : ℤ
  pub closed : ℤ
  pub node : ℕ

module _ (segment : Segment) (tipc : Bool) where
  -- behind a successful `shmat`
  unfoldable pub init_segment : Answers → segment.Memory → ℤ × segment.Memory
  init_segment answers m =
      let found = find_node tipc answers.fd answers.named answers.closed answers.node in
      let (r, m') = segment.ring_init shm_size m in
      if segment.is_initialized shm_size m
      then (pos 0, m)
      else if is_error r
      then (negsuc 0, m')
      else elim found [ none ↦ (negsuc 0, m') | some node ↦ (pos 1, segment.set_node_id node m') ]

  -- `tvn_init`, with `tvu_program_name`
  unfoldable pub tvn_init :
      (program_name : List ℕ) → Answers → Process × segment.Memory → ℤ × Process × segment.Memory
  tvn_init program_name answers (p, m) =
      let (result, m') = init_segment answers m in
      if is_set p.ringbuffer
      then (pos 0, record p { service = program_name }, m)
      else if is_error answers.shmid
      then (negsuc 0, record p { service = program_name }, m)
      else if answers.attaches
      then (result, record { ringbuffer = attached; cuid_state = true; service = program_name }, m')
      else (negsuc 0, record p { ringbuffer = failed; service = program_name }, m)
