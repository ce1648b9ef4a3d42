-- ===== src/Buffer.antt =====
-- The part of tvutils' `tvu_buffer_t` that the pickle code touches: bytes, an offset and a size.
-- A store or a load outside `data` is a fault, `none`. Offsets are 64 bits wide.
pub mod Laws
use libtvnet.Base.{
  ℕ, suc, ◌+◌, ◌%◌, ◌^◌, ◌≤◌, ◌<◌, List, [], ◌∷◌, Option, none, some, ◌>>=◌, length, set, take,
  drop, get_elem?, ltb, leb, if◌then◌else◌, Bool, All,
}

pub record Buffer : Type 0 where
  pub data_bytes : List ℕ  -- the memory behind the pointer `data`
  pub offset : ℕ
  pub size : ℕ

-- `buffer->data[buffer->offset++] = c`
unfoldable pub put_byte : ℕ → Buffer → Option Buffer
put_byte c b =
    if ltb b.offset (length b.data_bytes)
    then some (record b { data_bytes = set b.data_bytes b.offset c; offset = suc b.offset })
    else none

-- Consecutive stores from the offset on, with the offset moved behind them.
unfoldable pub put : List ℕ → Buffer → Option Buffer
put [] b = some b
put (c ∷ cs) b = put_byte c b >>= put cs

-- `buffer->offset += n`
unfoldable pub advance : ℕ → Buffer → Buffer
advance n b = record b { offset = (b.offset + n) % 2 ^ 64 }

-- the condition of TVNP_DECODE_BOUND_CHECK
unfoldable pub past_end : ℕ → Buffer → Bool
past_end n b = ltb b.size ((b.offset + n) % 2 ^ 64)

-- `n` bytes at the offset
unfoldable pub load : ℕ → Buffer → Option (List ℕ)
load n b =
    if leb (b.offset + n) (length b.data_bytes)
    then some (take n (drop b.offset b.data_bytes))
    else none

-- `size` does not reach behind the memory, and the offset is at most one byte behind `size`
-- (the nul of a UTF-8 string is skipped without a check).
pub record IsReadable (b : Buffer) : Type 0 where
  pub bytes : All (λ c. c < 256) b.data_bytes
  pub backed : b.size ≤ length b.data_bytes
  pub at_most_one_past : b.offset ≤ b.size + 1
  pub addressable : b.size < 2 ^ 63
