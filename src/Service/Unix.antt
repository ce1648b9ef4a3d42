-- ===== src/Service/Unix.antt =====
-- tvnet/service.h without TIPC: the names of Unix domain sockets. `none` is undefined behaviour or
-- `abort()`.
use libtvnet.Base.{
  ℕ, zero, suc, ◌+◌, ◌*◌, ◌%◌, ◌^◌, List, ◌∷◌, ◌++◌, Option, none, some, ◌>>=◌, codes, length, drop,
  ℤ, pos, negsuc, neg, to_signed, if◌then◌else◌, ◌==◌, leb, Bool, true, false,
}
use libtvnet.Service.Libc.{Libc}

-- TVNS_ADDRLEN and `offsetof(struct sockaddr_un, sun_path)`
abbrev pub addrlen : ℕ
addrlen = 64

abbrev pub sun_path_offset : ℕ
sun_path_offset = 2

-- `memcmp` of `n` bytes is 0
abbrev pub same_bytes : ℕ → List ℕ → List ℕ → Bool
same_bytes zero s t = true
same_bytes (suc n) (c ∷ s) (d ∷ t) = if c == d then same_bytes n s t else false
same_bytes (suc n) _ _ = false

-- A store of a text and its nul at the start of `memory`; behind its end it is undefined.
unfoldable pub store_text : List ℕ → List ℕ → Option (List ℕ)
store_text text memory =
    if leb (length text + 1) (length memory)
    then some (text ++ (0 ∷ drop (length text + 1) memory))
    else none

module _ ⦃libc : Libc⦄ where
  -- the text of the two calls of sprintf
  unfoldable pub path_text : ℤ → List ℕ
  path_text (pos n) = codes "/tmp/tvns_" ++ libc.digits (libc.abs (pos n))
  path_text (negsuc n) = codes "/tmp/tvu_client_" ++ libc.digits (libc.abs (negsuc n))

  -- `tvns_make_address`: the bytes of `sun_path`, over what the memory held, and the length.
  unfoldable pub make_address : ℤ → (memory : List ℕ) → Option (List ℕ × ℕ)
  make_address service_nr memory = store_text (path_text service_nr) memory >>= λ sun_path.
      some (sun_path, sun_path_offset + length (path_text service_nr) + 1)

  -- `tvns_parse_address`. `literal` is what stands in memory behind the nul of the first prefix, which
  -- memcmp compares as well. `service_nr` is left unset if sscanf stores nothing.
  unfoldable pub parse_address : (literal sun_path : List ℕ) → Option ℤ
  parse_address literal sun_path =
      if same_bytes 17 sun_path (codes "/tmp/tvns_" ++ (0 ∷ literal))
      then (libc.scan (drop 10 sun_path) >>= λ service_nr.
          some (to_signed (2 ^ 64) (pos service_nr)))
      else if same_bytes 16 sun_path (codes "/tmp/tvu_client_")
      then (libc.scan (drop 16 sun_path) >>= λ service_nr.
          some (neg (to_signed (2 ^ 64) (pos service_nr))))
      else none

-- The number that `tvns_client_bind` makes of the process and a random number: the halves do not
-- overlap, so that | adds them.
unfoldable pub client_number : (pid random : ℕ) → ℤ
client_number pid random = neg (to_signed (2 ^ 64) (pos (pid % 2 ^ 32 * 2 ^ 32 + random % 2 ^ 32)))
