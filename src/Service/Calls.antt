-- ===== src/Service/Calls.antt =====
-- tvnet/service.h without TIPC: the system calls that its functions make. `none` is undefined behaviour
-- or `abort()`.
use libtvnet.Base.{
  ℕ, zero, ◌-◌, leb, take, drop, length, ◌++◌, List, [], ◌∷◌, Option, none, some, ◌>>=◌, ℤ, pos,
  negsuc, if◌then◌else◌, ◌==◌,
}
use libtvnet.Service.Libc.{Libc}
use libtvnet.Service.Unix.{sun_path_offset, make_address, parse_address, client_number}

-- The calls with an address, which is given by the bytes of `sun_path` and the length.
pub data SocketCall : Type 0 where
  unlink : (sun_path : List ℕ) → SocketCall
  bind : (sun_path : List ℕ) (address_len : ℕ) → SocketCall
  sendto : (data_bytes : List ℕ) (sun_path : List ℕ) (address_len : ℕ) → SocketCall
  close : SocketCall

-- ENOENT
abbrev pub enoent : ℕ
enoent = 2

-- `stack` is what the frame holds where the address is allocated. Results of system calls are inputs:
-- that of `unlink` is its errno if it is -1.
module _ ⦃libc : Libc⦄ (stack : List ℕ) where
  -- `tvns_bind`
  unfoldable pub service_bind : (unlinked : Option ℕ) (bound : ℤ) → ℤ → Option (ℤ × List SocketCall)
  service_bind unlinked bound service_nr =
      make_address service_nr stack >>= λ (sun_path, address_len). elim unlinked [
        | none ↦ some (bound, unlink sun_path ∷ bind sun_path address_len ∷ [])
        | some errno ↦
            if errno == enoent
            then some (bound, unlink sun_path ∷ bind sun_path address_len ∷ [])
            else some (negsuc 0, unlink sun_path ∷ [])
      ]

  -- `tvns_unbind`
  unfoldable pub unbind : ℤ → ℤ × List SocketCall
  unbind service_nr = (pos 0, [])

  -- `tvns_client_bind`, with the number that it stores
  unfoldable pub client_bind :
      (unlinked : Option ℕ) (bound : ℤ) (pid random : ℕ) → Option (ℤ × ℤ × List SocketCall)
  client_bind unlinked bound pid random =
      service_bind unlinked bound (client_number pid random) >>= λ (r, calls).
      some (client_number pid random, r, calls)

  -- `tvns_sendto`
  unfoldable pub service_sendto :
      (sent : ℤ) → ℤ → (data_bytes : List ℕ) → Option (ℤ × List SocketCall)
  service_sendto sent service_nr data_bytes =
      make_address service_nr stack >>= λ (sun_path, address_len).
      some (sent, sendto data_bytes sun_path address_len ∷ [])

  -- `tvns_close`, whose result is that of `close`
  unfoldable pub service_close : (closed : ℤ) → ℤ → Option (ℤ × List SocketCall)
  service_close closed service_nr = make_address service_nr stack >>= λ (sun_path, address_len).
      some (closed, unlink sun_path ∷ close ∷ [])

-- What the frame's `sun_path` holds once `recvfrom` has stored an address whose `sun_path` is `from`: as
-- many of its bytes as the `address_len` that it is given leaves, over what the frame held. A store behind
-- the frame's bytes is undefined.
unfoldable pub stored_path : (address_len : ℕ) (from stack : List ℕ) → Option (List ℕ)
stored_path address_len from stack =
    let cs = take (address_len - sun_path_offset) from in
    if leb (length cs) (length stack) then some (cs ++ drop (length cs) stack) else none

-- `tvns_recvfrom`, by the result of `recvfrom` and the address of the sender: its result, with the number
-- that is stored unless it is -1. `address_len` is what the uninitialised variable holds.
unfoldable pub service_recvfrom :
    ⦃libc : Libc⦄ (stack literal : List ℕ) (address_len : ℕ) (received : ℤ) (from : List ℕ)
    → Option (ℤ × Option ℤ)
unfolding stored_path
service_recvfrom stack literal address_len (negsuc zero) from = some (negsuc 0, none)
service_recvfrom stack literal address_len received from =
    stored_path address_len from stack >>= λ sun_path.
    parse_address literal sun_path >>= λ service_nr. some (received, some service_nr)
