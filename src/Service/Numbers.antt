-- ===== src/Service/Numbers.antt =====
-- The numbers of clients, and replies to them.
use libtvnet.Base.{
  ℕ, ◌+◌, ◌-◌, ◌*◌, ◌%◌, ◌^◌, ◌<◌, ◌≡◌, refl, ap, sym, ◌∙◌, List, [], ◌∷◌, ◌++◌, none, some,
  >>=_some, length, length-append, append_assoc, take, take-long, drop, le→leb, arith, ◌≤◌, ℤ, pos,
  negsuc,
}
use libtvnet.Service.Libc.{absolute, Libc}
use libtvnet.Service.Unix.{
  addrlen, sun_path_offset, path_text, make_address, parse_address, client_number,
}
use libtvnet.Service.Addresses.{store_text-room, path_length, parse-path}
use libtvnet.Service.Calls.{
  stored_path, unlink, bind, sendto, service_bind, client_bind, service_recvfrom, service_sendto,
}

pub client_number_lem :
    (pid random : ℕ)
    → 0 < pid
    → pid < 2 ^ 31
    → client_number pid random ≡ negsuc (pid * 2 ^ 32 + random % 2 ^ 32 - 1)
unfolding client_number
client_number_lem pid random h k = ground arith

-- Clients of different processes, or with random numbers that differ in their low 32 bits, have
-- different numbers.
pub client_number-injective :
    (pid random pid' random' : ℕ)
    → 0 < pid
    → pid < 2 ^ 31
    → 0 < pid'
    → pid' < 2 ^ 31
    → client_number pid random ≡ client_number pid' random'
    → (pid ≡ pid') × (random % 2 ^ 32 ≡ random' % 2 ^ 32)
client_number-injective pid random pid' random' h k h' k' e =
    let same : negsuc (pid * 2 ^ 32 + random % 2 ^ 32 - 1)
        ≡ negsuc (pid' * 2 ^ 32 + random' % 2 ^ 32 - 1) =
      sym (client_number_lem pid random h k) ∙ e ∙ client_number_lem pid' random' h' k' in
    let size : absolute (negsuc (pid * 2 ^ 32 + random % 2 ^ 32 - 1))
        ≡ absolute (negsuc (pid' * 2 ^ 32 + random' % 2 ^ 32 - 1)) =
      ap absolute same in
    (omega arith, omega arith)

module _ ⦃libc : Libc⦄ where
  -- the address of `x` over a frame
  abbrev pub address_of : ℤ → (stack : List ℕ) → List ℕ
  address_of x stack = path_text x ++ (0 ∷ drop (length (path_text x) + 1) stack)

  pub made :
      (x : ℤ) (stack : List ℕ)
      → absolute x < 2 ^ 63
      → length stack + 2 ≡ addrlen
      → make_address x stack ≡ some (address_of x stack, 2 + length (path_text x) + 1)
  unfolding make_address
  made x stack h size =
      >>=_some _ _ _ _ (store_text-room (path_text x) stack (omega (arith, path_length x h))) refl

  -- If `address_len` holds TVNS_ADDRLEN or more, the whole name of the sender is stored.
  stored_name :
      (x : ℤ) (stack : List ℕ) (address_len : ℕ)
      → absolute x < 2 ^ 63
      → length stack + 2 ≡ addrlen
      → addrlen ≤ address_len
      → stored_path address_len (path_text x ++ (0 ∷ [])) stack ≡ some (address_of x stack)
  unfolding stored_path
  stored_name x stack address_len h size long =
      let name : List ℕ = path_text x in
      let count : length (name ++ (0 ∷ [])) ≡ length name + 1 = length-append name (0 ∷ []) in
      let fits : length (name ++ (0 ∷ [])) ≤ length stack = omega (arith, path_length x h) in
      let all : take (address_len - sun_path_offset) (name ++ (0 ∷ [])) ≡ name ++ (0 ∷ []) =
        take-long (address_len - sun_path_offset) (name ++ (0 ∷ [])) (omega arith) in
      rw (all, le→leb _ _ fits, count) (ap some (append_assoc name (0 ∷ []) _))

  replied :
      (x : ℤ) {n : ℕ} (stack stack' data_bytes literal : List ℕ) (address_len : ℕ) (bound sent : ℤ)
      (received : ℕ)
      → addrlen ≤ address_len
      → x ≡ negsuc n
      → absolute x < 2 ^ 63
      → length stack + 2 ≡ addrlen
      → length stack' + 2 ≡ addrlen
      → (service_bind stack none bound x
          ≡ some (
            bound,
            unlink (address_of x stack)
                ∷ bind (address_of x stack) (2 + length (path_text x) + 1)
                ∷ [],
          ))
        × (service_recvfrom stack' literal address_len (pos received) (path_text x ++ (0 ∷ []))
            ≡ some (pos received, some x))
        × (service_sendto stack' sent x data_bytes
            ≡ some
                (sent, sendto data_bytes (address_of x stack') (2 + length (path_text x) + 1) ∷ []))
  unfolding service_bind service_recvfrom service_sendto
  replied x {n} stack stack' data_bytes literal address_len bound sent received long e h size
        size' =
      let found : parse_address literal (address_of x stack') ≡ some x =
        parse-path x literal (drop (length (path_text x) + 1) stack') h ∙ rw e refl in
      (
        >>=_some _ _ _ _ (made x stack h size) refl,
        >>=_some _ _ _ _ (stored_name x stack' address_len h size' long)
            (>>=_some _ _ _ _ found refl),
        >>=_some _ _ _ _ (made x stack' h size') refl,
      )

  -- A reply reaches the client: `tvns_client_bind` of a process whose file could be unlinked binds a name
  -- and returns a number; when a message from that name arrives, `tvns_recvfrom` gives that number, and
  -- `tvns_sendto` to it sends to the same name, with the same length. `stack` and `stack'` are what the
  -- frames of the client and of the server hold, and what the uninitialised `address_len` holds is not
  -- less than TVNS_ADDRLEN.
  pub service_sendto-client_bind :
      (pid random : ℕ) (stack stack' data_bytes literal : List ℕ) (address_len : ℕ) (bound sent : ℤ)
      (received : ℕ)
      → addrlen ≤ address_len
      → 0 < pid
      → pid < 2 ^ 31
      → length stack + 2 ≡ addrlen
      → length stack' + 2 ≡ addrlen
      → (n : ℤ) × (path : List ℕ) × (rest : List ℕ) × (rest' : List ℕ) × (len : ℕ) × (client_bind
            stack none bound pid random
          ≡ some (n, bound, unlink (path ++ (0 ∷ rest)) ∷ bind (path ++ (0 ∷ rest)) len ∷ []))
        × (service_recvfrom stack' literal address_len (pos received) (path ++ (0 ∷ []))
            ≡ some (pos received, some n))
        × (service_sendto stack' sent n data_bytes
            ≡ some (sent, sendto data_bytes (path ++ (0 ∷ rest')) len ∷ []))
  unfolding client_bind
  service_sendto-client_bind pid random stack stack' data_bytes literal address_len bound sent
        received long h k size size' =
      let x : ℤ = client_number pid random in
      let e : x ≡ negsuc (pid * 2 ^ 32 + random % 2 ^ 32 - 1) = client_number_lem pid random h k in
      let small : absolute x < 2 ^ 63 = omega (arith, ap absolute e) in
      let (bound_e, received_e, sent_e) =
        replied x stack stack' data_bytes literal address_len bound sent received long e small size
          size' in
      let n : ℕ = length (path_text x) in
      (
        x,
        path_text x,
        drop (n + 1) stack,
        drop (n + 1) stack',
        2 + n + 1,
        >>=_some _ _ _ _ bound_e refl,
        received_e,
        sent_e,
      )
