-- ===== src/Service/Registry.antt =====
-- The service functions over time: which socket a number reaches, as a map from numbers to sockets.
use libtvnet.Base.{
  ℕ, ◌^◌, ◌<◌, ◌≡◌, ◌≢◌, refl, ap, List, [], ◌∷◌, Option, none, some, ◌>>=◌, arith, ℤ, pos, negsuc,
  Bool, true, false, if◌then◌else◌, ◌==◌,
}
use libtvnet.Service.Libc.{absolute, Libc}
use libtvnet.Service.Unix.{client_number}
use libtvnet.Service.Calls.{
  SocketCall, sendto, enoent, service_bind, client_bind, unbind, service_sendto, service_close,
}
use libtvnet.Service.Kernel.{Kernel, released, name_of, same_errno, same_number, perform}

-- What a program asks for, by the socket and the number. `closed` is what `close` returns.
pub data Request : Type 0 where
  open_service : (fd : ℕ) (service_nr : ℤ) → Request
  open_client : (fd pid random : ℕ) → Request
  leave_service : (fd : ℕ) (service_nr : ℤ) → Request
  close_service : (fd : ℕ) (service_nr closed : ℤ) → Request

-- The number is not the least of 64 bits; a process has a positive 31-bit number.
abbrev pub IsRequest : Request → Type 0
IsRequest (open_service fd x) = absolute x < 2 ^ 63
IsRequest (open_client fd pid random) = (0 < pid) × (pid < 2 ^ 31)
IsRequest (leave_service fd x) = Unit
IsRequest (close_service fd x closed) = absolute x < 2 ^ 63

-- The results of `unlink` and of `bind`, if they are called.
abbrev pub Answer : Type 0
Answer = Option ℕ × ℤ

-- A map from numbers to sockets.
abbrev pub Registry : Type 0
Registry = ℤ → Option ℕ

abbrev pub update : ℤ → Option ℕ → Registry → Registry
update x v reg y = if same_number x y then v else reg y

-- No file is left behind.
abbrev pub is_gone : Option ℕ → Bool
is_gone none = true
is_gone (some errno) = errno == enoent

-- What each request comes to. A file that cannot be unlinked stays; one that is unlinked is gone even if
-- `bind` fails then.
abbrev pub opened : (fd : ℕ) → ℤ → Answer → Registry → Registry
opened fd x (unlinked, result) reg =
    if is_gone unlinked
    then update x (if same_number result (pos 0) then some fd else none) reg
    else reg

-- No number reaches a closed socket.
abbrev pub closing : (fd : ℕ) → Registry → Registry
closing fd reg y = released fd (reg y)

abbrev pub replay : List (Request × Answer) → Registry → Registry
replay [] reg = reg
replay ((open_service fd x, answer) ∷ es) reg = replay es (opened fd x answer reg)
replay ((open_client fd pid random, answer) ∷ es) reg =
    replay es (opened fd (client_number pid random) answer reg)
replay ((leave_service fd x, answer) ∷ es) reg = replay es reg
replay ((close_service fd x closed, (unlinked, result)) ∷ es) reg =
    replay es (closing fd (if is_gone unlinked then update x none reg else reg))

abbrev pub asked : List (Request × Answer) → List Request
asked [] = []
asked ((r, answer) ∷ es) = r ∷ asked es

pub same_number_refl : (x : ℤ) → same_number x x ≡ true
same_number_refl (pos n) = ground arith
same_number_refl (negsuc n) = ground arith

pub same_errno_refl : (u : Option ℕ) → same_errno u u ≡ true
same_errno_refl none = refl
same_errno_refl (some n) = ground arith

pub same_number-true : (x y : ℤ) → same_number x y ≡ true → x ≡ y
same_number-true (pos m) (pos n) e = ap pos (ground arith)
same_number-true (negsuc m) (negsuc n) e = ap negsuc (ground arith)
same_number-true (pos m) (negsuc n) e = absurd (cc e)
same_number-true (negsuc m) (pos n) e = absurd (cc e)

pub same_number-false : (x y : ℤ) → same_number x y ≡ false → x ≢ y
same_number-false x y e same =
    let yes : same_number x y ≡ true = rw same (same_number_refl y) in absurd (cc (e, yes))

module _ ⦃libc : Libc⦄ (kernel : Kernel) (stack : List ℕ) where
  -- The call of each request, performed with the answers that it is given.
  abbrev pub run_request : Request × Answer → kernel.State → Option kernel.State
  run_request (open_service fd x, (unlinked, bound)) s =
      service_bind stack unlinked bound x >>= λ (result, calls).
      perform kernel unlinked bound fd calls s
  run_request (open_client fd pid random, (unlinked, bound)) s =
      client_bind stack unlinked bound pid random >>= λ (n, result, calls).
      perform kernel unlinked bound fd calls s
  run_request (leave_service fd x, (unlinked, bound)) s =
      perform kernel unlinked bound fd (unbind stack x).1 s
  run_request (close_service fd x closed, (unlinked, bound)) s =
      service_close stack closed x >>= λ (result, calls). perform kernel unlinked bound fd calls s

  abbrev pub run_requests : List (Request × Answer) → kernel.State → Option kernel.State
  run_requests [] s = some s
  run_requests (e ∷ es) s = run_request e s >>= run_requests es

  -- The socket that the one call of `tvns_sendto` reaches.
  abbrev pub reached : kernel.State → List SocketCall → Option (Option ℕ)
  reached s (sendto data_bytes sun_path address_len ∷ []) =
      name_of sun_path address_len >>= λ name. some (kernel.lookup s name)
  reached s _ = none

  abbrev pub destination : kernel.State → ℤ → (sent : ℤ) (data_bytes : List ℕ) → Option (Option ℕ)
  destination s x sent data_bytes =
      service_sendto stack sent x data_bytes >>= λ (result, calls). reached s calls

  -- Messages reach what the registry says.
  abbrev pub Registers : kernel.State → Registry → Type 0
  Registers s reg =
      (x : ℤ) (sent : ℤ) (data_bytes : List ℕ)
      → absolute x < 2 ^ 63
      → destination s x sent data_bytes ≡ some (reg x)
