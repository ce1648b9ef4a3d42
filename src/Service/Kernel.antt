-- ===== src/Service/Kernel.antt =====
-- What the service functions rely on of Unix domain sockets: files that name sockets.
use libtvnet.Base.{
  ℕ, ◌-◌, ◌≡◌, ◌≢◌, ◌⊎◌, List, Option, none, some, ◌>>=◌, ℤ, pos, take, until_nul, Bool, true,
  false, if◌then◌else◌, ◌==◌, negsuc,
}
use libtvnet.Service.Unix.{sun_path_offset}
use libtvnet.Service.Calls.{SocketCall, sendto, enoent}

-- What is reached once socket `fd` is closed.
abbrev pub released : (fd : ℕ) → Option ℕ → Option ℕ
released fd none = none
released fd (some other) = if other == fd then none else some other

-- The state of the file system with the calls of unlink(2) and bind(2), and the socket that a message
-- to a name reaches. The result of `unlink` is its errno if it is -1.
pub record Kernel : Type 1 where
  pub State : Type 0
  pub lookup : State → (name : List ℕ) → Option ℕ
  pub unlink : (name : List ℕ) → State → Option ℕ × State
  pub bind : (fd : ℕ) (name : List ℕ) → State → ℤ × State
  -- close(2) of the only descriptor of a socket
  pub close : (fd : ℕ) → State → State
  -- No name reaches a closed socket; else all is as before.
  pub close-released :
      (fd : ℕ) (name : List ℕ) (s : State) → lookup (close fd s) name ≡ released fd (lookup s name)
  -- Afterwards there is no such file, if unlinking succeeds or finds none; else all is as before.
  pub unlink-gone :
      (name : List ℕ) (s : State)
      → ((unlink name s).0 ≡ none) ⊎ ((unlink name s).0 ≡ some enoent)
      → lookup (unlink name s).1 name ≡ none
  pub unlink-kept :
      (name : List ℕ) (s : State) (errno : ℕ)
      → (unlink name s).0 ≡ some errno
      → errno ≢ enoent
      → lookup (unlink name s).1 name ≡ lookup s name
  pub unlink-other :
      (name other : List ℕ) (s : State)
      → name ≢ other
      → lookup (unlink name s).1 other ≡ lookup s other
  -- A bind that succeeds makes the name one of the socket; else all is as before.
  pub bind-names :
      (fd : ℕ) (name : List ℕ) (s : State)
      → (bind fd name s).0 ≡ pos 0
      → lookup (bind fd name s).1 name ≡ some fd
  pub bind-kept :
      (fd : ℕ) (name : List ℕ) (s : State)
      → (bind fd name s).0 ≢ pos 0
      → lookup (bind fd name s).1 name ≡ lookup s name
  pub bind-other :
      (fd : ℕ) (name other : List ℕ) (s : State)
      → name ≢ other
      → lookup (bind fd name s).1 other ≡ lookup s other

-- The name in an address, which ends at a nul within its length.
abbrev pub name_of : (sun_path : List ℕ) (address_len : ℕ) → Option (List ℕ)
name_of sun_path address_len = until_nul (take (address_len - sun_path_offset) sun_path)

abbrev pub same_errno : Option ℕ → Option ℕ → Bool
same_errno none none = true
same_errno (some m) (some n) = m == n
same_errno _ _ = false

abbrev pub same_number : ℤ → ℤ → Bool
same_number (pos m) (pos n) = m == n
same_number (negsuc m) (negsuc n) = m == n
same_number _ _ = false

module _ (kernel : Kernel) where
  -- The calls of socket `fd` one after the other. `none` if one has no name in its address, or does not
  -- answer what was taken for its result.
  abbrev pub perform :
      (unlinked : Option ℕ) (bound : ℤ) (fd : ℕ)
      → List SocketCall
      → kernel.State
      → Option kernel.State
  perform unlinked bound fd List.[] s = some s
  perform unlinked bound fd (List.◌∷◌ (SocketCall.unlink sun_path) calls) s =
      until_nul sun_path >>= λ name.
      let rest = perform unlinked bound fd calls (kernel.unlink name s).1 in
      if same_errno (kernel.unlink name s).0 unlinked then rest else none
  perform unlinked bound fd (List.◌∷◌ (SocketCall.bind sun_path address_len) calls) s =
      name_of sun_path address_len >>= λ name.
      let rest = perform unlinked bound fd calls (kernel.bind fd name s).1 in
      if same_number (kernel.bind fd name s).0 bound then rest else none
  perform unlinked bound fd (List.◌∷◌ (sendto data_bytes sun_path address_len) calls) s =
      perform unlinked bound fd calls s
  perform unlinked bound fd (List.◌∷◌ SocketCall.close calls) s =
      perform unlinked bound fd calls (kernel.close fd s)
