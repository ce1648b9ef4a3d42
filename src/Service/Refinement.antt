-- ===== src/Service/Refinement.antt =====
-- Any requests of programs, as the service functions serve them, keep the registry of numbers.
use libtvnet.Base.{ℕ, ◌+◌, ◌≡◌, List, [], ◌∷◌, Option, some, length, ℤ}
use libtvnet.Service.Libc.{Libc}
use libtvnet.Service.Unix.{addrlen}
use libtvnet.Service.Calls.{SocketCall, service_bind}
use libtvnet.Service.Kernel.{Kernel, perform}
use libtvnet.Service.Registry.{Request, Answer, Registry, opened, replay, run_request}
use libtvnet.Service.Names.{Names}

module _ ⦃libc : Libc⦄ (kernel : Kernel) (stack : List ℕ) (size : length stack + 2 ≡ addrlen) where
  -- what `tvns_bind` comes to
  abbrev Opens : (fd : ℕ) → ℤ → kernel.State → Registry → Type 0
  Opens fd x s reg =
      (unlinked : Option ℕ) × (bound : ℤ) × (result : ℤ) × (calls : List SocketCall)
      × (s' : kernel.State) × (service_bind stack unlinked bound x ≡ some (result, calls))
      × (perform kernel unlinked bound fd calls s ≡ some s')
      × Names kernel stack size s' (opened fd x (unlinked, bound) reg)

  -- what one request comes to
  Answered : Request → kernel.State → Registry → Type 0
  Answered r s reg =
      (answer : Answer) × (s' : kernel.State) × (run_request kernel stack (r, answer) s ≡ some s')
      × Names kernel stack size s' (replay ((r, answer) ∷ []) reg)
