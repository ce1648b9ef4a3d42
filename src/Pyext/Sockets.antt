-- ===== src/Pyext/Sockets.antt =====
-- pyext/tvnetmodule.c, the functions that hand their arguments to tvutils, tvn_cuid and the socket
-- functions. What `PyArg_ParseTuple` makes of the arguments is an input, `none` if it refuses them.
use libtvnet.Base.{
  ℕ, zero, List, Option, none, some, ◌>>=◌, ℤ, pos, negsuc, Bool, true, false, if◌then◌else◌, take,
  [],
}
use libtvnet.Service.Libc.{Libc}
use libtvnet.Service.Calls.{
  SocketCall, service_bind, unbind, client_bind, service_sendto, service_recvfrom, service_close,
}

-- What a function returns: NULL with the exception of `PyArg_ParseTuple`, NULL with an IOError, None, a
-- number, or a string with a number.
pub data Returned : Type 0 where
  refused : Returned
  io_error : Returned
  py_none : Returned
  py_number : (x : ℤ) → Returned
  py_message : (s : List ℕ) (service_nr : ℤ) → Returned

abbrev pub is_minus_one : ℤ → Bool
is_minus_one (negsuc zero) = true
is_minus_one _ = false

-- `pytvn_init`, with the argument of `tvu_init`
unfoldable pub py_init : (argv0 : Option (List ℕ)) → Returned × Option (List ℕ)
py_init none = (refused, none)
py_init (some argv0) = (py_none, some argv0)

-- `pytvn_socket`, by the result of `tvns_socket`
unfoldable pub py_socket : (parsed : Bool) (fd : ℤ) → Returned
py_socket parsed fd =
    if parsed then (if is_minus_one fd then io_error else py_number fd) else refused

-- `pytvn_cuid`, by the result of `tvn_cuid`
unfoldable pub py_cuid : (parsed : Bool) (id : ℤ) → Returned
py_cuid parsed id = if parsed then (if is_minus_one id then io_error else py_number id) else refused

-- None, or the exception that errno says
abbrev pub none_or_error : ℤ → Returned
none_or_error r = if is_minus_one r then io_error else py_none

-- The descriptor is `fd`; the results of system calls are inputs, and the calls made are results.
module _ ⦃libc : Libc⦄ (stack : List ℕ) where
  -- `pytvn_bind`
  unfoldable pub py_bind :
      (unlinked : Option ℕ) (bound : ℤ) → Option (ℕ × ℤ) → Option (Returned × List SocketCall)
  py_bind unlinked bound none = some (refused, [])
  py_bind unlinked bound (some (fd, service_nr)) =
      service_bind stack unlinked bound service_nr >>= λ (r, calls). some (none_or_error r, calls)

  -- `pytvn_unbind`
  unfoldable pub py_unbind : Option (ℕ × ℤ) → Returned × List SocketCall
  py_unbind none = (refused, [])
  py_unbind (some (fd, service_nr)) =
      let (r, calls) = unbind stack service_nr in (none_or_error r, calls)

  -- `pytvn_client_bind`
  unfoldable pub py_client_bind :
      (unlinked : Option ℕ) (bound : ℤ) (pid random : ℕ)
      → Option ℕ
      → Option (Returned × List SocketCall)
  py_client_bind unlinked bound pid random none = some (refused, [])
  py_client_bind unlinked bound pid random (some fd) =
      client_bind stack unlinked bound pid random >>= λ (service_nr, r, calls).
      some (if is_minus_one r then io_error else py_number service_nr, calls)

  -- `pytvn_sendto`, with the flags left out
  unfoldable pub py_sendto :
      (sent : ℤ) → Option (ℕ × ℤ × List ℕ) → Option (Returned × List SocketCall)
  py_sendto sent none = some (refused, [])
  py_sendto sent (some (fd, service_nr, data_bytes)) =
      service_sendto stack sent service_nr data_bytes >>= λ (r, calls).
      some (if is_minus_one r then io_error else py_number r, calls)

  -- `pytvn_close`
  unfoldable pub py_close : (closed : ℤ) → Option (ℕ × ℤ) → Option (Returned × List SocketCall)
  py_close closed none = some (refused, [])
  py_close closed (some (fd, service_nr)) =
      service_close stack closed service_nr >>= λ (r, calls). some (none_or_error r, calls)

-- the array of `pytvn_recvfrom`
abbrev pub receive_size : ℕ
receive_size = 65536

-- `pytvn_recvfrom`, by the result of `recvfrom`, what the array then holds, and the address of the
-- sender. A result
-- of `recvfrom` other than -1 is a size.
unfoldable pub py_recvfrom :
    ⦃libc : Libc⦄ (stack literal : List ℕ) (address_len : ℕ) (received : ℤ) (buffer from : List ℕ)
    → Option ℕ
    → Option Returned
py_recvfrom stack literal address_len received buffer from none = some refused
py_recvfrom stack literal address_len received buffer from (some fd) =
    service_recvfrom stack literal address_len received from >>= λ (r, service_nr).
    elim service_nr [
      | none ↦ some io_error
      | some n ↦ elim r [ pos size ↦ some (py_message (take size buffer) n) | negsuc m ↦ none ]
    ]
