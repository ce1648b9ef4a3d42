-- ===== src/Pyext/Exchange.antt =====
-- Python programs that exchange objects over the sockets of services.
use libtvnet.Base.{ℕ, ◌≡◌, List, [], ◌∷◌, ◌++◌, none, some, length, ℤ, pos}
use libtvnet.Tvutils.{Tvutils}
use libtvnet.Service.Libc.{Libc}
use libtvnet.Service.Calls.{unlink, bind, sendto}
use libtvnet.Pyext.Objects.{Objects, Python}
use libtvnet.Pyext.Bytes.{received_items, AlikeItems}
use libtvnet.Pyext.Encoder.{encode}
use libtvnet.Pyext.Decoder.{done, decode}
use libtvnet.Pyext.Message.{reply}
use libtvnet.Pyext.Sockets.{
  py_none, py_number, py_message, py_bind, py_client_bind, py_sendto, py_recvfrom,
}

-- A socket file's address: the name, its nul, and what the frame held behind it.
abbrev pub at_name : (name rest : List ℕ) → List ℕ
at_name name rest = name ++ (0 ∷ rest)

module _ ⦃tv : Tvutils⦄ ⦃py : Python⦄ ⦃libc : Libc⦄ (string_new : ℕ → List ℕ)
    (junk size fuel : ℕ) where
  -- A request of `args` to service `x` of socket `fd'`, from a client on socket `fd`, and an answer.
  -- `stack` and `stack'` are what the frames of the client and of the server hold.
  pub record Exchanged (x : ℤ) (pid random fd fd' : ℕ) (stack stack' literal : List ℕ)
      (address_len : ℕ) (unused answer : List ℕ) (args : Objects) : Type 0 where
    -- the number and the name of the client, the name of the service, and what stands behind the names
    pub number : ℤ
    pub client : List ℕ
    pub server : List ℕ
    pub behind_bind : List ℕ
    pub behind_served : List ℕ
    pub behind_sent : List ℕ
    pub behind_answer : List ℕ
    pub client_len : ℕ
    pub server_len : ℕ
    pub bytes : List ℕ
    pub served :
        py_bind stack' none (pos 0) (some (fd', x))
        ≡ some (
          py_none,
          unlink (at_name server behind_served)
              ∷ bind (at_name server behind_served) server_len
              ∷ [],
        )
    pub bound :
        py_client_bind stack none (pos 0) pid random (some fd)
        ≡ some (
          py_number number,
          unlink (at_name client behind_bind) ∷ bind (at_name client behind_bind) client_len ∷ [],
        )
    pub encoded : encode string_new size args ≡ some (some bytes)
    pub sent :
        py_sendto stack (pos (length bytes)) (some (fd, x, bytes))
        ≡ some (
          py_number (pos (length bytes)),
          sendto bytes (at_name server behind_sent) server_len ∷ [],
        )
    pub received :
        py_recvfrom stack' literal address_len
          (pos (length bytes))
          (bytes ++ unused)
          (at_name client [])
          (some fd')
        ≡ some (py_message bytes number)
    pub decoded :
        decode junk fuel bytes
        ≡ done
            (some (reply (received_items args)))
            (record { data_bytes = bytes; offset = length bytes; size = length bytes })
    pub alike : AlikeItems args (received_items args)
    pub answered :
        py_sendto stack' (pos (length answer)) (some (fd', number, answer))
        ≡ some (
          py_number (pos (length answer)),
          sendto answer (at_name client behind_answer) client_len ∷ [],
        )
