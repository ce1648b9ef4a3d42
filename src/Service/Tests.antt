-- ===== src/Service/Tests.antt =====
-- The theorems on service addresses at concrete inputs.

use libtvnet.Base.{
  until_nul, ◌>>=◌, ℕ, ◌≤◌, ◌≡◌, refl, List, [], ◌∷◌, ◌++◌, Option, none, some, codes, replicate,
  arith, ℤ, pos, negsuc,
}
use libtvnet.Service.Unix.{
  store_text, addrlen, path_text, make_address, parse_address, client_number,
}
use libtvnet.Service.Addresses.{client_only, parse_address-make_address}
use libtvnet.Service.Calls.{
  service_bind, unlink, bind, sendto, client_bind, service_recvfrom, service_sendto,
}
use libtvnet.Service.Numbers.{service_sendto-client_bind}
use libtvnet.Service.Registry.{
  Request, open_service, open_client, leave_service, close_service, Registry, run_requests,
  destination,
}
use libtvnet.Service.Sample.{Files, sample_kernel, sample_libc}

abbrev frame : List ℕ
frame = replicate 62 7

-- -5
abbrev client : ℤ
client = negsuc 4

client_path : path_text client ≡ codes "/tmp/tvu_client_0000000000000000005"
unfolding path_text
client_path = refl

parse_address-make_address_example :
    (sun_path : List ℕ) × (address_len : ℕ) × (make_address client frame
      ≡ some (sun_path, address_len))
    × (address_len ≤ addrlen)
    × (parse_address (replicate 6 9) sun_path ≡ client_only client)
parse_address-make_address_example =
    parse_address-make_address client frame (replicate 6 9) (omega arith) refl

service_sendto-client_bind_example :
    (n : ℤ) × (path : List ℕ) × (rest : List ℕ) × (rest' : List ℕ) × (len : ℕ) × (client_bind frame
        none
        (pos 0)
        1000
        7
      ≡ some (n, pos 0, unlink (path ++ (0 ∷ rest)) ∷ bind (path ++ (0 ∷ rest)) len ∷ []))
    × (service_recvfrom (replicate 62 8) (replicate 6 9) 128 (pos 3) (path ++ (0 ∷ []))
        ≡ some (pos 3, some n))
    × (service_sendto (replicate 62 8) (pos 2) n (1 ∷ 2 ∷ [])
        ≡ some (pos 2, sendto (1 ∷ 2 ∷ []) (path ++ (0 ∷ rest')) len ∷ []))
service_sendto-client_bind_example =
    service_sendto-client_bind 1000 7 frame (replicate 62 8) (1 ∷ 2 ∷ []) (replicate 6 9) 128
      (pos 0) (pos 2) 3 (omega arith) (omega arith) (omega arith) refl refl

-- Two sockets, on service 5 and as a client; the first is closed.
abbrev requests : List Request
requests =
    open_service 3 (pos 5)
    ∷ open_client 4 1000 7
    ∷ leave_service 3 (pos 5)
    ∷ close_service 3 (pos 5) (pos 0)
    ∷ []

abbrev no_files : Files
no_files name = none

abbrev no_sockets : Registry
no_sockets x = none

-- the two sockets, before they are closed
opened_files : Option Files
opened_files =
    run_requests sample_kernel frame
      ((open_service 3 (pos 5), (some 2, pos 0)) ∷ (open_client 4 1000 7, (some 2, pos 0)) ∷ [])
      no_files

message_reaches :
    (opened_files >>= λ files. destination sample_kernel frame files (pos 5) (pos 2) (1 ∷ 2 ∷ []))
    ≡ some (some 3)
unfolding opened_files service_bind client_bind client_number service_sendto make_address store_text
    path_text until_nul
message_reaches = refl
