-- ===== src/Socket/Tests.antt =====
-- An address in a file name.
use ldal.Base.{◌≡◌, some, [], ◌∷◌, arith, replicate}
use ldal.Kernel.{Bytes}
use ldal.Socket.{parse_address, print_address}
use ldal.Socket.RoundTrip.{parse_address-print_address}

abbrev host : Bytes
host = b'1' ∷ b'0' ∷ b'.' ∷ b'1' ∷ []

parse_address-print_address_example :
    parse_address (print_address (replicate 64 0) host 8080) ≡ some (host, 8080)
parse_address-print_address_example =
    parse_address-print_address (replicate 64 0) host 8080 (λ e. cc) (omega arith) (omega arith)
      (omega arith) (omega arith) (omega arith)
