-- ===== src/Tools/Tests.antt =====
-- Runs of the programs of tools, and theorems applied to them.
use ldal.Base.{
  ◌≡◌, refl, ℕ, ◌≤◌, ◌⊎◌, ℤ, pos, negsuc, Bool, true, false, List, [], ◌∷◌, leb, ◌==◌,
  if◌then◌else◌, length, codes, arith, some,
}
use ldal.Kernel.{
  Bytes, Answer, Address, any, Env, History, socket, accept_fd, recv_fd, send_fd, select_set,
  recv_from, read_fd,
}
use ldal.Socket.{text_of}
use ldal.Tools.{◌>>=◌, sys, give, stopped, exited, lost, value}
use ldal.Tools.TcpEcho.Echoed.{all_sent, IsEchoed}
use ldal.Tools.TcpEcho.Rounds.{main-IsEchoed}
use ldal.Tools.TcpEcho.Descriptors.{openings, closings}
use ldal.Tools.TcpEcho.Pool.{Ends, main-Ends}
use ldal.Tools.TcpEcho.Willing.{selects, IsWilling}
use ldal.Tools.TcpEcho.Shutdown.{main-returns}
use ldal.Tools.TcpEcho
use ldal.Tools.UdpEcho
use ldal.Tools.UdpEcho.{port}
use ldal.Tools.UdpEcho.Replies.{replied}
use ldal.Tools.ListDevice

abbrev gives : ℤ → Bytes → Answer
gives n s = record { ret = n; payload = s; errno = 0 }

-- The set that `select` leaves is the list of what it stores.
abbrev holds : ℕ → List ℕ → Bool
holds k [] = false
holds k (x ∷ xs) = if k == x then true else holds k xs

abbrev in_set : Answer → ℤ → Bool
in_set r (pos k) = holds k r.payload
in_set r (negsuc k) = false

-- One client connects, sends two bytes and closes; then the keyboard is ready.
abbrev ready : ℕ → List ℕ
ready n = if leb 3 n then 0 ∷ [] else if n == 0 then 3 ∷ [] else 4 ∷ []

abbrev has_received : History → Bool
has_received [] = false
has_received (recv_fd fd n ∷ h) = true
has_received (_ ∷ h) = has_received h

abbrev arriving : History → ℕ
arriving h = if has_received h then 0 else 2

abbrev visit : Env
visit h (socket k) = gives (pos 3) []
visit h (accept_fd fd) = gives (pos 4) []
visit h (recv_fd fd n) = gives (pos (arriving h)) (104 ∷ 105 ∷ [])
visit h (send_fd fd s) = gives (pos (length s)) []
visit h (select_set n fds t) = gives (pos 1) (ready (selects h))
visit h _ = gives (pos 0) []

abbrev no_number : Bytes → ℤ
no_number s = pos 5

received_le : (b : Bool) → (if b then 0 else 2) ≤ 2
received_le b = ground arith

ready_late : (n : ℕ) → 3 ≤ n → ready n ≡ 0 ∷ []
ready_late n late = ground arith

visit-IsWilling : IsWilling visit in_set 3
visit-IsWilling = record {
  sockets = λ h k. refl;
  binds = λ h fd a. refl;
  listens = λ h fd n. refl;
  accepts = λ h fd. refl;
  keeps = λ h fd. refl;
  length_received = λ h k n. arriving h;
  receives = λ h k n. (refl, received_le (has_received h));
  sends = λ h k s. refl;
  free = λ r k. refl;
  keyboard = λ h n t fds late. (refl, rw (ready_late (selects h) late) refl);
}

main-returns_example :
    let (r, h) =
      TcpEcho.main in_set no_number 4 (codes "s" ∷ codes "5" ∷ codes "7" ∷ []) visit [] in
    (r ≡ value 0) × ((k : ℕ) → openings visit (pos k) h ≡ closings (pos k) h) × IsEchoed visit h
main-returns_example =
    main-returns visit in_set 3 no_number 4 (codes "s") (codes "5") (codes "7") [] visit-IsWilling
      (omega arith)

main-Ends_example :
    Ends visit 101
      (TcpEcho.main in_set no_number 2 (codes "s" ∷ codes "5" ∷ codes "7" ∷ []) visit [])
main-Ends_example =
    main-Ends visit in_set no_number 2 (codes "s") (codes "5") (codes "7") [] (λ h s. refl)

main-IsEchoed_example :
    let (r, h) =
      TcpEcho.main in_set no_number 2 (codes "s" ∷ codes "5" ∷ codes "7" ∷ []) visit [] in
    (r ≡ stopped exited) ⊎ IsEchoed visit h
main-IsEchoed_example =
    main-IsEchoed visit in_set no_number 2 (codes "s" ∷ codes "5" ∷ codes "7" ∷ [])

-- Two rounds: a client was accepted, and its two bytes went back.
echoed_twice :
    let (r, h) =
      TcpEcho.main in_set no_number 2 (codes "s" ∷ codes "5" ∷ codes "7" ∷ []) visit [] in
    (r ≡ stopped lost) × (all_sent visit (pos 4) h ≡ 104 ∷ 105 ∷ [])
unfolding TcpEcho.main all_sent ◌>>=◌ sys give selects
echoed_twice = (refl, refl)

abbrev from_me : Answer → Address
from_me r = record { host = any; port = 9 }

-- Every datagram is the text "hi", a NUL and a byte more.
abbrev letters : Env
letters h (recv_from fd n) = gives (pos 4) (104 ∷ 105 ∷ 0 ∷ 9 ∷ [])
letters h _ = gives (pos 3) []

replied_twice :
    let (r, h) = UdpEcho.main from_me 2 (port (codes "9") ∷ []) letters [] in
    (r ≡ stopped lost)
    × (replied letters from_me h
        ≡ (104 ∷ 105 ∷ 0 ∷ [], from_me (gives (pos 0) []))
          ∷ (104 ∷ 105 ∷ 0 ∷ [], from_me (gives (pos 0) []))
          ∷ [])
unfolding UdpEcho.main replied ◌>>=◌ give sys text_of
replied_twice = (refl, refl)

-- The server answers with one line.
abbrev devices : Env
devices h (read_fd fd n) = gives (pos 3) (97 ∷ 98 ∷ 10 ∷ [])
devices h (socket k) = gives (pos 3) []
devices h _ = gives (pos 0) []

printed_line : (ListDevice.main [] devices []).0 ≡ value (some (97 ∷ 98 ∷ 10 ∷ []))
unfolding ListDevice.main ◌>>=◌ UdpEcho.parse_options give sys text_of
printed_line = refl
