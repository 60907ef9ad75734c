-- ===== src/Tools/TcpEcho.antt =====
-- tools/tcp_echo_server.c: a server that sends each client back what it receives from it, for
-- several ports and at most 100 clients, in one loop around `select`.
pub mod Echoed
pub mod Rounds
pub mod Descriptors
pub mod Pool
pub mod Willing
pub mod Shutdown
use ldal.Base.{
  ℕ, zero, suc, ◌+◌, ℤ, pos, negsuc, Bool, true, false, List, [], ◌∷◌, ltb, ◌==◌, if◌then◌else◌,
  is_neg, is_zero, take, replicate, ◌++◌, ◌+ℤ◌,
}
use ldal.Kernel.{
  Bytes, Answer, any, socket, stream, bind_addr, listen_fd, accept_fd, recv_fd, send_fd, close_fd,
  select_set, get_char, pure,
}
use ldal.Socket.{atoi16}
use ldal.Tools.{stopped, lost, Program, give, exit, sys, ◌>>=◌, ◌>>◌}

abbrev pub maxpending : ℕ
maxpending = 5

abbrev pub maxclient : ℕ
maxclient = 100

abbrev pub rcvbufsize : ℕ
rcvbufsize = 1024

-- `CreateTCPServerSocket`
unfoldable pub create_tcp_server_socket : ℕ → Program ℤ
create_tcp_server_socket port = do
  s ← sys (socket stream)
  if is_neg s.ret then exit else do
    b ← sys (bind_addr s.ret (record { host = any; port = port }))
    if is_neg b.ret
        then exit
        else do l ← sys (listen_fd s.ret maxpending); if is_neg l.ret then exit else give s.ret

-- `AcceptTCPConnection`
unfoldable pub accept_tcp_connection : ℤ → Program ℤ
accept_tcp_connection serv = do c ← sys (accept_fd serv); if is_neg c.ret then exit else give c.ret

-- `send(...) != n`, where `n` is positive.
abbrev pub is_count : ℤ → ℕ → Bool
is_count (pos k) n = k == n
is_count (negsuc k) n = false

-- The end of `HandleTCPClient`, after a `recv` that returned a number.
unfoldable pub echo : ℤ → Bytes → ℤ → Program ℕ
echo client buffer (negsuc k) = exit
echo client buffer (pos n) =
    if n == 0
    then give 0
    else do s ← sys (send_fd client (take n buffer)); if is_count s.ret n then give n else exit

-- `HandleTCPClient`
unfoldable pub handle_tcp_client : ℤ → Program ℕ
unfolding echo
handle_tcp_client client = do r ← sys (recv_fd client rcvbufsize); echo client r.payload r.ret

-- `for (port = 0; ...) servSock[port] = CreateTCPServerSocket(atoi(argv[port + 2]))`
unfoldable pub create_sockets : List Bytes → Program (List ℤ)
unfolding create_tcp_server_socket
create_sockets [] = give []
create_sockets (arg ∷ args) = do
  s ← create_tcp_server_socket (atoi16 arg)
  ss ← create_sockets args
  give (s ∷ ss)

-- The free slots of `cliSock` hold -1. A new client goes to the first of them, and nothing is
-- accepted if there is none.
unfoldable pub accept_into : ℤ → List ℤ → Program (List ℤ)
unfolding accept_tcp_connection
accept_into serv [] = give []
accept_into serv (c ∷ cs) =
    if is_neg c
    then (do n ← accept_tcp_connection serv; give (n ∷ cs))
    else (do cs' ← accept_into serv cs; give (c ∷ cs'))

abbrev is_pos : ℤ → Bool
is_pos (pos zero) = false
is_pos (pos (suc n)) = true
is_pos (negsuc n) = false

-- The descriptors that are greater than zero.
unfoldable pub watched : List ℤ → List ℤ
watched [] = []
watched (c ∷ cs) = if is_pos c then c ∷ watched cs else watched cs

abbrev pub greater : ℤ → ℤ → ℤ
greater (pos a) (pos b) = pos (if ltb a b then b else a)
greater (pos a) (negsuc b) = pos a
greater (negsuc a) (pos b) = pos b
greater (negsuc a) (negsuc b) = negsuc (if ltb b a then b else a)

unfoldable pub max_descriptor : ℤ → List ℤ → ℤ
max_descriptor m [] = m
max_descriptor m (fd ∷ fds) = max_descriptor (greater m fd) fds

unfoldable pub close_all : List ℤ → Program (Unit {0})
close_all [] = give tt
close_all (fd ∷ fds) = do sys (close_fd fd); close_all fds

-- `is_set r fd` is `FD_ISSET(fd, &sockSet)` after a `select` that answered `r`. The code asks it of
-- the -1 of a free slot too, where it reads outside of the set.
module _ (is_set : Answer → ℤ → Bool) where
  -- `Check Listening Sockets`
  unfoldable pub check_listening : Answer → List ℤ → List ℤ → Program (List ℤ)
  unfolding accept_into
  check_listening r [] pool = give pool
  check_listening r (s ∷ ss) pool = do
    pool' ← (if is_set r s then accept_into s pool else give pool)
    check_listening r ss pool'

  -- A slot of `Check Client Sockets`.
  unfoldable pub check_slot : Answer → ℤ → Program ℤ
  unfolding handle_tcp_client
  check_slot r c =
      if is_set r c
      then (do
        n ← handle_tcp_client c
        if n == 0 then (do sys (close_fd c); give (negsuc 0)) else give c)
      else give c

  unfoldable pub check_clients : Answer → List ℤ → Program (List ℤ)
  unfolding check_slot
  check_clients r [] = give []
  check_clients r (c ∷ cs) = do c' ← check_slot r c; cs' ← check_clients r cs; give (c' ∷ cs')

  -- What the loop does with an answer of `select`: the clients afterwards, and whether it goes on.
  unfoldable pub handle : Answer → List ℤ → List ℤ → Program (Bool × List ℤ)
  unfolding check_listening check_clients
  handle r servers pool =
      if is_zero r.ret
      then give (true, pool)
      else if is_set r (pos 0)
      then (do sys get_char; give (false, pool))
      else do
        pool' ← check_listening r servers pool
        pool'' ← check_clients r pool'
        give (true, pool'')

  -- A round of the loop. The set that `select` is given holds the keyboard, the listening sockets
  -- and the clients.
  unfoldable pub round : ℤ → List ℤ → List ℤ → Program (Bool × List ℤ)
  unfolding watched max_descriptor handle
  round timeout servers pool = do
    r ← sys (
        select_set (max_descriptor (max_descriptor (negsuc 0) servers) pool +ℤ pos 1)
          (pos 0 ∷ (servers ++ watched pool)) timeout)
    handle r servers pool

  -- `while (running)`: from the clients of `cliSock` to those at its end.
  unfoldable pub serve : ℕ → ℤ → List ℤ → List ℤ → Program (List ℤ)
  unfolding round
  serve zero timeout servers pool = pure (stopped lost)
  serve (suc fuel) timeout servers pool = do
    (running, pool') ← round timeout servers pool
    if running then serve fuel timeout servers pool' else give pool'

  -- `atol` reads a number.
  unfoldable pub main : (Bytes → ℤ) → ℕ → List Bytes → Program ℕ
  unfolding create_sockets serve close_all
  main atol fuel (name ∷ timeout ∷ port ∷ ports) = do
    servers ← create_sockets (port ∷ ports)
    pool ← serve fuel (atol timeout) servers (replicate maxclient (negsuc 0))
    close_all servers
    close_all (watched pool)
    give 0
  main atol fuel _ = exit
