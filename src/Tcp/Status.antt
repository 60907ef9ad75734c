-- ===== src/Tcp/Status.antt =====
-- The status of a TCP link: what connecting, closing and opening make of it.
use ldal.Base.{
  ℕ, ◌+◌, ◌≤◌, length, ◌^◌, ◌<◌, ◌≡◌, refl, ◌≢◌, ◌∙◌, ap, true, false, [], ◌∷◌, arith, ldal_eok,
  is_zero, is_minus_one, pos, some,
}
use ldal.Kernel.{Bytes, text, connect_addr, close_fd, get_error, Env, History}
use ldal.Socket.{address, parse_address, print_address, ipstr_size}
use ldal.Socket.RoundTrip.{Lacks, parse_address-print_address}
use ldal.TcpSocket.{connected, TcpDevice, state_number}
use ldal.Tcp.{
  is_shut, is_connected, tcp_close, tcp_open, tcp_connect_server_addr, tcp_check_status,
  set_server_addr,
}

-- Connecting reports success exactly when the link is connected afterwards, in every environment.
pub tcp_connect_server_addr-status :
    (o : TcpDevice) (ipaddr : Bytes) (port : ℕ) (e : Env) (h : History)
    → let (code, o') = (tcp_connect_server_addr o ipaddr port e h).0 in
      is_zero code ≡ is_connected o'.own.status
unfolding tcp_connect_server_addr set_server_addr
tcp_connect_server_addr-status o ipaddr port e h = ground arith

-- Closing a link closes its descriptor at most once: a second call makes no system call.
pub tcp_close-tcp_close :
    (o : TcpDevice) (e e' : Env) (h h' : History)
    → let (code, o') = (tcp_close o e h).0 in
      (code ≡ ldal_eok)
      × (is_shut o'.own.status ≡ true)
      × (tcp_close o' e' h' ≡ ((ldal_eok, o'), h'))
unfolding tcp_close
tcp_close-tcp_close o e e' h h' = ground arith

-- A link that is neither closed nor closing, and is closed now, is connected again through its
-- old descriptor, which was closed and not opened again; if that fails, as it does on a closed
-- descriptor, the next close closes the same number a second time.
pub tcp_connect_server_addr-closed :
    (o : TcpDevice) (ipaddr : Bytes) (port : ℕ) (e : Env) (h : History)
    → is_shut o.own.status ≡ false
    → let fd = o.device.fd in
      let to = connect_addr fd (address (text ipaddr) port) in
      is_minus_one (e (close_fd fd ∷ h) to).ret ≡ true
      → let (r, h1) = tcp_close o e h in
        let (r', h2) = tcp_connect_server_addr r.1 ipaddr port e h1 in
        (h2 ≡ to ∷ close_fd fd ∷ h) × ((tcp_close r'.1 e h2).1 ≡ close_fd fd ∷ to ∷ close_fd fd ∷ h)
unfolding tcp_connect_server_addr
tcp_connect_server_addr-closed o ipaddr port e h live failed = rw live (rw failed (refl, refl))

connected-filename :
    (o : TcpDevice) (ipaddr : Bytes) (port : ℕ) (e : Env) (h : History)
    → is_connected o.own.status ≡ false
    → is_zero (tcp_connect_server_addr o ipaddr port e h).0.0 ≡ true
    → (tcp_connect_server_addr o ipaddr port e h).0.1.device.filename
      ≡ print_address o.device.filename ipaddr port
unfolding tcp_connect_server_addr set_server_addr
connected-filename o ipaddr port e h off done = ground arith

tcp_open-parsed :
    (o : TcpDevice) (ipaddr : Bytes) (port : ℕ) (e : Env) (h : History)
    → parse_address o.device.filename ≡ some (ipaddr, port)
    → (tcp_open o e h).1 ≡ connect_addr o.device.fd (address (text ipaddr) port) ∷ h
unfolding tcp_open
tcp_open-parsed o ipaddr port e h parsed = ground arith

-- A link that was not connected and then was connected to a host, given by a text that is not
-- empty, has neither a NUL nor a colon and fits in the buffer of the file name with a port, and a
-- 16-bit port, is connected to the same address
-- when it is opened again, by one call.
pub tcp_open-tcp_connect_server_addr :
    (o : TcpDevice) (ipaddr : Bytes) (port : ℕ) (e e' : Env) (h h' : History)
    → ipaddr ≢ []
    → Lacks 0 ipaddr
    → Lacks b':' ipaddr
    → port < 2 ^ 16
    → length ipaddr + 7 ≤ length o.device.filename
    → length o.device.filename ≤ ipstr_size
    → is_connected o.own.status ≡ false
    → is_zero (tcp_connect_server_addr o ipaddr port e h).0.0 ≡ true
    → let o' = (tcp_connect_server_addr o ipaddr port e h).0.1 in
      (tcp_open o' e' h').1 ≡ connect_addr o'.device.fd (address (text ipaddr) port) ∷ h'
tcp_open-tcp_connect_server_addr o ipaddr port e e' h h' ne p q small fits size off done =
    tcp_open-parsed (tcp_connect_server_addr o ipaddr port e h).0.1 ipaddr port e' h' (
      ap parse_address (connected-filename o ipaddr port e h off done)
      ∙ parse_address-print_address o.device.filename ipaddr port ne p q small fits size)

-- `check` reports a link as connected only if its status is connected and the socket has no error.
pub tcp_check_status-connected :
    (o : TcpDevice) (e : Env) (h : History)
    → (tcp_check_status o e h).0.0 ≡ pos (state_number connected)
    → (o.own.status ≡ connected)
      × (is_zero (e h (get_error o.device.fd)).ret ≡ true)
      × ((e h (get_error o.device.fd)).errno ≡ 0)
unfolding tcp_check_status
tcp_check_status-connected o e h r = ground arith
