-- ===== src/Tcp.antt =====
-- src/class/ldal_tcp.c: the TCP client class.
pub mod Status
pub mod Session
pub mod Options
mod Tests
use ldal.Base.{
  ℕ, ◌%◌, ◌^◌, ℤ, pos, Bool, true, false, Option, none, some, [], ◌==◌, if◌then◌else◌, neg,
  ldal_eok, ldal_error, ldal_einval, is_neg, is_minus_one, is_zero,
}
use ldal.Kernel.{
  Bytes, text, stream, close_fd, socket, get_error, bind_addr, connect_addr, recv_fd, send_fd,
  sleep_sec, Io, pure, call, ◌>>=◌, ◌>>◌,
}
use ldal.Device.{DeviceOps}
use ldal.TcpSocket.{
  SocketState, TcpArg, TcpDevice, TcpLink, closed, closing, connected, enable, established, ifname,
  init_state, make_socket_non_blocking, set_keepalive, set_recv_timeout, set_reuse_addr,
  set_send_timeout, socket_default_timeout, socket_set_keepalive, socket_set_netdev,
  socket_set_nonblock, socket_set_recvtimeo, socket_set_reuseaddr, socket_set_sendtimeo,
  state_number, timeout, unconnected, with_fd, with_status,
}
use ldal.Socket.{address, local_address, parse_address, print_address, bind_to_device}

pub tcp_bind_local_addr : TcpDevice → Option Bytes → ℕ → Io (ℤ × TcpDevice)
tcp_bind_local_addr o ipaddr port = do
  r ← call (bind_addr o.device.fd (local_address ipaddr port))
  pure (r.ret, o)

pub set_server_addr : TcpDevice → Bytes → ℕ → TcpDevice
set_server_addr o ipaddr port = record o {
  own = record (o.own) { server = address (text ipaddr) port };
  device = record (o.device) { filename = print_address o.device.filename ipaddr port };
}

pub import_ipaddr_from_filename : TcpDevice → ℤ × TcpDevice
unfolding set_server_addr
import_ipaddr_from_filename o = elim (parse_address o.device.filename) [
  | none ↦ (neg ldal_einval, o)
  | some (ipaddr, port) ↦ (ldal_eok, set_server_addr o ipaddr port)
]

pub tcp_init : TcpDevice → Io (ℤ × TcpDevice)
unfolding set_recv_timeout set_send_timeout set_reuse_addr
tcp_init o0 = do
  s ← call (socket stream)
  let o1 = with_fd (with_status o0 init_state) s.ret
  if is_neg s.ret then pure (neg ldal_error, o1) else do
    let o2 : TcpDevice = record o1 {
      own = record (o1.own) {
        recv_timeout = socket_default_timeout;
        send_timeout = socket_default_timeout;
      };
    }
    set_recv_timeout o2 socket_default_timeout
    set_send_timeout o2 socket_default_timeout
    set_reuse_addr o2
    pure (ldal_eok, with_status o2 established)

pub tcp_open : TcpDevice → Io (ℤ × TcpDevice)
unfolding import_ipaddr_from_filename
tcp_open o0 = do
  let (code, o) = import_ipaddr_from_filename o0
  if is_zero code
      then (do
        r ← call (connect_addr o.device.fd o.own.server)
        if is_minus_one r.ret
            then pure (neg ldal_error, with_status o unconnected)
            else pure (ldal_eok, with_status o connected))
      else pure (ldal_eok, o)

abbrev pub is_closed : SocketState → Bool
is_closed closed = true
is_closed _ = false

abbrev pub is_shut : SocketState → Bool
is_shut closed = true
is_shut closing = true
is_shut _ = false

abbrev pub is_connected : SocketState → Bool
is_connected connected = true
is_connected _ = false

pub tcp_close : TcpDevice → Io (ℤ × TcpDevice)
tcp_close o =
    if is_shut o.own.status
    then pure (ldal_eok, o)
    else do call (close_fd o.device.fd); pure (ldal_eok, with_status o closed)

-- What follows the choice of the socket in `tcp_connect_server_addr`.
connect_socket : TcpDevice → Bytes → ℕ → Io (ℤ × TcpDevice)
unfolding set_server_addr
connect_socket o ipaddr port = do
  r ← call (connect_addr o.device.fd (address (text ipaddr) port))
  if is_minus_one r.ret
      then pure (neg ldal_error, with_status o unconnected)
      else pure (ldal_eok, set_server_addr (with_status o connected) ipaddr port)

pub tcp_connect_server_addr : TcpDevice → Bytes → ℕ → Io (ℤ × TcpDevice)
unfolding connect_socket tcp_close tcp_init
tcp_connect_server_addr o ipaddr port =
    if is_connected o.own.status
    then pure (ldal_eok, o)
    else if is_closed o.own.status
    then connect_socket o ipaddr port
    else do
      (_, o1) ← tcp_close o
      call (sleep_sec 1)
      (_, o2) ← tcp_init o1
      connect_socket o2 ipaddr port

pub tcp_read : TcpDevice → ℕ → Io (ℤ × Bytes × TcpDevice)
tcp_read o len = do
  r ← call (recv_fd o.device.fd len)
  if is_minus_one r.ret
      then pure (neg r.errno, r.payload, o)
      else pure (r.ret, r.payload, if is_zero r.ret then with_status o unconnected else o)

pub tcp_write : TcpDevice → Bytes → Io (ℤ × TcpDevice)
tcp_write o buf = do
  r ← call (send_fd o.device.fd buf)
  pure (if is_minus_one r.ret then neg r.errno else r.ret, o)

-- The answer of `getsockopt` gives the error of the socket as its `errno`.
pub tcp_check_status : TcpDevice → Io (ℤ × TcpDevice)
tcp_check_status o = do
  r ← call (get_error o.device.fd)
  if is_zero r.ret
      then pure
          (pos (if r.errno == 0 then state_number o.own.status else state_number unconnected), o)
      else pure (pos (state_number unconnected), o)

abbrev timeout_of : TcpArg → ℕ
timeout_of (timeout n) = n % 2 ^ 32
timeout_of _ = 0

abbrev name_of : TcpArg → Bytes
name_of (ifname s) = s
name_of _ = []

abbrev enable_of : TcpArg → ℤ
enable_of (enable n) = n
enable_of _ = pos 0

-- The results of the calls are dropped: a known command returns 0.
pub tcp_control : TcpDevice → ℕ → TcpArg → Io (ℤ × TcpArg × TcpDevice)
unfolding make_socket_non_blocking set_reuse_addr set_keepalive set_recv_timeout set_send_timeout
tcp_control o cmd arg =
    if cmd == socket_set_nonblock
    then (do make_socket_non_blocking o.device.fd; pure (pos 0, arg, o))
    else if cmd == socket_set_reuseaddr
    then (do set_reuse_addr o; pure (pos 0, arg, o))
    else if cmd == socket_set_netdev
    then (do bind_to_device o.device.fd (name_of arg); pure (pos 0, arg, o))
    else if cmd == socket_set_keepalive
    then (do (_, o') ← set_keepalive o (enable_of arg); pure (pos 0, arg, o'))
    else if cmd == socket_set_recvtimeo
    then (do
      let o' : TcpDevice = record o { own = record (o.own) { recv_timeout = timeout_of arg } }
      set_recv_timeout o' (timeout_of arg)
      pure (pos 0, arg, o'))
    else if cmd == socket_set_sendtimeo
    then (do
      let o' : TcpDevice = record o { own = record (o.own) { send_timeout = timeout_of arg } }
      set_send_timeout o' (timeout_of arg)
      pure (pos 0, arg, o'))
    else pure (neg ldal_einval, arg, o)

-- `tcp_device_ops`
abbrev pub tcp_device_ops : DeviceOps TcpLink TcpArg
tcp_device_ops = record {
  init = some tcp_init;
  open_op = some tcp_open;
  close = some tcp_close;
  read = some tcp_read;
  write = some tcp_write;
  control = some tcp_control;
  check = some tcp_check_status;
  bind = some tcp_bind_local_addr;
  connect = some tcp_connect_server_addr;
}
