-- ===== src/TcpSocket.antt =====
-- src/class/ldal_tcp.c: a TCP link, its states, and the options of its socket. The build defines
-- CONFIG_SOCKET_SET_REUSE and CONFIG_SOCKET_SET_TIMEOUT, and not CONFIG_SOCKET_SET_NONBLOCK
-- (inc/ldal_tcp.h).
use ldal.Base.{
  ℕ, ℤ, pos, true, if◌then◌else◌, neg, ldal_eok, ldal_error, is_neg, is_minus_one, is_zero,
}
use ldal.Kernel.{
  Bytes, Address, so_reuseaddr, so_keepalive, tcp_keepintvl, tcp_keepidle, tcp_keepcnt, so_rcvtimeo,
  so_sndtimeo, set_option, get_flags, set_flags, Io, pure, call, ◌>>=◌, ◌>>◌,
}
use ldal.Device.{Object}
use ldal.Socket.{timeval}

-- `socket_state_t` of inc/ldal.h.
pub data SocketState : Type 0 where
  init_state established unconnected host_lookup connecting connected bound listening closing
        closed :
      SocketState

-- `struct ldal_tcp_device`, less what no function touches.
pub record TcpLink : Type 0 where
  pub status : SocketState
  pub server : Address
  pub recv_timeout : ℕ
  pub send_timeout : ℕ
  pub keepalive : ℤ
  pub keepidle : ℕ
  pub keepinterval : ℕ
  pub keepcount : ℕ

abbrev pub TcpDevice : Type 0
TcpDevice = Object TcpLink

-- What `arg` of `control` holds.
pub data TcpArg : Type 0 where
  no_arg : TcpArg
  ifname : Bytes → TcpArg
  enable : ℤ → TcpArg
  timeout : ℕ → TcpArg

abbrev pub socket_default_timeout : ℕ
socket_default_timeout = 3000

abbrev pub config_tcp_keepintvl : ℕ
config_tcp_keepintvl = 20

abbrev pub config_tcp_keepidle : ℕ
config_tcp_keepidle = 120

abbrev pub config_tcp_keepcnt : ℕ
config_tcp_keepcnt = 2

abbrev pub socket_set_reuseaddr : ℕ
socket_set_reuseaddr = 0x1001

abbrev pub socket_set_netdev : ℕ
socket_set_netdev = 0x1002

abbrev pub socket_set_keepalive : ℕ
socket_set_keepalive = 0x1003

abbrev pub socket_set_recvtimeo : ℕ
socket_set_recvtimeo = 0x1004

abbrev pub socket_set_sendtimeo : ℕ
socket_set_sendtimeo = 0x1005

abbrev pub socket_set_nonblock : ℕ
socket_set_nonblock = 0x1008

-- The number of a state, as `check` returns it.
abbrev pub state_number : SocketState → ℕ
state_number init_state = 0
state_number established = 1
state_number unconnected = 2
state_number host_lookup = 3
state_number connecting = 4
state_number connected = 5
state_number bound = 6
state_number listening = 7
state_number closing = 8
state_number closed = 9

abbrev pub with_status : TcpDevice → SocketState → TcpDevice
with_status o s = record o { own = record (o.own) { status = s } }

abbrev pub with_fd : TcpDevice → ℤ → TcpDevice
with_fd o fd = record o { device = record (o.device) { fd = fd } }

unfoldable pub make_socket_non_blocking : ℤ → Io ℤ
make_socket_non_blocking sfd = do
  flags ← call (get_flags sfd)
  if is_minus_one flags.ret then pure (neg ldal_error) else do
    s ← call (set_flags sfd true)
    pure (if is_minus_one s.ret then neg ldal_error else ldal_eok)

unfoldable pub set_reuse_addr : TcpDevice → Io ℤ
set_reuse_addr o = do r ← call (set_option o.device.fd so_reuseaddr); pure r.ret

-- `__disable_keepalive:`
unfoldable pub disable_keepalive : TcpDevice → Io (ℤ × TcpDevice)
disable_keepalive o = do
  call (set_option o.device.fd (so_keepalive (pos 0)))
  pure (neg ldal_error, record o { own = record (o.own) { keepalive = pos 0 } })

unfoldable pub set_keepalive : TcpDevice → ℤ → Io (ℤ × TcpDevice)
unfolding disable_keepalive
set_keepalive o0 flag = do
  on ← call (set_option o0.device.fd (so_keepalive flag))
  if is_neg on.ret then pure (neg ldal_error, o0) else do
    let o : TcpDevice = record o0 { own = record (o0.own) { keepalive = flag } }
    if is_zero flag then pure (ldal_eok, o) else do
      a ← call (set_option o.device.fd (tcp_keepintvl config_tcp_keepintvl))
      if is_neg a.ret then disable_keepalive o else do
        b ← call (set_option o.device.fd (tcp_keepidle config_tcp_keepidle))
        if is_neg b.ret then disable_keepalive o else do
          c ← call (set_option o.device.fd (tcp_keepcnt config_tcp_keepcnt))
          if is_neg c.ret
              then disable_keepalive o
              else pure (
                ldal_eok,
                record o {
                  own = record (o.own) {
                    keepcount = config_tcp_keepcnt;
                    keepidle = config_tcp_keepidle;
                    keepinterval = config_tcp_keepintvl;
                  };
                },
              )

unfoldable pub set_recv_timeout : TcpDevice → ℕ → Io ℤ
set_recv_timeout o ms = do r ← call (set_option o.device.fd (so_rcvtimeo (timeval ms))); pure r.ret

unfoldable pub set_send_timeout : TcpDevice → ℕ → Io ℤ
set_send_timeout o ms = do r ← call (set_option o.device.fd (so_sndtimeo (timeval ms))); pure r.ret
