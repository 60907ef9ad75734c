-- ===== src/Udp.antt =====
-- src/class/ldal_udp.c: the UDP class.
pub mod Link
mod Tests
use ldal.Base.{
  ℕ, ℤ, pos, Bool, true, false, Option, none, some, [], ◌==◌, if◌then◌else◌, neg, ldal_eok,
  ldal_error, ldal_einval, is_neg, is_minus_one, is_zero,
}
use ldal.Kernel.{
  Bytes, Address, text, datagram, so_reuseaddr, close_fd, socket, set_option, bind_addr,
  connect_addr, recv_from, send_to, Answer, Io, pure, call, ◌>>=◌, ◌>>◌,
}
use ldal.Device.{Device, Object, DeviceOps}
use ldal.Socket.{address, local_address, parse_address, print_address, bind_to_device}

-- `struct ldal_udp_device`, less what no function touches.
pub record UdpLink : Type 0 where
  pub saddr : Address
  pub raddr : Address
  pub echo_flag : Bool

abbrev pub UdpDevice : Type 0
UdpDevice = Object UdpLink

-- What `arg` of `control` is: NULL, a name, room for an address, or a flag in the pointer itself.
pub data UdpArg : Type 0 where
  null_arg : UdpArg
  ifname : Bytes → UdpArg
  room : Address → UdpArg
  flag : Bool → UdpArg

abbrev pub socket_set_reuseaddr : ℕ
socket_set_reuseaddr = 0x1001

abbrev pub socket_set_netdev : ℕ
socket_set_netdev = 0x1002

abbrev pub socket_set_echo_flag : ℕ
socket_set_echo_flag = 0x1006

abbrev pub socket_get_recvaddr : ℕ
socket_get_recvaddr = 0x1007

abbrev pub with_fd : UdpDevice → ℤ → UdpDevice
with_fd o fd = record o { device = record (o.device) { fd = fd } }

pub set_reuse_addr : UdpDevice → Io ℤ
set_reuse_addr o = do r ← call (set_option o.device.fd so_reuseaddr); pure r.ret

pub udp_bind_local_addr : UdpDevice → Option Bytes → ℕ → Io (ℤ × UdpDevice)
udp_bind_local_addr o ipaddr port = do
  r ← call (bind_addr o.device.fd (local_address ipaddr port))
  pure (r.ret, o)

pub set_remote_addr : UdpDevice → Bytes → ℕ → UdpDevice
set_remote_addr o ipaddr port = record o {
  own = record (o.own) { saddr = address (text ipaddr) port };
  device = record (o.device) { filename = print_address o.device.filename ipaddr port };
}

pub udp_connect_server_addr : UdpDevice → Bytes → ℕ → Io (ℤ × UdpDevice)
unfolding set_remote_addr
udp_connect_server_addr o ipaddr port = do
  r ← call (connect_addr o.device.fd (address (text ipaddr) port))
  pure (
      if is_minus_one r.ret then (neg ldal_error, o) else (ldal_eok, set_remote_addr o ipaddr port))

pub import_ipaddr_from_filename : UdpDevice → ℤ × UdpDevice
unfolding set_remote_addr
import_ipaddr_from_filename o = elim (parse_address o.device.filename) [
  | none ↦ (neg ldal_einval, o)
  | some (ipaddr, port) ↦ (ldal_eok, set_remote_addr o ipaddr port)
]

pub udp_init : UdpDevice → Io (ℤ × UdpDevice)
udp_init o = pure (ldal_eok, record o { own = record (o.own) { echo_flag = false } })

pub udp_open : UdpDevice → Io (ℤ × UdpDevice)
unfolding import_ipaddr_from_filename
udp_open o0 = do
  s ← call (socket datagram)
  let o = with_fd o0 s.ret
  if is_neg s.ret
      then pure (neg ldal_error, o)
      else pure (ldal_eok, (import_ipaddr_from_filename o).1)

pub udp_close : UdpDevice → Io (ℤ × UdpDevice)
udp_close o = do call (close_fd o.device.fd); pure (ldal_eok, o)

-- `sender` reads the address that `recvfrom` stores.
module _ (sender : Answer → Address) where
  pub udp_read : UdpDevice → ℕ → Io (ℤ × Bytes × UdpDevice)
  udp_read o len = do
    r ← call (recv_from o.device.fd len)
    if is_minus_one r.ret then pure (neg ldal_error, r.payload, o) else do
      let from : UdpDevice = record o { own = record (o.own) { raddr = sender r } }
      pure (
        ldal_eok,
        r.payload,
        if o.own.echo_flag
            then record from { own = record (from.own) { saddr = sender r } }
            else from,
      )

pub udp_write : UdpDevice → Bytes → Io (ℤ × UdpDevice)
udp_write o buf = do
  r ← call (send_to o.device.fd buf o.own.saddr)
  pure (if is_minus_one r.ret then neg ldal_error else ldal_eok, o)

abbrev name_of : UdpArg → Bytes
name_of (ifname s) = s
name_of _ = []

-- `(bool)arg`
abbrev is_set : UdpArg → Bool
is_set null_arg = false
is_set (flag b) = b
is_set _ = true

-- `if (arg) memcpy(arg, &link->raddr, ...)`
abbrev fill : UdpArg → Address → UdpArg
fill (room _) a = room a
fill arg _ = arg

pub udp_control : UdpDevice → ℕ → UdpArg → Io (ℤ × UdpArg × UdpDevice)
unfolding set_reuse_addr
udp_control o cmd arg =
    if cmd == socket_set_reuseaddr
    then (do set_reuse_addr o; pure (pos 0, arg, o))
    else if cmd == socket_set_netdev
    then (do bind_to_device o.device.fd (name_of arg); pure (pos 0, arg, o))
    else if cmd == socket_get_recvaddr
    then pure (neg ldal_einval, fill arg o.own.raddr, o)
    else if cmd == socket_set_echo_flag
    then pure (ldal_eok, arg, record o { own = record (o.own) { echo_flag = is_set arg } })
    else pure (neg ldal_einval, arg, o)
