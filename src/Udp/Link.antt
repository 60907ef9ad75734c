-- ===== src/Udp/Link.antt =====
-- The peer of a UDP link.
use ldal.Base.{
  ℕ, ◌+◌, ◌≤◌, length, ◌^◌, ◌<◌, ◌≡◌, ◌≢◌, ◌∙◌, ap, true, false, some, [], ◌∷◌, arith, neg,
  ldal_einval, is_zero, is_neg, is_minus_one, if◌then◌else◌,
}
use ldal.Kernel.{Bytes, Address, text, recv_from, send_to, socket, datagram, Answer, Env, History}
use ldal.Socket.{address, parse_address, print_address, ipstr_size}
use ldal.Socket.RoundTrip.{Lacks, parse_address-print_address}
use ldal.Udp.{
  UdpDevice, room, set_remote_addr, udp_open, udp_connect_server_addr, udp_read, udp_write,
  udp_control, socket_get_recvaddr,
}

-- After a datagram was received, with the echo flag set, what is written next goes to its sender;
-- without it, to the peer from before. Either way the sender is kept as the address last received
-- from.
pub udp_write-udp_read :
    (sender : Answer → Address) (o : UdpDevice) (n : ℕ) (buf : Bytes) (e e' : Env) (h h' : History)
    → is_minus_one (e h (recv_from o.device.fd n)).ret ≡ false
    → let from = sender (e h (recv_from o.device.fd n)) in
      let o' = (udp_read sender o n e h).0.2 in
      ((udp_write o' buf e' h').1
        ≡ send_to o.device.fd buf (if o.own.echo_flag then from else o.own.saddr) ∷ h')
      × (o'.own.raddr ≡ from)
unfolding udp_read udp_write
udp_write-udp_read sender o n buf e e' h h' got = ground arith

-- After a datagram was received, `SOCKET_GET_RECVADDR` stores the address of its sender, and
-- reports an invalid argument all the same.
pub udp_control-recvaddr :
    (sender : Answer → Address) (o : UdpDevice) (n : ℕ) (old : Address) (e e' : Env)
    (h h' : History)
    → is_minus_one (e h (recv_from o.device.fd n)).ret ≡ false
    → let o' = (udp_read sender o n e h).0.2 in
      (udp_control o' socket_get_recvaddr (room old) e' h').0
      ≡ (neg ldal_einval, room (sender (e h (recv_from o.device.fd n))), o')
unfolding udp_read udp_control
udp_control-recvaddr sender o n old e e' h h' got = ground arith

parsed :
    (o : UdpDevice) (ipaddr : Bytes) (port : ℕ) (e : Env) (h : History)
    → parse_address o.device.filename ≡ some (ipaddr, port)
    → is_neg (e h (socket datagram)).ret ≡ false
    → (udp_open o e h).0.1.own.saddr ≡ address (text ipaddr) port
unfolding udp_open set_remote_addr
parsed o ipaddr port e h p s = ground arith

-- A link that was connected to a host, given by a text that is not empty, has neither a NUL
-- nor a colon and fits in the buffer of the file name with a port, and a 16-bit port, has that peer when it is opened again and the socket is
-- created.
pub udp_open-udp_connect_server_addr :
    (o : UdpDevice) (ipaddr : Bytes) (port : ℕ) (e e' : Env) (h h' : History)
    → ipaddr ≢ []
    → Lacks 0 ipaddr
    → Lacks b':' ipaddr
    → port < 2 ^ 16
    → length ipaddr + 7 ≤ length o.device.filename
    → length o.device.filename ≤ ipstr_size
    → is_zero (udp_connect_server_addr o ipaddr port e h).0.0 ≡ true
    → is_neg (e' h' (socket datagram)).ret ≡ false
    → (udp_open (udp_connect_server_addr o ipaddr port e h).0.1 e' h').0.1.own.saddr
      ≡ address (text ipaddr) port
udp_open-udp_connect_server_addr o ipaddr port e e' h h' ne p q small fits size done opened =
    parsed (udp_connect_server_addr o ipaddr port e h).0.1 ipaddr port e' h'
      (ap parse_address (printed done)
        ∙ parse_address-print_address o.device.filename ipaddr port ne p q small fits size)
      opened
  where
    printed :
        is_zero (udp_connect_server_addr o ipaddr port e h).0.0 ≡ true
        → (udp_connect_server_addr o ipaddr port e h).0.1.device.filename
          ≡ print_address o.device.filename ipaddr port
    printed d = unfold udp_connect_server_addr set_remote_addr in ground arith
