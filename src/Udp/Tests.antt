-- ===== src/Udp/Tests.antt =====
-- A UDP link that echoes.
use ldal.Base.{pos, ◌≡◌, refl, true, [], ◌∷◌, arith, replicate}
use ldal.Kernel.{Bytes, Address, text, any, Answer, Env}
use ldal.Socket.{address}
use ldal.Udp.{UdpDevice, udp_open, udp_connect_server_addr}
use ldal.Udp.Link.{udp_open-udp_connect_server_addr}

abbrev host : Bytes
host = b'1' ∷ b'0' ∷ b'.' ∷ b'1' ∷ []

abbrev peer : Address
peer = address (text host) 7000

abbrev link : UdpDevice
link = record {
  device = record { fd = pos 3; name = []; filename = replicate 64 0; is_init = true; ref = 0 };
  own = record { saddr = address any 0; raddr = address any 0; echo_flag = true };
}

abbrev well : Env
well h c = record { ret = pos 0; payload = []; errno = 0 }

abbrev sender : Answer → Address
sender a = peer

udp_open-udp_connect_server_addr_example :
    (udp_open (udp_connect_server_addr link host 80 well []).0.1 well []).0.1.own.saddr
    ≡ address (text host) 80
unfolding udp_connect_server_addr
udp_open-udp_connect_server_addr_example =
    udp_open-udp_connect_server_addr link host 80 well well [] [] (λ e. cc) (omega arith)
      (omega arith) (omega arith) (omega arith) (omega arith) refl refl
