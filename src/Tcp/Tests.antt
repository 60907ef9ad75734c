-- ===== src/Tcp/Tests.antt =====
-- A TCP link in environments where calls succeed or fail.
use ldal.Base.{
  List, pos, negsuc, ◌≡◌, ◌⊎◌, refl, true, some, [], ◌∷◌, arith, replicate, ldal_eok, ldal_error,
  neg, is_zero, is_neg,
}
use ldal.Kernel.{Bytes, text, any, connect_addr, set_option, so_keepalive, latest, Env, Call}
use ldal.Socket.{address}
use ldal.TcpSocket.{
  init_state, connected, closed, TcpDevice, set_keepalive, SocketState, config_tcp_keepidle,
  config_tcp_keepintvl, config_tcp_keepcnt,
}
use ldal.Tcp.{
  tcp_open, tcp_close, tcp_check_status, tcp_control, tcp_connect_server_addr, is_connected,
  is_shut, connect_socket, set_server_addr, tcp_init,
}
use ldal.Tcp.Status.{tcp_connect_server_addr-status, tcp_open-tcp_connect_server_addr}
use ldal.Tcp.Session.{
  Operation, initialise, close_link, connect_link, read_link, session, perform, Linked,
  session-Linked,
}
use ldal.Tcp.Options.{set_keepalive_lem}

abbrev host : Bytes
host = b'1' ∷ b'0' ∷ b'.' ∷ b'1' ∷ []

abbrev link : SocketState → TcpDevice
link s = record {
  device = record { fd = pos 3; name = []; filename = replicate 64 0; is_init = true; ref = 0 };
  own = record {
    status = s;
    server = address any 0;
    recv_timeout = 0;
    send_timeout = 0;
    keepalive = pos 0;
    keepidle = 0;
    keepinterval = 0;
    keepcount = 0;
  };
}

abbrev well : Env
well h c = record { ret = pos 0; payload = []; errno = 0 }

abbrev broken : Env
broken h c = record { ret = negsuc 0; payload = []; errno = 9 }

tcp_connect_server_addr-status_example :
    is_zero (tcp_connect_server_addr (link closed) host 80 broken []).0.0
    ≡ is_connected (tcp_connect_server_addr (link closed) host 80 broken []).0.1.own.status
tcp_connect_server_addr-status_example =
    tcp_connect_server_addr-status (link closed) host 80 broken []

tcp_open-tcp_connect_server_addr_example :
    let o' = (tcp_connect_server_addr (link closed) host 80 well []).0.1 in
    (tcp_open o' well []).1 ≡ connect_addr o'.device.fd (address (text host) 80) ∷ []
unfolding tcp_connect_server_addr
tcp_open-tcp_connect_server_addr_example =
    tcp_open-tcp_connect_server_addr (link closed) host 80 well well [] [] (λ e. cc) (omega arith)
      (omega arith) (omega arith) (omega arith) (omega arith) refl refl

-- Initialised, closed, and connected again.
abbrev life : List Operation
life = initialise ∷ close_link ∷ connect_link host 80 ∷ read_link 4 ∷ []

-- As `well`, but a read gives one byte.
abbrev talking : Env
talking h c = record {
  ret = elim c [ Call.recv_fd _ _ ↦ pos 1 | _ ↦ pos 0 ];
  payload = 1 ∷ [];
  errno = 0;
}

session-Linked_example :
    Linked talking
      (session life (link init_state) talking []).0.device.fd
      (session life (link init_state) talking []).1
unfolding session perform tcp_init tcp_close tcp_connect_server_addr ldal.Tcp.tcp_read
    set_server_addr
session-Linked_example = session-Linked life (link init_state) talking [] refl refl

abbrev picky : Env
picky h c = record {
  ret = elim c [ set_option _ o ↦ elim o [ so_keepalive _ ↦ pos 0 | _ ↦ negsuc 0 ] | _ ↦ pos 0 ];
  payload = [];
  errno = 0;
}

keepalive_on :
    let o = link connected in
    let ((code, o'), h') = set_keepalive o (pos 1) picky [] in
    ((code ≡ ldal_eok)
      × (o' ≡ record o {
        own = record (o.own) {
          keepalive = pos 1;
          keepidle = config_tcp_keepidle;
          keepinterval = config_tcp_keepintvl;
          keepcount = config_tcp_keepcnt;
        };
      }))
    ⊎ ((code ≡ neg ldal_error)
        × (o' ≡ o)
        × (is_neg (picky [] (set_option (pos 3) (so_keepalive (pos 1)))).ret ≡ true))
    ⊎ ((code ≡ neg ldal_error)
        × (o' ≡ record o { own = record (o.own) { keepalive = pos 0 } })
        × (latest h' ≡ some (set_option (pos 3) (so_keepalive (pos 0)))))
keepalive_on = set_keepalive_lem (link connected) (pos 1) picky []
