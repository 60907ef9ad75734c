-- ===== src/Tcp/Session.antt =====
-- A TCP link over its whole life: any operations, in any order, in any environment.
use ldal.Base.{ℕ, ◌≡◌, true, false, Option, List, [], ◌∷◌, ℤ, arith, is_minus_one}
use ldal.Kernel.{Bytes, Address, Call, connect_addr, Env, History, Io, pure, ◌>>=◌}
use ldal.Socket.{bind_to_device}
use ldal.TcpSocket.{TcpDevice, TcpArg, set_keepalive, make_socket_non_blocking}
use ldal.Tcp.{
  is_connected, tcp_init, tcp_open, tcp_close, tcp_read, tcp_write, tcp_control, tcp_check_status,
  tcp_bind_local_addr, tcp_connect_server_addr, set_server_addr,
}

pub data Operation : Type 0 where
  initialise open_link close_link check_link : Operation
  read_link : ℕ → Operation
  write_link : Bytes → Operation
  control_link : ℕ → TcpArg → Operation
  bind_link : Option Bytes → ℕ → Operation
  connect_link : Bytes → ℕ → Operation

-- The operation through `tcp_device_ops`, its result dropped.
unfoldable pub perform : Operation → TcpDevice → Io TcpDevice
perform initialise o = do (_, o') ← tcp_init o; pure o'
perform open_link o = do (_, o') ← tcp_open o; pure o'
perform close_link o = do (_, o') ← tcp_close o; pure o'
perform check_link o = do (_, o') ← tcp_check_status o; pure o'
perform (read_link n) o = do (_, _, o') ← tcp_read o n; pure o'
perform (write_link s) o = do (_, o') ← tcp_write o s; pure o'
perform (control_link cmd arg) o = do (_, _, o') ← tcp_control o cmd arg; pure o'
perform (bind_link ipaddr port) o = do (_, o') ← tcp_bind_local_addr o ipaddr port; pure o'
perform (connect_link ipaddr port) o = do (_, o') ← tcp_connect_server_addr o ipaddr port; pure o'

unfoldable pub session : List Operation → TcpDevice → Io TcpDevice
unfolding perform
session [] o = pure o
session (op ∷ ops) o = do o' ← perform op o; session ops o'

-- At some point of the history a `connect` of the descriptor did not fail.
pub data Linked (e : Env) (fd : ℤ) : History → Type 0 where
  here :
      {h : History} (to : Address)
      → is_minus_one (e h (connect_addr fd to)).ret ≡ false
      → Linked e fd (connect_addr fd to ∷ h)
  later : {h : History} (c : Call) → Linked e fd h → Linked e fd (c ∷ h)

-- A link that is marked as connected went through a `connect` that did not fail.
abbrev pub Honest : Env → TcpDevice × History → Type 0
Honest e (o, h) = is_connected o.own.status ≡ true → Linked e o.device.fd h

ruleset links = (here, later)

set_keepalive-device :
    (o : TcpDevice) (flag : ℤ) (e : Env) (h : History)
    → ((set_keepalive o flag e h).0.1.device ≡ o.device)
      × ((set_keepalive o flag e h).0.1.own.status ≡ o.own.status)
unfolding set_keepalive
set_keepalive-device o flag e h = ground arith

set_keepalive-Linked :
    (o : TcpDevice) (flag fd : ℤ) (e : Env) (h : History)
    → Linked e fd h
    → Linked e fd (set_keepalive o flag e h).1
unfolding set_keepalive
set_keepalive-Linked o flag fd e h k = grind (arith, later)

control-device :
    (o : TcpDevice) (cmd : ℕ) (arg : TcpArg) (e : Env) (h : History)
    → ((tcp_control o cmd arg e h).0.2.device ≡ o.device)
      × ((tcp_control o cmd arg e h).0.2.own.status ≡ o.own.status)
unfolding tcp_control make_socket_non_blocking bind_to_device
control-device o cmd arg e h = grind (arith, set_keepalive-device)

control-Linked :
    (o : TcpDevice) (cmd : ℕ) (arg : TcpArg) (fd : ℤ) (e : Env) (h : History)
    → Linked e fd h
    → Linked e fd (tcp_control o cmd arg e h).1
unfolding tcp_control make_socket_non_blocking bind_to_device
control-Linked o cmd arg fd e h k = grind (arith, later, set_keepalive-Linked)

perform-Honest :
    (op : Operation) (o : TcpDevice) (e : Env) (h : History)
    → Honest e (o, h)
    → Honest e (perform op o e h)
unfolding perform tcp_init tcp_open tcp_close tcp_check_status tcp_read tcp_write
    tcp_bind_local_addr tcp_connect_server_addr set_server_addr
perform-Honest initialise o e h k = grind (arith, links)
perform-Honest open_link o e h k = grind (arith, links)
perform-Honest close_link o e h k = grind (arith, links)
perform-Honest check_link o e h k = grind (arith, links)
perform-Honest (read_link n) o e h k = grind (arith, links)
perform-Honest (write_link s) o e h k = grind (arith, links)
perform-Honest (control_link cmd arg) o e h k =
    ground (arith, control-device o cmd arg e h, control-Linked o cmd arg o.device.fd e h)
perform-Honest (bind_link ipaddr port) o e h k = grind (arith, links)
perform-Honest (connect_link ipaddr port) o e h k = grind (arith, links)

session-Honest :
    (ops : List Operation) (o : TcpDevice) (e : Env) (h : History)
    → Honest e (o, h)
    → Honest e (session ops o e h)
unfolding session
session-Honest [] o e h k = k
session-Honest (op ∷ ops) o e h k =
    let (o', h') = perform op o e h in session-Honest ops o' e h' (perform-Honest op o e h k)

-- Whatever is done with a link that is not marked as connected at first, in any environment: if it
-- is marked as connected at the end, a `connect` of its descriptor did not fail.
pub session-Linked :
    (ops : List Operation) (o : TcpDevice) (e : Env) (h : History)
    → is_connected o.own.status ≡ false
    → is_connected (session ops o e h).0.own.status ≡ true
    → Linked e (session ops o e h).0.device.fd (session ops o e h).1
session-Linked ops o e h off on = session-Honest ops o e h (λ now. cc) on
