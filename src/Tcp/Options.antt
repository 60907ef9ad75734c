-- ===== src/Tcp/Options.antt =====
-- The options of a TCP socket: keepalive and the timeouts.
use ldal.Base.{
  ℕ, ◌+◌, ◌*◌, ◌%◌, ◌^◌, some, ◌<◌, ◌≡◌, refl, ◌⊎◌, ℤ, pos, true, ◌∷◌, arith, ldal_eok, ldal_error,
  neg, is_zero, if◌then◌else◌, is_neg,
}
use ldal.Kernel.{TimeVal, so_keepalive, so_rcvtimeo, so_sndtimeo, set_option, latest, Env, History}
use ldal.Socket.{timeval}
use ldal.TcpSocket.{
  TcpDevice, timeout, set_keepalive, socket_set_recvtimeo, socket_set_sendtimeo, config_tcp_keepcnt,
  config_tcp_keepidle, config_tcp_keepintvl,
}
use ldal.Tcp.{tcp_control}

-- Keepalive is set as a whole or not at all. On success the flag is kept and, unless it is 0, all
-- three parameters; on failure of the first call the link is as it was; on failure of a later one
-- keepalive was switched off again, by the last call made, and is marked as off.
pub set_keepalive_lem :
    (o : TcpDevice) (flag : ℤ) (e : Env) (h : History)
    → let ((code, o'), h') = set_keepalive o flag e h in
      ((code ≡ ldal_eok)
        × (o' ≡ record o {
          own = record (o.own) {
            keepalive = flag;
            keepidle = if is_zero flag then o.own.keepidle else config_tcp_keepidle;
            keepinterval = if is_zero flag then o.own.keepinterval else config_tcp_keepintvl;
            keepcount = if is_zero flag then o.own.keepcount else config_tcp_keepcnt;
          };
        }))
      ⊎ ((code ≡ neg ldal_error)
          × (o' ≡ o)
          × (is_neg (e h (set_option o.device.fd (so_keepalive flag))).ret ≡ true))
      ⊎ ((code ≡ neg ldal_error)
          × (o' ≡ record o { own = record (o.own) { keepalive = pos 0 } })
          × (latest h' ≡ some (set_option o.device.fd (so_keepalive (pos 0)))))
unfolding set_keepalive
set_keepalive_lem o flag e h = ground arith

-- The commands for the timeouts keep the number of milliseconds, as a 32-bit number, and hand the
-- socket the same span of time, its microseconds below a second.
pub tcp_control-timeout :
    (o : TcpDevice) (ms : ℕ) (e : Env) (h : History)
    → let ((_, _, o'), h') = tcp_control o socket_set_recvtimeo (timeout ms) e h in
      let ((_, _, o''), h'') = tcp_control o socket_set_sendtimeo (timeout ms) e h in
      (v : TimeVal) × (h' ≡ set_option o.device.fd (so_rcvtimeo v) ∷ h)
      × (h'' ≡ set_option o.device.fd (so_sndtimeo v) ∷ h)
      × (o'.own.recv_timeout ≡ ms % 2 ^ 32)
      × (o''.own.send_timeout ≡ ms % 2 ^ 32)
      × (v.tv_sec * 1000000 + v.tv_usec ≡ ms % 2 ^ 32 * 1000)
      × (v.tv_usec < 1000000)
unfolding tcp_control
tcp_control-timeout o ms e h =
    (timeval (ms % 2 ^ 32), refl, refl, refl, refl, omega arith, omega arith)
