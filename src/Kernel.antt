-- ===== src/Kernel.antt =====
-- The operating system as the code sees it: the calls it makes, the answers it gets, and the
-- monad of a handler. Nothing is assumed of the answers: an environment may answer each call as it
-- likes, and its answer may depend on every call before.
use ldal.Base.{ℕ, ℤ, Option, none, some, List, [], ◌∷◌, Bool}

abbrev pub Bytes : Type 0
Bytes = List ℕ

-- Where a socket is bound or connected to. `text s` is the address that `inet_addr(s)` reads.
pub data Host : Type 0 where
  any : Host
  text : Bytes → Host

-- `struct sockaddr_in`, its family being `AF_INET` throughout.
pub record Address : Type 0 where
  pub host : Host
  pub port : ℕ

pub data OpenFlag : Type 0 where
  o_rdwr o_nonblock o_creat o_noctty o_ndelay o_rdonly o_wronly : OpenFlag

pub data SocketKind : Type 0 where
  stream datagram : SocketKind

-- A `struct timeval`.
pub record TimeVal : Type 0 where
  pub tv_sec : ℕ
  pub tv_usec : ℕ

pub data SocketOption : Type 0 where
  so_reuseaddr : SocketOption
  so_keepalive : ℤ → SocketOption
  tcp_keepintvl tcp_keepidle tcp_keepcnt : ℕ → SocketOption
  so_rcvtimeo so_sndtimeo : TimeVal → SocketOption
  so_bindtodevice : Bytes → SocketOption

-- The locks that the code takes.
pub data Lock : Type 0 where
  device_mutex client_lock proc_lock : Lock

pub data Call : Type 0 where
  open_file : Bytes → List OpenFlag → Call
  close_fd : ℤ → Call
  read_fd : ℤ → ℕ → Call
  write_fd : ℤ → Bytes → Call
  seek_start : ℤ → Call
  ioctl : ℤ → ℕ → Bytes → Call
  socket : SocketKind → Call
  set_option : ℤ → SocketOption → Call
  get_error : ℤ → Call
  bind_addr : ℤ → Address → Call
  connect_addr : ℤ → Address → Call
  recv_fd : ℤ → ℕ → Call
  send_fd : ℤ → Bytes → Call
  recv_from : ℤ → ℕ → Call
  send_to : ℤ → Bytes → Address → Call
  get_flags : ℤ → Call
  set_flags : ℤ → Bool → Call
  is_a_tty : Call
  select_read : ℤ → List TimeVal → Call
  flush_io : ℤ → Call
  get_attr : ℤ → Call
  set_attr : ℤ → Bytes → Call
  sleep_sec : ℕ → Call
  sleep_usec : ℕ → Call
  access_path : Bytes → Call
  clock_now : Call
  wait_until : ℤ → ℤ → Call
  lock : Lock → Call
  unlock : Lock → Call
  alloc : ℕ → Call
  spawn : Call
  sys_info : Call
  system : Bytes → Call
  stop_server : Call
  get_uid : Call
  get_euid : Call
  pipe_open : Bytes → Call
  pipe_line : ℕ → Call
  pipe_close : Call
  resolver_init : Call
  stream_open_read stream_open_write : Bytes → Call
  stream_scan : Call
  stream_print : Bytes → Call
  stream_close : Call
  free_mem : Call
  listen_fd : ℤ → ℕ → Call
  accept_fd : ℤ → Call
  select_set : ℤ → List ℤ → ℤ → Call
  get_char : Call

-- What a call gives back: its result, the bytes that it stores, and `errno`.
pub record Answer : Type 0 where
  pub ret : ℤ
  pub payload : Bytes
  pub errno : ℕ

-- The calls made so far, the latest first.
abbrev pub History : Type 0
History = List Call

abbrev pub latest : History → Option Call
latest [] = none
latest (c ∷ h) = some c

abbrev pub Env : Type 0
Env = History → Call → Answer

-- A handler: it runs in an environment, after some calls, and adds its own.
abbrev pub Io : Type 0 → Type 0
Io A = Env → History → A × History

abbrev pub pure : {A : Type 0} → A → Io A
pure a e h = (a, h)

abbrev pub call : Call → Io Answer
call c e h = (e h c, c ∷ h)

infixl 5 ◌>>=◌ ◌>>◌
abbrev pub ◌>>=◌ : {A B : Type 0} → Io A → (A → Io B) → Io B
◌>>=◌ m k e h = let (a, h') = m e h in k a e h'

abbrev pub ◌>>◌ : {A B : Type 0} → Io A → Io B → Io B
m >> k = m >>= λ _. k
