-- ===== src/Tools/UdpEcho.antt =====
-- tools/udp_echo_server.c: a server that sends each sender back the text that it receives.
pub mod Replies
use ldal.Base.{
  ℕ, zero, suc, ℤ, pos, negsuc, Bool, ◌&&◌, List, [], ◌∷◌, ◌++◌, leb, ◌==◌, if◌then◌else◌,
  is_minus_one, take, length,
}
use ldal.Kernel.{
  Bytes, Answer, Address, any, text, socket, datagram, set_option, so_reuseaddr, bind_addr,
  recv_from, send_to, pure,
}
use ldal.Socket.{atoi16, text_of}
use ldal.Tools.{stopped, crashed, lost, Program, give, exit, sys, ◌>>=◌, ◌>>◌}

abbrev pub maxbuf : ℕ
maxbuf = 8192

abbrev pub default_port : ℕ
default_port = 7575

-- What `getopt_long` returns for the arguments, one after the other.
pub data Argument : Type 0 where
  ipaddr port : Bytes → Argument
  help unknown : Argument

abbrev pub start : Address
start = record { host = any; port = default_port }

unfoldable pub parse_options : Address → List Argument → Program Address
parse_options a [] = give a
parse_options a (ipaddr s ∷ os) = parse_options (record a { host = text s }) os
parse_options a (port s ∷ os) = parse_options (record a { port = atoi16 s }) os
parse_options a (help ∷ os) = exit
parse_options a (unknown ∷ os) = parse_options a os

-- The bytes of the buffer fill it, without a NUL among them.
abbrev pub has_no_end : Bytes → Bool
has_no_end s = leb maxbuf (length s) && (length (text_of s) == length s)

-- `sender` reads the address that `recvfrom` stores.
module _ (sender : Answer → Address) where
  -- `strlen` of a buffer without a NUL reads past its end; and the NUL is sent with the text.
  unfoldable pub send_reply : ℤ → Bytes → Address → Program (Unit {0})
  send_reply fd buf to =
      if has_no_end buf
      then pure (stopped crashed)
      else (do sys (send_to fd (text_of buf ++ (0 ∷ [])) to); give tt)

  unfoldable pub answer_datagram : ℤ → ℤ → Bytes → Address → Program (Unit {0})
  unfolding send_reply
  answer_datagram fd (pos zero) buf to = give tt
  answer_datagram fd (pos (suc n)) buf to = send_reply fd (take (suc n) buf) to
  answer_datagram fd (negsuc n) buf to = give tt

  -- `while (1)`
  unfoldable pub serve : ℕ → ℤ → Program (Unit {0})
  unfolding answer_datagram
  serve zero fd = pure (stopped lost)
  serve (suc fuel) fd = do
    r ← sys (recv_from fd maxbuf)
    answer_datagram fd r.ret r.payload (sender r)
    serve fuel fd

  unfoldable pub main : ℕ → List Argument → Program (Unit {0})
  unfolding parse_options serve
  main fuel os = do
    a ← parse_options start os
    s ← sys (socket datagram)
    if is_minus_one s.ret then exit else do
      sys (set_option s.ret so_reuseaddr)
      b ← sys (bind_addr s.ret a)
      if is_minus_one b.ret then exit else serve fuel s.ret
