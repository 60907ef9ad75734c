-- ===== src/Tools/ListDevice.antt =====
-- tools/list_device.c: a client that asks the monitor server for its devices and prints the reply.
pub mod Closed
use ldal.Base.{
  ℕ, ◌+◌, ℤ, pos, negsuc, Option, none, some, List, [], ◌∷◌, ◌++◌, if◌then◌else◌, is_minus_one,
  is_neg, take, codes,
}
use ldal.Kernel.{
  Bytes, any, socket, stream, set_option, so_reuseaddr, connect_addr, write_fd, read_fd, close_fd,
  pure,
}
use ldal.Socket.{text_of}
use ldal.Tools.{crashed, stopped, Program, give, exit, sys, ◌>>=◌, ◌>>◌}
use ldal.Tools.UdpEcho.{Argument, port, maxbuf, parse_options, has_no_end}

abbrev pub default_port : ℕ
default_port = 1601

-- `JSON_CMD`
abbrev pub json_cmd : Bytes
json_cmd = codes "{\"method\":\"listAllDevice\"}"

-- `printf("%s\\n", buf)`, after a `read` of that many bytes: what is printed. A buffer without a NUL
-- is read past its end.
unfoldable pub print_reply : ℤ → Bytes → Program (Option Bytes)
print_reply (negsuc n) buf = give none
print_reply (pos n) buf =
    if has_no_end (take n buf) then pure (stopped crashed) else give (some (text_of (take n buf)))

-- `__exit:`
unfoldable pub finish_with : ℤ → Option Bytes → Program (Option Bytes)
finish_with fd printed = do sys (close_fd fd); give printed

-- The return value is 0 in any case; the model returns what was printed.
unfoldable pub main : List Argument → Program (Option Bytes)
unfolding print_reply finish_with
main os = do
  a ← parse_options (record { host = any; port = default_port }) os
  s ← sys (socket stream)
  if is_minus_one s.ret then exit else do
    sys (set_option s.ret so_reuseaddr)
    c ← sys (connect_addr s.ret a)
    if is_neg c.ret then finish_with s.ret none else do
      w ← sys (write_fd s.ret (json_cmd ++ (0 ∷ [])))
      if is_neg w.ret then finish_with s.ret none else do
        r ← sys (read_fd s.ret maxbuf)
        printed ← print_reply r.ret r.payload
        finish_with s.ret printed
