-- ===== src/Me.antt =====
-- src/class/ldal_me.c: the class of modems. The terminal interface and `sscanf` are parameters.
pub mod Session
mod Tests
use ldal.Base.{
  ◌-◌, ◌%◌, ◌^◌, ℕ, ℤ, pos, negsuc, neg, is_neg, is_minus_one, is_zero, Bool, false, Option, none,
  some, [], ◌∷◌, ◌++◌, ltb, if◌then◌else◌, take, replicate, ldal_eok, ldal_error, ldal_enomem,
}
use ldal.Kernel.{
  Bytes, Answer, o_rdwr, o_noctty, o_ndelay, open_file, close_fd, read_fd, write_fd, set_flags,
  is_a_tty, sleep_sec, alloc, spawn, Io, pure, call, ◌>>=◌, ◌>>◌,
}
use ldal.Socket.{text_of, print_digits}
use ldal.Serial.{Terminal, serial_default_config}
use ldal.At.{Response, at_create_resp, at_delete_resp, at_resp_parse_line_args_by_kw, strstr}
use ldal.AtClient.{MeDevice, uninitialized, at_recv_buff_size, at_obj_exec_cmd}

abbrev pub at_client_recv_buff_len : ℕ
at_client_recv_buff_len = 256

-- "AT+CMGF=0\r\n"
abbrev pub me_set_pdu_mode : Bytes
me_set_pdu_mode = b'A' ∷ b'T' ∷ b'+' ∷ b'C' ∷ b'M' ∷ b'G' ∷ b'F' ∷ b'=' ∷ b'0' ∷ 13 ∷ 10 ∷ []

-- "AT+CMGS="
abbrev pub me_send_pdu_msgs : Bytes
me_send_pdu_msgs = b'A' ∷ b'T' ∷ b'+' ∷ b'C' ∷ b'M' ∷ b'G' ∷ b'S' ∷ b'=' ∷ []

-- "OK"
abbrev pub ok_text : Bytes
ok_text = b'O' ∷ b'K' ∷ []

-- `sscanf s` is the number of arguments that `sscanf` reads from the text by "%s".
module _ (behind : Bytes) (timespec_of : Bytes → ℕ × ℕ) (sscanf : Bytes → ℤ) where
  -- `__exit:`
  abbrev leave : ℤ → MeDevice → Option Response → Io (ℤ × MeDevice)
  leave result o resp = do at_delete_resp resp; pure (result, o)

  abbrev pub is_positive : ℤ → Bool
  is_positive (pos n) = ltb 0 n
  is_positive (negsuc n) = false

  -- The response is given.
  check_answer : Option Bytes → ℤ → MeDevice → Response → Io (ℤ × MeDevice)
  check_answer resp_expr result o resp =
      if is_neg result then leave result o (some resp) else elim resp_expr [
        | none ↦ leave ldal_eok o (some resp)
        | some keyword ↦
            if is_positive (at_resp_parse_line_args_by_kw sscanf resp keyword)
            then leave ldal_eok o (some resp)
            else leave (neg ldal_error) o (some resp)
      ]

  pub check_send_cmd :
      MeDevice
      → (cmd : Bytes) → (resp_expr : Option Bytes) → (lines : ℕ) → (timeout : ℤ) → Io (ℤ × MeDevice)
  unfolding check_answer at_create_resp at_delete_resp
  check_send_cmd o cmd resp_expr lines timeout = do
    resp ← at_create_resp at_client_recv_buff_len lines timeout
    elim resp [
      | none ↦ pure (neg ldal_enomem, o)
      | some r ↦ do
        (result, o', r') ← at_obj_exec_cmd behind timespec_of o (some r) cmd
        elim r' [ none ↦ pure (result, o') | some answer ↦ check_answer resp_expr result o' answer ]
    ]

-- The text in the buffer, which was zeroed, after a `read` into it.
abbrev pub received : Answer → Bytes
received r = elim r.ret [ pos n ↦ text_of (take n r.payload) | negsuc n ↦ [] ]

-- `%d` of a number that was converted to `int`.
abbrev pub print_len_udp : ℕ → Bytes
print_len_udp n =
    let low = n % 2 ^ 32 in
    if ltb low (2 ^ 31) then print_digits 10 low else b'-' ∷ print_digits 10 (2 ^ 32 - low)

pub me_ec25_send_messages : MeDevice → Bytes → ℕ → Io ℤ
me_ec25_send_messages o message_pdu len_udp = do
  call (write_fd o.device.fd me_set_pdu_mode)
  call (sleep_sec 2)
  answer ← call (read_fd o.device.fd 300)
  if strstr (received answer) ok_text
      then (do
        call (write_fd o.device.fd (me_send_pdu_msgs ++ (print_len_udp len_udp ++ (13 ∷ 10 ∷ []))))
        call (sleep_sec 1)
        call (read_fd o.device.fd 300)
        call (write_fd o.device.fd (text_of message_pdu))
        call (sleep_sec 4)
        call (read_fd o.device.fd 300)
        pure ldal_eok)
      else pure (neg ldal_error)

-- The status stays uninitialised.
pub me_init : MeDevice → Io (ℤ × MeDevice)
me_init o = do
  buf ← call (alloc at_recv_buff_size)
  let o1 : MeDevice = record o {
    own = record (o.own) { status = uninitialized; recv_line_len = 0; recv_line_buf = [] };
  }
  if is_neg buf.ret then pure (neg ldal_enomem, o1) else do
    call spawn
    pure (
      ldal_eok,
      record o1 { own = record (o1.own) { recv_line_buf = replicate at_recv_buff_size 0 } },
    )

pub me_open : Terminal → MeDevice → Io (ℤ × MeDevice)
me_open t o0 = do
  r ← call (open_file (text_of o0.device.filename) (o_rdwr ∷ o_noctty ∷ o_ndelay ∷ []))
  let o : MeDevice = record o0 { device = record (o0.device) { fd = r.ret } }
  if is_minus_one r.ret then pure (neg ldal_error, o) else do
    blocking ← call (set_flags r.ret false)
    if is_neg blocking.ret then pure (neg ldal_error, o) else do
      call (set_flags r.ret false)
      tty ← call is_a_tty
      if is_zero tty.ret
          then pure (neg ldal_error, o)
          else do serial_default_config t r.ret; pure (ldal_eok, o)

pub me_close : MeDevice → Io (ℤ × MeDevice)
me_close o = do call (close_fd o.device.fd); pure (ldal_eok, o)

pub me_read : MeDevice → ℕ → Io (ℤ × Bytes × MeDevice)
me_read o len = do
  r ← call (read_fd o.device.fd len)
  pure (if is_minus_one r.ret then neg ldal_error else ldal_eok, r.payload, o)

pub me_write : MeDevice → Bytes → ℕ → Io (ℤ × MeDevice)
unfolding me_ec25_send_messages
me_write o buf len = do
  ret ← me_ec25_send_messages o buf len
  pure (if is_minus_one ret then neg ldal_error else ldal_eok, o)
