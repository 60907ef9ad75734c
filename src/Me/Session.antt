-- ===== src/Me/Session.antt =====
-- What a modem is sent, and what becomes of its answers.
use ldal.Base.{
  ℕ, ℤ, ◌≡◌, ◌≢◌, ◌⊎◌, true, false, some, [], ◌∷◌, ◌++◌, arith, ldal_eok, ldal_error, neg,
}
use ldal.Kernel.{Bytes, read_fd, write_fd, sleep_sec, Env, History}
use ldal.Socket.{text_of}
use ldal.At.{at_resp_get_line_by_kw, at_resp_parse_line_args_by_kw, strstr}
use ldal.AtClient.{MeDevice, at_obj_exec_cmd}
use ldal.Me.{
  print_len_udp, check_send_cmd, me_write, received, ok_text, me_set_pdu_mode, me_send_pdu_msgs,
}

-- A message is written only after the modem was set to its mode and answered with "OK" within a
-- read: then the announcement of its length and the text of the message are the next two writes and
-- the result is success. Without "OK" nothing more is sent, and the result is an error.
pub me_write-received :
    (o : MeDevice) (buf : Bytes) (len : ℕ) (e : Env) (h : History)
    → let fd = o.device.fd in
      let asked = sleep_sec 2 ∷ write_fd fd me_set_pdu_mode ∷ h in
      let heard = received (e asked (read_fd fd 300)) in
      let ((code, o'), h') = me_write o buf len e h in
      ((strstr heard ok_text ≡ true)
        × (code ≡ ldal_eok)
        × (h'
            ≡ read_fd fd 300
              ∷ sleep_sec 4
              ∷ write_fd fd (text_of buf)
              ∷ read_fd fd 300
              ∷ sleep_sec 1
              ∷ write_fd fd (me_send_pdu_msgs ++ (print_len_udp len ++ (13 ∷ 10 ∷ [])))
              ∷ read_fd fd 300
              ∷ asked))
      ⊎ ((strstr heard ok_text ≡ false) × (code ≡ neg ldal_error) × (h' ≡ read_fd fd 300 ∷ asked))
unfolding me_write
me_write-received o buf len e h = ground arith

-- A command whose answer is to contain a keyword never succeeds, whatever the modem answers and
-- whatever `sscanf` reads: no line of an answer reaches its response.
pub check_send_cmd-ne_eok :
    (behind : Bytes) (timespec_of : Bytes → ℕ × ℕ) (sscanf : Bytes → ℤ) (o : MeDevice)
    (cmd keyword : Bytes) (lines : ℕ) (timeout : ℤ) (e : Env) (h : History)
    → (check_send_cmd behind timespec_of sscanf o cmd (some keyword) lines timeout e h).0.0
      ≢ ldal_eok
unfolding check_send_cmd at_obj_exec_cmd at_resp_parse_line_args_by_kw at_resp_get_line_by_kw
check_send_cmd-ne_eok behind timespec_of sscanf o cmd keyword lines timeout e h code = ground arith
