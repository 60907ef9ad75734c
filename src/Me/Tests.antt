-- ===== src/Me/Tests.antt =====
-- A modem that answers with "OK", and one that does not.
use ldal.Base.{pos, ◌≢◌, true, false, some, [], ◌∷◌, ldal_eok}
use ldal.Kernel.{Bytes, read_fd, Env}
use ldal.AtClient.{MeDevice, uninitialized, resp_ok}
use ldal.Me.{check_send_cmd, ok_text}
use ldal.Me.Session.{check_send_cmd-ne_eok}

abbrev modem : MeDevice
modem = record {
  device = record { fd = pos 3; name = []; filename = []; is_init = true; ref = 0 };
  own = record {
    status = uninitialized;
    resp_status = resp_ok;
    recv_line_buf = [];
    recv_line_len = 0;
    pending = false;
  };
}

abbrev answering : Env
answering h c = record {
  ret = elim c [ read_fd _ _ ↦ pos 2 | _ ↦ pos 0 ];
  payload = ok_text;
  errno = 0;
}

abbrev pdu : Bytes
pdu = 65 ∷ 66 ∷ []

check_send_cmd-ne_eok_example :
    (check_send_cmd []
      (λ s. (0, 0))
      (λ s. pos 1)
      modem
      pdu
      (some ok_text)
      0
      (pos 300)
      answering
      []).0.0
    ≢ ldal_eok
check_send_cmd-ne_eok_example =
    check_send_cmd-ne_eok [] (λ s. (0, 0)) (λ s. pos 1) modem pdu ok_text 0 (pos 300) answering []
