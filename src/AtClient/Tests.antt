-- ===== src/AtClient/Tests.antt =====
-- A modem whose clock fails.
use ldal.Base.{ℕ, pos, negsuc, ◌≡◌, ◌⊎◌, ◌*◌, ◌+◌, ◌<◌, true, false, some, [], ◌∷◌, arith}
use ldal.Kernel.{Bytes, clock_now, client_lock, latest, Env}
use ldal.Device.Mutex.{held}
use ldal.At.{Response}
use ldal.AtClient.{MeDevice, uninitialized, resp_ok, at_obj_exec_cmd, deadline}
use ldal.AtClient.Command.{clock_fails, at_obj_exec_cmd-held, deadline-later}

abbrev modem : MeDevice
modem = record {
  device = record { fd = pos 3; name = []; filename = []; is_init = true; ref = 0 };
  own = record {
    status = uninitialized;
    resp_status = resp_ok;
    recv_line_buf = [];
    recv_line_len = 0;
    pending = false;
  };
}

abbrev empty : Response
empty = record {
  buf = [];
  buf_size = 0;
  buf_len = 0;
  line_num = 0;
  line_counts = 0;
  timeout = pos 300;
}

abbrev no_clock : Env
no_clock h c = record { ret = elim c [ clock_now ↦ negsuc 0 | _ ↦ pos 0 ]; payload = []; errno = 0 }

abbrev zero_time : Bytes → ℕ × ℕ
zero_time s = (0, 0)

at_obj_exec_cmd-held_example :
    let ((code, o', resp'), h') =
      at_obj_exec_cmd [] zero_time modem (some empty) (65 ∷ []) no_clock [] in
    ((clock_fails [] zero_time modem (some empty) (65 ∷ []) no_clock [] ≡ false)
      × (held client_lock h' ≡ 0)
      × ((o' ≡ modem) ⊎ (o'.own.pending ≡ false)))
    ⊎ ((clock_fails [] zero_time modem (some empty) (65 ∷ []) no_clock [] ≡ true)
        × (code ≡ negsuc 0)
        × (latest h' ≡ some clock_now)
        × (held client_lock h' ≡ 1)
        × (o'.own.pending ≡ true))
unfolding held
at_obj_exec_cmd-held_example =
    at_obj_exec_cmd-held [] zero_time modem (some empty) (65 ∷ []) no_clock []

deadline-later_example :
    (sec' : ℕ) × (nsec' : ℕ) × (deadline (7, 900000000) (pos 2300) ≡ (pos sec', pos nsec'))
    × (nsec' < 1000000000)
    × (sec' * 1000000000 + nsec' ≡ 10200000000)
deadline-later_example = deadline-later 7 900000000 2300 (omega arith)
