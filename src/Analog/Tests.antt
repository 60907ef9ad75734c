-- ===== src/Analog/Tests.antt =====
-- An input on a machine whose floats are natural numbers.
use ldal.Base.{
  ℕ, ◌+◌, ◌-◌, ◌*◌, ◌/◌, ◌≡◌, refl, ℤ, pos, negsuc, Bool, true, false, some, [], ◌∷◌, ltb, get_or,
  codes, ldal_eok,
}
use ldal.Kernel.{Bytes, read_fd, ioctl, Env, History}
use ldal.Device.{done, startup_device, stop_device, read_device, write_device, control_device}
use ldal.Device.Mutex.{Guards}
use ldal.Analog.Locked.{analog_device_ops-Guards}
use ldal.Analog.{
  analog_read, analog_write, mode_current, Machine, AnalogDevice, uncorrected, analog_init,
  analog_open,
}
use ldal.Analog.Calib.{
  ai_set_correct_vol_cur, analog_control_op, analog_device_ops, ai_cal,
  ai_set_curr_vol_valmax_valmin,
}
use ldal.Analog.Mode.{open_input, read_input, control_input, session, analog_init-mode}
use ldal.Device.Sharing.{open_files, Ends, startup_device-failed_open}
use ldal.Analog.Shared.{analog_device_ops-Shares}
use ldal.Analog.Stored.{refitted}

abbrev size_of : ℤ → ℕ
size_of (pos n) = n
size_of (negsuc n) = n

abbrev bit_of : Bool → ℕ
bit_of true = 1
bit_of false = 0

abbrev small : Machine
small = record {
  Float = ℕ;
  of_nat = λ n. n;
  plus = λ a b. a + b;
  minus = λ a b. a - b;
  times = λ a b. a * b;
  over = λ a b. a / b;
  less = ltb;
  store = λ a. a ∷ 0 ∷ 0 ∷ 0 ∷ [];
  load = λ s. get_or s 0 0;
  Double = ℕ;
  widen = λ a. a;
  narrow = λ a. a;
  double_of_nat = λ n. n;
  plus_double = λ a b. a + b;
  minus_double = λ a b. a - b;
  over_double = λ a b. a / b;
  store_cfgs = λ c v.
      bit_of c.is_corrected
      ∷ c.slope
      ∷ c.intercept
      ∷ bit_of v.is_corrected
      ∷ v.slope
      ∷ v.intercept
      ∷ [];
  load_cfgs = λ s. (
    record { is_corrected = ltb 0 (get_or s 0 0); slope = get_or s 1 0; intercept = get_or s 2 0 },
    record { is_corrected = ltb 0 (get_or s 3 0); slope = get_or s 4 0; intercept = get_or s 5 0 },
  );
  store_calibrate = λ c. c.ai_dev ∷ c.vol_a ∷ c.vol_b ∷ c.cur_a ∷ c.cur_b ∷ c.crc ∷ [];
  load_calibrate = λ s. record {
    ai_dev = get_or s 0 0;
    vol_a = get_or s 1 0;
    vol_b = get_or s 2 0;
    cur_a = get_or s 3 0;
    cur_b = get_or s 4 0;
    crc = get_or s 5 0;
  };
  store_type = λ dev type. size_of dev ∷ size_of type ∷ [];
  load_conf = λ s. record {
    current_voltage = pos (get_or s 0 0);
    value_max = get_or s 1 0;
    value_min = get_or s 2 0;
  };
  load_value_type = λ s. get_or s 0 0;
}

abbrev iow : ℕ → ℕ → ℕ
iow t n = 1000 * t + n

abbrev input : AnalogDevice small
input = record {
  device = record {
    fd = pos 4;
    name = codes "ai1";
    filename = codes "/dev/ai1";
    is_init = true;
    ref = 1;
  };
  own = record {
    pos = pos 1;
    mode = mode_current;
    current_cfg = uncorrected small;
    voltage_cfg = uncorrected small;
    ai_conf = record { current_voltage = pos 1; value_max = 100; value_min = 0 };
    calib_first = 900;
    calib_second = 0;
  };
}

-- Every read gives the float 3900.
abbrev measuring : Env
measuring h c = record {
  ret = elim c [ read_fd _ _ ↦ pos 4 | _ ↦ pos 5 ];
  payload = 3900 ∷ 0 ∷ 0 ∷ 0 ∷ [];
  errno = 0;
}

analog_init-mode_example :
    let ((_, o'), h') = analog_init small input measuring [] in
    (session small iow
      (control_input ai_set_curr_vol_valmax_valmin (some (1 ∷ 100 ∷ 0 ∷ []))
        ∷ open_input
        ∷ read_input 4
        ∷ [])
      o'
      measuring
      h').0.own.mode
    ≡ mode_current
analog_init-mode_example =
    analog_init-mode small iow
      (control_input ai_set_curr_vol_valmax_valmin (some (1 ∷ 100 ∷ 0 ∷ []))
        ∷ open_input
        ∷ read_input 4
        ∷ [])
      input measuring []

abbrev sent : Bytes
sent = small.store_calibrate (ai_cal small iow (refitted small iow input 3 measuring []).own)

abbrev remembering : Env
remembering h c = record {
  ret = elim c [ ioctl _ _ _ ↦ pos 0 | _ ↦ negsuc 0 ];
  payload = sent;
  errno = 0;
}

abbrev before : History → History
before [] = []
before (_ ∷ h) = h

analog_device_ops-Guards_example :
    Guards (read_device (analog_device_ops small iow) input 4) (analog_read small input 4)
    × Guards (write_device (analog_device_ops small iow) input []) (analog_write small input [])
    × Guards
        (control_device (analog_device_ops small iow) input ai_set_correct_vol_cur (some (3 ∷ [])))
        (analog_control_op small iow input ai_set_correct_vol_cur (some (3 ∷ [])))
analog_device_ops-Guards_example =
    analog_device_ops-Guards small iow input 4 ai_set_correct_vol_cur [] (some (3 ∷ []))

abbrev answering : Env
answering h c = record { ret = pos 3; payload = []; errno = 0 }

abbrev failing : Env
failing h c = record { ret = negsuc 0; payload = []; errno = 5 }

abbrev idle_input : AnalogDevice small
idle_input = record input { device = record (input.device) { ref = 0 } }

startup_device-failed_open_example :
    Ends
      (λ a h.
        (a.0 ≡ ldal_eok)
        × (open_files failing h ≡ open_files failing [])
        × (stop_device (analog_device_ops small iow) a.1 failing [] ≡ done (ldal_eok, a.1) []))
      (startup_device (analog_device_ops small iow) idle_input failing [])
unfolding analog_device_ops-Shares analog_open
startup_device-failed_open_example =
    startup_device-failed_open (analog_device_ops-Shares small iow) idle_input failing failing [] []
      refl refl refl
