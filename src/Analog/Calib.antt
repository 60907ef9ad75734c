-- ===== src/Analog/Calib.antt =====
-- src/class/ldal_analog.c: the calibration of an input, in its file and in the microcontroller, and
-- `analog_control`. `iow t n` is the request `_IOW(t, n, int)` of the system's headers.
use ldal.Base.{
  ℕ, zero, suc, ◌-◌, ◌/◌, ◌%◌, ◌^◌, ℤ, pos, negsuc, Bool, true, false, Option, none, some, [], ◌∷◌,
  ◌++◌, ltb, ◌==◌, if◌then◌else◌, neg, ldal_eok, ldal_error, ldal_einval, is_neg, is_zero,
  is_minus_one, ldal_eok,
}
use ldal.Kernel.{
  Bytes, o_wronly, o_creat, open_file, close_fd, read_fd, write_fd, ioctl, sleep_usec, Io, pure,
  call, ◌>>=◌, ◌>>◌,
}
use ldal.Device.{Device, DeviceOps}
use ldal.Analog.{
  AdcMode, mode_current, mode_voltage, Aicfgs, AiCalibrate, AnalogLink, Machine, size_of_float,
  crc16_212, overwritten, is_short, pathname, AnalogDevice, import_calib, analog_init, analog_open,
  analog_close, analog_read, analog_write,
}

abbrev pub ai_average_n : ℕ
ai_average_n = 10

abbrev pub read_try_count : ℕ
read_try_count = 5

abbrev pub ai_set_curr_vol_valmax_valmin : ℕ
ai_set_curr_vol_valmax_valmin = 0x101

abbrev pub ai_set_correct_vol_cur : ℕ
ai_set_correct_vol_cur = 0x102

abbrev pub ai_get_correct_vol_cur : ℕ
ai_get_correct_vol_cur = 0x103

-- The variables of `get_ai_average`.
pub record Samples (F D : Type 0) : Type 0 where
  pub valuef : F
  pub value_min : F
  pub value_max : F
  pub value_sum : D
  pub count : ℕ

unfoldable pub save_calib_data_to_file : Device → Bytes → Io ℤ
save_calib_data_to_file d buf = do
  fd ← call (open_file (pathname d) (o_wronly ∷ o_creat ∷ []))
  if is_minus_one fd.ret then pure (neg ldal_error) else do
    r ← call (write_fd fd.ret buf)
    call (close_fd fd.ret)
    pure (if is_minus_one r.ret then neg ldal_error else ldal_eok)

-- `type & 1` and `type & 2`.
abbrev pub is_second : ℕ → Bool
is_second type = type % 2 == 1

abbrev pub mode_of : ℕ → AdcMode
mode_of type = if type / 2 % 2 == 1 then mode_voltage else mode_current

-- A `char` keeps the lowest byte of an `int`.
abbrev pub to_char : ℤ → ℕ
to_char (pos n) = n % 256
to_char (negsuc n) = 255 - n % 256

module _ (m : Machine) (iow : ℕ → ℕ → ℕ) where
  abbrev pub ai_conf_volt_curr : ℕ
  ai_conf_volt_curr = iow b'k' 1

  abbrev pub ai_set_volt_curr_cal : ℕ
  ai_set_volt_curr_cal = iow b'k' 5

  abbrev pub ai_get_volt_curr_cal : ℕ
  ai_get_volt_curr_cal = iow b'k' 6

  abbrev pub Sampled : Type 0
  Sampled = Samples m.Float m.Double

  abbrev pub unsampled : Sampled
  unsampled = record {
    valuef = m.of_nat 0;
    value_min = m.of_nat 0;
    value_max = m.of_nat 0;
    value_sum = m.double_of_nat 0;
    count = 0;
  }

  -- A round of the loop of `get_ai_average`, after its read; `first` tells whether `loop == 0`.
  abbrev pub tallied : Bool → Sampled → Sampled
  tallied first s = record {
    valuef = s.valuef;
    value_min =
        if first then s.valuef else if m.less s.valuef s.value_min then s.valuef else s.value_min;
    value_max =
        if first
        then s.valuef
        else if m.less s.valuef s.value_min
        then s.value_max
        else if m.less s.value_max s.valuef
        then s.valuef
        else s.value_max;
    value_sum = m.plus_double s.value_sum (m.widen s.valuef);
    count = suc s.count;
  }

  unfoldable pub sample_rounds : (rounds : ℕ) → ℤ → (first : Bool) → Sampled → Io Sampled
  sample_rounds zero fd first s = pure s
  sample_rounds (suc rounds) fd first s = do
    r ← call (read_fd fd size_of_float)
    let read_in : Sampled = record s { valuef = m.load (overwritten r (m.store s.valuef)) }
    if is_short r.ret
        then sample_rounds rounds fd false read_in
        else do call (sleep_usec 50000); sample_rounds rounds fd false (tallied first read_in)

  abbrev pub average : Sampled → m.Float
  average s =
      if ltb 2 s.count
      then m.narrow (
          m.over_double
            (m.minus_double (m.minus_double s.value_sum (m.widen s.value_min))
              (m.widen s.value_max))
            (m.double_of_nat (s.count - 2)))
      else s.valuef

  unfoldable pub get_ai_average : ℤ → Io (ℤ × m.Float)
  unfolding sample_rounds
  get_ai_average fd = do s ← sample_rounds ai_average_n fd true unsampled; pure (pos 0, average s)

  abbrev pub calib_point : AdcMode → m.Float × m.Float
  calib_point mode_current = (m.of_nat 6000, m.of_nat 16000)
  calib_point mode_voltage = (m.of_nat 1000, m.of_nat 4000)

  -- The line through the two points that were measured.
  unfoldable pub fitted : AdcMode → AnalogLink m.Float → Aicfgs m.Float
  fitted mode a =
      let (p1, p2) = calib_point mode in
      let slope = m.over (m.minus p2 p1) (m.minus a.calib_second a.calib_first) in
      record {
        is_corrected = true;
        slope = slope;
        intercept = m.minus p2 (m.times slope a.calib_second);
      }

  abbrev pub set_cfg : AdcMode → Aicfgs m.Float → AnalogDevice m → AnalogDevice m
  set_cfg mode_current c o = record o { own = record (o.own) { current_cfg = c } }
  set_cfg mode_voltage c o = record o { own = record (o.own) { voltage_cfg = c } }

  -- The checksum of the four floats from `vol_a` on; `crc` has 16 bits.
  unfoldable pub checksum : (vol_a vol_b cur_a cur_b : m.Float) → ℕ
  checksum vol_a vol_b cur_a cur_b =
      crc16_212 (m.store vol_a ++ (m.store vol_b ++ (m.store cur_a ++ m.store cur_b))) % 2 ^ 16

  -- What is sent to the microcontroller.
  unfoldable pub ai_cal : AnalogLink m.Float → AiCalibrate m.Float
  unfolding checksum
  ai_cal a = record {
    ai_dev = to_char a.pos;
    vol_a = a.voltage_cfg.slope;
    vol_b = a.voltage_cfg.intercept;
    cur_a = a.current_cfg.slope;
    cur_b = a.current_cfg.intercept;
    crc =
        checksum a.voltage_cfg.slope a.voltage_cfg.intercept a.current_cfg.slope
          a.current_cfg.intercept;
  }

  -- The second point, measured: the calibration that is saved is the one before.
  unfoldable pub second_point : AnalogDevice m → ℕ → Io (ℤ × AnalogDevice m)
  unfolding fitted ai_cal save_calib_data_to_file
  second_point o type = do
    saved ← save_calib_data_to_file o.device (m.store_cfgs o.own.current_cfg o.own.voltage_cfg)
    if is_neg saved then pure (neg ldal_error, o) else do
      let o' = set_cfg (mode_of type) (fitted (mode_of type) o.own) o
      call (ioctl o.device.fd ai_set_volt_curr_cal (m.store_calibrate (ai_cal o'.own)))
      pure (ldal_eok, o')

  unfoldable pub calib_adc_value : AnalogDevice m → ℕ → Io (ℤ × AnalogDevice m)
  unfolding get_ai_average second_point
  calib_adc_value o type = do
    (ret, value) ← get_ai_average o.device.fd
    let o1 : AnalogDevice m = record o { own = record (o.own) { calib_second = value } }
    if is_second type
        then (if is_neg ret then pure (neg ldal_error, o1) else second_point o1 type)
        else pure (ret, record o { own = record (o.own) { calib_first = value } })

  -- `none` if none of the tries succeeds.
  unfoldable pub get_tries : ℕ → ℤ → Io (Option Bytes)
  get_tries zero fd = pure none
  get_tries (suc rounds) fd = do
    r ← call (ioctl fd ai_get_volt_curr_cal [])
    if is_zero r.ret
        then pure (some r.payload)
        else do call (sleep_usec 500000); get_tries rounds fd

  -- The calibration that the microcontroller gave, if its checksum is right.
  unfoldable pub restored : AiCalibrate m.Float → AnalogDevice m → Option (AnalogDevice m)
  unfolding checksum
  restored c o =
      if checksum c.vol_a c.vol_b c.cur_a c.cur_b == c.crc
      then some (record o {
        own = record (o.own) {
          current_cfg = record { is_corrected = true; slope = c.cur_a; intercept = c.cur_b };
          voltage_cfg = record { is_corrected = true; slope = c.vol_a; intercept = c.vol_b };
        };
      })
      else none

  unfoldable pub restore_adc_value : AnalogDevice m → Io (ℤ × AnalogDevice m)
  unfolding import_calib get_tries restored ai_cal save_calib_data_to_file
  restore_adc_value o0 = do
    o ← import_calib m o0
    got ← get_tries read_try_count o.device.fd
    elim got [
      | none ↦ do
        r ← call (ioctl o.device.fd ai_set_volt_curr_cal (m.store_calibrate (ai_cal o.own)))
        pure (r.ret, o)
      | some bytes ↦ elim (restored (m.load_calibrate bytes) o) [
        | none ↦ pure (neg ldal_error, o)
        | some o' ↦ do
          ret ←
              save_calib_data_to_file o'.device (m.store_cfgs o'.own.current_cfg o'.own.voltage_cfg)
          pure (ret, o')
      ]
    ]

  -- `arg` is the memory that it points to, or NULL.
  unfoldable pub analog_control : AnalogDevice m → ℕ → Option Bytes → Io (ℤ × AnalogDevice m)
  unfolding calib_adc_value restore_adc_value
  analog_control o cmd arg =
      if cmd == ai_set_curr_vol_valmax_valmin
      then elim arg [
        | none ↦ pure (neg ldal_einval, o)
        | some bytes ↦ do
          let c = m.load_conf bytes
          r ← call (ioctl o.device.fd ai_conf_volt_curr (m.store_type o.own.pos c.current_voltage))
          pure (r.ret, record o { own = record (o.own) { ai_conf = c } })
      ]
      else if cmd == ai_set_correct_vol_cur
      then elim arg [
        | none ↦ pure (neg ldal_einval, o)
        | some bytes ↦ calib_adc_value o (m.load_value_type bytes)
      ]
      else if cmd == ai_get_correct_vol_cur
      then restore_adc_value o
      else pure (neg ldal_einval, o)

  -- `analog_control` as the table of operations has it: what `arg` points to stays as it is.
  abbrev pub analog_control_op :
      AnalogDevice m → ℕ → Option Bytes → Io (ℤ × Option Bytes × AnalogDevice m)
  analog_control_op o cmd arg = do (ret, o') ← analog_control o cmd arg; pure (ret, arg, o')

  -- `analog_device_ops`
  abbrev pub analog_device_ops : DeviceOps (AnalogLink m.Float) (Option Bytes)
  analog_device_ops = record {
    init = some (analog_init m);
    open_op = some (analog_open m);
    close = some (analog_close m);
    read = some (analog_read m);
    write = some (analog_write m);
    control = some analog_control_op;
    check = none;
    bind = none;
    connect = none;
  }
