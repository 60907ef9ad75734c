-- ===== src/Analog/Locked.antt =====
-- The generic calls of src/ldal.c on an analog input, and the mutex of the device.
use ldal.Base.{
  ◌==◌, ℕ, zero, suc, refl, ◌∙◌, ℤ, Bool, true, false, Bool-cases, inl, inr, Option, none, some,
  ◌∷◌, arith,
}
use ldal.Kernel.{Bytes, read_fd, sleep_usec}
use ldal.Device.{Device, read_device, write_device, control_device}
use ldal.Device.Mutex.{held, Keeps, Guards, with_mutex-Guards}
use ldal.Analog.{
  Machine, AnalogDevice, size_of_float, overwritten, is_short, get_calib_data_from_file,
  import_calib, analog_read, analog_write,
}
use ldal.Analog.Points.{measured_second, calib_adc_value-second_point, calib_adc_value-first}
use ldal.Analog.Calib.{
  Sampled, tallied, ai_set_curr_vol_valmax_valmin, ai_set_correct_vol_cur, ai_get_correct_vol_cur,
  save_calib_data_to_file, is_second, sample_rounds, get_ai_average, second_point, calib_adc_value,
  get_tries, restore_adc_value, analog_control, analog_control_op, analog_device_ops,
}

save_calib_data_to_file-Keeps : (d : Device) (buf : Bytes) → Keeps (save_calib_data_to_file d buf)
unfolding save_calib_data_to_file held
save_calib_data_to_file-Keeps d buf e h = ground arith

get_calib_data_from_file-Keeps : (d : Device) (buf : Bytes) → Keeps (get_calib_data_from_file d buf)
unfolding get_calib_data_from_file held
get_calib_data_from_file-Keeps d buf e h = ground arith

module _ (m : Machine) (iow : ℕ → ℕ → ℕ) where
  import_calib-Keeps : (o : AnalogDevice m) → Keeps (import_calib m o)
  unfolding import_calib
  import_calib-Keeps o e h =
      get_calib_data_from_file-Keeps o.device (m.store_cfgs o.own.current_cfg o.own.voltage_cfg) e h

  sample_rounds-Keeps :
      (rounds : ℕ) (fd : ℤ) (first : Bool) (s : Sampled m iow)
      → Keeps (sample_rounds m iow rounds fd first s)
  unfolding sample_rounds held
  sample_rounds-Keeps zero fd first s e h = refl
  sample_rounds-Keeps (suc rounds) fd first s e h =
      let r = e h (read_fd fd size_of_float) in
      let read_in : Sampled m iow = record s {
        valuef = m.load (overwritten r (m.store s.valuef));
      } in
      let h1 = read_fd fd size_of_float ∷ h in
      elim (Bool-cases (is_short r.ret)) [
        | inl short ↦ rw short (sample_rounds-Keeps rounds fd false read_in e h1)
        | inr full ↦ rw full (
            sample_rounds-Keeps rounds fd false (tallied m iow first read_in) e
              (sleep_usec 50000 ∷ h1))
      ]

  get_ai_average-Keeps : (fd : ℤ) → Keeps (get_ai_average m iow fd)
  unfolding get_ai_average
  get_ai_average-Keeps fd e h = sample_rounds-Keeps 10 fd true _ e h

  second_point-Keeps : (o : AnalogDevice m) (type : ℕ) → Keeps (second_point m iow o type)
  unfolding second_point held
  second_point-Keeps o type e h = grind (arith, save_calib_data_to_file-Keeps)

  calib_adc_value-Keeps : (o : AnalogDevice m) (type : ℕ) → Keeps (calib_adc_value m iow o type)
  calib_adc_value-Keeps o type e h = elim (Bool-cases (is_second type)) [
    | inl second ↦ rw (calib_adc_value-second_point m iow o type e h second) (
        second_point-Keeps (measured_second m iow o e h) type e
          (get_ai_average m iow o.device.fd e h).1
        ∙ get_ai_average-Keeps o.device.fd e h)
    | inr first ↦
        rw (calib_adc_value-first m iow o type e h first) (get_ai_average-Keeps o.device.fd e h)
  ]

  get_tries-Keeps : (n : ℕ) (fd : ℤ) → Keeps (get_tries m iow n fd)
  unfolding get_tries held
  get_tries-Keeps zero fd e h = refl
  get_tries-Keeps (suc n) fd e h = grind (arith, get_tries-Keeps n)

  restore_adc_value-Keeps : (o : AnalogDevice m) → Keeps (restore_adc_value m iow o)
  unfolding restore_adc_value held
  restore_adc_value-Keeps o e h =
      grind (arith, import_calib-Keeps, get_tries-Keeps, save_calib_data_to_file-Keeps)

  analog_control-Keeps :
      (o : AnalogDevice m) (cmd : ℕ) (arg : Option Bytes) → Keeps (analog_control m iow o cmd arg)
  unfolding analog_control held
  analog_control-Keeps o cmd none e h = elim (Bool-cases (cmd == ai_set_curr_vol_valmax_valmin)) [
    | inl conf ↦ rw conf refl
    | inr other ↦ elim (Bool-cases (cmd == ai_set_correct_vol_cur)) [
      | inl calib ↦ rw (calib, other) refl
      | inr rest ↦ elim (Bool-cases (cmd == ai_get_correct_vol_cur)) [
        | inl get ↦ rw (get, rest, other) (restore_adc_value-Keeps o e h)
        | inr unknown ↦ rw (unknown, rest, other) refl
      ]
    ]
  ]
  analog_control-Keeps o cmd (some bytes) e h =
      elim (Bool-cases (cmd == ai_set_curr_vol_valmax_valmin)) [
        | inl conf ↦ rw conf refl
        | inr other ↦ elim (Bool-cases (cmd == ai_set_correct_vol_cur)) [
          | inl calib ↦ rw (calib, other) (calib_adc_value-Keeps o (m.load_value_type bytes) e h)
          | inr rest ↦ elim (Bool-cases (cmd == ai_get_correct_vol_cur)) [
            | inl get ↦ rw (get, rest, other) (restore_adc_value-Keeps o e h)
            | inr unknown ↦ rw (unknown, rest, other) refl
          ]
        ]
      ]

  analog_read-Keeps : (o : AnalogDevice m) (len : ℕ) → Keeps (analog_read m o len)
  unfolding analog_read held
  analog_read-Keeps o len e h = ground arith

  analog_write-Keeps : (o : AnalogDevice m) (x : Bytes) → Keeps (analog_write m o x)
  unfolding analog_write
  analog_write-Keeps o x e h = refl

  -- Reading, writing and controlling an analog input through the generic calls runs the operation of
  -- the class once, with the mutex of the device taken, and gives the mutex back, whatever the
  -- command, the argument and the answers are.
  pub analog_device_ops-Guards :
      (o : AnalogDevice m) (n cmd : ℕ) (x : Bytes) (arg : Option Bytes)
      → Guards (read_device (analog_device_ops m iow) o n) (analog_read m o n)
        × Guards (write_device (analog_device_ops m iow) o x) (analog_write m o x)
        × Guards
            (control_device (analog_device_ops m iow) o cmd arg)
            (analog_control_op m iow o cmd arg)
  unfolding read_device write_device control_device
  analog_device_ops-Guards o n cmd x arg = (
    with_mutex-Guards (some (analog_read m)) (analog_read m) (λ f. f o n) refl
        (analog_read-Keeps o n),
    with_mutex-Guards (some (analog_write m)) (analog_write m) (λ f. f o x) refl
        (analog_write-Keeps o x),
    with_mutex-Guards (some (analog_control_op m iow)) (analog_control_op m iow) (λ f. f o cmd arg)
        refl (analog_control-Keeps o cmd arg),
  )
