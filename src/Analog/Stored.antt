-- ===== src/Analog/Stored.antt =====
-- What a calibration leaves in the microcontroller and in its file.
use ldal.Base.{
  ℕ, ◌^◌, ◌<◌, ◌≡◌, ◌∙◌, sym, ap, refl, ℤ, true, false, [], ◌∷◌, arith, Bool-cases, inl, inr,
  is_neg, is_minus_one, ldal_eok,
}
use ldal.Kernel.{Bytes, ioctl, write_fd, close_fd, open_file, o_wronly, o_creat, Env, History}
use ldal.Device.{Device}
use ldal.Analog.{AiCalibrate, AnalogLink, Machine, AnalogDevice, pathname}
use ldal.Analog.Calib.{
  is_second, mode_of, get_ai_average, set_cfg, fitted, ai_cal, ai_set_volt_curr_cal, second_point,
  calib_adc_value, save_calib_data_to_file,
}
use ldal.Analog.Points.{measured_second, calib_adc_value-second_point}

-- Saving that did not fail, as one sequence of calls.
save_calib_data_to_file-ok :
    (d : Device) (buf : Bytes) (e : Env) (h : History)
    → is_neg (save_calib_data_to_file d buf e h).0 ≡ false
    → (fd : ℤ) × ((save_calib_data_to_file d buf e h).1
        ≡ close_fd fd ∷ write_fd fd buf ∷ open_file (pathname d) (o_wronly ∷ o_creat ∷ []) ∷ h)
unfolding save_calib_data_to_file
save_calib_data_to_file-ok d buf e h saved =
    let fd = (e h (open_file (pathname d) (o_wronly ∷ o_creat ∷ []))).ret in
    elim (Bool-cases (is_minus_one fd)) [
      | inl missing ↦ ground arith
      | inr there ↦ (fd, rw there refl)
    ]

module _ (m : Machine) (iow : ℕ → ℕ → ℕ) where
  -- The input whose new line was computed from the two points.
  abbrev pub refitted : AnalogDevice m → ℕ → Env → History → AnalogDevice m
  refitted o type e h =
      let o1 = measured_second m iow o e h in
      set_cfg m iow (mode_of type) (fitted m iow (mode_of type) o1.own) o1

  second_point-saved :
      (o : AnalogDevice m) (type : ℕ) (e : Env) (h : History)
      → (second_point m iow o type e h).0.0 ≡ ldal_eok
      → is_neg
          (save_calib_data_to_file o.device
            (m.store_cfgs o.own.current_cfg o.own.voltage_cfg)
            e
            h).0
        ≡ false
  unfolding second_point
  second_point-saved o type e h ok = ground arith

  second_point-ok :
      (o : AnalogDevice m) (type : ℕ) (e : Env) (h : History)
      → (second_point m iow o type e h).0.0 ≡ ldal_eok
      → (fd : ℤ) × (second_point m iow o type e h ≡ (
        (ldal_eok, set_cfg m iow (mode_of type) (fitted m iow (mode_of type) o.own) o),
        ioctl o.device.fd (ai_set_volt_curr_cal m iow) (
              m.store_calibrate (
                ai_cal m iow
                  (set_cfg m iow (mode_of type) (fitted m iow (mode_of type) o.own) o).own))
            ∷ close_fd fd
            ∷ write_fd fd (m.store_cfgs o.own.current_cfg o.own.voltage_cfg)
            ∷ open_file (pathname o.device) (o_wronly ∷ o_creat ∷ [])
            ∷ h,
      ))
  unfolding second_point
  second_point-ok o type e h ok =
      let saved = second_point-saved o type e h ok in
      let (fd, calls) =
        save_calib_data_to_file-ok o.device (m.store_cfgs o.own.current_cfg o.own.voltage_cfg) e h
          saved in
      (fd, rw (saved, calls) refl)

  -- The settings of a calibration, marked as corrected.
  abbrev pub restored_from : AnalogLink m.Float → AnalogDevice m → AnalogDevice m
  restored_from a o = record o {
    own = record (o.own) {
      current_cfg = record (a.current_cfg) { is_corrected = true };
      voltage_cfg = record (a.voltage_cfg) { is_corrected = true };
    };
  }

  -- A device number of one byte, and a checksum of two.
  abbrev pub IsStorable : AiCalibrate m.Float → Type 0
  IsStorable c = (c.ai_dev < 256) × (c.crc < 2 ^ 16)

  -- A second point that succeeds saves the settings from before it in the file of the device, then
  -- computes the new line and sends the settings with that line, under their checksum, to the
  -- microcontroller.
  pub calib_adc_value-refitted :
      (o : AnalogDevice m) (type : ℕ) (e : Env) (h : History)
      → is_second type ≡ true
      → (calib_adc_value m iow o type e h).0.0 ≡ ldal_eok
      → (fd : ℤ) × (calib_adc_value m iow o type e h ≡ (
        (ldal_eok, refitted o type e h),
        ioctl o.device.fd
              (ai_set_volt_curr_cal m iow)
              (m.store_calibrate (ai_cal m iow (refitted o type e h).own))
            ∷ close_fd fd
            ∷ write_fd fd (m.store_cfgs o.own.current_cfg o.own.voltage_cfg)
            ∷ open_file (pathname o.device) (o_wronly ∷ o_creat ∷ [])
            ∷ (get_ai_average m iow o.device.fd e h).1,
      ))
  calib_adc_value-refitted o type e h second ok =
      let o1 = measured_second m iow o e h in
      let h1 = (get_ai_average m iow o.device.fd e h).1 in
      let same = calib_adc_value-second_point m iow o type e h second in
      let (fd, is) = second_point-ok o1 type e h1 (sym (ap (λ r. r.0.0) same) ∙ ok) in
      (fd, same ∙ is)
