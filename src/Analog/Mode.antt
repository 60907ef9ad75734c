-- ===== src/Analog/Mode.antt =====
-- The mode of an analog input over its whole life: any operations, in any order.
use ldal.Base.{Bool-cases, inl, inr, ℕ, ◌≡◌, ◌∙◌, refl, Option, List, [], ◌∷◌, arith}
use ldal.Kernel.{Bytes, Env, History, Io, pure, ◌>>=◌}
use ldal.Analog.{
  AdcMode, mode_current, mode_voltage, Aicfgs, Machine, AnalogDevice, uncorrected, import_calib,
  analog_init, analog_open, analog_close, analog_read, analog_write,
}
use ldal.Analog.Points.{measured_second, calib_adc_value-second_point, calib_adc_value-first}
use ldal.Analog.Calib.{
  is_second, get_ai_average, set_cfg, second_point, calib_adc_value, restored, restore_adc_value,
  analog_control,
}

pub data Operation : Type 0 where
  open_input close_input : Operation
  read_input : ℕ → Operation
  write_input : Bytes → Operation
  control_input : ℕ → Option Bytes → Operation

module _ (m : Machine) (iow : ℕ → ℕ → ℕ) where
  -- The operation through `analog_device_ops`, its result dropped.
  unfoldable pub perform : Operation → AnalogDevice m → Io (AnalogDevice m)
  perform open_input o = do (_, o') ← analog_open m o; pure o'
  perform close_input o = do (_, o') ← analog_close m o; pure o'
  perform (read_input n) o = do (_, _, o') ← analog_read m o n; pure o'
  perform (write_input s) o = do (_, o') ← analog_write m o s; pure o'
  perform (control_input cmd arg) o = do (_, o') ← analog_control m iow o cmd arg; pure o'

  unfoldable pub session : List Operation → AnalogDevice m → Io (AnalogDevice m)
  unfolding perform
  session [] o = pure o
  session (op ∷ ops) o = do o' ← perform op o; session ops o'

  set_cfg-mode :
      (mode : AdcMode) (c : Aicfgs m.Float) (o : AnalogDevice m)
      → (set_cfg m iow mode c o).own.mode ≡ o.own.mode
  set_cfg-mode mode_current c o = refl
  set_cfg-mode mode_voltage c o = refl

  import_calib-mode :
      (o : AnalogDevice m) (e : Env) (h : History) → (import_calib m o e h).0.own.mode ≡ o.own.mode
  unfolding import_calib
  import_calib-mode o e h = ground arith

  second_point-mode :
      (o : AnalogDevice m) (type : ℕ) (e : Env) (h : History)
      → (second_point m iow o type e h).0.1.own.mode ≡ o.own.mode
  unfolding second_point
  second_point-mode o type e h = grind (arith, set_cfg-mode)

  calib_adc_value-mode :
      (o : AnalogDevice m) (type : ℕ) (e : Env) (h : History)
      → (calib_adc_value m iow o type e h).0.1.own.mode ≡ o.own.mode
  calib_adc_value-mode o type e h = elim (Bool-cases (is_second type)) [
    | inl second ↦ rw (calib_adc_value-second_point m iow o type e h second) (
        second_point-mode (measured_second m iow o e h) type e
          (get_ai_average m iow o.device.fd e h).1)
    | inr first ↦ rw (calib_adc_value-first m iow o type e h first) refl
  ]

  restore_adc_value-mode :
      (o : AnalogDevice m) (e : Env) (h : History)
      → (restore_adc_value m iow o e h).0.1.own.mode ≡ o.own.mode
  unfolding restore_adc_value restored
  restore_adc_value-mode o e h = grind (arith, import_calib-mode)

  perform-mode :
      (op : Operation) (o : AnalogDevice m) (e : Env) (h : History)
      → (perform op o e h).0.own.mode ≡ o.own.mode
  unfolding perform analog_open analog_close analog_read analog_write analog_control
  perform-mode open_input o e h = refl
  perform-mode close_input o e h = refl
  perform-mode (read_input n) o e h = ground arith
  perform-mode (write_input s) o e h = refl
  perform-mode (control_input cmd arg) o e h =
      grind (arith, calib_adc_value-mode, restore_adc_value-mode)

  session-mode :
      (ops : List Operation) (o : AnalogDevice m) (e : Env) (h : History)
      → (session ops o e h).0.own.mode ≡ o.own.mode
  unfolding session
  session-mode [] o e h = refl
  session-mode (op ∷ ops) o e h =
      let (o', h') = perform op o e h in session-mode ops o' e h' ∙ perform-mode op o e h

  analog_init-current :
      (o : AnalogDevice m) (e : Env) (h : History)
      → (analog_init m o e h).0.1.own.mode ≡ mode_current
  unfolding analog_init
  analog_init-current o e h =
      import_calib-mode
        (record o {
          own = record (o.own) {
            mode = mode_current;
            current_cfg = uncorrected m;
            voltage_cfg = uncorrected m;
          };
        })
        e h

  -- After its initialisation and any operations, with any arguments and answers, an input is in the
  -- mode of a current: also when its configuration says that it measures a voltage.
  pub analog_init-mode :
      (ops : List Operation) (o : AnalogDevice m) (e : Env) (h : History)
      → let ((_, o'), h') = analog_init m o e h in (session ops o' e h').0.own.mode ≡ mode_current
  analog_init-mode ops o e h =
      let ((_, o'), h') = analog_init m o e h in
      session-mode ops o' e h' ∙ analog_init-current o e h
