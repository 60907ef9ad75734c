-- ===== src/Analog/Points.antt =====
-- The two points of a calibration, each as an equation.
use ldal.Base.{ℕ, ◌≡◌, refl, ℤ, pos, true, false}
use ldal.Kernel.{Env, History}
use ldal.Analog.{Machine, AnalogDevice}
use ldal.Analog.Calib.{is_second, get_ai_average, second_point, calib_adc_value}

module _ (m : Machine) (iow : ℕ → ℕ → ℕ) where
  -- The input with what was measured last at one of the points.
  abbrev pub measured_first : AnalogDevice m → Env → History → AnalogDevice m
  measured_first o e h = record o {
    own = record (o.own) { calib_first = (get_ai_average m iow o.device.fd e h).0.1 };
  }

  abbrev pub measured_second : AnalogDevice m → Env → History → AnalogDevice m
  measured_second o e h = record o {
    own = record (o.own) { calib_second = (get_ai_average m iow o.device.fd e h).0.1 };
  }

  pub get_ai_average-ok :
      (fd : ℤ) (e : Env) (h : History) → (get_ai_average m iow fd e h).0.0 ≡ pos 0
  unfolding get_ai_average
  get_ai_average-ok fd e h = refl

  pub calib_adc_value-second_point :
      (o : AnalogDevice m) (type : ℕ) (e : Env) (h : History)
      → is_second type ≡ true
      → calib_adc_value m iow o type e h
        ≡ second_point m iow (measured_second o e h) type e (get_ai_average m iow o.device.fd e h).1
  unfolding calib_adc_value
  calib_adc_value-second_point o type e h second =
      rw (get_ai_average-ok o.device.fd e h, second) refl

  pub calib_adc_value-first :
      (o : AnalogDevice m) (type : ℕ) (e : Env) (h : History)
      → is_second type ≡ false
      → calib_adc_value m iow o type e h
        ≡ ((pos 0, measured_first o e h), (get_ai_average m iow o.device.fd e h).1)
  unfolding calib_adc_value
  calib_adc_value-first o type e h first = rw (get_ai_average-ok o.device.fd e h, first) refl
