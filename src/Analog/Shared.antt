-- ===== src/Analog/Shared.antt =====
-- The users of an analog input, whose file they share.
use ldal.Base.{ℕ, suc, ◌≡◌, refl, arith, is_zero, if◌then◌else◌}
use ldal.Kernel.{Env, History}
use ldal.Device.Sharing.{open_files, Shares}
use ldal.Analog.{Machine, AnalogDevice, analog_open, analog_close}
use ldal.Analog.Calib.{analog_device_ops}

module _ (m : Machine) (iow : ℕ → ℕ → ℕ) where
  pub analog_open-open_files :
      (o : AnalogDevice m) (e : Env) (h : History)
      → open_files e (analog_open m o e h).1
        ≡ (if is_zero (analog_open m o e h).0.0 then suc (open_files e h) else open_files e h)
  unfolding analog_open open_files
  analog_open-open_files o e h = ground arith

  -- Opening an input opens its file, and closing it closes it.
  unfoldable pub analog_device_ops-Shares : Shares (analog_device_ops m iow)
  unfolding analog_open analog_close open_files
  analog_device_ops-Shares = record {
    opens = analog_open m;
    closes = analog_close m;
    has_open = refl;
    has_close = refl;
    open_ref = λ o e h. refl;
    open_init = λ o e h. refl;
    open_takes = analog_open-open_files;
    close_ref = λ o e h. refl;
    close_init = λ o e h. refl;
    close_gives = λ o e h. refl;
  }
