-- ===== src/Analog.antt =====
-- src/class/ldal_analog.c and inc/ldal_analog.h: an analog input, which is read as a float. Floating
-- point arithmetic and how the structures lie in memory are parameters, in `Machine`.
pub mod Calib
pub mod Crc
pub mod Locked
pub mod Shared
pub mod Mode
pub mod Points
pub mod Stored
mod Tests
use ldal.Base.{
  ℕ, zero, suc, ◌+◌, ◌/◌, ◌%◌, ℤ, pos, negsuc, Bool, false, [], ◌∷◌, ◌++◌, ltb, ◌==◌, if◌then◌else◌,
  neg, ldal_eok, ldal_error, is_neg, is_zero, is_minus_one, take, drop, length, codes,
}
use Prim.Native.Nat.{bit_xor}
use ldal.Kernel.{
  Bytes, Answer, o_rdwr, o_rdonly, o_nonblock, open_file, close_fd, read_fd, Io, pure, call, ◌>>=◌,
  ◌>>◌,
}
use ldal.Device.{Device, Object}
use ldal.Socket.{text_of}

-- `adc_mode_t`.
pub data AdcMode : Type 0 where
  mode_current mode_voltage : AdcMode

-- The structures over the type of floats. `struct ai_conf` is less the codes, which no function
-- reads.
pub record AiConf (F : Type 0) : Type 0 where
  pub current_voltage : ℤ
  pub value_max : F
  pub value_min : F

pub record Aicfgs (F : Type 0) : Type 0 where
  pub is_corrected : Bool
  pub slope : F
  pub intercept : F

-- A `char` is its byte.
pub record AiCalibrate (F : Type 0) : Type 0 where
  pub ai_dev : ℕ
  pub vol_a : F
  pub vol_b : F
  pub cur_a : F
  pub cur_b : F
  pub crc : ℕ

-- `struct ldal_analog_device`: `aicfgs` by its two indices, `calib_data` by its two elements.
pub record AnalogLink (F : Type 0) : Type 0 where
  pub pos : ℤ
  pub mode : AdcMode
  pub current_cfg : Aicfgs F
  pub voltage_cfg : Aicfgs F
  pub ai_conf : AiConf F
  pub calib_first : F
  pub calib_second : F

-- `float` and `double`, and the memory of the structures: `store` is the four bytes of a float.
pub record Machine : Type 1 where
  pub Float : Type 0
  pub of_nat : ℕ → Float
  pub plus : Float → Float → Float
  pub minus : Float → Float → Float
  pub times : Float → Float → Float
  pub over : Float → Float → Float
  pub less : Float → Float → Bool
  pub store : Float → Bytes
  pub load : Bytes → Float
  pub Double : Type 0
  pub widen : Float → Double
  pub narrow : Double → Float
  pub double_of_nat : ℕ → Double
  pub plus_double : Double → Double → Double
  pub minus_double : Double → Double → Double
  pub over_double : Double → Double → Double
  pub store_cfgs : Aicfgs Float → Aicfgs Float → Bytes
  pub load_cfgs : Bytes → Aicfgs Float × Aicfgs Float
  pub store_calibrate : AiCalibrate Float → Bytes
  pub load_calibrate : Bytes → AiCalibrate Float
  pub store_type : ℤ → ℤ → Bytes
  pub load_conf : Bytes → AiConf Float
  pub load_value_type : Bytes → ℕ

abbrev pub size_of_float : ℕ
size_of_float = 4

-- The loop over the bits of `CRC16_212`.
abbrev pub crc_bits : ℕ → ℕ → ℕ
crc_bits zero r = r
crc_bits (suc i) r = crc_bits i (if r % 2 == 1 then bit_xor (r / 2) 0xa001 else r / 2)

-- Its loop over the bytes; `hi` is an `unsigned char`.
abbrev pub crc_from : ℕ → Bytes → ℕ
crc_from r [] = r
crc_from r (c ∷ buf) = crc_from (crc_bits 8 (bit_xor (r / 256 % 256) (c % 256))) buf

unfoldable pub crc16_212 : Bytes → ℕ
crc16_212 buf = crc_from 0xffff buf

-- What stands in a buffer after a `read` into it.
abbrev pub overwritten : Answer → Bytes → Bytes
overwritten r buf = elim r.ret [ pos n ↦ take n r.payload ++ drop n buf | negsuc n ↦ buf ]

-- `ret < sizeof(float)` compares without sign, so -1 is not less.
abbrev pub is_short : ℤ → Bool
is_short (pos n) = ltb n size_of_float
is_short (negsuc n) = false

abbrev pub pathname : Device → Bytes
pathname d = codes "/etc/aicfgs/" ++ text_of d.name

unfoldable pub get_calib_data_from_file : Device → Bytes → Io (ℤ × Bytes)
get_calib_data_from_file d buf = do
  fd ← call (open_file (pathname d) (o_rdonly ∷ []))
  if is_minus_one fd.ret then pure (neg ldal_error, buf) else do
    r ← call (read_fd fd.ret (length buf))
    call (close_fd fd.ret)
    pure (if is_minus_one r.ret then (neg ldal_error, buf) else (ldal_eok, overwritten r buf))

module _ (m : Machine) where
  abbrev pub AnalogDevice : Type 0
  AnalogDevice = Object (AnalogLink m.Float)

  abbrev pub uncorrected : Aicfgs m.Float
  uncorrected = record { is_corrected = false; slope = m.of_nat 1; intercept = m.of_nat 0 }

  -- Reads the calibration of the device from its file, if it can be read.
  unfoldable pub import_calib : AnalogDevice → Io (AnalogDevice)
  unfolding get_calib_data_from_file
  import_calib o = do
    (ret, buf) ←
        get_calib_data_from_file o.device (m.store_cfgs o.own.current_cfg o.own.voltage_cfg)
    let (current_cfg, voltage_cfg) = m.load_cfgs buf
    pure (
        if is_neg ret then o else record o {
          own = record (o.own) { current_cfg = current_cfg; voltage_cfg = voltage_cfg };
        })

  unfoldable pub analog_init : AnalogDevice → Io (ℤ × AnalogDevice)
  unfolding import_calib
  analog_init o = do
    o1 ← import_calib (record o {
      own = record (o.own) {
        mode = mode_current;
        current_cfg = uncorrected;
        voltage_cfg = uncorrected;
      };
    })
    pure (
      ldal_eok,
      record o1 {
        own = record (o1.own) {
          ai_conf = record {
            current_voltage = pos 0;
            value_max = m.of_nat 100;
            value_min = m.of_nat 0;
          };
        };
      },
    )

  unfoldable pub analog_open : AnalogDevice → Io (ℤ × AnalogDevice)
  analog_open o = do
    r ← call (open_file (text_of o.device.filename) (o_rdwr ∷ o_nonblock ∷ []))
    pure (
      if is_neg r.ret then neg ldal_error else ldal_eok,
      record o { device = record (o.device) { fd = r.ret } },
    )

  unfoldable pub analog_close : AnalogDevice → Io (ℤ × AnalogDevice)
  analog_close o = do call (close_fd o.device.fd); pure (ldal_eok, o)

  abbrev pub fit_linear_model : (x slope intercept : m.Float) → m.Float
  fit_linear_model x slope intercept = m.plus (m.times x slope) intercept

  abbrev pub cfg_of : AdcMode → AnalogLink m.Float → Aicfgs m.Float
  cfg_of mode_current a = a.current_cfg
  cfg_of mode_voltage a = a.voltage_cfg

  -- "Ensure value in range 0-5V or 4-20mA"
  unfoldable pub in_range : AdcMode → m.Float → m.Float
  in_range mode_current value =
      if m.less value (m.minus (m.of_nat 4000) (m.of_nat 100))
      then m.of_nat 0
      else if m.less value (m.of_nat 4000)
      then m.of_nat 4000
      else if m.less (m.of_nat 20000) value
      then m.of_nat 20000
      else value
  in_range mode_voltage value =
      if m.less value (m.of_nat 0)
      then m.of_nat 0
      else if m.less (m.of_nat 5000) value
      then m.of_nat 5000
      else value

  -- `(value - min) / (max - min) / 1000.0f * delta + base`
  abbrev pub spread : (value low high delta base : m.Float) → m.Float
  spread value low high delta base =
      m.plus
        (m.times (m.over (m.over (m.minus value low) (m.minus high low)) (m.of_nat 1000)) delta)
        base

  unfoldable pub count_value : AiConf m.Float → m.Float → m.Float
  count_value c value =
      if m.less c.value_min c.value_max
      then (let delta = m.minus c.value_max c.value_min in
          if is_zero c.current_voltage
          then spread value (m.of_nat 4000) (m.of_nat 20000) delta c.value_min
          else spread value (m.of_nat 0) (m.of_nat 5000) delta c.value_min)
      else m.of_nat 0

  abbrev pub corrected : AnalogLink m.Float → m.Float → m.Float
  corrected a value =
      let c = cfg_of a.mode a in
      if c.is_corrected then fit_linear_model value c.slope c.intercept else value

  -- What is written to the buffer stands beside the result.
  unfoldable pub analog_read : AnalogDevice → ℕ → Io (ℤ × Bytes × AnalogDevice)
  unfolding in_range count_value
  analog_read o len = if ltb len size_of_float then pure (neg ldal_error, [], o) else do
    r ← call (read_fd o.device.fd size_of_float)
    let value = m.load (overwritten r (m.store (m.of_nat 0)))
    pure (
        if is_short r.ret then (neg ldal_error, [], o) else (
          ldal_eok,
          m.store (count_value o.own.ai_conf (in_range o.own.mode (corrected o.own value))),
          o,
        ))

  unfoldable pub analog_write : AnalogDevice → Bytes → Io (ℤ × AnalogDevice)
  analog_write o buf = pure (ldal_eok, o)
