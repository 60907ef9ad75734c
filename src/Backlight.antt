-- ===== src/Backlight.antt =====
-- src/class/ldal_backlight.c and inc/ldal_backlight.h: a backlight, whose brightness is in a file of
-- the system. A negative answer to the opening of a file is NULL, and to `fscanf` it is `EOF`.
pub mod Brightness
mod Tests
use ldal.Base.{
  ℕ, suc, ◌+◌, ◌/◌, ℤ, pos, negsuc, ◌-ℤ◌, Bool, true, [], ◌∷◌, ◌++◌, ltb, if◌then◌else◌, neg,
  ldal_eok, ldal_error, ldal_einval, is_neg, is_zero, is_minus_one, length, codes,
}
use ldal.Kernel.{
  Bytes, access_path, stream_open_read, stream_open_write, stream_scan, stream_print, stream_close,
  Io, pure, call, ◌>>=◌, ◌>>◌,
}
use ldal.Device.{Device, Object}
use ldal.Socket.{text_of, print_digits}

-- `struct ldal_backlight_device`, less what no function touches.
pub record BacklightLink : Type 0 where
  pub min : ℤ
  pub max : ℤ

abbrev pub BacklightDevice : Type 0
BacklightDevice = Object BacklightLink

abbrev pub usr_backlight_max : ℕ
usr_backlight_max = 100

abbrev pub sys_backlight_min : ℕ
sys_backlight_min = 20

abbrev pub sys_backlight_max : ℕ
sys_backlight_max = 255

abbrev pub size_of_int : ℕ
size_of_int = 4

-- `float`, and an `int` in memory and in a file: `scan` is what `fscanf` reads by "%d".
pub record Machine : Type 1 where
  pub Float : Type 0
  pub of_int : ℤ → Float
  pub to_int : Float → ℤ
  pub plus : Float → Float → Float
  pub times : Float → Float → Float
  pub over : Float → Float → Float
  pub store_int : ℤ → Bytes
  pub load_int : Bytes → ℤ
  pub scan : Bytes → ℤ

-- "%d"
abbrev pub print_int : ℤ → Bytes
print_int (pos n) = print_digits 10 n
print_int (negsuc n) = b'-' ∷ print_digits 10 (suc n)

-- A path in the directory that is the device's file name; its buffer has twice the size of that.
abbrev pub path_to : Device → Bytes → Bytes
path_to d name = text_of d.filename ++ (b'/' ∷ name)

abbrev pub brightness : Bytes
brightness = codes "brightness"

abbrev pub max_brightness : Bytes
max_brightness = codes "max_brightness"

-- `*value < USR_BACKLIGHT_MIN || *value > USR_BACKLIGHT_MAX`
abbrev pub out_of_range : ℤ → Bool
out_of_range (pos n) = ltb usr_backlight_max n
out_of_range (negsuc n) = true

-- `value / 5` where `value > 32`, else 1.
unfoldable pub least : ℤ → ℤ
least (pos n) = if ltb 32 n then pos (n / 5) else pos 1
least (negsuc n) = pos 1

module _ (m : Machine) where
  -- `unset` is what stood in the variable, which is kept when the file holds no number.
  unfoldable pub get_from_file : Bytes → ℤ → Io (ℤ × ℤ)
  get_from_file path unset = do
    fp ← call (stream_open_read path)
    if is_neg fp.ret then pure (neg ldal_error, unset) else do
      r ← call stream_scan
      call stream_close
      pure (
          if is_minus_one r.ret
          then (neg ldal_error, unset)
          else (ldal_eok, if is_zero r.ret then unset else m.scan r.payload))

  unfoldable pub set_to_file : Bytes → ℤ → Io ℤ
  set_to_file path value = do
    fp ← call (stream_open_write path)
    if is_neg fp.ret then pure (neg ldal_error) else do
      r ← call (stream_print (print_int value))
      call stream_close
      pure (if is_neg r.ret then neg ldal_error else ldal_eok)

  unfoldable pub backlight_init : ℤ → BacklightDevice → Io (ℤ × BacklightDevice)
  unfolding get_from_file
  backlight_init unset o = do
    (ret, value) ← get_from_file (path_to o.device max_brightness) unset
    pure (
      ldal_eok,
      record o {
        own =
            if is_zero ret
            then record { min = least value; max = value }
            else record { min = pos sys_backlight_min; max = pos sys_backlight_max };
      },
    )

  unfoldable pub backlight_open : BacklightDevice → Io (ℤ × BacklightDevice)
  backlight_open o = do
    r ← call (access_path (path_to o.device brightness))
    pure (if is_minus_one r.ret then neg ldal_error else ldal_eok, o)

  unfoldable pub backlight_close : BacklightDevice → Io (ℤ × BacklightDevice)
  backlight_close o = pure (ldal_eok, o)

  unfoldable pub delta : BacklightLink → m.Float
  delta b = m.over (m.of_int (b.max -ℤ b.min)) (m.of_int (pos usr_backlight_max))

  -- What is written to the buffer stands beside the result.
  unfoldable pub backlight_read : ℤ → BacklightDevice → ℕ → Io (ℤ × Bytes × BacklightDevice)
  unfolding get_from_file delta
  backlight_read unset o len = if ltb len size_of_int then pure (neg ldal_einval, [], o) else do
    (ret, sys_val) ← get_from_file (path_to o.device brightness) unset
    pure (
        if is_zero ret
        then (
          ldal_eok,
          m.store_int (m.to_int (m.over (m.of_int (sys_val -ℤ o.own.min)) (delta o.own))),
          o,
        )
        else (neg ldal_error, [], o))

  unfoldable pub sys_value : BacklightLink → ℤ → ℤ
  unfolding delta
  sys_value b value = m.to_int (m.plus (m.times (m.of_int value) (delta b)) (m.of_int b.min))

  unfoldable pub backlight_write : BacklightDevice → Bytes → Io (ℤ × BacklightDevice)
  unfolding set_to_file sys_value
  backlight_write o buf =
      if ltb (length buf) size_of_int
      then pure (neg ldal_einval, o)
      else if out_of_range (m.load_int buf)
      then pure (neg ldal_einval, o)
      else (do
        ret ← set_to_file (path_to o.device brightness) (sys_value o.own (m.load_int buf))
        pure (ret, o))
