-- ===== src/FileClasses/Misc.antt =====
-- src/class/ldal_misc.c. `iow t n` is the request `_IOW(t, n, int)` of the system's headers.
use ldal.Base.{
  ℕ, ℤ, if◌then◌else◌, ◌==◌, neg, ldal_eok, ldal_error, ldal_einval, is_neg, is_minus_one, [], ◌∷◌,
}
use ldal.Kernel.{
  Bytes, o_rdwr, o_nonblock, open_file, close_fd, read_fd, write_fd, ioctl, Io, pure, call, ◌>>=◌,
  ◌>>◌,
}
use ldal.Socket.{text_of}
use ldal.FileClasses.Gpio.{FileDevice, with_fd}

unfoldable pub misc_open : FileDevice → Io (ℤ × FileDevice)
misc_open o = do
  r ← call (open_file (text_of o.device.filename) (o_rdwr ∷ o_nonblock ∷ []))
  pure (if is_neg r.ret then neg ldal_error else ldal_eok, with_fd o r.ret)

unfoldable pub misc_close : FileDevice → Io (ℤ × FileDevice)
misc_close o = do call (close_fd o.device.fd); pure (ldal_eok, o)

unfoldable pub misc_read : FileDevice → ℕ → Io (ℤ × Bytes × FileDevice)
misc_read o len = do
  r ← call (read_fd o.device.fd len)
  pure (if is_minus_one r.ret then neg ldal_error else ldal_eok, r.payload, o)

unfoldable pub misc_write : FileDevice → Bytes → Io (ℤ × FileDevice)
misc_write o buf = do
  r ← call (write_fd o.device.fd buf)
  pure (if is_minus_one r.ret then neg ldal_error else ldal_eok, o)

-- `MISC_CMD_BASE + 0x01` and `MISC_CMD_BASE + 0x02` of inc/ldal.h.
abbrev pub battery_get_power_supply : ℕ
battery_get_power_supply = 0x3001

abbrev pub battery_get_power_charge : ℕ
battery_get_power_charge = 0x3002

module _ (iow : ℕ → ℕ → ℕ) where
  get_state : FileDevice → ℕ → Bytes → Io (ℤ × Bytes × FileDevice)
  get_state o request arg = do
    r ← call (ioctl o.device.fd request arg)
    pure (if is_neg r.ret then neg ldal_error else r.ret, r.payload, o)

  unfoldable pub misc_control : FileDevice → ℕ → Bytes → Io (ℤ × Bytes × FileDevice)
  unfolding get_state
  misc_control o cmd arg =
      if cmd == battery_get_power_supply
      then get_state o (iow b'H' 2) arg
      else if cmd == battery_get_power_charge
      then get_state o (iow b'H' 3) arg
      else pure (neg ldal_einval, arg, o)
