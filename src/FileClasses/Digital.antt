-- ===== src/FileClasses/Digital.antt =====
-- src/class/ldal_digital.c. `iow t n` is the request `_IOW(t, n, int)` of the system's headers.
use ldal.Base.{ℕ, ℤ, if◌then◌else◌, ◌==◌, neg, ldal_eok, ldal_error, is_neg, is_minus_one, [], ◌∷◌}
use ldal.Kernel.{
  Bytes, o_rdwr, o_nonblock, open_file, close_fd, read_fd, write_fd, ioctl, Io, pure, call, ◌>>=◌,
  ◌>>◌,
}
use ldal.Socket.{text_of}
use ldal.FileClasses.Gpio.{FileDevice, with_fd}

unfoldable pub digital_open : FileDevice → Io (ℤ × FileDevice)
digital_open o = do
  r ← call (open_file (text_of o.device.filename) (o_rdwr ∷ o_nonblock ∷ []))
  pure (if is_neg r.ret then neg ldal_error else ldal_eok, with_fd o r.ret)

unfoldable pub digital_close : FileDevice → Io (ℤ × FileDevice)
digital_close o = do call (close_fd o.device.fd); pure (ldal_eok, o)

unfoldable pub digital_read : FileDevice → ℕ → Io (ℤ × Bytes × FileDevice)
digital_read o len = do
  r ← call (read_fd o.device.fd len)
  pure (if is_minus_one r.ret then neg ldal_error else ldal_eok, r.payload, o)

unfoldable pub digital_write : FileDevice → Bytes → Io (ℤ × FileDevice)
digital_write o buf = do
  r ← call (write_fd o.device.fd buf)
  pure (if is_minus_one r.ret then neg ldal_error else ldal_eok, o)

module _ (iow : ℕ → ℕ → ℕ) where
  abbrev pub do_conf_pluse_period : ℕ
  do_conf_pluse_period = iow b'k' 2

  abbrev pub di_get_pluse_count : ℕ
  di_get_pluse_count = iow b'k' 3

  abbrev pub di_clr_pluse_count : ℕ
  di_clr_pluse_count = iow b'k' 4

  -- `arg` is the memory that it points to. The default branch sets a result that is not returned.
  unfoldable pub digital_control : FileDevice → ℕ → Bytes → Io (ℤ × Bytes × FileDevice)
  digital_control o cmd arg =
      if cmd == di_get_pluse_count
      then (do
        r ← call (ioctl o.device.fd cmd [])
        pure (if is_neg r.ret then (neg ldal_error, arg, o) else (ldal_eok, r.payload, o)))
      else if cmd == di_clr_pluse_count
      then (do
        r ← call (ioctl o.device.fd cmd [])
        pure (if is_neg r.ret then neg ldal_error else ldal_eok, arg, o))
      else if cmd == do_conf_pluse_period
      then (do
        r ← call (ioctl o.device.fd cmd arg)
        pure (if is_neg r.ret then neg ldal_error else ldal_eok, arg, o))
      else pure (ldal_eok, arg, o)
