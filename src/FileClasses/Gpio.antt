-- ===== src/FileClasses/Gpio.antt =====
-- src/class/ldal_gpio.c
use ldal.Base.{ℤ, ℕ, if◌then◌else◌, neg, ldal_eok, ldal_error, is_neg, is_minus_one, [], ◌∷◌}
use ldal.Kernel.{Bytes, o_rdwr, open_file, close_fd, read_fd, write_fd, Io, pure, call, ◌>>=◌, ◌>>◌}
use ldal.Device.{Object}
use ldal.Socket.{text_of}

-- The classes of this folder have no state of their own.
abbrev pub FileDevice : Type 0
FileDevice = Object (Unit {0})

abbrev pub with_fd : FileDevice → ℤ → FileDevice
with_fd o fd = record o { device = record (o.device) { fd = fd } }

unfoldable pub gpio_open : FileDevice → Io (ℤ × FileDevice)
gpio_open o = do
  r ← call (open_file (text_of o.device.filename) (o_rdwr ∷ []))
  pure (if is_neg r.ret then neg ldal_error else ldal_eok, with_fd o r.ret)

unfoldable pub gpio_close : FileDevice → Io (ℤ × FileDevice)
gpio_close o = do call (close_fd o.device.fd); pure (ldal_eok, o)

unfoldable pub gpio_read : FileDevice → ℕ → Io (ℤ × Bytes × FileDevice)
gpio_read o len = do
  r ← call (read_fd o.device.fd len)
  pure (if is_minus_one r.ret then neg ldal_error else ldal_eok, r.payload, o)

unfoldable pub gpio_write : FileDevice → Bytes → Io (ℤ × FileDevice)
gpio_write o buf = do
  r ← call (write_fd o.device.fd buf)
  pure (if is_minus_one r.ret then neg ldal_error else ldal_eok, o)
