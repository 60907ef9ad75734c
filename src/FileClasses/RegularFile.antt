-- ===== src/FileClasses/RegularFile.antt =====
-- src/class/ldal_file.c
use ldal.Base.{ℤ, ℕ, if◌then◌else◌, neg, ldal_eok, ldal_error, is_neg, is_minus_one, [], ◌∷◌}
use ldal.Kernel.{
  Bytes, o_rdwr, o_creat, open_file, close_fd, read_fd, write_fd, seek_start, Io, pure, call, ◌>>=◌,
  ◌>>◌,
}
use ldal.Socket.{text_of}
use ldal.FileClasses.Gpio.{FileDevice, with_fd}

unfoldable pub file_open : FileDevice → Io (ℤ × FileDevice)
file_open o = do
  r ← call (open_file (text_of o.device.filename) (o_rdwr ∷ o_creat ∷ []))
  pure (if is_neg r.ret then neg ldal_error else ldal_eok, with_fd o r.ret)

unfoldable pub file_close : FileDevice → Io (ℤ × FileDevice)
file_close o = do call (close_fd o.device.fd); pure (ldal_eok, o)

-- A read starts at the beginning of the file.
unfoldable pub file_read : FileDevice → ℕ → Io (ℤ × Bytes × FileDevice)
file_read o len = do
  call (seek_start o.device.fd)
  r ← call (read_fd o.device.fd len)
  pure (if is_minus_one r.ret then neg ldal_error else ldal_eok, r.payload, o)

-- A write goes to where the file stands.
unfoldable pub file_write : FileDevice → Bytes → Io (ℤ × FileDevice)
file_write o buf = do
  r ← call (write_fd o.device.fd buf)
  pure (if is_minus_one r.ret then neg ldal_error else ldal_eok, o)
