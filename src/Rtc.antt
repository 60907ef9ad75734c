-- ===== src/Rtc.antt =====
-- src/class/ldal_rtc.c and the structure of inc/ldal_rtc.h. `struct rtc_time` and the two requests
-- are of the system's headers: how the structures lie in memory is a parameter.
use ldal.Base.{
  ℕ, ℤ, pos, ◌+ℤ◌, ◌-ℤ◌, if◌then◌else◌, ltb, neg, ldal_eok, ldal_error, is_neg, Option, none, some,
  [], ◌∷◌, take, length, min,
}
use ldal.Kernel.{Bytes, o_rdwr, open_file, close_fd, ioctl, Io, pure, call, ◌>>=◌, ◌>>◌}
use ldal.Device.{Device, Object}
use ldal.Socket.{text_of}
use ldal.FileClasses.Gpio.{FileDevice, with_fd}
pub mod Clock
mod Tests

-- `struct rtc_time` of the system.
pub record RtcTime : Type 0 where
  pub tm_sec : ℤ
  pub tm_min : ℤ
  pub tm_hour : ℤ
  pub tm_mday : ℤ
  pub tm_mon : ℤ
  pub tm_year : ℤ
  pub tm_wday : ℤ
  pub tm_yday : ℤ
  pub tm_isdst : ℤ

-- `struct ldal_rtc_time`: the months from 1, the year in full.
pub record LdalRtcTime : Type 0 where
  pub sec : ℤ
  pub min : ℤ
  pub hour : ℤ
  pub mday : ℤ
  pub mon : ℤ
  pub year : ℤ
  pub wday : ℤ

-- The size of `struct ldal_rtc_time`, seven integers.
abbrev pub size_of_time : ℕ
size_of_time = 28

unfoldable pub rtc_open : FileDevice → Io (ℤ × FileDevice)
rtc_open o = do
  r ← call (open_file (text_of o.device.filename) (o_rdwr ∷ []))
  pure (if is_neg r.ret then neg ldal_error else ldal_eok, with_fd o r.ret)

unfoldable pub rtc_close : FileDevice → Io (ℤ × FileDevice)
rtc_close o = do call (close_fd o.device.fd); pure (ldal_eok, o)

-- How the two structures lie in memory.
pub record Layout : Type 0 where
  pub store_rtc : RtcTime → Bytes
  pub load_rtc : Bytes → RtcTime
  pub store_ldal : LdalRtcTime → Bytes
  pub load_ldal : Bytes → LdalRtcTime

abbrev pub of_rtc_time : RtcTime → LdalRtcTime
of_rtc_time t = record {
  sec = t.tm_sec;
  min = t.tm_min;
  hour = t.tm_hour;
  mday = t.tm_mday;
  mon = t.tm_mon +ℤ pos 1;
  year = t.tm_year +ℤ pos 1900;
  wday = t.tm_wday;
}

-- `t` is the variable before: the day of the year and the daylight saving flag are not set.
abbrev pub to_rtc_time : RtcTime → LdalRtcTime → RtcTime
to_rtc_time t r = record t {
  tm_sec = r.sec;
  tm_min = r.min;
  tm_hour = r.hour;
  tm_mday = r.mday;
  tm_mon = r.mon -ℤ pos 1;
  tm_year = r.year -ℤ pos 1900;
  tm_wday = r.wday;
}

module _ (l : Layout) (rtc_rd_time rtc_set_time : ℕ) where
  -- The result and, when the buffer was written, its first bytes.
  unfoldable pub rtc_read : FileDevice → ℕ → Io (ℤ × Option Bytes)
  rtc_read o len = do
    r ← call (ioctl o.device.fd rtc_rd_time [])
    pure (
        if is_neg r.ret then (neg ldal_error, none) else (
          ldal_eok,
          some (
              take (if ltb len size_of_time then len else size_of_time)
                (l.store_ldal (of_rtc_time (l.load_rtc r.payload)))),
        ))

  unfoldable pub rtc_write : RtcTime → FileDevice → Bytes → Io (ℤ)
  rtc_write t o buf = if ltb (length buf) size_of_time then pure (neg ldal_error) else (do
    r ← call (ioctl o.device.fd rtc_set_time (l.store_rtc (to_rtc_time t (l.load_ldal buf))))
    pure (if is_neg r.ret then neg ldal_error else ldal_eok))
