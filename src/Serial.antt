-- ===== src/Serial.antt =====
-- src/class/ldal_serial.c. The terminal interface of the system is a parameter: its speeds, its
-- other settings, and how `struct termios` lies in memory.
pub mod Options
pub mod Read
mod Tests
use ldal.Base.{
  ℕ, zero, suc, ◌+◌, ◌-◌, ◌%◌, ◌^◌, ℤ, pos, negsuc, neg, is_neg, is_minus_one, is_zero, Bool, true,
  false, ltb, leb, ◌==◌, if◌then◌else◌, List, [], ◌∷◌, ◌++◌, ldal_eok, ldal_error, ldal_etimeout,
  ldal_einval,
}
use ldal.Kernel.{
  Bytes, o_rdwr, o_noctty, o_ndelay, open_file, close_fd, read_fd, write_fd, set_flags, is_a_tty,
  select_read, flush_io, get_attr, set_attr, Io, pure, call, ◌>>=◌, ◌>>◌,
}
use ldal.Device.{Device, Object}
use ldal.Socket.{text_of, timeval}

abbrev pub serial_set_timeout : ℕ
serial_set_timeout = 0x101

abbrev pub serial_set_options : ℕ
serial_set_options = 0x102

abbrev pub serial_get_options : ℕ
serial_get_options = 0x103

abbrev pub par_none : ℕ
par_none = 0

abbrev pub par_even : ℕ
par_even = 1

abbrev pub par_odd : ℕ
par_odd = 2

abbrev pub bits_1p0 : ℕ
bits_1p0 = 1

abbrev pub bits_2p0 : ℕ
bits_2p0 = 2

-- `struct port_option`, its enumerations as numbers. `others` is what the class only copies.
pub record PortOption : Type 0 where
  pub baudrate : ℕ
  pub data_bits : ℕ
  pub parity : ℕ
  pub stop_bits : ℕ
  pub flowctrl : ℕ
  pub others : Bytes

-- `struct ldal_serial_device`, less what no function touches.
pub record SerialLink : Type 0 where
  pub timeout : ℕ
  pub opt : PortOption

abbrev pub SerialDevice : Type 0
SerialDevice = Object SerialLink

-- The values of the bits `CSIZE`.
pub data CharSize : Type 0 where
  cs5 cs6 cs7 cs8 : CharSize

-- `struct termios`: the flags that the class changes, the speeds, and all else.
pub record Termios (Speed Other : Type 0) : Type 0 where
  pub speed : Speed
  pub csize : CharSize
  pub parenb : Bool
  pub parodd : Bool
  pub cstopb : Bool
  pub crtscts : Bool
  pub other : Other

pub record Terminal : Type 1 where
  pub Speed : Type 0
  pub Other : Type 0
  pub cfsetispeed : Speed → ℕ → Speed
  pub cfsetospeed : Speed → ℕ → Speed
  pub cfgetispeed : Speed → ℕ
  pub b115200 : Speed
  pub raw : Other
  pub load : Bytes → Termios Speed Other
  pub store : Termios Speed Other → Bytes

-- What `arg` of `control` is: NULL, a structure, or a number in the pointer itself.
pub data SerialArg : Type 0 where
  null_arg : SerialArg
  options : PortOption → SerialArg
  number : ℕ → SerialArg

module _ (t : Terminal) where
  abbrev pub Tio : Type 0
  Tio = Termios t.Speed t.Other

  abbrev pub set_size : ℕ → Tio → Tio
  set_size bits o =
      if bits == 8
      then record o { csize = cs8 }
      else if bits == 7
      then record o { csize = cs7 }
      else if bits == 6
      then record o { csize = cs6 }
      else if bits == 5
      then record o { csize = cs5 }
      else o

  abbrev pub set_parity : ℕ → Tio → Tio
  set_parity parity o =
      if parity == par_none
      then record o { parenb = false }
      else if parity == par_odd
      then record o { parenb = true; parodd = true }
      else if parity == par_even
      then record o { parenb = true; parodd = false }
      else o

  abbrev pub set_stop : ℕ → Tio → Tio
  set_stop stop_bits o =
      if stop_bits == bits_1p0
      then record o { cstopb = false }
      else if stop_bits == bits_2p0
      then record o { cstopb = true }
      else o

  abbrev pub set_flow : ℕ → Tio → Tio
  set_flow flowctrl o = record o { crtscts = if flowctrl == 0 then false else true }

  pub set_serial_options : Tio → PortOption → Tio
  set_serial_options o opt =
      let o1 : Tio = record o {
        speed = t.cfsetospeed (t.cfsetispeed o.speed opt.baudrate) opt.baudrate;
      } in
      set_flow opt.flowctrl
        (set_stop opt.stop_bits (set_parity opt.parity (set_size opt.data_bits o1)))

  abbrev pub size_number : CharSize → ℕ
  size_number cs5 = 5
  size_number cs6 = 6
  size_number cs7 = 7
  size_number cs8 = 8

  pub get_serial_options : Tio → PortOption → PortOption
  get_serial_options o opt = record opt {
    baudrate = t.cfgetispeed o.speed;
    data_bits = size_number o.csize;
    parity = if o.parenb then (if o.parodd then par_odd else par_even) else par_none;
    stop_bits = if o.cstopb then bits_2p0 else bits_1p0;
    flowctrl = if o.crtscts then 1 else 0;
  }

  pub serial_default_config : ℤ → Io ℤ
  serial_default_config fd = do
    call (get_attr fd)
    call (flush_io fd)
    call (
        set_attr fd (
          t.store (record {
            speed = t.b115200;
            csize = cs8;
            parenb = false;
            parodd = false;
            cstopb = false;
            crtscts = false;
            other = t.raw;
          })))
    call (set_flags fd true)
    pure fd

  pub serial_open : SerialDevice → Io (ℤ × SerialDevice)
  unfolding serial_default_config
  serial_open o0 = do
    r ← call (open_file (text_of o0.device.filename) (o_rdwr ∷ o_noctty ∷ o_ndelay ∷ []))
    let o : SerialDevice = record o0 { device = record (o0.device) { fd = r.ret } }
    if is_minus_one r.ret then pure (neg ldal_error, o) else do
      blocking ← call (set_flags r.ret false)
      if is_neg blocking.ret then pure (neg ldal_error, o) else do
        call (set_flags r.ret false)
        tty ← call is_a_tty
        if is_zero tty.ret
            then pure (neg ldal_error, o)
            else do serial_default_config r.ret; pure (ldal_eok, o)

  abbrev number_of : SerialArg → ℕ
  number_of (number n) = n % 2 ^ 32
  number_of _ = 0

  get_options : SerialDevice → SerialArg → Io (ℤ × SerialArg × SerialDevice)
  unfolding get_serial_options
  get_options o (options opt) = do
    r ← call (get_attr o.device.fd)
    pure (
        if is_neg r.ret
        then (neg ldal_error, options opt, o)
        else (ldal_eok, options (get_serial_options (t.load r.payload) opt), o))
  get_options o arg = pure (neg ldal_einval, arg, o)

  set_options : SerialDevice → SerialArg → Io (ℤ × SerialArg × SerialDevice)
  unfolding set_serial_options
  set_options o (options opt) = do
    r ← call (get_attr o.device.fd)
    if is_neg r.ret then pure (neg ldal_error, options opt, o) else do
      call (flush_io o.device.fd)
      s ← call (set_attr o.device.fd (t.store (set_serial_options (t.load r.payload) opt)))
      pure (
          if is_neg s.ret
          then (neg ldal_error, options opt, o)
          else (ldal_eok, options opt, record o { own = record (o.own) { opt = opt } }))
  set_options o arg = pure (neg ldal_einval, arg, o)

  pub serial_control : SerialDevice → ℕ → SerialArg → Io (ℤ × SerialArg × SerialDevice)
  unfolding get_options set_options
  serial_control o cmd arg =
      if cmd == serial_get_options
      then get_options o arg
      else if cmd == serial_set_options
      then set_options o arg
      else if cmd == serial_set_timeout
      then pure (ldal_eok, arg, record o { own = record (o.own) { timeout = number_of arg } })
      else pure (neg ldal_einval, arg, o)

pub serial_init : SerialDevice → Io (ℤ × SerialDevice)
serial_init o = pure (ldal_eok, record o { own = record (o.own) { timeout = 0 } })

pub serial_close : SerialDevice → Io (ℤ × SerialDevice)
serial_close o = do call (close_fd o.device.fd); pure (ldal_eok, o)

pub serial_write : SerialDevice → Bytes → Io (ℤ × SerialDevice)
serial_write o buf = do r ← call (write_fd o.device.fd buf); pure (r.ret, o)

-- The rounds of `serial_read` that are left, after `size` bytes were read.
pub read_rounds : ℕ → ℤ → (len size : ℕ) → Bytes → Io (ℤ × Bytes)
read_rounds zero fd len size buf = pure (pos size, buf)
read_rounds (suc rounds) fd len size buf = if leb len size then pure (pos size, buf) else do
  r ← call (read_fd fd (len - size))
  elim r.ret [
    | pos n ↦
        if n == 0
        then pure (pos size, buf)
        else read_rounds rounds fd len (size + n) (buf ++ r.payload)
    | negsuc n ↦ if size == 0 then pure (negsuc n, buf) else read_rounds rounds fd len size buf
  ]

-- `FD_ISSET`: whether the answer of `select` has the descriptor.
abbrev pub is_ready : Bytes → Bool
is_ready [] = false
is_ready (_ ∷ _) = true

-- The result and the bytes in the buffer.
pub serial_read : SerialDevice → ℕ → Io (ℤ × Bytes)
unfolding read_rounds
serial_read o len = do
  r ←
      call
        (select_read o.device.fd (if ltb 0 o.own.timeout then timeval o.own.timeout ∷ [] else []))
  elim r.ret [
    | negsuc n ↦ pure (neg ldal_error, [])
    | pos n ↦
        if n == 0
        then pure (neg ldal_etimeout, [])
        else if is_ready r.payload
        then read_rounds 5 o.device.fd len 0 []
        else pure (pos 0, [])
  ]
