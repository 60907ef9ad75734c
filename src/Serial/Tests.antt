-- ===== src/Serial/Tests.antt =====
-- A terminal that keeps every speed, its settings in memory as a list of numbers.
use ldal.Base.{
  ℕ, ◌≡◌, ◌≤◌, refl, inr, length-replicate, pos, Bool, true, false, [], ◌∷◌, arith, get_or,
  if◌then◌else◌, ◌==◌, replicate, length, min,
}
use ldal.Kernel.{Bytes, read_fd, Env}
use ldal.Serial.{
  PortOption, SerialDevice, Terminal, Termios, Tio, CharSize, cs5, cs6, cs7, cs8, size_number,
  get_serial_options, set_serial_options, serial_read,
}
use ldal.Serial.Options.{IsPort, IsTerminal, get_serial_options-set_serial_options}
use ldal.Serial.Read.{Delivers, Fits, serial_read-Fits}

abbrev number_of : Bool → ℕ
number_of true = 1
number_of false = 0

abbrev flag_of : ℕ → Bool
flag_of n = n == 1

abbrev code_of : CharSize → ℕ
code_of cs5 = 0
code_of cs6 = 1
code_of cs7 = 2
code_of cs8 = 3

abbrev size_of : ℕ → CharSize
size_of n = if n == 0 then cs5 else if n == 1 then cs6 else if n == 2 then cs7 else cs8

flag_of-number_of : (b : Bool) → flag_of (number_of b) ≡ b
flag_of-number_of true = refl
flag_of-number_of false = refl

size_of-code_of : (c : CharSize) → size_of (code_of c) ≡ c
size_of-code_of cs5 = refl
size_of-code_of cs6 = refl
size_of-code_of cs7 = refl
size_of-code_of cs8 = refl

abbrev terminal : Terminal
terminal = record {
  Speed = ℕ;
  Other = Unit {0};
  cfsetispeed = λ s b. b;
  cfsetospeed = λ s b. s;
  cfgetispeed = λ s. s;
  b115200 = 115200;
  raw = tt;
  load = λ s. record {
    speed = get_or s 0 0;
    csize = size_of (get_or s 1 0);
    parenb = flag_of (get_or s 2 0);
    parodd = flag_of (get_or s 3 0);
    cstopb = flag_of (get_or s 4 0);
    crtscts = flag_of (get_or s 5 0);
    other = tt;
  };
  store = λ o.
      o.speed
      ∷ code_of o.csize
      ∷ number_of o.parenb
      ∷ number_of o.parodd
      ∷ number_of o.cstopb
      ∷ number_of o.crtscts
      ∷ [];
}

-- 7 bits, even parity, 2 stop bits.
abbrev port : PortOption
port = record {
  baudrate = 9600;
  data_bits = 7;
  parity = 1;
  stop_bits = 2;
  flowctrl = 0;
  others = [];
}

terminal-IsTerminal : IsTerminal terminal 9600
terminal-IsTerminal = record {
  speeds = λ s. refl;
  load-store = λ o. rw (
    size_of-code_of o.csize,
    flag_of-number_of o.parenb,
    flag_of-number_of o.parodd,
    flag_of-number_of o.cstopb,
    flag_of-number_of o.crtscts,
  );
}

port-IsPort : IsPort port
port-IsPort = record {
  least_bits = omega arith;
  most_bits = omega arith;
  of_parity = omega arith;
  of_stop = inr refl;
  of_flow = omega arith;
}

abbrev console : Tio terminal
console = record {
  speed = 115200;
  csize = cs8;
  parenb = false;
  parodd = true;
  cstopb = false;
  crtscts = true;
  other = tt;
}

get_serial_options-set_serial_options_example :
    get_serial_options terminal (set_serial_options terminal console port) port ≡ port
get_serial_options-set_serial_options_example =
    get_serial_options-set_serial_options terminal console port port terminal-IsTerminal port-IsPort

abbrev uart : SerialDevice
uart = record {
  device = record { fd = pos 3; name = []; filename = []; is_init = true; ref = 0 };
  own = record { timeout = 500; opt = record port { baudrate = 0 } };
}

abbrev settings : Bytes
settings = terminal.store (set_serial_options terminal console port)

-- The terminal answers with what it was set to.
abbrev line : Bytes → Env
line s h c = record { ret = pos 0; payload = s; errno = 0 }

-- `select` finds the descriptor ready, and each read gives at most two bytes.
abbrev dripping : Env
dripping h c = record {
  ret = elim c [ read_fd _ n ↦ pos (min n 2) | _ ↦ pos 1 ];
  payload = elim c [ read_fd _ n ↦ replicate (min n 2) 65 | _ ↦ 3 ∷ [] ];
  errno = 0;
}

dripping-Delivers : Delivers dripping
dripping-Delivers h fd n k r = ground (arith, length-replicate {A = ℕ} (min n 2) 65)

serial_read-Fits_example :
    Fits 5 (serial_read uart 5 dripping []).0 × (length (serial_read uart 5 dripping []).1 ≤ 6)
serial_read-Fits_example = serial_read-Fits uart 5 dripping [] dripping-Delivers
