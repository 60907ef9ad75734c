-- ===== src/Serial/Options.antt =====
-- The line options of a serial port.
use ldal.Base.{ℕ, ◌≤◌, ◌≡◌, ◌⊎◌, arith}
use ldal.Serial.{
  PortOption, Terminal, Tio, get_serial_options, set_serial_options, par_odd, bits_1p0, bits_2p0,
}

-- The options that a port can have: 5 to 8 bits, a parity of the enumeration, 1 or 2 stop bits.
pub record IsPort (opt : PortOption) : Type 0 where
  pub least_bits : 5 ≤ opt.data_bits
  pub most_bits : opt.data_bits ≤ 8
  pub of_parity : opt.parity ≤ par_odd
  pub of_stop : (opt.stop_bits ≡ bits_1p0) ⊎ (opt.stop_bits ≡ bits_2p0)
  pub of_flow : opt.flowctrl ≤ 1

-- The speed `b` is one that the terminal keeps, and the memory layout loses nothing.
pub record IsTerminal (t : Terminal) (b : ℕ) : Type 0 where
  pub speeds : (s : t.Speed) → t.cfgetispeed (t.cfsetospeed (t.cfsetispeed s b) b) ≡ b
  pub load-store : (o : Tio t) → t.load (t.store o) ≡ o

-- Options that a port can have, with a speed that the terminal keeps, are read back from a
-- terminal on which they are set, whatever it was set to before.
pub get_serial_options-set_serial_options :
    (t : Terminal) (o : Tio t) (opt old : PortOption)
    → IsTerminal t opt.baudrate
    → IsPort opt
    → get_serial_options t (set_serial_options t o opt) old ≡ record opt { others = old.others }
unfolding get_serial_options set_serial_options
get_serial_options-set_serial_options t o opt old i p = ground (arith, i.speeds o.speed)
