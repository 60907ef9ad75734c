-- ===== src/Socket.antt =====
-- What the socket classes of src/class share: texts in the buffer `filename`, the address `ip:port`
-- that they keep there, and the socket calls.
pub mod Decimal
pub mod RoundTrip
mod Tests
use ldal.Base.{
  ℕ, zero, suc, ◌+◌, ◌-◌, ◌*◌, ◌/◌, ◌%◌, ◌^◌, ℤ, pos, Bool, true, false, ◌&&◌, ◌||◌, Option, none,
  some, List, [], ◌∷◌, ◌++◌, ltb, leb, ◌==◌, if◌then◌else◌, neg, ldal_eok, ldal_error, is_neg, take,
  drop, length,
}
use ldal.Kernel.{
  Bytes, Address, Host, TimeVal, Io, pure, call, ◌>>=◌, ◌>>◌, set_option, so_bindtodevice,
}

-- The text in a buffer: what stands before the first NUL.
unfoldable pub text_of : Bytes → Bytes
text_of [] = []
text_of (c ∷ buf) = if c == 0 then [] else c ∷ text_of buf

-- What `sprintf(buf, ...)` of a text leaves in the buffer: the text, a NUL, and what stood behind.
-- What is written past the end, for a text that does not fit, goes over memory behind the buffer,
-- which is left out.
abbrev pub sprintf_into : Bytes → Bytes → Bytes
sprintf_into buf s = take (length buf) (s ++ (0 ∷ drop (length s + 1) buf))

-- `%u`: the decimal digits of a number, with fuel above their number.
pub print_digits : ℕ → ℕ → Bytes
print_digits zero n = []
print_digits (suc fuel) n =
    let front = print_digits fuel (n / 10) in
    if ltb n 10 then (48 + n) ∷ [] else front ++ ((48 + n % 10) ∷ [])

-- A `uint16_t` has at most five digits.
abbrev pub print_port : ℕ → Bytes
print_port port = print_digits 5 port

-- The digits at the start of a text, read from the value `v` on.
pub read_digits : ℕ → Bytes → ℕ
read_digits v [] = v
read_digits v (c ∷ s) = if leb 48 c && leb c 57 then read_digits (v * 10 + (c - 48)) s else v

abbrev is_space : ℕ → Bool
is_space c = (c == 32) || (leb 9 c && leb c 13)

skip_spaces : Bytes → Bytes
skip_spaces [] = []
skip_spaces (c ∷ s) = if is_space c then skip_spaces s else c ∷ s

-- `(uint16_t)atoi(s)`, a negative number wrapping around; numbers outside `int` are left out.
atoi_signed : Bytes → ℕ
unfolding read_digits
atoi_signed [] = 0
atoi_signed (c ∷ s) =
    if c == b'-'
    then (2 ^ 16 - read_digits 0 s % 2 ^ 16) % 2 ^ 16
    else read_digits 0 (if c == b'+' then s else c ∷ s) % 2 ^ 16

pub atoi16 : Bytes → ℕ
unfolding atoi_signed skip_spaces
atoi16 s = atoi_signed (skip_spaces s)

-- `strtok` with the delimiter `:`. Delimiters in front are skipped.
skip_colons : Bytes → Bytes
skip_colons [] = []
skip_colons (c ∷ s) = if c == b':' then skip_colons s else c ∷ s

token : Bytes → Bytes
token [] = []
token (c ∷ s) = if c == b':' then [] else c ∷ token s

after_token : Bytes → Bytes
after_token [] = []
after_token (c ∷ s) = if c == b':' then s else after_token s

-- The token, if there is one, and the text behind it.
pub strtok : Bytes → Option (Bytes × Bytes)
unfolding skip_colons token after_token
strtok s = elim (skip_colons s) [ [] ↦ none | c ∷ r ↦ some (token (c ∷ r), after_token (c ∷ r)) ]

-- `LDAL_FILENAME_MAX`
abbrev pub ipstr_size : ℕ
ipstr_size = 64

-- The address in the file name, as `import_ipaddr_from_filename` reads it from a copy of the buffer.
-- What stands behind a copy without a NUL is left out.
pub parse_address : Bytes → Option (Bytes × ℕ)
unfolding text_of strtok atoi16
parse_address filename = elim (strtok (text_of (take ipstr_size filename))) [
  | none ↦ none
  | some (ipaddr, rest) ↦ elim (strtok rest) [
    | none ↦ none
    | some (port, _) ↦ some (ipaddr, atoi16 port)
  ]
]

-- `sprintf(dev->filename, "%s:%u", ipaddr, port)`
pub print_address : Bytes → Bytes → ℕ → Bytes
unfolding print_digits
print_address filename ipaddr port = sprintf_into filename (ipaddr ++ (b':' ∷ print_port port))

abbrev pub address : Host → ℕ → Address
address host port = record { host = host; port = port }

-- The address of `bind`: any host where the text is NULL.
abbrev pub local_address : Option Bytes → ℕ → Address
local_address none port = address Host.any port
local_address (some ipaddr) port = address (Host.text ipaddr) port

-- A number of milliseconds as a `struct timeval`.
abbrev pub timeval : ℕ → TimeVal
timeval ms = record { tv_sec = ms / 1000; tv_usec = ms % 1000 * 1000 }

-- `bind_to_device`: unbinds, then binds. A failure of the first call skips the second.
unfoldable pub bind_to_device : ℤ → Bytes → Io ℤ
bind_to_device fd netdev = do
  unbound ← call (set_option fd (so_bindtodevice []))
  if is_neg unbound.ret then pure (neg ldal_error) else do
    bound ← call (set_option fd (so_bindtodevice netdev))
    pure (if is_neg bound.ret then neg ldal_error else ldal_eok)
