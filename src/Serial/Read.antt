-- ===== src/Serial/Read.antt =====
-- What `serial_read` of src/class/ldal_serial.c gives back.
use ldal.Base.{
  ℕ, zero, suc, ◌+◌, ◌-◌, ◌≤◌, ◌≡◌, refl, ◌⊎◌, inl, inr, ℤ, pos, negsuc, ltb, if◌then◌else◌, [],
  ◌∷◌, ◌++◌, arith, length, length-append,
}
use ldal.Kernel.{Bytes, read_fd, select_read, Env, History}
use ldal.Socket.{timeval}
use ldal.Serial.{SerialDevice, read_rounds, serial_read}

-- `read` as documented: what it reports to have read is at most what was asked for, and is there.
abbrev pub Delivers : Env → Type 0
Delivers e =
    (h : History) (fd : ℤ) (n k : ℕ)
    → (e h (read_fd fd n)).ret ≡ pos k
    → (k ≤ n) × (length (e h (read_fd fd n)).payload ≡ k)

-- A number of bytes is the length of what is in the buffer, and at most `len`; with an error there
-- is nothing.
abbrev pub Fits : ℕ → ℤ × Bytes → Type 0
Fits len (pos n, buf) = (n ≤ len) × (length buf ≡ n)
Fits len (negsuc n, buf) = length buf ≡ 0

ℤ-cases : (z : ℤ) → ((n : ℕ) × (z ≡ pos n)) ⊎ ((n : ℕ) × (z ≡ negsuc n))
ℤ-cases (pos n) = inl (n, refl)
ℤ-cases (negsuc n) = inr (n, refl)

read_rounds-Fits :
    (rounds : ℕ) (fd : ℤ) (len size : ℕ) (buf : Bytes) (e : Env) (h : History)
    → Delivers e
    → size ≤ len
    → length buf ≡ size
    → Fits len (read_rounds rounds fd len size buf e h).0
      × (length (read_rounds rounds fd len size buf e h).1 ≤ length h + rounds)
unfolding read_rounds
read_rounds-Fits zero fd len size buf e h d few held = ground arith
read_rounds-Fits (suc rounds) fd len size buf e h d few held =
    let asked = read_fd fd (len - size) in
    let r = e h asked in
    elim (ℤ-cases r.ret) [
      | inl (n, got) ↦
          let (few', sent) = d h fd (len - size) n got in
          ground (
            arith,
            length-append buf r.payload,
            read_rounds-Fits rounds fd len (size + n) (buf ++ r.payload) e (asked ∷ h) d,
          )
      | inr (n, got) ↦
          ground (arith, read_rounds-Fits rounds fd len size buf e (asked ∷ h) d few held)
    ]

-- Where `read` delivers what it reports, `serial_read` makes at most five reads after its `select`,
-- and its result is either an error, with no bytes, or the number of bytes in the buffer, which is
-- at most the number asked for.
pub serial_read-Fits :
    (o : SerialDevice) (len : ℕ) (e : Env) (h : History)
    → Delivers e
    → Fits len (serial_read o len e h).0 × (length (serial_read o len e h).1 ≤ length h + 6)
unfolding serial_read
serial_read-Fits o len e h d =
    let waited =
      select_read o.device.fd (if ltb 0 o.own.timeout then timeval o.own.timeout ∷ [] else []) in
    elim (ℤ-cases (e h waited).ret) [
      | inl (n, got) ↦ rw got (
          ground
            (arith, read_rounds-Fits 5 o.device.fd len 0 [] e (waited ∷ h) d (omega arith) refl))
      | inr (n, got) ↦ rw got (ground arith)
    ]
