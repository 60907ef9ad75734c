-- ===== src/Analog/Crc.antt =====
-- The range of `CRC16_212`.
use ldal.Base.{Bool-cases, inl, inr, ℕ, zero, suc, ◌/◌, ◌%◌, ◌^◌, ◌≤◌, ◌<◌, [], ◌∷◌, arith, ◌==◌}
use Prim.Native.Nat.{bit_xor, bit_xor-bitwise, digits, differ}
use ldal.Kernel.{Bytes}
use ldal.Analog.{crc_bits, crc_from, crc16_212}

-- The definition that the native operation stands for: digits computed on fuel.
abbrev xor_digits : ℕ → ℕ → ℕ → ℕ
xor_digits n a b = digits (λ b. b) differ n a b

differ-bound : (x y : ℕ) → x ≤ 1 → y ≤ 1 → differ x y ≤ 1
differ-bound zero y p q = q
differ-bound (suc x) zero p q = p
differ-bound (suc zero) (suc zero) p q = omega arith
differ-bound (suc zero) (suc (suc y)) p q = absurd (omega arith)
differ-bound (suc (suc x)) (suc y) p q = absurd (omega arith)

xor_digits-bound : (k n a b : ℕ) → a < 2 ^ k → b < 2 ^ k → xor_digits n a b < 2 ^ k
xor_digits-bound k zero a b p q = q
xor_digits-bound k (suc n) zero b p q = q
xor_digits-bound zero (suc n) (suc a) b p q = absurd (omega arith)
xor_digits-bound (suc k) (suc n) (suc a) b p q = omega (
  arith,
  xor_digits-bound k n (suc a / 2) (b / 2) (omega arith) (omega arith),
  differ-bound (suc a % 2) (b % 2) (omega arith) (omega arith),
)

bit_xor-bound : (k a b : ℕ) → a < 2 ^ k → b < 2 ^ k → bit_xor a b < 2 ^ k
bit_xor-bound k a b p q = omega (arith, bit_xor-bitwise a b, xor_digits-bound k a a b p q)

crc_bits-bound : (n r : ℕ) → r < 2 ^ 16 → crc_bits n r < 2 ^ 16
crc_bits-bound zero r h = h
crc_bits-bound (suc n) r h =
    let mixed : bit_xor (r / 2) 0xa001 < 2 ^ 16 =
      bit_xor-bound 16 (r / 2) 0xa001 (omega arith) (omega arith) in
    elim (Bool-cases (r % 2 == 1)) [
      | inl odd ↦ rw odd (crc_bits-bound n (bit_xor (r / 2) 0xa001) mixed)
      | inr even ↦ rw even (crc_bits-bound n (r / 2) (omega arith))
    ]

crc_from-bound : (r : ℕ) (buf : Bytes) → r < 2 ^ 16 → crc_from r buf < 2 ^ 16
crc_from-bound r [] h = h
crc_from-bound r (c ∷ buf) h = crc_from-bound (crc_bits 8 (bit_xor (r / 256 % 256) (c % 256))) buf (
    crc_bits-bound 8 (bit_xor (r / 256 % 256) (c % 256))
      (bit_xor-bound 16 (r / 256 % 256) (c % 256) (omega arith) (omega arith)))

-- The checksum of any bytes has 16 bits, so that the 16-bit variables that keep it lose nothing.
pub crc16_212-bound : (buf : Bytes) → crc16_212 buf < 2 ^ 16
unfolding crc16_212
crc16_212-bound buf = crc_from-bound 0xffff buf (omega arith)
