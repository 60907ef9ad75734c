-- ===== src/Socket/Decimal.antt =====
-- Ports are read back as they are printed.
use ldal.Base.{
  ℕ, zero, suc, ◌+◌, ◌-◌, ◌*◌, ◌/◌, ◌%◌, ◌^◌, ◌≤◌, ◌<◌, ◌≡◌, [], ◌∷◌, ◌++◌, arith, inl, inr,
  Bool-cases, ltb,
}
use native.Mathlib.Nat.{pow-suc}
use ldal.Kernel.{Bytes}
use ldal.Socket.{print_digits, read_digits}

-- Every byte is a digit.
abbrev pub Digits : Bytes → Type 0
Digits [] = Unit {0}
Digits (c ∷ s) = (48 ≤ c) × (c ≤ 57) × Digits s

Digits-append_one : (s : Bytes) (c : ℕ) → Digits s → 48 ≤ c → c ≤ 57 → Digits (s ++ c ∷ [])
Digits-append_one [] c d lo hi = (lo, hi, tt)
Digits-append_one (x ∷ s) c d lo hi = (d.0, d.1, Digits-append_one s c d.2 lo hi)

pub Digits-print_digits : (fuel n : ℕ) → Digits (print_digits fuel n)
unfolding print_digits
Digits-print_digits zero n = tt
Digits-print_digits (suc fuel) n = ground (
  arith,
  Digits-append_one (print_digits fuel (n / 10)) (48 + n % 10) (Digits-print_digits fuel (n / 10)),
)

read_digits-append_one :
    (s : Bytes) (c v : ℕ)
    → Digits s
    → 48 ≤ c
    → c ≤ 57
    → read_digits v (s ++ c ∷ []) ≡ read_digits v s * 10 + (c - 48)
unfolding read_digits
read_digits-append_one [] c v d lo hi = ground arith
read_digits-append_one (x ∷ s) c v d lo hi =
    ground (arith, read_digits-append_one s c (v * 10 + (x - 48)) d.2 lo hi)

pub read_digits-print_digits :
    (fuel n : ℕ) → n < 10 ^ fuel → read_digits 0 (print_digits fuel n) ≡ n
unfolding print_digits read_digits
read_digits-print_digits zero n h = omega arith
read_digits-print_digits (suc fuel) n h = elim (Bool-cases (ltb n 10)) [
  | inl one ↦ rw one (ground arith)
  | inr more ↦
      let small : n / 10 < 10 ^ fuel = omega (arith, pow-suc 10 fuel) in
      rw
        (
          more,
          read_digits-append_one (print_digits fuel (n / 10)) (48 + n % 10) 0
              (Digits-print_digits fuel (n / 10)) (omega arith) (omega arith),
          read_digits-print_digits fuel (n / 10) small,
        )
        (omega arith)
]
