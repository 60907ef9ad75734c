-- ===== src/Base/Codes.antt =====
-- The error codes of inc/ldal.h. A function of the code returns `neg c`, that is `-c`.
use Prim.Native.Nat.{ℕ, zero, suc}
use ldal.Base.Int.{ℤ, pos, negsuc}

abbrev pub neg : ℕ → ℤ
neg zero = pos 0
neg (suc n) = negsuc n

abbrev pub ldal_eok : ℤ
ldal_eok = pos 0

abbrev pub ldal_error : ℕ
ldal_error = 1

abbrev pub ldal_etimeout : ℕ
ldal_etimeout = 2

abbrev pub ldal_enomem : ℕ
ldal_enomem = 5

abbrev pub ldal_ebusy : ℕ
ldal_ebusy = 7

abbrev pub ldal_einval : ℕ
ldal_einval = 10
