-- ===== src/Device/Mutex.antt =====
-- The device mutex around the class operations of src/ldal.c.
use ldal.Base.{ℕ, suc, ◌-◌, ◌≡◌, refl, Option, some, [], ◌∷◌, arith}
use ldal.Kernel.{Lock, device_mutex, client_lock, proc_lock, lock, unlock, Env, History, Io}
use ldal.Device.{done, Command, with_mutex}

abbrev takes : Lock → Lock → ℕ → ℕ
takes device_mutex device_mutex n = suc n
takes client_lock client_lock n = suc n
takes proc_lock proc_lock n = suc n
takes _ _ n = n

abbrev gives : Lock → Lock → ℕ → ℕ
gives device_mutex device_mutex n = n - 1
gives client_lock client_lock n = n - 1
gives proc_lock proc_lock n = n - 1
gives _ _ n = n

-- How often a lock was taken and not given back.
unfoldable pub held : Lock → History → ℕ
held l [] = 0
held l (lock k ∷ h) = takes l k (held l h)
held l (unlock k ∷ h) = gives l k (held l h)
held l (_ ∷ h) = held l h

-- A handler that leaves the device mutex as it finds it.
abbrev pub Keeps : {B : Type 0} → Io B → Type 0
Keeps m = (e : Env) (h : History) → held device_mutex (m e h).1 ≡ held device_mutex h

-- A command that, whenever it returns, leaves the device mutex as it found it, and whose class
-- operation `m`, with its result, ran with the mutex taken once more.
abbrev pub Guards : {B : Type 0} → Command B → Io B → Type 0
Guards c m =
    (e : Env) (h : History)
    → let inside = m e (lock device_mutex ∷ h) in
      (c e h ≡ done inside.0 (unlock device_mutex ∷ inside.1))
      × (held device_mutex (unlock device_mutex ∷ inside.1) ≡ held device_mutex h)

pub with_mutex-Guards :
    {A B : Type 0} (op : Option A) (a : A) (f : A → Io B)
    → op ≡ some a
    → Keeps (f a)
    → Guards (with_mutex op f) (f a)
unfolding held
with_mutex-Guards op a f has keeps e h =
    rw has (refl, omega (arith, keeps e (lock device_mutex ∷ h)))
