-- ===== src/Device/Sharing.antt =====
-- `startup_device` and `stop_device` of src/ldal.c: users share a device by its reference count.
use ldal.Base.{
  ℕ, suc, ◌-◌, ◌≤◌, ◌≡◌, ℤ, true, false, some, List, [], ◌∷◌, arith, ltb, is_zero, is_neg, ldal_eok,
  if◌then◌else◌,
}
use ldal.Kernel.{open_file, close_fd, Env, History, Io}
use ldal.Device.{
  Object, DeviceOps, Run, done, crash, Command, and_then, startup_device, stop_device, opened,
}

-- What a user asks of a device.
pub data Request : Type 0 where
  start stop : Request

-- How many files are open after some calls.
unfoldable pub open_files : Env → History → ℕ
open_files e [] = 0
open_files e (open_file s flags ∷ h) =
    if is_neg (e h (open_file s flags)).ret then open_files e h else suc (open_files e h)
open_files e (close_fd fd ∷ h) = open_files e h - 1
open_files e (_ ∷ h) = open_files e h

-- What the reference count needs of a class: `open` and `close` are there, they leave the count and
-- the flag of the device alone, `open` opens one file when it succeeds and none when it fails, and
-- `close` closes one.
pub record Shares {O C : Type 0} (ops : DeviceOps O C) : Type 0 where
  pub opens : Object O → Io (ℤ × Object O)
  pub closes : Object O → Io (ℤ × Object O)
  pub has_open : ops.open_op ≡ some opens
  pub has_close : ops.close ≡ some closes
  pub open_ref :
      (o : Object O) (e : Env) (h : History) → (opens o e h).0.1.device.ref ≡ o.device.ref
  pub open_init :
      (o : Object O) (e : Env) (h : History) → (opens o e h).0.1.device.is_init ≡ o.device.is_init
  pub open_takes :
      (o : Object O) (e : Env) (h : History)
      → open_files e (opens o e h).1
        ≡ (if is_zero (opens o e h).0.0 then suc (open_files e h) else open_files e h)
  pub close_ref :
      (o : Object O) (e : Env) (h : History) → (closes o e h).0.1.device.ref ≡ o.device.ref
  pub close_init :
      (o : Object O) (e : Env) (h : History) → (closes o e h).0.1.device.is_init ≡ o.device.is_init
  pub close_gives :
      (o : Object O) (e : Env) (h : History) → open_files e (closes o e h).1 ≡ open_files e h - 1

-- An initialised device with at most `n` users holds one file exactly while it has users; `k` more
-- are open elsewhere.
pub record IsShared {O : Type 0} (e : Env) (k n : ℕ) (o : Object O) (h : History) : Type 0 where
  pub ready : o.device.is_init ≡ true
  pub few : o.device.ref ≤ n
  pub held : open_files e h ≡ (if ltb 0 o.device.ref then suc k else k)

-- A run that ends without a crash, in a state with the property.
abbrev pub Ends : {A : Type 0} → (A → History → Type 0) → Run A → Type 0
Ends P (done a h) = P a h
Ends P crash = ⊥

module _ {O C : Type 0} (ops : DeviceOps O C) where
  unfoldable pub serve : Request → Object O → Command (ℤ × Object O)
  serve start = startup_device ops
  serve stop = stop_device ops

  unfoldable pub serve_all : List Request → Object O → Command (Object O)
  unfolding serve
  serve_all [] o e h = done o h
  serve_all (r ∷ rs) o e h = and_then (serve r o e h) (λ a e' h'. serve_all rs a.1 e' h') e

module _ {O C : Type 0} {ops : DeviceOps O C} where
  -- For a class as in `Shares`, when `open` fails, `startup_device` of an initialised device with
  -- no user still reports success; no file more is open and the count stays 0, so that a later
  -- `stop_device` makes no call and changes nothing.
  pub startup_device-failed_open :
      (s : Shares ops) (o : Object O) (e e' : Env) (h h' : History)
      → o.device.is_init ≡ true
      → o.device.ref ≡ 0
      → is_zero (s.opens o e h).0.0 ≡ false
      → Ends
          (λ a h1.
            (a.0 ≡ ldal_eok)
            × (open_files e h1 ≡ open_files e h)
            × (stop_device ops a.1 e' h' ≡ done (ldal_eok, a.1) h'))
          (startup_device ops o e h)
  unfolding startup_device stop_device opened
  startup_device-failed_open s o e e' h h' ready free failed =
      rw (ready, s.has_open)
        (ground (arith, s.open_ref o e h, s.open_init o e h, s.open_takes o e h))
