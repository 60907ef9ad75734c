-- ===== src/Device.antt =====
-- src/ldal.c and inc/ldal.h: a device, the operations of its class, and the generic calls that go
-- through them. `O` is the class's own part of `struct ldal_xxx_device`, beside the embedded
-- `struct ldal_device`; `C` is what the argument of `control` points to.
pub mod Sharing
pub mod Mutex
use ldal.Base.{
  ℕ, ◌+◌, ◌-◌, ◌%◌, ◌^◌, ◌≡◌, ℤ, Bool, not, Option, none, some, ◌∷◌, ltb, ◌==◌, if◌then◌else◌,
  is_zero, neg, ldal_eok, ldal_error,
}
use ldal.Kernel.{Bytes, Address, Host, device_mutex, lock, unlock, Env, History, Io, call}

-- `struct ldal_device`, less its list node, which src/ldal.c keeps in the device list.
pub record Device : Type 0 where
  pub fd : ℤ
  pub name : Bytes
  pub filename : Bytes
  pub is_init : Bool
  pub ref : ℕ

pub record Object (O : Type 0) : Type 0 where
  pub device : Device
  pub own : O

-- `struct ldal_device_ops`: a member that the class leaves out is NULL.
pub record DeviceOps (O C : Type 0) : Type 0 where
  pub init : Option (Object O → Io (ℤ × Object O))
  pub open_op : Option (Object O → Io (ℤ × Object O))
  pub close : Option (Object O → Io (ℤ × Object O))
  pub read : Option (Object O → ℕ → Io (ℤ × Bytes × Object O))
  pub write : Option (Object O → Bytes → Io (ℤ × Object O))
  pub control : Option (Object O → ℕ → C → Io (ℤ × C × Object O))
  pub check : Option (Object O → Io (ℤ × Object O))
  pub bind : Option (Object O → Option Bytes → ℕ → Io (ℤ × Object O))
  pub connect : Option (Object O → Bytes → ℕ → Io (ℤ × Object O))

-- `crash` is a call through a NULL pointer.
pub data Run (A : Type 0) : Type 0 where
  done : A → History → Run A
  crash : Run A

abbrev pub Command : Type 0 → Type 0
Command A = Env → History → Run A

abbrev pub invoke : {A B : Type 0} → Option A → (A → Io B) → Command B
invoke none f e h = crash
invoke (some op) f e h = let (b, h') = f op e h in done b h'

abbrev pub and_then : {A B : Type 0} → Run A → (A → Env → History → Run B) → Env → Run B
and_then (done a h) k e = k a e h
and_then crash k e = crash

-- What stands between `pthread_mutex_lock` and `pthread_mutex_unlock` of the device.
abbrev pub with_mutex : {A B : Type 0} → Option A → (A → Io B) → Command B
with_mutex op f e h =
    and_then (invoke op f e (lock device_mutex ∷ h)) (λ b _ h'. done b (unlock device_mutex ∷ h')) e

-- `device->ref = n`, a `uint16_t`.
abbrev pub set_ref : {O : Type 0} → Object O → ℕ → Object O
set_ref o n = record o { device = record (o.device) { ref = n % 2 ^ 16 } }

module _ {O C : Type 0} (ops : DeviceOps O C) where
  -- What follows the call of `open`: its result is not handed on.
  opened : ℤ × Object O → ℤ × Object O
  opened (ret, o) = (ldal_eok, if is_zero ret then set_ref o (o.device.ref + 1) else o)

  pub startup_device : Object O → Command (ℤ × Object O)
  unfolding opened
  startup_device o e h =
      if not o.device.is_init
      then done (neg ldal_error, o) h
      else if ltb 0 o.device.ref
      then done (ldal_eok, set_ref o (o.device.ref + 1)) h
      else and_then (invoke ops.open_op (λ f. f o) e h) (λ r _ h'. done (opened r) h') e

  pub stop_device : Object O → Command (ℤ × Object O)
  stop_device o e h =
      if not o.device.is_init
      then done (neg ldal_error, o) h
      else if ltb 0 o.device.ref
      then (let o' = set_ref o (o.device.ref - 1) in
          if o'.device.ref == 0 then invoke ops.close (λ f. f o') e h else done (ldal_eok, o') h)
      else done (ldal_eok, o) h

  unfoldable pub read_device : Object O → ℕ → Command (ℤ × Bytes × Object O)
  read_device o len = with_mutex ops.read (λ f. f o len)

  unfoldable pub write_device : Object O → Bytes → Command (ℤ × Object O)
  write_device o buff = with_mutex ops.write (λ f. f o buff)

  unfoldable pub control_device : Object O → ℕ → C → Command (ℤ × C × Object O)
  control_device o cmd arg = with_mutex ops.control (λ f. f o cmd arg)

  pub check_status : Object O → Command (ℤ × Object O)
  check_status o = with_mutex ops.check (λ f. f o)

  pub bind_local_addr : Object O → Option Bytes → ℕ → Command (ℤ × Object O)
  bind_local_addr o ipaddr port = with_mutex ops.bind (λ f. f o ipaddr port)

  pub connect_server_addr : Object O → Bytes → ℕ → Command (ℤ × Object O)
  connect_server_addr o ipaddr port = with_mutex ops.connect (λ f. f o ipaddr port)
