-- ===== src/Registry.antt =====
-- src/ldal.c: the lists of device classes and devices, and their registration. A structure is known
-- by its address. The class nodes and the device nodes are parts of different structures, so each
-- list has a store of links of its own. The
-- read-write locks of the lists are left out.
pub mod Enroll
pub mod Names
pub mod Lookup
pub mod Enrolled
pub mod Removed
pub mod Classes
pub mod Created
pub mod Creation
pub mod Table
pub mod Invariant
pub mod Startup
pub mod Ready
mod Show
mod Tests
use ldal.Base.{
  codes, ℕ, ◌+◌, ℤ, Bool, true, false, Option, none, some, [], ◌∷◌, ◌++◌, ◌==◌, if◌then◌else◌, pos,
  neg, ldal_eok, ldal_enomem, replicate,
}
use ldal.Kernel.{Bytes}
use ldal.Device.{Device}
use ldal.ListHead.{
  Links, Found, entry, not_found, null_entry, out_of_fuel, init_list_head, list_add_tail,
  find_entry,
}

-- `ldal_class_t`; `other` is a number outside the enumeration.
pub data ClassId : Type 0 where
  memory file serial gpio digital analog rtc udp tcp me misc backlight : ClassId
  other : ℕ → ClassId

abbrev pub class_max : ℕ
class_max = 12

abbrev pub class_number : ClassId → ℕ
class_number memory = 0
class_number file = 1
class_number serial = 2
class_number gpio = 3
class_number digital = 4
class_number analog = 5
class_number rtc = 6
class_number udp = 7
class_number tcp = 8
class_number me = 9
class_number misc = 10
class_number backlight = 11
class_number (other n) = class_max + n

-- `class_label`; a number outside of it is read past its end.
abbrev pub class_label : ClassId → Option Bytes
class_label memory = some (codes "Memory Device")
class_label file = some (codes "File Device")
class_label serial = some (codes "Serial Device")
class_label gpio = some (codes "GPIO Device")
class_label digital = some (codes "Digital I/O")
class_label analog = some (codes "Analog Input")
class_label rtc = some (codes "RTC Device")
class_label udp = some (codes "UDP Socket")
class_label tcp = some (codes "TCP Socket")
class_label me = some (codes "Mobile Equipment")
class_label misc = some (codes "Misc Device")
class_label backlight = some (codes "Backlight Device")
class_label (other n) = none

-- The addresses of `ldal_device_class_list` and `ldal_device_list`.
abbrev pub class_list : ℕ
class_list = 1

abbrev pub device_list : ℕ
device_list = 2

abbrev pub name_max : ℕ
name_max = 32

abbrev pub filename_max : ℕ
filename_max = 64

-- The lists, the structures at their addresses, and how many structures were allocated.
pub record Registry : Type 0 where
  pub class_links : Links
  pub device_links : Links
  pub class_id : ℕ → ClassId
  pub device : ℕ → Device
  pub class : ℕ → ℕ
  pub user_data : ℕ → ℕ
  pub pos : ℕ → ℤ
  pub device_num : ℕ
  pub allocated : ℕ

-- `crash` is an access through NULL or outside an array; `lost` is a loop that ran out of fuel.
pub data Outcome (A : Type 0) : Type 0 where
  ok : A → Outcome A
  crash lost : Outcome A

infixl 5 ◌>>=◌
abbrev pub ◌>>=◌ : {A B : Type 0} → Outcome A → (A → Outcome B) → Outcome B
ok a >>= k = k a
crash >>= k = crash
lost >>= k = lost

abbrev pub access : {A : Type 0} → Option A → Outcome A
access none = crash
access (some a) = ok a

-- The pointer that a search returns: `none` is NULL.
abbrev pub pointer : Found → Outcome (Option ℕ)
pointer (entry p) = ok (some p)
pointer not_found = ok none
pointer null_entry = crash
pointer out_of_fuel = lost

abbrev pub at : {A : Type 0} → (ℕ → A) → ℕ → A → ℕ → A
at f p a q = if q == p then a else f q

-- `memcpy(buf, s, strlen(s))`: no NUL is copied, and what stood behind stays.
pub memcpy : Bytes → Bytes → Option Bytes
memcpy buf [] = some buf
memcpy [] (c ∷ s) = none
memcpy (b ∷ buf) (c ∷ s) = elim (memcpy buf s) [ none ↦ none | some r ↦ some (c ∷ r) ]

-- `strncmp(mem, s, strlen(s)) == 0`, `mem` being what stands in memory. Past its end a byte of
-- another field stands, taken to differ.
pub strncmp_zero : Bytes → Bytes → Bool
strncmp_zero mem [] = true
strncmp_zero [] (c ∷ s) = false
strncmp_zero (b ∷ mem) (c ∷ s) = if b == c then strncmp_zero mem s else false

-- A device's name, as a comparison reads it: `filename` stands right behind `name`.
abbrev pub name_bytes : Device → Bytes
name_bytes d = d.name ++ d.filename

-- A structure fresh from `calloc`.
abbrev pub zeroed : Device
zeroed = record {
  fd = pos 0;
  name = replicate name_max 0;
  filename = replicate filename_max 0;
  is_init = false;
  ref = 0;
}

-- `fuel` bounds the rounds of a search. `calloc n` is the address of the structure that the n-th
-- allocation gives, `none` when memory is exhausted. `init c d` is what the `init` operation of
-- class `c` makes of the device structure.
module _ (fuel : ℕ) (calloc : ℕ → Option ℕ) (init : ClassId → Device → Device) where
  pub get_by_name : Bytes → Registry → Outcome (Option ℕ)
  get_by_name name r = pointer (
      find_entry fuel (λ p. strncmp_zero (name_bytes (r.device p)) name) device_list r.device_links)

  -- Both branches of the name comparison return the device.
  pub get_by_type : ClassId → Bytes → Registry → Outcome (Option ℕ)
  get_by_type type name r = pointer (
      find_entry fuel (λ p. class_number (r.class_id (r.class p)) == class_number type) device_list
        r.device_links)

  pub get_object_by_name : Bytes → Registry → Outcome (Option ℕ)
  unfolding get_by_name
  get_object_by_name name r = do
    device ← get_by_name name r
    ok (elim device [ none ↦ none | some p ↦ some (r.user_data p) ])

  pub class_register : (class : ℕ) → ClassId → Registry → Outcome (ℤ × Registry)
  class_register class id r = do
    links ← access (init_list_head class r.class_links)
    links ← access (list_add_tail class class_list links)
    ok (ldal_eok, record r { class_links = links; class_id = at r.class_id class id })

  pub class_get : ClassId → Registry → Outcome (Option ℕ)
  class_get id r = pointer (
      find_entry fuel (λ p. class_number (r.class_id p) == class_number id) class_list
        r.class_links)

  -- What the files of src/class have in common: a class structure is allocated, filled and registered.
  pub device_class_register : ClassId → Registry → Outcome (ℤ × Registry)
  unfolding class_register
  device_class_register id r =
      let r' = record r { allocated = r.allocated + 1 } in
      elim (calloc r.allocated) [
        | none ↦ ok (neg ldal_enomem, r')
        | some class ↦ class_register class id r'
      ]

  abbrev pub memory_device_class_register : Registry → Outcome (ℤ × Registry)
  memory_device_class_register r = device_class_register memory r

  abbrev pub file_device_class_register : Registry → Outcome (ℤ × Registry)
  file_device_class_register r = device_class_register file r

  abbrev pub serial_device_class_register : Registry → Outcome (ℤ × Registry)
  serial_device_class_register r = device_class_register serial r

  abbrev pub gpio_device_class_register : Registry → Outcome (ℤ × Registry)
  gpio_device_class_register r = device_class_register gpio r

  abbrev pub digital_device_class_register : Registry → Outcome (ℤ × Registry)
  digital_device_class_register r = device_class_register digital r

  abbrev pub analog_device_class_register : Registry → Outcome (ℤ × Registry)
  analog_device_class_register r = device_class_register analog r

  abbrev pub rtc_device_class_register : Registry → Outcome (ℤ × Registry)
  rtc_device_class_register r = device_class_register rtc r

  abbrev pub udp_device_class_register : Registry → Outcome (ℤ × Registry)
  udp_device_class_register r = device_class_register udp r

  abbrev pub tcp_device_class_register : Registry → Outcome (ℤ × Registry)
  tcp_device_class_register r = device_class_register tcp r

  abbrev pub me_device_class_register : Registry → Outcome (ℤ × Registry)
  me_device_class_register r = device_class_register me r

  abbrev pub misc_device_class_register : Registry → Outcome (ℤ × Registry)
  misc_device_class_register r = device_class_register misc r

  abbrev pub backlight_device_class_register : Registry → Outcome (ℤ × Registry)
  backlight_device_class_register r = device_class_register backlight r
