-- ===== src/Registry/Enroll.antt =====
-- Registration of devices in src/ldal.c: `ldal_device_class_set`, `ldal_device_register`,
-- `ldal_device_unregister`, `_device_create` and `ldal_device_create`.
use ldal.Base.{
  ℕ, ◌+◌, ◌-◌, ◌%◌, ◌^◌, ℤ, Option, none, some, List, [], ◌∷◌, ltb, ◌==◌, if◌then◌else◌, pos, neg,
  ldal_eok, ldal_error, ldal_enomem, ldal_einval, is_neg, not,
}
use ldal.Kernel.{Bytes}
use ldal.Device.{Device}
use ldal.ListHead.{Links, null, init_list_head, list_add_tail, list_del}
use ldal.Registry.{
  ClassId, memory, file, serial, gpio, digital, analog, rtc, udp, tcp, me, misc, other, class_max,
  class_number, device_list, Registry, Outcome, ok, crash, ◌>>=◌, access, at, memcpy, zeroed,
  get_by_name, class_get, memory_device_class_register, file_device_class_register,
  serial_device_class_register, gpio_device_class_register, digital_device_class_register,
  analog_device_class_register, rtc_device_class_register, udp_device_class_register,
  tcp_device_class_register, me_device_class_register, misc_device_class_register,
}

-- `struct ldal_device_table`, its private data being a number.
pub record TableEntry : Type 0 where
  pub device_name : Bytes
  pub file_name : Bytes
  pub class_id : ClassId
  pub private_data : ℤ

abbrev pub put : Registry → ℕ → Device → Registry
put r p d = record r { device = at r.device p d }

-- `__exit:` of `ldal_device_register`: the result is kept in `is_init` alone.
abbrev pub finish : ℕ → ℤ → Registry → Outcome (ℤ × Registry)
finish p result r = ok (ldal_eok, put r p (record (r.device p) { is_init = not (is_neg result) }))

module _ (fuel : ℕ) (calloc : ℕ → Option ℕ) (init : ClassId → Device → Device) where
  -- There is no case for `LDAL_CLASS_BACKLIGHT`.
  unfoldable pub class_set : ClassId → Registry → Outcome (ℤ × Registry)
  class_set memory r = memory_device_class_register fuel calloc init r
  class_set file r = file_device_class_register fuel calloc init r
  class_set serial r = serial_device_class_register fuel calloc init r
  class_set gpio r = gpio_device_class_register fuel calloc init r
  class_set digital r = digital_device_class_register fuel calloc init r
  class_set analog r = analog_device_class_register fuel calloc init r
  class_set rtc r = rtc_device_class_register fuel calloc init r
  class_set udp r = udp_device_class_register fuel calloc init r
  class_set tcp r = tcp_device_class_register fuel calloc init r
  class_set me r = me_device_class_register fuel calloc init r
  class_set misc r = misc_device_class_register fuel calloc init r
  class_set _ r = ok (ldal_eok, r)

  -- The class of a new device: looked up, or registered now and looked up again.
  unfoldable pub find_class : ClassId → Registry → Outcome (Option ℕ × Registry)
  unfolding class_set
  find_class id r = do
    class ← class_get fuel calloc init id r
    elim class [
      | some c ↦ ok (some c, r)
      | none ↦ do
        (_, r') ← class_set id r
        class' ← class_get fuel calloc init id r'
        ok (class', r')
    ]

  -- The device with its buffers filled, at the end of the list, counted, after its `init`.
  abbrev pub enrolled : (p class : ℕ) → (name filename : Bytes) → ℕ → Links → Registry → Registry
  enrolled p class name' filename' user_data links r =
      let d : Device = record (r.device p) { name = name'; filename = filename'; ref = 0 } in
      record r {
        device = at r.device p (init (r.class_id class) d);
        class = at r.class p class;
        user_data = at r.user_data p user_data;
        device_links = links;
        device_num = (r.device_num + 1) % 2 ^ 16;
      }

  -- The fields of the device, its place at the end of the list, and its `init`.
  unfoldable pub enroll :
      (p class : ℕ) → (name file_name : Bytes) → (user_data : ℕ) → Registry → Outcome (ℤ × Registry)
  enroll p class name file_name user_data r = do
    name' ← access (memcpy (r.device p).name name)
    filename' ← access (memcpy (r.device p).filename file_name)
    links ← access (init_list_head p r.device_links)
    links ← access (list_add_tail p device_list links)
    finish p (pos 0) (enrolled p class name' filename' user_data links r)

  -- For a class without a label, the message reads outside `class_label`.
  unfoldable pub device_register :
      ℕ → Bytes → Bytes → ClassId → ℕ → Registry → Outcome (ℤ × Registry)
  unfolding find_class enroll
  device_register p name file_name id user_data r = do
    taken ← get_by_name fuel calloc init name r
    elim taken [
      | some q ↦ finish p (neg ldal_einval) r
      | none ↦ do
        (class, r') ← find_class id r
        elim class [
          | none ↦ if ltb (class_number id) class_max then finish p (neg ldal_error) r' else crash
          | some c ↦ enroll p c name file_name user_data r'
        ]
    ]

  unfoldable pub device_unregister : ℕ → Registry → Outcome (ℤ × Registry)
  device_unregister p r =
      if p == null
      then ok (neg ldal_einval, r)
      else if ltb 0 (r.device p).ref
      then ok (neg ldal_error, r)
      else do
        links ← access (list_del p r.device_links)
        ok (
          ldal_eok,
          record r { device_links = links; device_num = (r.device_num + 2 ^ 16 - 1) % 2 ^ 16 },
        )

  -- A case of `_device_create`: the object holds the device, and is its user data.
  unfoldable pub create_object : TableEntry → Registry → Outcome (Option ℕ × Registry)
  unfolding device_register
  create_object t r =
      let r' = record r { allocated = r.allocated + 1 } in
      elim (calloc r.allocated) [
        | none ↦ ok (none, r')
        | some p ↦ do
          (_, r'') ← device_register p t.device_name t.file_name t.class_id p (put r' p zeroed)
          ok (some p, r'')
      ]

  unfoldable pub create_as : ClassId → TableEntry → Registry → Outcome (Option ℕ × Registry)
  unfolding create_object
  create_as analog t r = do
    (p, r') ← create_object t r
    ok (p, elim p [ none ↦ r' | some q ↦ record r' { pos = at r'.pos q t.private_data } ])
  create_as (other n) t r = ok (none, r)
  create_as _ t r = create_object t r

  -- `_device_create`
  unfoldable pub create_device : TableEntry → Registry → Outcome (Option ℕ × Registry)
  unfolding create_as
  create_device t r = create_as t.class_id t r

  unfoldable pub create_each : List TableEntry → Registry → Outcome (ℤ × Registry)
  unfolding create_device
  create_each [] r = ok (ldal_eok, r)
  create_each (t ∷ ts) r = do
    (p, r') ← create_device t r
    elim p [ none ↦ ok (neg ldal_enomem, r') | some _ ↦ create_each ts r' ]

  -- `ldal_device_create`
  unfoldable pub device_create : List TableEntry → Registry → Outcome (ℤ × Registry)
  unfolding create_each
  device_create [] r = ok (neg ldal_einval, r)
  device_create (t ∷ ts) r = create_each (t ∷ ts) r
