-- ===== src/Registry/Removed.antt =====
-- What `ldal_device_unregister` of src/ldal.c does, on each of its ways.
use ldal.Base.{
  ℕ, none, some, ◌≤◌, subst, ◌+◌, ◌-◌, ◌%◌, ◌^◌, ◌<◌, ◌≡◌, refl, ◌⊎◌, false, true, Option, List, [],
  ◌∷◌, ◌++◌, arith, length, ldal_eok, neg, ldal_einval, ldal_error, ◌==◌, if◌then◌else◌,
}
use ldal.Kernel.{Bytes}
use ldal.Device.{Device}
use ldal.ListHead.{null}
use ldal.ListHead.Linked.{has, has_ne, erase, length-erase}
use ldal.ListHead.Ring.{list_del-erase, list_del-unlinked}
use ldal.Registry.{ClassId, device_list, Registry, ok, crash}
use ldal.Registry.Lookup.{IsValid, find?, is_named, is_class}
use ldal.Registry.Enroll.{device_register, device_unregister}
use ldal.Registry.Enrolled.{KeepsName, device_register-new}

erase-append_one : (p : ℕ) (xs : List ℕ) → has p xs ≡ false → erase p (xs ++ p ∷ []) ≡ xs
erase-append_one p [] h = ground arith
erase-append_one p (x ∷ xs) h = ground (arith, erase-append_one p xs)

has-append_self : (p : ℕ) (xs : List ℕ) → has p (xs ++ p ∷ []) ≡ true
has-append_self p [] = ground arith
has-append_self p (x ∷ xs) = ground (arith, has-append_self p xs)

module _ (fuel : ℕ) (calloc : ℕ → Option ℕ) (init : ClassId → Device → Device) where
  -- A NULL device is refused as invalid, and a device with users as busy; nothing changes.
  pub device_unregister-refused :
      (p : ℕ) (r : Registry)
      → (p ≡ null) ⊎ (0 < (r.device p).ref)
      → device_unregister fuel calloc init p r
        ≡ ok (neg (if p == null then ldal_einval else ldal_error), r)
  unfolding device_unregister
  device_unregister-refused p r h = ground arith

  module _ {cs xs : List ℕ} {r : Registry} (v : IsValid cs xs r) where
    -- On well formed lists, a registered device without users is taken from the list, and the
    -- others keep their order and all devices their data; a second call for the same device goes
    -- through NULL.
    pub device_unregister-erase :
        (p : ℕ)
        → has p xs ≡ true
        → (r.device p).ref ≡ 0
        → (r' : Registry) × (device_unregister fuel calloc init p r ≡ ok (ldal_eok, r'))
          × IsValid cs (erase p xs) r'
          × (r'.device ≡ r.device)
          × (device_unregister fuel calloc init p r' ≡ crash)
    unfolding device_unregister
    device_unregister-erase p i idle =
        let (l, deleted, ring, unlinked, _) =
          list_del-erase r.device_links device_list xs v.devices p i in
        let there : (p == null) ≡ false = has_ne p null xs i (ground (arith, v.devices)) in
        (
          record r { device_links = l; device_num = (r.device_num + 2 ^ 16 - 1) % 2 ^ 16 },
          rw (there, idle, deleted),
          record {
            classes = v.classes;
            devices = ring;
            counted = omega (arith, v.counted, length-erase p xs i);
          },
          refl,
          rw (there, idle, list_del-unlinked p l unlinked),
        )

  -- A device at a fresh address, with names that fit, that is registered under a name that begins
  -- no registered device's and then unregistered leaves the lists well formed, with the classes
  -- and devices as before, if its class was registered, the fuel is above the lengths of the
  -- lists, with the new device, and `init` operations leave the name and the count alone.
  pub device_unregister-device_register :
      {cs xs : List ℕ} {r : Registry} (p c user : ℕ) (name file_name : Bytes) (id : ClassId)
      → KeepsName fuel calloc init
      → IsValid cs xs r
      → length cs < fuel
      → length xs + 1 < fuel
      → has p (null ∷ device_list ∷ xs) ≡ false
      → length name ≤ length (r.device p).name
      → length file_name ≤ length (r.device p).filename
      → find? (is_named r name) xs ≡ none
      → find? (is_class r id) cs ≡ some c
      → (r' r'' : Registry) × (device_register fuel calloc init p name file_name id user r
          ≡ ok (ldal_eok, r'))
        × (device_unregister fuel calloc init p r' ≡ ok (ldal_eok, r''))
        × IsValid cs xs r''
  device_unregister-device_register {cs} {xs} p c user name file_name id keeps v f f' fresh fits
        fits' free has_class =
      let (r', code, v', is, _) =
        device_register-new fuel calloc init p c user name file_name id keeps v f f' fresh fits
          fits' free has_class in
      let (r'', code', v'', _, _) = device_unregister-erase v' p (has-append_self p xs) is.unused in
      (
        r',
        r'',
        code,
        code',
        subst (λ ys. IsValid cs ys r'') (erase-append_one p xs (ground arith)) v'',
      )
