-- ===== src/Registry/Classes.antt =====
-- Classes that are not registered when a device asks for them: `ldal_device_class_set` of src/ldal.c.
use ldal.Base.{
  ℕ, ◌+◌, ◌<◌, ◌≡◌, refl, Bool, false, true, Option, none, some, List, [], ◌∷◌, ◌++◌, arith, length,
  length-append, ldal_eok,
}
use ldal.Kernel.{Bytes}
use ldal.Device.{Device}
use ldal.ListHead.{null}
use ldal.ListHead.Linked.{has, has_ne}
use ldal.ListHead.Ring.{init_list_head-IsRing, list_add_tail-append}
use ldal.Registry.{
  ClassId, other, backlight, class_list, Registry, ok, at, class_register, device_class_register,
}
use ldal.Registry.Lookup.{
  IsValid, find?, find?-snoc, is_named, is_class, get_by_name-first, class_get-first,
}
use ldal.Registry.Enroll.{put, class_set, find_class, device_register}

-- The classes that `ldal_device_class_set` knows.
abbrev pub known : ClassId → Bool
known backlight = false
known (other n) = false
known _ = true

module _ (fuel : ℕ) (calloc : ℕ → Option ℕ) (init : ClassId → Device → Device) where
  pub class_set-known :
      (id : ClassId) (r : Registry)
      → known id ≡ true
      → class_set fuel calloc init id r ≡ device_class_register fuel calloc init id r
  unfolding class_set
  class_set-known id r k = ground arith

  module _ {cs xs : List ℕ} {r : Registry} (v : IsValid cs xs r) where
    pub class_register-IsValid :
        (c : ℕ) (id : ClassId)
        → calloc r.allocated ≡ some c
        → has c (null ∷ class_list ∷ cs) ≡ false
        → (r' : Registry) × (device_class_register fuel calloc init id r ≡ ok (ldal_eok, r'))
          × IsValid (cs ++ c ∷ []) xs r'
          × (r'.class_id ≡ at r.class_id c id)
          × (r'.device ≡ r.device)
          × (r'.allocated ≡ r.allocated + 1)
    unfolding device_class_register class_register
    class_register-IsValid c id given fresh =
        let (l, inited, ring) =
          init_list_head-IsRing r.class_links class_list cs v.classes c fresh in
        let (l', added, ring') = list_add_tail-append l class_list cs ring c fresh in
        let r1 : Registry = record r { allocated = r.allocated + 1 } in
        (
          record r1 { class_links = l'; class_id = at r.class_id c id },
          rw (given, device_class_register, inited, added),
          record { classes = ring'; devices = v.devices; counted = v.counted },
          refl,
          refl,
          refl,
        )

    -- On well formed lists, a class that `ldal_device_class_set` knows and that is not registered
    -- yet is registered on demand, at the end of the class list, and found, and no device
    -- changes, if the allocation gives a fresh node; the fuel is above the number of classes,
    -- with the new one.
    pub find_class-known :
        (c : ℕ) (id : ClassId)
        → known id ≡ true
        → find? (is_class r id) cs ≡ none
        → calloc r.allocated ≡ some c
        → has c (null ∷ class_list ∷ cs) ≡ false
        → length cs + 1 < fuel
        → (r' : Registry) × (find_class fuel calloc init id r ≡ ok (some c, r'))
          × IsValid (cs ++ c ∷ []) xs r'
          × (r'.class_id c ≡ id)
          × (r'.device ≡ r.device)
    unfolding find_class
    find_class-known c id k free given fresh f =
        let (r', code, v', ids, same, _) = class_register-IsValid c id given fresh in
        let old : (q : ℕ) → has q cs ≡ true → is_class r' id q ≡ is_class r id q =
          λ q i. rw ids (rw (has_ne q c cs i (ground arith))) in
        let new : is_class r' id c ≡ true = rw ids (ground arith) in
        let found : find? (is_class r' id) (cs ++ c ∷ []) ≡ some c =
          find?-snoc (is_class r id) (is_class r' id) cs c old free new in
        (
          r',
          rw (
            class_get-first fuel calloc init v id (omega arith),
            free,
            class_set-known id r k,
            code,
            class_get-first fuel calloc init v' id (omega (arith, length-append cs (c ∷ []))),
            found,
          ),
          v',
          rw ids (ground arith),
          same,
        )

    -- On well formed lists, with fuel above their lengths, a backlight device whose name is free
    -- and whose class is not registered is not registered either: the class is not one that
    -- `ldal_device_class_set` knows. The lists stay as they are, the device is marked as not
    -- initialised, and the result is success.
    pub device_register-backlight :
        (p user : ℕ) (name file_name : Bytes)
        → length xs < fuel
        → length cs < fuel
        → find? (is_named r name) xs ≡ none
        → find? (is_class r backlight) cs ≡ none
        → device_register fuel calloc init p name file_name backlight user r
          ≡ ok (ldal_eok, put r p (record (r.device p) { is_init = false }))
    unfolding device_register find_class
    device_register-backlight p user name file_name f f' free none_yet = rw (
      get_by_name-first fuel calloc init v name f,
      free,
      class_get-first fuel calloc init v backlight f',
      none_yet,
      class_get-first fuel calloc init v backlight f',
      none_yet,
    )
