-- ===== src/Registry/Enrolled.antt =====
-- What `ldal_device_register` of src/ldal.c does, on each of its ways.
use ldal.Base.{
  ℕ, ◌+◌, ◌≤◌, ◌<◌, ◌≡◌, refl, ◌∙◌, ap, true, false, Option, none, some, List, [], ◌∷◌, ◌++◌, arith,
  length, length-append, ldal_eok, ◌==◌,
}
use ldal.Kernel.{Bytes}
use ldal.Device.{Device}
use ldal.ListHead.{null}
use ldal.ListHead.Linked.{has, has_ne}
use ldal.ListHead.Ring.{init_list_head-IsRing, list_add_tail-append}
use ldal.Registry.{ClassId, device_list, Registry, ok, strncmp_zero, name_bytes, get_by_name}
use ldal.Registry.Names.{memcpy-some, strncmp_zero-memcpy}
use ldal.Registry.Lookup.{
  IsValid, find?, find?-snoc, is_named, is_class, get_by_name-first, class_get-first,
}
use ldal.Registry.Enroll.{put, find_class, enroll, enrolled, device_register}

module _ (fuel : ℕ) (calloc : ℕ → Option ℕ) (init : ClassId → Device → Device) where
  -- On well formed lists, with fuel above the number of devices, a name that begins the name of a
  -- registered device is taken: the lists stay as they are, the device that was to be registered
  -- is marked as not initialised, and the result is success.
  pub device_register-taken :
      {cs xs : List ℕ} {r : Registry} (p q : ℕ) (name file_name : Bytes) (id : ClassId) (data' : ℕ)
      → IsValid cs xs r
      → length xs < fuel
      → find? (is_named r name) xs ≡ some q
      → device_register fuel calloc init p name file_name id data' r
        ≡ ok (ldal_eok, put r p (record (r.device p) { is_init = false }))
  unfolding device_register
  device_register-taken p q name file_name id data' v f taken =
      rw (get_by_name-first fuel calloc init v name f, taken)

  -- The class of a device, where it is registered already.
  find_class-registered :
      {cs xs : List ℕ} {r : Registry} (c : ℕ) (id : ClassId)
      → IsValid cs xs r
      → length cs < fuel
      → find? (is_class r id) cs ≡ some c
      → find_class fuel calloc init id r ≡ ok (some c, r)
  unfolding find_class
  find_class-registered c id v f has_class = rw (class_get-first fuel calloc init v id f, has_class)

  -- What a registration leaves behind: the device is initialised, without users, of the class,
  -- found by its name, and no other device has changed.
  pub record IsEnrolled (p c user : ℕ) (name : Bytes) (r r' : Registry) : Type 0 where
    pub ready : (r'.device p).is_init ≡ true
    pub unused : (r'.device p).ref ≡ 0
    pub of_class : r'.class p ≡ c
    pub of_user : r'.user_data p ≡ user
    pub named : is_named r' name p ≡ true
    pub others : (q : ℕ) → (q == p) ≡ false → r'.device q ≡ r.device q
    pub same_ids : r'.class_id ≡ r.class_id
    pub same_count : r'.allocated ≡ r.allocated

  -- What the registry needs of the `init` operations: they leave the name and the count alone.
  pub record KeepsName : Type 0 where
    pub keeps_name : (c : ClassId) (d : Device) → (init c d).name ≡ d.name
    pub keeps_ref : (c : ClassId) (d : Device) → (init c d).ref ≡ d.ref

  pub enroll-IsValid :
      {cs xs : List ℕ} {r : Registry} (p c user : ℕ) (name file_name : Bytes)
      → KeepsName
      → IsValid cs xs r
      → has p (null ∷ device_list ∷ xs) ≡ false
      → length name ≤ length (r.device p).name
      → length file_name ≤ length (r.device p).filename
      → (r' : Registry) × (enroll fuel calloc init p c name file_name user r ≡ ok (ldal_eok, r'))
        × IsValid cs (xs ++ p ∷ []) r'
        × IsEnrolled p c user name r r'
  unfolding enroll
  enroll-IsValid {xs} {r} p c user name file_name keeps v fresh fits fits' =
      let (buf, copied, _) = memcpy-some (r.device p).name name fits in
      let (buf', copied', _) = memcpy-some (r.device p).filename file_name fits' in
      let (l, inited, ring) =
        init_list_head-IsRing r.device_links device_list xs v.devices p fresh in
      let (l', added, ring') = list_add_tail-append l device_list xs ring p fresh in
      let r1 : Registry = enrolled fuel calloc init p c buf buf' user l' r in
      let r' : Registry = put r1 p (record (r1.device p) { is_init = true }) in
      let d : Device = record (r.device p) { name = buf; filename = buf'; ref = 0 } in
      let name' : (r'.device p).name ≡ buf = ground (arith, keeps.keeps_name (r.class_id c) d) in
      (
        r',
        rw (copied, copied', inited, added),
        record {
          classes = v.classes;
          devices = ring';
          counted = ground (arith, v.counted, length-append xs (p ∷ []));
        },
        record {
          ready = ground arith;
          unused = ground (arith, keeps.keeps_ref (r.class_id c) d);
          of_class = ground arith;
          of_user = ground arith;
          named =
              rw name'
                (strncmp_zero-memcpy (r.device p).name name buf (r'.device p).filename copied);
          others = λ q ne. ground arith;
          same_ids = refl;
          same_count = refl;
        },
      )

  -- A device at a fresh address, with names that fit, whose name begins no registered device's
  -- and whose class is registered, is put at the end of a well formed list: the result is
  -- success, the lists stay well formed and counted, the device is initialised, without users, of
  -- its class, no other device changes, and it is what a search for its name finds. The fuel is
  -- above the lengths of the lists, with the new device, and `init` operations leave the name and
  -- the count alone.
  pub device_register-new :
      {cs xs : List ℕ} {r : Registry} (p c user : ℕ) (name file_name : Bytes) (id : ClassId)
      → KeepsName
      → IsValid cs xs r
      → length cs < fuel
      → length xs + 1 < fuel
      → has p (null ∷ device_list ∷ xs) ≡ false
      → length name ≤ length (r.device p).name
      → length file_name ≤ length (r.device p).filename
      → find? (is_named r name) xs ≡ none
      → find? (is_class r id) cs ≡ some c
      → (r' : Registry) × (device_register fuel calloc init p name file_name id user r
          ≡ ok (ldal_eok, r'))
        × IsValid cs (xs ++ p ∷ []) r'
        × IsEnrolled p c user name r r'
        × (get_by_name fuel calloc init name r' ≡ ok (some p))
  unfolding device_register
  device_register-new {xs} {r} p c user name file_name id keeps v f f' fresh fits fits' free
        has_class =
      let (r', code, v', is) = enroll-IsValid p c user name file_name keeps v fresh fits fits' in
      let found : find? (is_named r' name) (xs ++ p ∷ []) ≡ some p =
        find?-snoc (is_named r name) (is_named r' name) xs p
          (λ q i.
            ap (λ d. strncmp_zero (name_bytes d) name)
              (is.others q (has_ne q p xs i (ground arith))))
          free is.named in
      (
        r',
        rw
            (
              get_by_name-first fuel calloc init v name (omega arith),
              free,
              find_class-registered c id v f has_class,
            )
            code,
        v',
        is,
        get_by_name-first fuel calloc init v' name (omega (arith, length-append xs (p ∷ [])))
            ∙ ap ok found,
      )
