-- ===== src/Registry/Invariant.antt =====
-- Registration in src/ldal.c, whatever happens: it returns, and the lists stay well formed.
use ldal.Base.{
  ℕ, ◌+◌, ◌≤◌, ◌<◌, ◌≡◌, refl, ◌∙◌, ℤ, ldal_enomem, ◌⊎◌, inl, inr, Bool-cases, Option-cases, true,
  false, Option, none, some, List, [], ◌∷◌, ◌++◌, arith, length, length-append, ldal_eok, lt→ltb,
  neg,
}
use ldal.Kernel.{Bytes}
use ldal.Device.{Device}
use ldal.ListHead.{null}
use ldal.ListHead.Linked.{has}
use ldal.Registry.{
  ClassId, class_number, class_max, class_list, device_list, Registry, ok, device_class_register,
}
use ldal.Registry.Lookup.{IsValid, find?, is_named, is_class, get_by_name-first, class_get-first}
use ldal.Registry.Enroll.{put, class_set, find_class, device_register}
use ldal.Registry.Enrolled.{KeepsName, enroll-IsValid}
use ldal.Registry.Classes.{known, class_set-known, class_register-IsValid}

module _ (fuel : ℕ) (calloc : ℕ → Option ℕ) (init : ClassId → Device → Device) where
  -- The class node that the next allocation gives, if it gives one, is not in use.
  abbrev pub FreshClass : List ℕ → Registry → Type 0
  FreshClass cs r = (c : ℕ) → calloc r.allocated ≡ some c → has c (null ∷ class_list ∷ cs) ≡ false

  -- The registry after an attempt to have a class: at most one class more, and the same devices.
  abbrev pub Attempt : (cs xs : List ℕ) → Registry → Registry → Type 0
  Attempt cs xs r r' =
      (cs' : List ℕ) × IsValid cs' xs r' × (length cs' ≤ length cs + 1) × (r'.device ≡ r.device)

  pub class_set-unknown :
      (id : ClassId) (r : Registry)
      → known id ≡ false
      → class_set fuel calloc init id r ≡ ok (ldal_eok, r)
  unfolding class_set
  class_set-unknown id r k = ground arith

  device_class_register-none :
      (id : ClassId) (r : Registry)
      → calloc r.allocated ≡ none
      → device_class_register fuel calloc init id r
        ≡ ok (neg ldal_enomem, record r { allocated = r.allocated + 1 })
  unfolding device_class_register
  device_class_register-none id r k = rw (k, device_class_register) refl

  class_set-IsValid :
      {cs xs : List ℕ} {r : Registry} (id : ClassId)
      → IsValid cs xs r
      → FreshClass cs r
      → (code : ℤ) × (r' : Registry) × (class_set fuel calloc init id r ≡ ok (code, r'))
        × Attempt cs xs r r'
  class_set-IsValid {cs} {xs} {r} id v fresh = elim (Bool-cases (known id)) [
    | inr unlisted ↦ (ldal_eok, r, class_set-unknown id r unlisted, (cs, v, omega arith, refl))
    | inl listed ↦ elim (Option-cases (calloc r.allocated)) [
      | inl full ↦ (
        neg ldal_enomem,
        record r { allocated = r.allocated + 1 },
        class_set-known fuel calloc init id r listed ∙ device_class_register-none id r full,
        (
          cs,
          record { classes = v.classes; devices = v.devices; counted = v.counted },
          omega arith,
          refl,
        ),
      )
      | inr (c, given) ↦
          let (r', code, v', _, same, _) =
            class_register-IsValid fuel calloc init v c id given (fresh c given) in
          (
            ldal_eok,
            r',
            class_set-known fuel calloc init id r listed ∙ code,
            (cs ++ c ∷ [], v', omega (arith, length-append cs (c ∷ [])), same),
          )
    ]
  ]

  find_class-IsValid :
      {cs xs : List ℕ} {r : Registry} (id : ClassId)
      → IsValid cs xs r
      → FreshClass cs r
      → length cs + 1 < fuel
      → (res : Option ℕ) × (r' : Registry) × (find_class fuel calloc init id r ≡ ok (res, r'))
        × Attempt cs xs r r'
  unfolding find_class
  find_class-IsValid {cs} {xs} {r} id v fresh f = elim (Option-cases (find? (is_class r id) cs)) [
    | inr (c, there) ↦ (
      some c,
      r,
      rw (class_get-first fuel calloc init v id (omega arith), there) refl,
      (cs, v, omega arith, refl),
    )
    | inl free ↦
        let (code, r', set, (cs', v', few, same)) = class_set-IsValid id v fresh in
        (
          find? (is_class r' id) cs',
          r',
          rw
              (
                class_get-first fuel calloc init v id (omega arith),
                free,
                set,
                class_get-first fuel calloc init v' id (omega arith),
              )
              refl,
          (cs', v', few, same),
        )
  ]

  -- On well formed lists, the registration of a device at a fresh address, with names that fit
  -- and a class of the enumeration, always returns, with success, whatever the name, the class
  -- and the memory that is left: the lists are well formed after it, the devices are those
  -- before, or those and the new one at the end, and the new device is marked as initialised in
  -- the second case only. The fuel is above the lengths of the lists, with one more class, a
  -- class node that is allocated is fresh, and `init` operations leave the name and the count
  -- alone.
  pub device_register-IsValid :
      {cs xs : List ℕ} {r : Registry} (p user : ℕ) (name file_name : Bytes) (id : ClassId)
      → KeepsName fuel calloc init
      → IsValid cs xs r
      → FreshClass cs r
      → length cs + 1 < fuel
      → length xs < fuel
      → has p (null ∷ device_list ∷ xs) ≡ false
      → length name ≤ length (r.device p).name
      → length file_name ≤ length (r.device p).filename
      → class_number id < class_max
      → (r' : Registry) × (device_register fuel calloc init p name file_name id user r
          ≡ ok (ldal_eok, r'))
        × ((cs' : List ℕ) × (xs' : List ℕ) × IsValid cs' xs' r'
            × (((xs' ≡ xs) × ((r'.device p).is_init ≡ false))
                ⊎ ((xs' ≡ xs ++ p ∷ []) × ((r'.device p).is_init ≡ true))))
  unfolding device_register
  device_register-IsValid {cs} {xs} {r} p user name file_name id keeps v fresh f f' new fits fits'
        valid =
      elim (Option-cases (find? (is_named r name) xs)) [
        | inr (q, taken) ↦ (
          put r p (record (r.device p) { is_init = false }),
          rw (get_by_name-first fuel calloc init v name f', taken) refl,
          (
            cs,
            xs,
            record { classes = v.classes; devices = v.devices; counted = v.counted },
            inl (refl, ground arith),
          ),
        )
        | inl free ↦
            let (res, r1, got, (cs', v', _, same)) = find_class-IsValid id v fresh f in
            elim (Option-cases res) [
              | inl missing ↦ (
                put r1 p (record (r1.device p) { is_init = false }),
                rw
                    (
                      get_by_name-first fuel calloc init v name f',
                      free,
                      got,
                      missing,
                      lt→ltb (class_number id) class_max valid,
                    )
                    refl,
                (
                  cs',
                  xs,
                  record { classes = v'.classes; devices = v'.devices; counted = v'.counted },
                  inl (refl, ground arith),
                ),
              )
              | inr (c, there) ↦
                  let (r2, code, v'', is) =
                    enroll-IsValid fuel calloc init p c user name file_name keeps v' new
                      (rw same fits) (rw same fits') in
                  (
                    r2,
                    rw (get_by_name-first fuel calloc init v name f', free, got, there) code,
                    (cs', xs ++ p ∷ [], v'', inr (refl, is.ready)),
                  )
            ]
      ]
