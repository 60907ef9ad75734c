-- ===== src/Registry/Creation.antt =====
-- `_device_create` of src/ldal.c: the creation of one device.
use ldal.Base.{
  Bool, true, ℕ, ◌+◌, ◌≤◌, ◌<◌, ◌≡◌, refl, ◌∙◌, sym, ap, subst, ℤ, inl, inr, Option-cases, false,
  Option, none, some, List, [], ◌∷◌, ◌++◌, arith, length, ldal_eok, ◌==◌, ==_iff,
}
use mathlib.Core.List.{append-nil}
use ldal.Device.{Device}
use ldal.ListHead.Linked.{has_ne, has}
use ldal.Registry.{
  strncmp_zero, name_bytes, ClassId, Registry, ok, zeroed, at, memory, file, serial, gpio, digital,
  analog, rtc, udp, tcp, me, misc, backlight, other,
}
use ldal.Registry.Lookup.{IsValid, find?, find?-snoc, is_named}
use ldal.Registry.Enroll.{TableEntry, put, device_register, create_object, create_as, create_device}
use ldal.Registry.Enrolled.{KeepsName, device_register-taken, device_register-new}
use ldal.Registry.Created.{
  Fresh, Apart, IsEntry, IsCreated, Finds, Fresh-append, created_none, Creates, is_library,
}

find?-same :
    (test test' : ℕ → Bool) (xs : List ℕ)
    → ((q : ℕ) → has q xs ≡ true → test' q ≡ test q)
    → find? test' xs ≡ find? test xs
find?-same test test' [] same = refl
find?-same test test' (x ∷ xs) same =
    ground (arith, same x, find?-same test test' xs (λ q i. same q (ground arith)))

module _ (fuel : ℕ) (calloc : ℕ → Option ℕ) (init : ClassId → Device → Device) where
  create_object-full :
      (t : TableEntry) (r : Registry)
      → calloc r.allocated ≡ none
      → create_object fuel calloc init t r ≡ ok (none, record r { allocated = r.allocated + 1 })
  unfolding create_object
  create_object-full t r full = rw (full, create_object) refl

  -- The registry with the new object.
  abbrev with_object : Registry → ℕ → Registry
  with_object r p = put (record r { allocated = r.allocated + 1 }) p zeroed

  create_object-given :
      (t : TableEntry) (r r' : Registry) (p : ℕ) (code : ℤ)
      → calloc r.allocated ≡ some p
      → device_register fuel calloc init p t.device_name t.file_name t.class_id p (with_object r p)
        ≡ ok (code, r')
      → create_object fuel calloc init t r ≡ ok (some p, r')
  unfolding create_object
  create_object-given t r r' p code given registered = rw (given, registered, create_object) refl

  with_object-zeroed : (r : Registry) (p : ℕ) → zeroed ≡ (with_object r p).device p
  with_object-zeroed r p = rw ((==_iff p p).1 refl) refl

  -- A device at a new structure: registered at the end of the list, or not at all.
  registered-IsCreated :
      {cs xs : List ℕ} {r : Registry} (t : TableEntry) (p : ℕ)
      → KeepsName fuel calloc init
      → Apart fuel calloc init
      → IsValid cs xs r
      → Fresh fuel calloc init xs r
      → IsEntry fuel calloc init cs r t
      → length cs < fuel
      → length xs + 1 < fuel
      → calloc r.allocated ≡ some p
      → (r' : Registry) × (device_register fuel calloc init p t.device_name t.file_name t.class_id p
            (with_object r p)
          ≡ ok (ldal_eok, r'))
        × (r'.allocated ≡ r.allocated + 1)
        × ((c : IsCreated fuel calloc init cs xs 1 r r') × Finds fuel calloc init
              (xs ++ c.ys)
              r'
              t.device_name)
  registered-IsCreated {cs} {xs} {r} t p keeps apart v fresh entry f f' given =
      let r1 = with_object r p in
      let outside = fresh r.allocated p (omega arith) given in
      let apart_of : (q : ℕ) → has q xs ≡ true → (q == p) ≡ false =
        λ q i. has_ne q p xs i (ground arith) in
      let v1 : IsValid cs xs r1 = record {
        classes = v.classes;
        devices = v.devices;
        counted = v.counted;
      } in
      elim (Option-cases (find? (is_named r1 t.device_name) xs)) [
        | inr (q, taken) ↦
            let r2 = put r1 p (record (r1.device p) { is_init = false }) in
            (
              r2,
              device_register-taken fuel calloc init p q t.device_name t.file_name t.class_id p v1
                  (omega arith) taken,
              refl,
              (
                created_none fuel calloc init cs xs 1 r r2
                    (record { classes = v.classes; devices = v.devices; counted = v.counted }) fresh
                    refl (omega arith) (λ x i. rw (apart_of x i) refl),
                subst (λ l. Finds fuel calloc init l r2 t.device_name) (sym (append-nil xs))
                    (
                      q,
                      find?-same (is_named r1 t.device_name) (is_named r2 t.device_name) xs
                            (λ x i. rw (apart_of x i) refl)
                          ∙ taken,
                    ),
              ),
            )
        | inl free ↦
            let (r2, code, v2, is, _) =
              device_register-new fuel calloc init p entry.class p t.device_name t.file_name
                t.class_id keeps v1 f f' (fresh r.allocated p (omega arith) given)
                (subst (λ d. length t.device_name ≤ length d.name) (with_object-zeroed r p)
                  entry.fits)
                (subst (λ d. length t.file_name ≤ length d.filename) (with_object-zeroed r p)
                  entry.fits_file)
                free entry.has_class in
            (
              r2,
              code,
              is.same_count,
              (
                record {
                  ys = p ∷ [];
                  few = omega arith;
                  valid = v2;
                  same_ids = is.same_ids;
                  fresh = Fresh-append fuel calloc init xs r r2 p apart fresh given is.same_count;
                  kept = λ q i. is.others q (apart_of q i) ∙ rw (apart_of q i) refl;
                },
                (
                  p,
                  find?-snoc (is_named r1 t.device_name) (is_named r2 t.device_name) xs p
                      (λ q i.
                        ap (λ d. strncmp_zero (name_bytes d) t.device_name)
                          (is.others q (apart_of q i)))
                      free is.named,
                ),
              ),
            )
      ]

  create_object-Creates :
      {cs xs : List ℕ} {r : Registry} (t : TableEntry)
      → KeepsName fuel calloc init
      → Apart fuel calloc init
      → IsValid cs xs r
      → Fresh fuel calloc init xs r
      → IsEntry fuel calloc init cs r t
      → length cs < fuel
      → length xs + 1 < fuel
      → Creates fuel calloc init cs xs r t.device_name (create_object fuel calloc init t r)
  create_object-Creates {cs} {xs} {r} t keeps apart v fresh entry f f' =
      elim (Option-cases (calloc r.allocated)) [
        | inl full ↦ (
          none,
          record r { allocated = r.allocated + 1 },
          create_object-full t r full,
          (
            created_none fuel calloc init cs xs 1 r (record r { allocated = r.allocated + 1 })
                (record { classes = v.classes; devices = v.devices; counted = v.counted }) fresh
                refl (omega arith) (λ q i. refl),
            refl,
            full,
          ),
        )
        | inr (p, given) ↦
            let (r', code, count, (created, found)) =
              registered-IsCreated t p keeps apart v fresh entry f f' given in
            (some p, r', create_object-given t r r' p ldal_eok given code, (created, count, found))
      ]

  -- Only an analog input has its position set.
  create_as-Creates :
      {cs xs : List ℕ} {r : Registry} (id : ClassId) (t : TableEntry)
      → is_library id ≡ true
      → Creates fuel calloc init cs xs r t.device_name (create_object fuel calloc init t r)
      → Creates fuel calloc init cs xs r t.device_name (create_as fuel calloc init id t r)
  unfolding create_as
  create_as-Creates analog t inside (none, r', made, told) = (none, r', rw made refl, told)
  create_as-Creates {r} analog t inside (some p, r', made, (c, one, found)) = (
    some p,
    record r' { pos = at r'.pos p t.private_data },
    rw made refl,
    (
      record {
        ys = c.ys;
        few = c.few;
        valid = record {
          classes = c.valid.classes;
          devices = c.valid.devices;
          counted = c.valid.counted;
        };
        same_ids = c.same_ids;
        fresh = c.fresh;
        kept = c.kept;
      },
      one,
      found,
    ),
  )
  create_as-Creates (other n) t inside made = absurd (ground (arith, inside))
  create_as-Creates memory t inside made = made
  create_as-Creates file t inside made = made
  create_as-Creates serial t inside made = made
  create_as-Creates gpio t inside made = made
  create_as-Creates digital t inside made = made
  create_as-Creates rtc t inside made = made
  create_as-Creates udp t inside made = made
  create_as-Creates tcp t inside made = made
  create_as-Creates me t inside made = made
  create_as-Creates misc t inside made = made
  create_as-Creates backlight t inside made = made

  pub create_device-Creates :
      {cs xs : List ℕ} {r : Registry} (t : TableEntry)
      → KeepsName fuel calloc init
      → Apart fuel calloc init
      → IsValid cs xs r
      → Fresh fuel calloc init xs r
      → IsEntry fuel calloc init cs r t
      → length cs < fuel
      → length xs + 1 < fuel
      → Creates fuel calloc init cs xs r t.device_name (create_device fuel calloc init t r)
  unfolding create_device
  create_device-Creates t keeps apart v fresh entry f f' =
      create_as-Creates t.class_id t entry.in_library
        (create_object-Creates t keeps apart v fresh entry f f')
