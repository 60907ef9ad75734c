-- ===== src/Registry/Table.antt =====
-- `ldal_device_create` of src/ldal.c over a whole table.
use ldal.Base.{
  ap, Bool, true, ℕ, suc, ◌+◌, ◌<◌, ◌≡◌, refl, ◌∙◌, subst, ℤ, ◌⊎◌, inl, inr, Option, none, some,
  List, [], ◌∷◌, ◌++◌, arith, length, length-append, ldal_eok, ldal_enomem, neg,
}
use mathlib.Core.List.{append_assoc}
use ldal.Kernel.{Bytes}
use ldal.Device.{Device}
use ldal.ListHead.Linked.{has}
use ldal.Registry.{strncmp_zero, name_bytes, ClassId, Registry, Outcome, ok}
use ldal.Registry.Lookup.{IsValid, find?, is_named}
use ldal.Registry.Enroll.{TableEntry, create_device, create_each, device_create}
use ldal.Registry.Enrolled.{KeepsName}
use ldal.Registry.Created.{Finds, Fresh, Apart, IsEntry, IsCreated, created_none, Creates}
use ldal.Registry.Creation.{create_device-Creates}

has-append_left : (q : ℕ) (xs ys : List ℕ) → has q xs ≡ true → has q (xs ++ ys) ≡ true
has-append_left q [] ys on = absurd (ground (arith, on))
has-append_left q (x ∷ xs) ys on = ground (arith, has-append_left q xs ys)

find?-more :
    (test test' : ℕ → Bool) (xs ys : List ℕ) (c : ℕ)
    → ((q : ℕ) → has q xs ≡ true → test' q ≡ test q)
    → find? test xs ≡ some c
    → find? test' (xs ++ ys) ≡ some c
find?-more test test' [] ys c same h = absurd (ground (arith, h))
find?-more test test' (x ∷ xs) ys c same h =
    ground (arith, same x, find?-more test test' xs ys c (λ q i. same q (ground arith)))

module _ (fuel : ℕ) (calloc : ℕ → Option ℕ) (init : ClassId → Device → Device) where
  abbrev pub IsTable : List ℕ → Registry → List TableEntry → Type 0
  IsTable cs r [] = Unit {0}
  IsTable cs r (t ∷ ts) = IsEntry fuel calloc init cs r t × IsTable cs r ts

  IsTable-same :
      (cs : List ℕ) (r r' : Registry) (ts : List TableEntry)
      → r'.class_id ≡ r.class_id
      → IsTable cs r ts
      → IsTable cs r' ts
  IsTable-same cs r r' [] same table = tt
  IsTable-same cs r r' (t ∷ ts) same (entry, table) = (
    record {
      class = entry.class;
      in_library = entry.in_library;
      has_class = rw same entry.has_class;
      fits = entry.fits;
      fits_file = entry.fits_file;
    },
    IsTable-same cs r r' ts same table,
  )

  abbrev created_both :
      (cs xs : List ℕ) (n : ℕ) (r r1 r' : Registry) (c : IsCreated fuel calloc init cs xs 1 r r1)
      → IsCreated fuel calloc init cs (xs ++ c.ys) n r1 r'
      → IsCreated fuel calloc init cs xs (suc n) r r'
  created_both cs xs n r r1 r' c d = record {
    ys = c.ys ++ d.ys;
    few = omega (arith, c.few, d.few, length-append c.ys d.ys);
    valid = subst (λ l. IsValid cs l r') (append_assoc xs c.ys d.ys) d.valid;
    same_ids = d.same_ids ∙ c.same_ids;
    fresh = subst (λ l. Fresh fuel calloc init l r') (append_assoc xs c.ys d.ys) d.fresh;
    kept = λ q i. d.kept q (has-append_left q xs c.ys i) ∙ c.kept q i;
  }

  create_each-nil : (r : Registry) → create_each fuel calloc init [] r ≡ ok (ldal_eok, r)
  unfolding create_each
  create_each-nil r = refl

  create_each-none :
      (t : TableEntry) (ts : List TableEntry) (r r1 : Registry)
      → create_device fuel calloc init t r ≡ ok (none, r1)
      → create_each fuel calloc init (t ∷ ts) r ≡ ok (neg ldal_enomem, r1)
  unfolding create_each
  create_each-none t ts r r1 made = rw (made, create_each) refl

  create_each-some :
      (t : TableEntry) (ts : List TableEntry) (r r1 : Registry) (p : ℕ)
      → create_device fuel calloc init t r ≡ ok (some p, r1)
      → create_each fuel calloc init (t ∷ ts) r ≡ create_each fuel calloc init ts r1
  unfolding create_each
  create_each-some t ts r r1 p made = rw (made, create_each) refl

  -- For each entry there is a device whose name begins with that of the entry.
  abbrev pub FindsAll : List ℕ → Registry → List TableEntry → Type 0
  FindsAll xs r [] = Unit {0}
  FindsAll xs r (t ∷ ts) = Finds fuel calloc init xs r t.device_name × FindsAll xs r ts

  Finds-kept :
      (cs xs : List ℕ) (n : ℕ) (r r' : Registry) (name : Bytes)
      (d : IsCreated fuel calloc init cs xs n r r')
      → Finds fuel calloc init xs r name
      → Finds fuel calloc init (xs ++ d.ys) r' name
  Finds-kept cs xs n r r' name d (q, found) = (
    q,
    find?-more (is_named r name) (is_named r' name) xs d.ys q
        (λ x i. ap (λ v. strncmp_zero (name_bytes v) name) (d.kept x i)) found,
  )

  -- The entries are found up to the first for which there is no memory, the allocation for the first
  -- of them being the `n`-th.
  abbrev pub Refused : List ℕ → ℕ → Registry → List TableEntry → Type 0
  Refused xs n r [] = ⊥
  Refused xs n r (t ∷ ts) =
      ((calloc n ≡ none) × (r.allocated ≡ n + 1))
      ⊎ (Finds fuel calloc init xs r t.device_name × Refused xs (n + 1) r ts)

  -- What a creation from a table returns.
  abbrev pub Ends : List ℕ → List ℕ → List TableEntry → Registry → Outcome (ℤ × Registry) → Type 0
  Ends cs xs ts r made =
      (code : ℤ) × (r' : Registry) × (made ≡ ok (code, r'))
      × ((c : IsCreated fuel calloc init cs xs (length ts) r r') × (((code ≡ ldal_eok)
              × (r'.allocated ≡ r.allocated + length ts)
              × FindsAll (xs ++ c.ys) r' ts)
            ⊎ ((code ≡ neg ldal_enomem) × Refused (xs ++ c.ys) r.allocated r' ts)))

  -- What the rest of a table leaves, with its first entry.
  created_more :
      {cs xs : List ℕ} {r r1 r' : Registry} {code : ℤ} (t : TableEntry) (ts : List TableEntry)
      (c : IsCreated fuel calloc init cs xs 1 r r1)
      (d : IsCreated fuel calloc init cs (xs ++ c.ys) (length ts) r1 r')
      → r1.allocated ≡ r.allocated + 1
      → Finds fuel calloc init (xs ++ c.ys) r1 t.device_name
      → ((code ≡ ldal_eok)
          × (r'.allocated ≡ r1.allocated + length ts)
          × FindsAll ((xs ++ c.ys) ++ d.ys) r' ts)
        ⊎ ((code ≡ neg ldal_enomem) × Refused ((xs ++ c.ys) ++ d.ys) r1.allocated r' ts)
      → ((code ≡ ldal_eok)
          × (r'.allocated ≡ r.allocated + suc (length ts))
          × FindsAll (xs ++ (c.ys ++ d.ys)) r' (t ∷ ts))
        ⊎ ((code ≡ neg ldal_enomem) × Refused (xs ++ (c.ys ++ d.ys)) r.allocated r' (t ∷ ts))
  created_more {cs} {xs} {r} {r1} {r'} t ts c d one found (inr (full, refused)) = inr (
    full,
    subst (λ l. Refused l r.allocated r' (t ∷ ts)) (append_assoc xs c.ys d.ys)
        (inr (
          Finds-kept cs (xs ++ c.ys) (length ts) r1 r' t.device_name d found,
          subst (λ k. Refused ((xs ++ c.ys) ++ d.ys) k r' ts) one refused,
        )),
  )
  created_more {cs} {xs} {r} {r1} {r'} t ts c d one found (inl (success, more, all)) = inl (
    success,
    omega arith,
    subst (λ l. FindsAll l r' (t ∷ ts)) (append_assoc xs c.ys d.ys)
        (Finds-kept cs (xs ++ c.ys) (length ts) r1 r' t.device_name d found, all),
  )

  -- The creations after the first one.
  create_rest :
      (cs xs : List ℕ) (r : Registry) (t : TableEntry) (ts : List TableEntry)
      → ((r1 : Registry) (c : IsCreated fuel calloc init cs xs 1 r r1)
          → Ends cs (xs ++ c.ys) ts r1 (create_each fuel calloc init ts r1))
      → Creates fuel calloc init cs xs r t.device_name (create_device fuel calloc init t r)
      → Ends cs xs (t ∷ ts) r (create_each fuel calloc init (t ∷ ts) r)
  create_rest cs xs r t ts rest (none, r1, made, (c, one, full)) = (
    neg ldal_enomem,
    r1,
    create_each-none t ts r r1 made,
    (
      record {
        ys = c.ys;
        few = omega (arith, c.few);
        valid = c.valid;
        same_ids = c.same_ids;
        fresh = c.fresh;
        kept = c.kept;
      },
      inr (refl, inl (full, one)),
    ),
  )
  create_rest cs xs r t ts rest (some p, r1, made, (c, one, found)) =
      let (code, r', others, (d, codes)) = rest r1 c in
      (
        code,
        r',
        create_each-some t ts r r1 p made ∙ others,
        (created_both cs xs (length ts) r r1 r' c d, created_more t ts c d one found codes),
      )

  create_each-Ends :
      (ts : List TableEntry) (cs xs : List ℕ) (r : Registry)
      → KeepsName fuel calloc init
      → Apart fuel calloc init
      → IsValid cs xs r
      → Fresh fuel calloc init xs r
      → IsTable cs r ts
      → length cs < fuel
      → length xs + length ts < fuel
      → Ends cs xs ts r (create_each fuel calloc init ts r)
  create_each-Ends [] cs xs r keeps apart v fresh table f f' = (
    ldal_eok,
    r,
    create_each-nil r,
    (
      created_none fuel calloc init cs xs 0 r r v fresh refl (omega arith) (λ q i. refl),
      inl (refl, omega arith, tt),
    ),
  )
  create_each-Ends (t ∷ ts) cs xs r keeps apart v fresh (entry, table) f f' =
      create_rest cs xs r t ts
        (λ r1 c.
          create_each-Ends ts cs (xs ++ c.ys) r1 keeps apart c.valid c.fresh
            (IsTable-same cs r r1 ts c.same_ids table) f
            (omega (arith, c.few, length-append xs c.ys)))
        (create_device-Creates fuel calloc init t keeps apart v fresh entry f (omega arith))

  -- A table of at least one entry, whose classes are of the library and registered and whose names fit, is gone through
  -- to its end, with success, a structure allocated for each entry, and a device in the list whose
  -- name begins with that of the entry, or to the first entry for which the allocation gives no
  -- memory, with the error of missing memory and such a device for each entry before it. The lists are well formed after it, with the classes of before, and with
  -- at most one device more for each entry, after the devices of before. The memory that is given is
  -- fresh, the fuel is above the lengths of the lists, with the new devices, and `init` operations
  -- leave the name and the count alone.
  pub device_create-Ends :
      {cs xs : List ℕ} {r : Registry} (t : TableEntry) (ts : List TableEntry)
      → KeepsName fuel calloc init
      → Apart fuel calloc init
      → IsValid cs xs r
      → Fresh fuel calloc init xs r
      → IsTable cs r (t ∷ ts)
      → length cs < fuel
      → length xs + suc (length ts) < fuel
      → Ends cs xs (t ∷ ts) r (device_create fuel calloc init (t ∷ ts) r)
  unfolding device_create
  device_create-Ends {cs} {xs} {r} t ts keeps apart v fresh table f f' =
      create_each-Ends (t ∷ ts) cs xs r keeps apart v fresh table f f'
