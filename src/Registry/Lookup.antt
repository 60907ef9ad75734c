-- ===== src/Registry/Lookup.antt =====
-- Searching the lists of src/ldal.c.
use ldal.Base.{
  ℕ, ◌%◌, ◌^◌, ◌<◌, ◌≡◌, refl, Bool, true, Option, none, some, List, [], ◌∷◌, ◌++◌, arith, ◌==◌,
  if◌then◌else◌, length,
}
use ldal.Kernel.{Bytes}
use ldal.Device.{Device}
use ldal.ListHead.Linked.{has}
use ldal.ListHead.Ring.{IsRing}
use ldal.ListHead.Walk.{first, find_entry-first}
use ldal.Registry.{
  ClassId, class_number, class_list, device_list, Registry, ok, pointer, name_bytes, strncmp_zero,
  get_by_name, get_by_type, class_get,
}

-- The classes `cs` and the devices `xs` are registered, in this order, and the devices are counted.
pub record IsValid (cs xs : List ℕ) (r : Registry) : Type 0 where
  pub classes : IsRing r.class_links class_list cs
  pub devices : IsRing r.device_links device_list xs
  pub counted : r.device_num ≡ length xs % 2 ^ 16

-- The first address of a list that passes a test.
abbrev pub find? : (ℕ → Bool) → List ℕ → Option ℕ
find? test [] = none
find? test (x ∷ xs) = if test x then some x else find? test xs

-- The device's name begins with the text.
abbrev pub is_named : Registry → Bytes → ℕ → Bool
is_named r name p = strncmp_zero (name_bytes (r.device p)) name

abbrev pub is_class : Registry → ClassId → ℕ → Bool
is_class r id c = class_number (r.class_id c) == class_number id

pointer-first : (test : ℕ → Bool) (xs : List ℕ) → pointer (first test xs) ≡ ok (find? test xs)
pointer-first test [] = refl
pointer-first test (x ∷ xs) = ground (arith, pointer-first test xs)

pub find?-snoc :
    (test test' : ℕ → Bool) (xs : List ℕ) (p : ℕ)
    → ((q : ℕ) → has q xs ≡ true → test' q ≡ test q)
    → find? test xs ≡ none
    → test' p ≡ true
    → find? test' (xs ++ p ∷ []) ≡ some p
find?-snoc test test' [] p same h t = ground arith
find?-snoc test test' (x ∷ xs) p same h t =
    ground (arith, same x, find?-snoc test test' xs p (λ q i. same q (ground arith)))

module _ (fuel : ℕ) (calloc : ℕ → Option ℕ) (init : ClassId → Device → Device) where
  module _ {cs xs : List ℕ} {r : Registry} (v : IsValid cs xs r) where
    -- On well formed lists, `ldal_device_get_by_name` returns the first registered device whose
    -- name begins with the text, and NULL if there is none, with fuel above the number of
    -- devices.
    pub get_by_name-first :
        (name : Bytes)
        → length xs < fuel
        → get_by_name fuel calloc init name r ≡ ok (find? (is_named r name) xs)
    unfolding get_by_name
    get_by_name-first name f =
        rw (find_entry-first fuel (is_named r name) r.device_links device_list xs v.devices f)
          (pointer-first (is_named r name) xs)

    -- On well formed lists, `ldal_device_get_by_type` returns the first registered device of the
    -- class, whatever name it is given, and NULL if there is none, with fuel above the number of
    -- devices.
    pub get_by_type-first :
        (type : ClassId) (name : Bytes)
        → length xs < fuel
        → get_by_type fuel calloc init type name r
          ≡ ok (find? (λ p. is_class r type (r.class p)) xs)
    unfolding get_by_type
    get_by_type-first type name f =
        rw
          (find_entry-first fuel (λ p. is_class r type (r.class p)) r.device_links device_list xs
            v.devices f)
          (pointer-first (λ p. is_class r type (r.class p)) xs)

    pub class_get-first :
        (id : ClassId)
        → length cs < fuel
        → class_get fuel calloc init id r ≡ ok (find? (is_class r id) cs)
    unfolding class_get
    class_get-first id f =
        rw (find_entry-first fuel (is_class r id) r.class_links class_list cs v.classes f)
          (pointer-first (is_class r id) cs)
