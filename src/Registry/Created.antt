-- ===== src/Registry/Created.antt =====
-- What `_device_create` of src/ldal.c leaves behind.
use ldal.Base.{
  Bool, true, ℕ, ◌+◌, ◌≤◌, ◌≡◌, ◌∙◌, sym, ap, subst, inl, inr, Bool-cases, false, Option, none,
  some, List, [], ◌∷◌, ◌++◌, arith, length, ◌==◌, ==_iff,
}
use mathlib.Core.List.{append-nil}
use ldal.Kernel.{Bytes}
use ldal.Device.{Device}
use ldal.ListHead.{null}
use ldal.ListHead.Linked.{has, has-append_one}
use ldal.Registry.{other, ClassId, device_list, name_max, filename_max, Registry, Outcome, ok}
use ldal.Registry.Lookup.{IsValid, find?, is_named, is_class}
use ldal.Registry.Enroll.{TableEntry}

-- What is told of a creation without a structure, and of one with it.
abbrev pub Told : Option ℕ → Type 0 → Type 0 → Type 0
Told none U T = U
Told (some p) U T = T

-- `LDAL_CLASS_MAX` and the numbers behind it are no classes of the library.
abbrev pub is_library : ClassId → Bool
is_library (other n) = false
is_library _ = true

module _ (fuel : ℕ) (calloc : ℕ → Option ℕ) (init : ClassId → Device → Device) where
  -- The structures that later allocations give are not in use, and no two are the same.
  abbrev pub Fresh : List ℕ → Registry → Type 0
  Fresh xs r =
      (n p : ℕ) → r.allocated ≤ n → calloc n ≡ some p → has p (null ∷ device_list ∷ xs) ≡ false

  abbrev pub Apart : Type 0
  Apart = (n k p : ℕ) → calloc n ≡ some p → calloc k ≡ some p → n ≡ k

  -- An entry whose class is of the library and registered, and whose names fit.
  pub record IsEntry (cs : List ℕ) (r : Registry) (t : TableEntry) : Type 0 where
    pub class : ℕ
    pub in_library : is_library t.class_id ≡ true
    pub has_class : find? (is_class r t.class_id) cs ≡ some class
    pub fits : length t.device_name ≤ name_max
    pub fits_file : length t.file_name ≤ filename_max

  -- What creations leave behind: the devices `ys`, at most `n`, registered after those before.
  pub record IsCreated (cs xs : List ℕ) (n : ℕ) (r r' : Registry) : Type 0 where
    pub ys : List ℕ
    pub few : length ys ≤ n
    pub valid : IsValid cs (xs ++ ys) r'
    pub same_ids : r'.class_id ≡ r.class_id
    pub fresh : Fresh (xs ++ ys) r'
    pub kept : (q : ℕ) → has q xs ≡ true → r'.device q ≡ r.device q

  -- A device whose name begins with the text is in the list.
  abbrev pub Finds : List ℕ → Registry → Bytes → Type 0
  Finds xs r name = (q : ℕ) × (find? (is_named r name) xs ≡ some q)

  pub Fresh-append :
      (xs : List ℕ) (r r' : Registry) (p : ℕ)
      → Apart
      → Fresh xs r
      → calloc r.allocated ≡ some p
      → r'.allocated ≡ r.allocated + 1
      → Fresh (xs ++ p ∷ []) r'
  Fresh-append xs r r' p apart fresh given next n q later is =
      let old = fresh n q (omega arith) is in
      let new : (q == p) ≡ false = elim (Bool-cases (q == p)) [
        | inr differ ↦ differ
        | inl same ↦
            let at_p : calloc n ≡ some p = is ∙ ap some ((==_iff q p).0 same) in
            let twice : n ≡ r.allocated = apart n r.allocated p at_p given in absurd (omega arith)
      ] in
      ground (arith, has-append_one q p xs)

  -- No device was registered.
  abbrev pub created_none :
      (cs xs : List ℕ) (n : ℕ) (r r' : Registry)
      → IsValid cs xs r'
      → Fresh xs r
      → r'.class_id ≡ r.class_id
      → r.allocated ≤ r'.allocated
      → ((q : ℕ) → has q xs ≡ true → r'.device q ≡ r.device q)
      → IsCreated cs xs n r r'
  created_none cs xs n r r' v fresh ids more kept = record {
    ys = [];
    few = omega arith;
    valid = subst (λ l. IsValid cs l r') (sym (append-nil xs)) v;
    same_ids = ids;
    fresh =
        subst (λ l. Fresh l r') (sym (append-nil xs)) (λ k q later is. fresh k q (omega arith) is);
    kept = kept;
  }

  -- One creation, whatever memory there is.
  abbrev pub Creates : List ℕ → List ℕ → Registry → Bytes → Outcome (Option ℕ × Registry) → Type 0
  Creates cs xs r name made =
      (res : Option ℕ) × (r' : Registry) × (made ≡ ok (res, r'))
      × ((c : IsCreated cs xs 1 r r') × (r'.allocated ≡ r.allocated + 1)
          × Told res (calloc r.allocated ≡ none) (Finds (xs ++ c.ys) r' name))
