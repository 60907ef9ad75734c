-- ===== src/Registry/Ready.antt =====
-- Devices created from a table after the start-up of the library.
use ldal.Base.{ℕ, suc, ◌≤◌, ◌<◌, ◌≡◌, refl, true, Option, some, List, [], ◌∷◌, arith, length}
use ldal.Device.{Device}
use ldal.Registry.{ClassId, name_max, filename_max, Registry, ok}
use ldal.Registry.Enroll.{TableEntry, device_create}
use ldal.Registry.Enrolled.{KeepsName}
use ldal.Registry.Created.{is_library, Fresh, Apart}
use ldal.Registry.Table.{IsTable, Ends, device_create-Ends}
use ldal.Registry.Startup.{
  loaded, loaded-IsValid, is_listed, start_up, IsApart, InLibrary, HasClass, IsStarted,
  start_up-IsRun,
}

module _ (fuel : ℕ) (calloc : ℕ → Option ℕ) (init : ClassId → Device → Device) where
  -- The entries of a table whose classes have a constructor, and whose names fit.
  abbrev pub IsReady : List ClassId → List TableEntry → Type 0
  IsReady order [] = Unit {0}
  IsReady order (t ∷ ts) =
      (is_library t.class_id ≡ true)
      × (is_listed t.class_id order ≡ true)
      × (length t.device_name ≤ name_max)
      × (length t.file_name ≤ filename_max)
      × IsReady order ts

  IsReady-IsTable :
      (order : List ClassId) (cs : List ℕ) (r : Registry) (ts : List TableEntry)
      → ((id : ClassId) → is_listed id order ≡ true → HasClass fuel calloc init id cs r)
      → IsReady order ts
      → IsTable fuel calloc init cs r ts
  IsReady-IsTable order cs r [] listed ready = tt
  IsReady-IsTable order cs r (t ∷ ts) listed (inside, on, fits, fits_file, ready) =
      let (c, found) = listed t.class_id on in
      (
        record {
          class = c;
          in_library = inside;
          has_class = found;
          fits = fits;
          fits_file = fits_file;
        },
        IsReady-IsTable order cs r ts listed ready,
      )

  IsApart-Fresh : (r : Registry) → IsApart fuel calloc init → Fresh fuel calloc init [] r
  IsApart-Fresh r out n p later is = let outside = out n p is in ground arith

  IsApart-IsStarted : IsApart fuel calloc init → IsStarted fuel calloc init [] loaded
  IsApart-IsStarted out = record {
    valid = loaded-IsValid;
    fresh = λ n p later is. let outside = out n p is in ground arith;
    count = refl;
  }

  -- From the static variables on, the constructors of the classes run to their end, in any order,
  -- with memory for each; and a table of at least one entry, whose classes have a constructor and
  -- whose names fit, is then gone through to its end, with success, a structure for each entry and
  -- a device in the list whose name begins with that of the entry, or to the first entry for which
  -- there is no memory. The lists are well formed after it, with one class for each constructor
  -- and at most one device for each entry. The memory that is given is not in use, the fuel is
  -- above the number of constructors and of entries, and `init` operations leave the name and the
  -- count alone.
  pub start_up-device_create :
      (order : List ClassId) (t : TableEntry) (ts : List TableEntry)
      → KeepsName fuel calloc init
      → Apart fuel calloc init
      → IsApart fuel calloc init
      → ((n : ℕ) → n < length order → (c : ℕ) × (calloc n ≡ some c))
      → InLibrary fuel calloc init order
      → IsReady order (t ∷ ts)
      → length order < fuel
      → suc (length ts) < fuel
      → (r : Registry) × (cs : List ℕ) × (start_up fuel calloc init order loaded ≡ ok r)
        × (length cs ≡ length order)
        × Ends fuel calloc init cs [] (t ∷ ts) r (device_create fuel calloc init (t ∷ ts) r)
  start_up-device_create order t ts keeps apart out room inside ready f f' =
      let (r, cs, ran, run) =
        start_up-IsRun fuel calloc init order [] loaded apart (IsApart-IsStarted out) inside
          (λ n below. room n (omega (arith, below))) in
      (
        r,
        cs,
        ran,
        omega (arith, run.many),
        device_create-Ends fuel calloc init t ts keeps apart run.started.valid (IsApart-Fresh r out)
            (IsReady-IsTable order cs r (t ∷ ts) run.listed ready) (omega (arith, run.many))
            (omega arith),
      )
