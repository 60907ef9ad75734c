-- ===== src/Registry/Startup.antt =====
-- The constructors of the class files, which `INIT_CLASS_EXPORT` of inc/ldal.h lets run before
-- `main`, and the registry that they leave.
use ldal.Base.{
  ℤ, ℕ, ◌+◌, ◌≤◌, ◌<◌, ◌≡◌, refl, ◌∙◌, ap, ==_iff, pos, inl, inr, Bool-cases, Option-cases, Bool,
  true, false, ◌||◌, Option, some, List, [], ◌∷◌, ◌++◌, arith, ◌==◌, length, length-append,
  ldal_eok,
}
use ldal.Device.{Device}
use ldal.ListHead.{null, Links, update}
use ldal.ListHead.Linked.{has, has-append_one, has_ne}
use ldal.Registry.{
  file, serial, gpio, digital, analog, rtc, udp, tcp, me, misc, backlight, other,
  memory_device_class_register, file_device_class_register, serial_device_class_register,
  gpio_device_class_register, digital_device_class_register, analog_device_class_register,
  rtc_device_class_register, udp_device_class_register, tcp_device_class_register,
  me_device_class_register, misc_device_class_register, backlight_device_class_register, ClassId,
  memory, class_number, class_list, device_list, Registry, Outcome, ok, ◌>>=◌, at, zeroed,
  device_class_register,
}
use ldal.Registry.Lookup.{IsValid, find?, find?-snoc, is_class}
use ldal.Registry.Classes.{class_register-IsValid}
use ldal.Registry.Created.{is_library, Apart}

-- `LIST_HEAD_INIT`
abbrev pub list_head_init : ℕ → Links
list_head_init head = record {
  next = update (λ p. null) head head;
  prev = update (λ p. null) head head;
}

-- The static variables of src/ldal.c before anything ran.
abbrev pub loaded : Registry
loaded = record {
  class_links = list_head_init class_list;
  device_links = list_head_init device_list;
  class_id = λ p. memory;
  device = λ p. zeroed;
  class = λ p. null;
  user_data = λ p. null;
  pos = λ p. pos 0;
  device_num = 0;
  allocated = 0;
}

abbrev pub is_listed : ClassId → List ClassId → Bool
is_listed id [] = false
is_listed id (c ∷ cs) = (class_number c == class_number id) || is_listed id cs

find?-kept :
    (test test' : ℕ → Bool) (xs : List ℕ) (p c : ℕ)
    → ((q : ℕ) → has q xs ≡ true → test' q ≡ test q)
    → find? test xs ≡ some c
    → find? test' (xs ++ p ∷ []) ≡ some c
find?-kept test test' [] p c same h = absurd (ground (arith, h))
find?-kept test test' (x ∷ xs) p c same h =
    ground (arith, same x, find?-kept test test' xs p c (λ q i. same q (ground arith)))

pub loaded-IsValid : IsValid [] [] loaded
loaded-IsValid = record {
  classes = record { linked = (refl, refl); apart = refl; non_null = refl };
  devices = record { linked = (refl, refl); apart = refl; non_null = refl };
  counted = refl;
}

module _ (fuel : ℕ) (calloc : ℕ → Option ℕ) (init : ClassId → Device → Device) where
  -- The constructor of a class; there is none for a number that is no class of the library.
  unfoldable pub construct : ClassId → Registry → Outcome (ℤ × Registry)
  construct memory r = memory_device_class_register fuel calloc init r
  construct file r = file_device_class_register fuel calloc init r
  construct serial r = serial_device_class_register fuel calloc init r
  construct gpio r = gpio_device_class_register fuel calloc init r
  construct digital r = digital_device_class_register fuel calloc init r
  construct analog r = analog_device_class_register fuel calloc init r
  construct rtc r = rtc_device_class_register fuel calloc init r
  construct udp r = udp_device_class_register fuel calloc init r
  construct tcp r = tcp_device_class_register fuel calloc init r
  construct me r = me_device_class_register fuel calloc init r
  construct misc r = misc_device_class_register fuel calloc init r
  construct backlight r = backlight_device_class_register fuel calloc init r
  construct (other n) r = ok (ldal_eok, r)

  construct-device_class_register :
      (id : ClassId) (r : Registry)
      → is_library id ≡ true
      → construct id r ≡ device_class_register fuel calloc init id r
  unfolding construct
  construct-device_class_register id r inside = ground arith

  -- The constructors, in the order in which the program was linked.
  unfoldable pub start_up : List ClassId → Registry → Outcome Registry
  unfolding construct
  start_up [] r = ok r
  start_up (id ∷ ids) r = do (_, r') ← construct id r; start_up ids r'

  abbrev pub InLibrary : List ClassId → Type 0
  InLibrary [] = Unit {0}
  InLibrary (id ∷ ids) = (is_library id ≡ true) × InLibrary ids

  -- The memory that allocations give is not that of the lists.
  abbrev pub IsApart : Type 0
  IsApart = (n p : ℕ) → calloc n ≡ some p → has p (null ∷ class_list ∷ device_list ∷ []) ≡ false

  abbrev pub FreshClasses : List ℕ → Registry → Type 0
  FreshClasses cs r =
      (n p : ℕ) → r.allocated ≤ n → calloc n ≡ some p → has p (null ∷ class_list ∷ cs) ≡ false

  abbrev pub HasClass : ClassId → List ℕ → Registry → Type 0
  HasClass id cs r = (c : ℕ) × (find? (is_class r id) cs ≡ some c)

  -- A well formed registry without devices, and room for more classes.
  pub record IsStarted (cs : List ℕ) (r : Registry) : Type 0 where
    pub valid : IsValid cs [] r
    pub fresh : FreshClasses cs r
    pub count : length cs ≡ r.allocated

  FreshClasses-append :
      (cs : List ℕ) (r r' : Registry) (c : ℕ)
      → Apart fuel calloc init
      → FreshClasses cs r
      → calloc r.allocated ≡ some c
      → r'.allocated ≡ r.allocated + 1
      → FreshClasses (cs ++ c ∷ []) r'
  FreshClasses-append cs r r' c apart fresh given next n p later is =
      let old = fresh n p (omega arith) is in
      let new : (p == c) ≡ false = elim (Bool-cases (p == c)) [
        | inr differ ↦ differ
        | inl same ↦
            let at_c : calloc n ≡ some c = is ∙ ap some ((==_iff p c).0 same) in
            let twice : n ≡ r.allocated = apart n r.allocated c at_c given in absurd (omega arith)
      ] in
      ground (arith, has-append_one p c cs)

  register-IsStarted :
      (cs : List ℕ) (r : Registry) (id : ClassId) (c : ℕ)
      → Apart fuel calloc init
      → IsStarted cs r
      → calloc r.allocated ≡ some c
      → (r' : Registry) × (device_class_register fuel calloc init id r ≡ ok (ldal_eok, r'))
        × IsStarted (cs ++ c ∷ []) r'
        × (r'.class_id ≡ at r.class_id c id)
        × (has c cs ≡ false)
  register-IsStarted cs r id c apart s given =
      let free = s.fresh r.allocated c (omega arith) given in
      let (r', code, v', ids, _, more) =
        class_register-IsValid fuel calloc init s.valid c id given free in
      (
        r',
        code,
        record {
          valid = v';
          fresh = FreshClasses-append cs r r' c apart s.fresh given more;
          count = omega (arith, s.count, more, length-append cs (c ∷ []));
        },
        ids,
        ground (arith, free),
      )

  -- A class that was found before is found after it, and so is the new one.
  HasClass-kept :
      (cs : List ℕ) (r r' : Registry) (id id' : ClassId) (c : ℕ)
      → r'.class_id ≡ at r.class_id c id
      → has c cs ≡ false
      → HasClass id' cs r
      → HasClass id' (cs ++ c ∷ []) r'
  HasClass-kept cs r r' id id' c ids new (q, found) = (
    q,
    find?-kept (is_class r id') (is_class r' id') cs c q
        (λ x on. rw ids (rw (has_ne x c cs on new) refl)) found,
  )

  HasClass-new :
      (cs : List ℕ) (r r' : Registry) (id id' : ClassId) (c : ℕ)
      → r'.class_id ≡ at r.class_id c id
      → has c cs ≡ false
      → (class_number id == class_number id') ≡ true
      → HasClass id' (cs ++ c ∷ []) r'
  HasClass-new cs r r' id id' c ids new same = elim (Option-cases (find? (is_class r id') cs)) [
    | inr (q, found) ↦ HasClass-kept cs r r' id id' c ids new (q, found)
    | inl free ↦ (
      c,
      find?-snoc (is_class r id') (is_class r' id') cs c
          (λ x on. rw ids (rw (has_ne x c cs on new) refl)) free (rw ids (ground (arith, same))),
    )
  ]

  -- Constructors run to their end: what was found is found, and each class of theirs.
  pub record IsRun (ids : List ClassId) (cs : List ℕ) (r : Registry) (cs' : List ℕ) (r' : Registry)
      : Type 0 where
    pub started : IsStarted cs' r'
    pub many : length cs' ≡ length cs + length ids
    pub kept : (id : ClassId) → HasClass id cs r → HasClass id cs' r'
    pub listed : (id : ClassId) → is_listed id ids ≡ true → HasClass id cs' r'

  pub start_up-IsRun :
      (ids : List ClassId) (cs : List ℕ) (r : Registry)
      → Apart fuel calloc init
      → IsStarted cs r
      → InLibrary ids
      → ((n : ℕ) → n < r.allocated + length ids → (c : ℕ) × (calloc n ≡ some c))
      → (r' : Registry) × (cs' : List ℕ) × (start_up ids r ≡ ok r') × IsRun ids cs r cs' r'
  unfolding start_up
  start_up-IsRun [] cs r apart s inside room = (
    r,
    cs,
    refl,
    record {
      started = s;
      many = omega arith;
      kept = λ id h. h;
      listed = λ id on. absurd (ground (arith, on));
    },
  )
  start_up-IsRun (id ∷ ids) cs r apart s (inside, others) room =
      let (c, given) = room r.allocated (omega arith) in
      let (r1, code, s1, same, new) = register-IsStarted cs r id c apart s given in
      let (r', cs', rest, run) =
        start_up-IsRun ids (cs ++ c ∷ []) r1 apart s1 others (λ n below.
          room n (omega (arith, below, s.count, s1.count, length-append cs (c ∷ [])))) in
      (
        r',
        cs',
        rw (construct-device_class_register id r inside, code) rest,
        record {
          started = run.started;
          many = omega (arith, run.many, length-append cs (c ∷ []));
          kept = λ id' h. run.kept id' (HasClass-kept cs r r1 id id' c same new h);
          listed = λ id' on. elim (Bool-cases (class_number id == class_number id')) [
            | inl is ↦ run.kept id' (HasClass-new cs r r1 id id' c same new is)
            | inr differ ↦ run.listed id' (ground (arith, on, differ))
          ];
        },
      )
