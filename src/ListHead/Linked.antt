-- ===== src/ListHead/Linked.antt =====
-- Chains of nodes in a store of links: what the updates of inc/list.h do to them.
use ldal.Base.{
  ℕ, ◌≡◌, refl, inl, inr, Bool, true, false, ◌||◌, ◌&&◌, not, List, [], ◌∷◌, ◌++◌, arith, ◌==◌,
  if◌then◌else◌, Bool-cases, suc, length,
}
use ldal.ListHead.{null, Links, update}

abbrev pub has : ℕ → List ℕ → Bool
has a [] = false
has a (x ∷ xs) = (a == x) || has a xs

abbrev pub distinct : List ℕ → Bool
distinct [] = true
distinct (x ∷ xs) = not (has x xs) && distinct xs

-- From `a` the `next` pointers lead through `xs` to `b`, and the `prev` pointers lead back.
abbrev pub Linked : Links → ℕ → List ℕ → ℕ → Type 0
Linked l a [] b = (l.next a ≡ b) × (l.prev b ≡ a)
Linked l a (x ∷ xs) b = (l.next a ≡ x) × (l.prev x ≡ a) × Linked l x xs b

abbrev pub last : ℕ → List ℕ → ℕ
last a [] = a
last a (x ∷ xs) = last x xs

pub prev-last : (l : Links) (a b : ℕ) (xs : List ℕ) → Linked l a xs b → l.prev b ≡ last a xs
prev-last l a b [] h = h.1
prev-last l a b (x ∷ xs) h = prev-last l x b xs h.2

pub has-last : (a : ℕ) (xs : List ℕ) → has (last a xs) (a ∷ xs) ≡ true
has-last a [] = ground arith
has-last a (x ∷ xs) = ground (arith, has-last x xs)

pub has-append_one : (y x : ℕ) (xs : List ℕ) → has y (xs ++ x ∷ []) ≡ (has y xs || (y == x))
has-append_one y x [] = ground arith
has-append_one y x (z ∷ xs) = ground (arith, has-append_one y x xs)

pub distinct-append_one :
    (x : ℕ) (xs : List ℕ) → distinct xs ≡ true → has x xs ≡ false → distinct (xs ++ x ∷ []) ≡ true
distinct-append_one x [] d n = refl
distinct-append_one x (z ∷ xs) d n = ground (arith, distinct-append_one x xs, has-append_one z x xs)

-- `new` put behind `at`, before `b`.
abbrev pub spliced : Links → (at new b : ℕ) → Links
spliced l at new b = record {
  next = update (update l.next new b) at new;
  prev = update (update l.prev b new) new at;
}

pub Linked-snoc :
    (l : Links) (a b new : ℕ) (xs : List ℕ)
    → Linked l a xs b
    → distinct (a ∷ xs) ≡ true
    → has b xs ≡ false
    → has new (a ∷ xs) ≡ false
    → (new == b) ≡ false
    → Linked (spliced l (last a xs) new b) a (xs ++ new ∷ []) b
Linked-snoc l a b new [] h d nb nn ne = ground arith
Linked-snoc l a b new (x ∷ xs) h d nb nn ne =
    let step = Linked-snoc l x b new xs h.2 (ground arith) (ground arith) (ground arith) ne in
    (ground (arith, has-last x xs), ground arith, step)

pub Linked-frame :
    (l l' : Links) (a b : ℕ) (xs : List ℕ)
    → Linked l a xs b
    → ((y : ℕ) → has y (a ∷ xs) ≡ true → l'.next y ≡ l.next y)
    → ((y : ℕ) → (has y xs || (y == b)) ≡ true → l'.prev y ≡ l.prev y)
    → Linked l' a xs b
Linked-frame l l' a b [] h n p = ground (arith, n a, p b)
Linked-frame l l' a b (x ∷ xs) h n p = (
  ground (arith, n a),
  ground (arith, p x),
  Linked-frame l l' x b xs h.2 (λ y i. n y (ground arith)) (λ y i. p y (ground arith)),
)

pub next_non_null :
    (l : Links) (a b : ℕ) (xs : List ℕ)
    → Linked l a xs b
    → has null (b ∷ xs) ≡ false
    → (l.next a == null) ≡ false
next_non_null l a b [] h n = ground arith
next_non_null l a b (x ∷ xs) h n = ground arith

pub Linked-cons :
    (l : Links) (a b new : ℕ) (xs : List ℕ)
    → Linked l a xs b
    → distinct (a ∷ xs) ≡ true
    → has b xs ≡ false
    → has new (a ∷ xs) ≡ false
    → (new == b) ≡ false
    → Linked (spliced l a new (l.next a)) a (new ∷ xs) b
Linked-cons l a b new [] h d nb nn ne = ground arith
Linked-cons l a b new (x ∷ xs) h d nb nn ne =
    let rest =
      Linked-frame l (spliced l a new (l.next a)) x b xs h.2 (λ y i. ground arith)
        (λ y i. ground arith) in
    (ground arith, ground arith, (ground arith, ground arith, rest))

abbrev pub erase : ℕ → List ℕ → List ℕ
erase x [] = []
erase x (y ∷ xs) = if y == x then xs else y ∷ erase x xs

pub has-erase : (y x : ℕ) (xs : List ℕ) → has y xs ≡ false → has y (erase x xs) ≡ false
has-erase y x [] h = refl
has-erase y x (z ∷ xs) h = ground (arith, has-erase y x xs)

pub distinct-erase : (x : ℕ) (xs : List ℕ) → distinct xs ≡ true → distinct (erase x xs) ≡ true
distinct-erase x [] d = refl
distinct-erase x (z ∷ xs) d = ground (arith, distinct-erase x xs, has-erase z x xs)

pub has-prev :
    (l : Links) (a b x : ℕ) (xs : List ℕ)
    → Linked l a xs b
    → has x xs ≡ true
    → has (l.prev x) (a ∷ xs) ≡ true
has-prev l a b x [] h i = ground arith
has-prev l a b x (z ∷ xs) h i = ground (arith, has-prev l z b x xs h.2)

pub has-next :
    (l : Links) (a b x : ℕ) (xs : List ℕ)
    → Linked l a xs b
    → has x xs ≡ true
    → (has (l.next x) xs || (l.next x == b)) ≡ true
has-next l a b x [] h i = ground arith
has-next l a b x (z ∷ []) h i = ground arith
has-next l a b x (z ∷ w ∷ xs) h i = ground (arith, has-next l z b x (w ∷ xs) h.2)

-- The links when `x` is taken out between `p` and `n`.
abbrev pub deleted : Links → (p n x : ℕ) → Links
deleted l p n x = record {
  next = update (update l.next p n) x null;
  prev = update (update l.prev n p) x null;
}

Linked-erase_head :
    (l : Links) (a b x : ℕ) (zs : List ℕ)
    → Linked l a (x ∷ zs) b
    → distinct (a ∷ x ∷ zs) ≡ true
    → has b (x ∷ zs) ≡ false
    → Linked (deleted l (l.prev x) (l.next x) x) a zs b
Linked-erase_head l a b x [] h d nb = ground arith
Linked-erase_head l a b x (w ∷ ws) h d nb = (
  ground arith,
  ground arith,
  Linked-frame l (deleted l (l.prev x) (l.next x) x) w b ws h.2.2 (λ y i. ground arith)
      (λ y i. ground arith),
)

pub Linked-erase :
    (l : Links) (a b x : ℕ) (xs : List ℕ)
    → Linked l a xs b
    → distinct (a ∷ xs) ≡ true
    → has b xs ≡ false
    → has x xs ≡ true
    → Linked (deleted l (l.prev x) (l.next x) x) a (erase x xs) b
Linked-erase l a b x [] h d nb i = ground arith
Linked-erase l a b x (z ∷ zs) h d nb i = elim (Bool-cases (z == x)) [
  | inl e ↦
      let same : z ≡ x = ground arith in rw e (rw (← same) (Linked-erase_head l a b z zs h d nb))
  | inr ne ↦
      let step = Linked-erase l z b x zs h.2 (ground arith) (ground arith) (ground arith) in
      rw ne (ground (arith, has-prev l z b x zs h.2), ground (arith, has-next l z b x zs h.2), step)
]

pub has_ne : (a b : ℕ) (xs : List ℕ) → has a xs ≡ true → has b xs ≡ false → (a == b) ≡ false
has_ne a b [] i n = ground arith
has_ne a b (x ∷ xs) i n = ground (arith, has_ne a b xs)

head_apart : (a : ℕ) (xs : List ℕ) → distinct (a ∷ xs) ≡ true → has a xs ≡ false
head_apart a xs d = ground arith

pub length-erase : (x : ℕ) (xs : List ℕ) → has x xs ≡ true → suc (length (erase x xs)) ≡ length xs
length-erase x [] i = ground arith
length-erase x (y ∷ xs) i = ground (arith, length-erase x xs)
