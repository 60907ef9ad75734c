-- ===== src/ListHead/Walk.antt =====
-- `list_for_each_entry` over a ring visits its nodes in order, and ends.
use ldal.Base.{ℕ, zero, suc, ◌<◌, ◌≡◌, Bool, false, List, [], ◌∷◌, arith, if◌then◌else◌, length}
use ldal.ListHead.{null, Links, Found, entry, not_found, walk, find_entry}
use ldal.ListHead.Linked.{has, Linked}
use ldal.ListHead.Ring.{IsRing}

-- The first node that passes the test.
abbrev pub first : (ℕ → Bool) → List ℕ → Found
first test [] = not_found
first test (x ∷ xs) = if test x then entry x else first test xs

walk-first :
    (fuel : ℕ) (test : ℕ → Bool) (l : Links) (a head : ℕ) (xs : List ℕ)
    → Linked l a xs head
    → has head xs ≡ false
    → has null xs ≡ false
    → length xs < fuel
    → walk fuel test head (l.next a) l ≡ first test xs
unfolding walk
walk-first zero test l a head xs h out ok f = absurd (omega arith)
walk-first (suc fuel) test l a head [] h out ok f = ground arith
walk-first (suc fuel) test l a head (x ∷ xs) h out ok f =
    ground (arith, walk-first fuel test l x head xs h.2)

-- A search of a well formed list ends at the first node that passes the test, or finds none, with
-- fuel above the number of nodes.
pub find_entry-first :
    (fuel : ℕ) (test : ℕ → Bool) (l : Links) (head : ℕ) (xs : List ℕ)
    → IsRing l head xs
    → length xs < fuel
    → find_entry fuel test head l ≡ first test xs
unfolding find_entry
find_entry-first fuel test l head xs r f =
    walk-first fuel test l head head xs r.linked (ground arith) (ground arith) f
