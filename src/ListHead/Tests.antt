-- ===== src/ListHead/Tests.antt =====
-- Lists of nodes on concrete addresses.
use ldal.Base.{◌≡◌, refl, some, [], ◌∷◌, ◌==◌, arith, if◌then◌else◌}
use ldal.ListHead.{null, Links, list_add_tail, list_del, find_entry, update, entry}
use ldal.ListHead.Ring.{IsRing, list_add_tail-append, list_del-erase}
use ldal.ListHead.Walk.{find_entry-first}

-- The list at 1 holds 5 and 7.
abbrev pair : Links
pair = record {
  next = λ q. if q == 1 then 5 else if q == 5 then 7 else if q == 7 then 1 else null;
  prev = λ q. if q == 1 then 7 else if q == 5 then 1 else if q == 7 then 5 else null;
}

pair-IsRing : IsRing pair 1 (5 ∷ 7 ∷ [])
pair-IsRing = record {
  linked = (refl, refl, (refl, refl, (refl, refl)));
  apart = refl;
  non_null = refl;
}

list_add_tail-append_example :
    (l' : Links) × (list_add_tail 9 1 pair ≡ some l') × IsRing l' 1 (5 ∷ 7 ∷ 9 ∷ [])
list_add_tail-append_example = list_add_tail-append pair 1 (5 ∷ 7 ∷ []) pair-IsRing 9 refl

list_del-erase_example :
    (l' : Links) × (list_del 5 pair ≡ some l')
    × IsRing l' 1 (7 ∷ [])
    × (l'.next 5 ≡ null)
    × (l'.prev 5 ≡ null)
list_del-erase_example = list_del-erase pair 1 (5 ∷ 7 ∷ []) pair-IsRing 5 refl

abbrev one_left : Links
one_left = record {
  next = update (update pair.next 1 7) 5 null;
  prev = update (update pair.prev 7 1) 5 null;
}

find_entry-first_example : find_entry 3 (λ p. p == 7) 1 pair ≡ entry 7
find_entry-first_example =
    find_entry-first 3 (λ p. p == 7) pair 1 (5 ∷ 7 ∷ []) pair-IsRing (omega arith)
