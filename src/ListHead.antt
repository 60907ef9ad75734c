-- ===== src/ListHead.antt =====
-- inc/list.h: circular doubly linked lists of `struct list_head`. A node is known by the address of
-- the structure that holds it, so `container_of` is the identity. Every address but NULL holds one.
pub mod Linked
pub mod Ring
pub mod Walk
mod Tests
use ldal.Base.{ℕ, zero, suc, Bool, Option, none, some, ◌==◌, if◌then◌else◌}

abbrev pub null : ℕ
null = 0

pub record Links : Type 0 where
  pub next : ℕ → ℕ
  pub prev : ℕ → ℕ

abbrev pub update : (ℕ → ℕ) → ℕ → ℕ → ℕ → ℕ
update f p v q = if q == p then v else f q

-- `none` is a write or a read through NULL.
infixl 5 ◌>>=◌
abbrev pub ◌>>=◌ : {A B : Type 0} → Option A → (A → Option B) → Option B
none >>= k = none
some a >>= k = k a

abbrev pub set_next : ℕ → ℕ → Links → Option Links
set_next p v l = if p == null then none else some (record l { next = update l.next p v })

abbrev pub set_prev : ℕ → ℕ → Links → Option Links
set_prev p v l = if p == null then none else some (record l { prev = update l.prev p v })

abbrev pub get_next : ℕ → Links → Option ℕ
get_next p l = if p == null then none else some (l.next p)

abbrev pub get_prev : ℕ → Links → Option ℕ
get_prev p l = if p == null then none else some (l.prev p)

-- `INIT_LIST_HEAD`
pub init_list_head : ℕ → Links → Option Links
init_list_head list l = do l ← set_next list list l; set_prev list list l

-- `__list_add`
list_add_between : (new prev next : ℕ) → Links → Option Links
list_add_between new prev next l = do
  l ← set_prev next new l
  l ← set_next new next l
  l ← set_prev new prev l
  set_next prev new l

-- `list_add`: to the front.
pub list_add : (new head : ℕ) → Links → Option Links
unfolding list_add_between
list_add new head l = do next ← get_next head l; list_add_between new head next l

-- `list_add_tail`: to the end.
pub list_add_tail : (new head : ℕ) → Links → Option Links
unfolding list_add_between
list_add_tail new head l = do prev ← get_prev head l; list_add_between new prev head l

pub list_empty : ℕ → Links → Option Bool
list_empty head l = do next ← get_next head l; some (next == head)

-- `__list_del`
list_del_between : (prev next : ℕ) → Links → Option Links
list_del_between prev next l = do l ← set_prev next prev l; set_next prev next l

pub list_del : ℕ → Links → Option Links
unfolding list_del_between
list_del entry l = do
  prev ← get_prev entry l
  next ← get_next entry l
  l ← list_del_between prev next l
  l ← set_next entry null l
  set_prev entry null l

-- How a search by `list_for_each_entry` ends.
pub data Found : Type 0 where
  entry : ℕ → Found
  not_found : Found
  null_entry : Found
  out_of_fuel : Found

-- `for (pos = first; pos != head; pos = pos->next) if (test(pos)) return pos;`
pub walk : ℕ → (ℕ → Bool) → (head pos : ℕ) → Links → Found
walk zero test head pos l = out_of_fuel
walk (suc fuel) test head pos l =
    let rest = walk fuel test head (l.next pos) l in
    if pos == head
    then not_found
    else if pos == null
    then null_entry
    else if test pos
    then entry pos
    else rest

-- `list_for_each_entry(pos, head, list) if (test(pos)) return pos;`
pub find_entry : ℕ → (ℕ → Bool) → (head : ℕ) → Links → Found
unfolding walk
find_entry fuel test head l = walk fuel test head (l.next head) l
