-- ===== src/ListHead/Ring.antt =====
-- A ring of nodes stands for a list: what `list_add`, `list_add_tail` and `list_del` do to it.
use ldal.Base.{ℕ, ◌≡◌, true, false, some, none, List, [], ◌∷◌, ◌++◌, arith, ◌==◌}
use ldal.ListHead.{null, Links, update, list_add, list_add_tail, list_del, init_list_head}
use ldal.ListHead.Linked.{
  has, distinct, Linked, last, prev-last, has-last, has-append_one, distinct-append_one, spliced,
  Linked-snoc, Linked-frame, next_non_null, Linked-cons, erase, has-erase, distinct-erase, has-prev,
  has-next, deleted, Linked-erase, has_ne,
}

-- The list at `head` holds the nodes `xs`, in order: they are distinct, and none is NULL or `head`.
pub record IsRing (l : Links) (head : ℕ) (xs : List ℕ) : Type 0 where
  pub linked : Linked l head xs head
  pub apart : distinct (head ∷ xs) ≡ true
  pub non_null : has null (head ∷ xs) ≡ false

-- A node whose pointers are NULL cannot be deleted.
pub list_del-unlinked : (x : ℕ) (l : Links) → l.next x ≡ null → list_del x l ≡ none
unfolding list_del
list_del-unlinked x l h = ground arith

module _ (l : Links) (head : ℕ) (xs : List ℕ) (r : IsRing l head xs) where
  -- Adding a node that is not in a well formed list, not its head and not NULL at the end appends
  -- it, nothing is accessed through NULL, and the list stays well formed.
  pub list_add_tail-append :
      (new : ℕ)
      → has new (null ∷ head ∷ xs) ≡ false
      → (l' : Links) × (list_add_tail new head l ≡ some l') × IsRing l' head (xs ++ new ∷ [])
  unfolding list_add_tail
  list_add_tail-append new fresh =
      let at : l.prev head ≡ last head xs = prev-last l head head xs r.linked in
      let on : has (last head xs) (head ∷ xs) ≡ true = has-last head xs in
      let ok : (last head xs == null) ≡ false = has_ne _ _ (head ∷ xs) on r.non_null in
      let apart : distinct (head ∷ xs) ≡ true = r.apart in
      let outside : has head xs ≡ false = ground arith in
      (
        spliced l (last head xs) new head,
        rw at (ground arith),
        record {
          linked =
              Linked-snoc l head head new xs r.linked r.apart outside (ground arith) (ground arith);
          apart = distinct-append_one new (head ∷ xs) r.apart (ground arith);
          non_null = ground (arith, has-append_one null new (head ∷ xs));
        },
      )

  -- Adding a node that is not in a well formed list, not its head and not NULL at the front puts
  -- it first, nothing is accessed through NULL, and the list stays well formed.
  pub list_add-cons :
      (new : ℕ)
      → has new (null ∷ head ∷ xs) ≡ false
      → (l' : Links) × (list_add new head l ≡ some l') × IsRing l' head (new ∷ xs)
  unfolding list_add
  list_add-cons new fresh =
      let ok : (l.next head == null) ≡ false = next_non_null l head head xs r.linked r.non_null in
      (
        spliced l head new (l.next head),
        ground arith,
        record {
          linked =
              Linked-cons l head head new xs r.linked r.apart (ground arith) (ground arith)
                (ground arith);
          apart = ground arith;
          non_null = ground arith;
        },
      )

  -- Initialising a node that is not in the list leaves the list as it is.
  pub init_list_head-IsRing :
      (p : ℕ)
      → has p (null ∷ head ∷ xs) ≡ false
      → (l' : Links) × (init_list_head p l ≡ some l') × IsRing l' head xs
  unfolding init_list_head
  init_list_head-IsRing p fresh =
      let l' : Links = record { next = update l.next p p; prev = update l.prev p p } in
      (
        l',
        ground arith,
        record {
          linked =
              Linked-frame l l' head head xs r.linked
                (λ y i. ground (arith, has_ne y p (head ∷ xs)))
                (λ y i. ground (arith, has_ne y p (head ∷ xs)));
          apart = r.apart;
          non_null = r.non_null;
        },
      )

  -- Deleting a node of a well formed list removes it, keeps the order of the others, leaves NULL
  -- in its own two pointers, and accesses nothing through NULL.
  pub list_del-erase :
      (x : ℕ)
      → has x xs ≡ true
      → (l' : Links) × (list_del x l ≡ some l')
        × IsRing l' head (erase x xs)
        × (l'.next x ≡ null)
        × (l'.prev x ≡ null)
  unfolding list_del
  list_del-erase x i =
      let p : (l.prev x == null) ≡ false =
        has_ne _ _ (head ∷ xs) (has-prev l head head x xs r.linked i) r.non_null in
      let n : (l.next x == null) ≡ false =
        has_ne _ _ (head ∷ xs) (ground (arith, has-next l head head x xs r.linked)) r.non_null in
      let ok : (x == null) ≡ false = has_ne x null xs i (ground arith) in
      (
        deleted l (l.prev x) (l.next x) x,
        ground arith,
        record {
          linked = Linked-erase l head head x xs r.linked r.apart (ground arith) i;
          apart = ground (arith, distinct-erase x xs, has-erase head x xs);
          non_null = ground (arith, has-erase null x xs);
        },
        ground arith,
        ground arith,
      )

  -- A node of a well formed list that was deleted cannot be deleted again: the second time goes
  -- through NULL.
  pub list_del-list_del :
      (x : ℕ) (l' : Links) → has x xs ≡ true → list_del x l ≡ some l' → list_del x l' ≡ none
  list_del-list_del x l' i e =
      let (m, code, ring, next_null, prev_null) = list_del-erase x i in
      let same : m ≡ l' = cc code in list_del-unlinked x l' (rw (← same) next_null)
