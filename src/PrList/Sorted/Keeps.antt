-- ===== src/PrList/Sorted/Keeps.antt =====
-- The sorted insertions as a whole: `pr_list_prepend_sorted`, `pr_list_append_sorted` and their
-- versions for strings.
use procenv.Prelude.{ℕ, ◌<◌, ◌≡◌, List, [], ◌∷◌, reverse, append-nil, true, Outcome, length}
use procenv.PrList.{
  Ptr, Heap, is_node, PrListCmp, pr_list_add_sorted_internal, pr_list_prepend_sorted,
  pr_list_append_sorted,
}
use procenv.PrList.Ring.{count, Ring, Ring-head, is_node-ne_null}
use procenv.PrList.Insert.{Inserted, first-next}
use procenv.PrList.Sorted.{
  Order, Decides, IsAsymmetric, IsSorted, insert, insert-IsSorted, count-insert,
}
use procenv.PrList.Sorted.Loop.{forwards, backwards, prev_of_head}

-- The ring afterwards, read in the direction of `turn`, is sorted, and holds `e` besides what it
-- held.
abbrev pub KeepsSorted :
    Order → Heap → Ptr → Ptr → List Ptr → (List Ptr → List Ptr) → Outcome (Ptr × Heap) → Type 0
KeepsSorted c h p e xs turn out =
    (ys : List Ptr) × Inserted h p e (turn ys) out
    × IsSorted c h.payload ys
    × ((q : Ptr) → count q ys ≡ count q (e ∷ xs))

module _ {h : Heap} {p : Ptr} (cmp : PrListCmp) (c : Order) (decides : Decides cmp c)
    (asym : IsAsymmetric c) (e : Ptr) (xs : List Ptr) (fuel : ℕ) (le : is_node h e ≡ true)
    (enough : length xs < fuel) where
  -- `pr_list_prepend_sorted` on a list that is sorted from front to back keeps it sorted, loses no
  -- entry, and ends when the fuel exceeds the number of entries. The comparison looks at the data
  -- alone, and never says of two data that each is less than the other.
  pub prepend_sorted-KeepsSorted :
      Ring h p xs
      → count e (p ∷ xs) ≡ 0
      → IsSorted c h.payload xs
      → KeepsSorted c h p e xs (λ ys. ys) (pr_list_prepend_sorted fuel p e cmp h)
  unfolding pr_list_prepend_sorted pr_list_add_sorted_internal
  prepend_sorted-KeepsSorted r out s = (
    insert c h.payload e xs,
    rw (is_node-ne_null h p (Ring-head r), is_node-ne_null h e le, Ring-head r, first-next xs r)
        (forwards h p cmp c decides e le fuel [] xs r out enough),
    insert-IsSorted c h.payload asym e xs s,
    λ q. count-insert c h.payload q e xs,
  )

  -- `pr_list_append_sorted` on a list that is sorted from back to front keeps it so, loses no
  -- entry, and ends when the fuel exceeds the number of entries. The comparison looks at the data
  -- alone, and never says of two data that each is less than the other.
  pub append_sorted-KeepsSorted :
      Ring h p (reverse xs)
      → count e (p ∷ reverse xs) ≡ 0
      → IsSorted c h.payload xs
      → KeepsSorted c h p e xs reverse (pr_list_append_sorted fuel p e cmp h)
  unfolding pr_list_append_sorted pr_list_add_sorted_internal
  append_sorted-KeepsSorted r out s = (
    insert c h.payload e xs,
    rw
        (
          is_node-ne_null h p (Ring-head r),
          is_node-ne_null h e le,
          Ring-head r,
          prev_of_head xs r,
          ← append-nil (reverse (insert c h.payload e xs)),
        )
        (backwards h p cmp c decides e le fuel xs [] (rw append-nil r) (rw append-nil out) enough),
    insert-IsSorted c h.payload asym e xs s,
    λ q. count-insert c h.payload q e xs,
  )
