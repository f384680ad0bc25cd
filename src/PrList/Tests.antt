-- ===== src/PrList/Tests.antt =====
-- Runs of src/pr_list.c on small heaps.
use procenv.Prelude.{
  ℕ, ◌≡◌, ◌≢◌, refl, ◌||◌, ◌==◌, if◌then◌else◌, none, some, List, [], ◌∷◌, ◌++◌, arith, ok, reverse,
}
use procenv.PrList.{
  Ptr, Heap, PrListVisitor, pr_list_append, pr_list_prepend, pr_list_append_str, strcmp, cmp_data,
  pr_list_cmp_str, pr_list_prepend_sorted, pr_list_append_sorted, pr_list_remove,
  pr_list_foreach_visit,
}
use procenv.PrList.Ring.{Ring}
use procenv.PrList.Insert.{Inserted, append-Ring, prepend-Ring}
use procenv.PrList.Remove.{Removed, remove-inner}
use procenv.PrList.Strings.{Added, append_str-Ring}
use procenv.PrList.Sorted.{cmp_data-IsAsymmetric, pr_list_cmp_str-Decides}
use procenv.PrList.Sorted.Keeps.{KeepsSorted, prepend_sorted-KeepsSorted, append_sorted-KeepsSorted}
use procenv.PrList.Visit.{visit_all, KeepsLinks, foreach_visit_lem}

-- A list with its head at 1 and the strings "b" at 2 and "d" at 3, and a node at 4 that holds "c".
abbrev small_heap : Heap
small_heap = record {
  live = λ q. q == 1 || (q == 2 || (q == 3 || q == 4));
  payload = λ q.
      if q == 2
      then some (b'b' ∷ [])
      else if q == 3
      then some (b'd' ∷ [])
      else if q == 4
      then some (b'c' ∷ [])
      else none;
  next = λ q. if q == 1 then 2 else if q == 2 then 3 else if q == 3 then 1 else q;
  prev = λ q. if q == 1 then 3 else if q == 2 then 1 else if q == 3 then 2 else q;
}

abbrev others : List Ptr
others = 2 ∷ 3 ∷ []

small-Ring : Ring small_heap 1 others
small-Ring = record {
  links = (refl, refl, (refl, refl, (refl, refl)));
  distinct = λ q. ground arith;
  alive = λ q m. ground arith;
}

-- The list at 1 with nothing else in it, and the same list read backwards.
abbrev back_heap : Heap
back_heap = record small_heap {
  next = λ q. if q == 1 then 3 else if q == 3 then 2 else if q == 2 then 1 else q;
  prev = λ q. if q == 1 then 2 else if q == 2 then 3 else if q == 3 then 1 else q;
}

back-Ring : Ring back_heap 1 (reverse others)
back-Ring = record {
  links = (refl, refl, (refl, refl, (refl, refl)));
  distinct = λ q. ground arith;
  alive = λ q m. ground arith;
}

ne-null : ◌≢◌ {A = ℕ} 5 0
ne-null = omega arith

append-Ring_example : Inserted small_heap 1 4 (4 ∷ others) (pr_list_append 1 4 small_heap)
append-Ring_example = append-Ring 4 others small-Ring refl refl

prepend-Ring_example : Inserted small_heap 1 4 (others ++ 4 ∷ []) (pr_list_prepend 1 4 small_heap)
prepend-Ring_example = prepend-Ring 4 others small-Ring refl refl

remove-inner_example : Removed small_heap 1 2 (3 ∷ []) (pr_list_remove 2 small_heap)
remove-inner_example = remove-inner 2 [] (3 ∷ []) small-Ring

append_str-Ring_example :
    Added small_heap 1 5
      (b'x' ∷ b'y' ∷ [])
      (5 ∷ others)
      (pr_list_append_str 5 1 (b'x' ∷ b'y' ∷ []) small_heap)
append_str-Ring_example =
    append_str-Ring 5 others small-Ring ne-null refl (b'x' ∷ b'y' ∷ []) (omega arith)

prepend_sorted_example :
    KeepsSorted cmp_data small_heap 1 4 others
      (λ ys. ys)
      (pr_list_prepend_sorted 3 1 4 pr_list_cmp_str small_heap)
unfolding cmp_data strcmp
prepend_sorted_example =
    prepend_sorted-KeepsSorted pr_list_cmp_str cmp_data pr_list_cmp_str-Decides
      cmp_data-IsAsymmetric 4 others 3 refl (omega arith) small-Ring refl (refl, tt)

append_sorted_example :
    KeepsSorted cmp_data back_heap 1 4 others reverse
      (pr_list_append_sorted 3 1 4 pr_list_cmp_str back_heap)
unfolding cmp_data strcmp
append_sorted_example =
    append_sorted-KeepsSorted pr_list_cmp_str cmp_data pr_list_cmp_str-Decides cmp_data-IsAsymmetric
      4 others 3 refl (omega arith) back-Ring refl (refl, tt)

-- A visitor that replaces the data of a node.
abbrev blank : PrListVisitor
blank p h = ok (tt, record h { payload = λ q. if q == p then none else h.payload q })

blank-KeepsLinks : KeepsLinks (some blank)
blank-KeepsLinks p h =
    (record h { payload = λ q. if q == p then none else h.payload q }, refl, refl, refl, refl)

foreach_visit_example :
    pr_list_foreach_visit 3 1 (some blank) small_heap
    ≡ visit_all (some blank) (1 ∷ others) small_heap
foreach_visit_example =
    foreach_visit_lem (some blank) blank-KeepsLinks 1 3 small_heap others small-Ring (omega arith)
