-- ===== src/PrList/Sorted/Loop.antt =====
-- The loop of `pr_list_add_sorted_internal`, forwards and backwards.
use procenv.Prelude.{
  ℕ, zero, suc, ◌<◌, ◌≡◌, Bool, List, [], ◌∷◌, ◌++◌, reverse, reverse-cons, append_assoc,
  append-nil, true, false, arith, ok, ◌==◌, ==-self, is_negative, ℤ, if◌then◌else◌, length,
  Bool-cases, inl, inr,
}
use procenv.PrList.{Ptr, Heap, is_node, PrListCmp, pr_list_append, pr_list_prepend, add_sorted_loop}
use procenv.PrList.Ring.{count, count-append, Ring, Ring-rotate}
use procenv.PrList.Insert.{
  Inserted, append-Ring, prepend-Ring, first, prepend_inside, append_inside,
}
use procenv.PrList.Sorted.{Order, Decides, insert}

module _ {h : Heap} {p : Ptr} where
  pub apart : (x : Ptr) (us vs : List Ptr) → Ring h p (us ++ x ∷ vs) → (x == p) ≡ false
  apart x us vs r = ground (arith, r.distinct p, count-append p us (x ∷ vs))

  pub inside : (x : Ptr) (us vs : List Ptr) → Ring h p (us ++ x ∷ vs) → is_node h x ≡ true
  inside x us vs r = r.alive x (ground (arith, count-append x us (x ∷ vs)))

  pub next_in : (x : Ptr) (us vs : List Ptr) → Ring h p (us ++ x ∷ vs) → h.next x ≡ first vs p
  next_in x us [] r = (Ring-rotate p x us [] r).links.0
  next_in x us (v ∷ vs) r = (Ring-rotate p x us (v ∷ vs) r).links.0

  pub prev_of_head : (rs : List Ptr) → Ring h p (reverse rs) → h.prev p ≡ first rs p
  prev_of_head [] r = r.links.1
  prev_of_head (y ∷ rs) r =
      let turned : Ring h p (reverse rs ++ y ∷ []) = rw reverse-cons at r in
      (Ring-rotate p y (reverse rs) [] turned).links.1

  -- `rs` is what stands before `x`, backwards.
  pub prev_in :
      (x : Ptr) (rs vs : List Ptr) → Ring h p (reverse rs ++ x ∷ vs) → h.prev x ≡ first rs p
  prev_in x [] vs r = r.links.1
  prev_in x (y ∷ rs) vs r =
      let turned : Ring h p (reverse rs ++ y ∷ x ∷ vs) = rw (reverse-cons, append_assoc) at r in
      (Ring-rotate p y (reverse rs) (x ∷ vs) turned).links.1

-- One round of the loop: at the end of the ring, at the place found, and on to the next node.
module _ (n : ℕ) (p e : Ptr) (cmp : PrListCmp) (forth : Bool) (h : Heap) where
  loop_end :
      add_sorted_loop (suc n) p e cmp forth p h
      ≡ (if forth then pr_list_prepend p e else pr_list_append p e) h
  unfolding add_sorted_loop
  loop_end = rw ==-self

  module _ (x : Ptr) (k : ℤ) (ne : (x == p) ≡ false) (c : cmp e x h ≡ ok (k, h)) where
    loop_found :
        is_negative k ≡ true
        → add_sorted_loop (suc n) p e cmp forth x h
          ≡ (if forth then pr_list_prepend x e else pr_list_append x e) h
    unfolding add_sorted_loop
    loop_found less = rw (ne, c, less)

    loop_on :
        is_negative k ≡ false
        → is_node h x ≡ true
        → add_sorted_loop (suc n) p e cmp forth x h
          ≡ add_sorted_loop n p e cmp forth (if forth then h.next x else h.prev x) h
    unfolding add_sorted_loop
    loop_on more lx = elim (Bool-cases forth) [
      | inl yes' ↦ rw (ne, c, more, yes', lx)
      | inr no' ↦ rw (ne, c, more, no', lx)
    ]

module _ (h : Heap) (p : Ptr) (cmp : PrListCmp) (c : Order) (decides : Decides cmp c) (e : Ptr)
    (le : is_node h e ≡ true) where
  -- With fuel for the nodes left, the loop forwards inserts where `insert` does.
  pub forwards :
      (fuel : ℕ) (us vs : List Ptr)
      → Ring h p (us ++ vs)
      → count e (p ∷ (us ++ vs)) ≡ 0
      → length vs < fuel
      → Inserted h p e
          (us ++ insert c h.payload e vs)
          (add_sorted_loop fuel p e cmp true (first vs p) h)
  unfolding insert
  forwards zero us vs r out fuel = absurd (omega arith)
  forwards (suc n) us [] r out fuel =
      rw loop_end (prepend-Ring e us (rw append-nil at r) le (rw append-nil at out))
  forwards (suc n) us (x ∷ vs) r out fuel =
      let lx = inside x us vs r in
      elim (Bool-cases (is_negative (c (h.payload e) (h.payload x)))) [
        | inl less ↦
            rw (loop_found n p e cmp true h x _ (apart x us vs r) (decides e x h le lx) less, less)
              (prepend_inside h p e x us vs r le out)
        | inr more ↦
            rw
              (
                loop_on n p e cmp true h x _ (apart x us vs r) (decides e x h le lx) more lx,
                more,
                next_in x us vs r,
              )
              (rw append_assoc at (
                forwards n (us ++ x ∷ []) vs (rw append_assoc r) (rw append_assoc out)
                  (omega arith)))
      ]

  -- The same backwards, where `rs` are the nodes left in the order of `prev`.
  pub backwards :
      (fuel : ℕ) (rs vs : List Ptr)
      → Ring h p (reverse rs ++ vs)
      → count e (p ∷ (reverse rs ++ vs)) ≡ 0
      → length rs < fuel
      → Inserted h p e
          (reverse (insert c h.payload e rs) ++ vs)
          (add_sorted_loop fuel p e cmp false (first rs p) h)
  unfolding insert
  backwards zero rs vs r out fuel = absurd (omega arith)
  backwards (suc n) [] vs r out fuel = rw loop_end (append-Ring e vs r le out)
  backwards (suc n) (x ∷ rs) vs r' out' fuel =
      let r : Ring h p (reverse rs ++ x ∷ vs) = rw (reverse-cons, append_assoc) at r' in
      let out : count e (p ∷ (reverse rs ++ x ∷ vs)) ≡ 0 =
        rw (reverse-cons, append_assoc) at out' in
      let lx = inside x (reverse rs) vs r in
      elim (Bool-cases (is_negative (c (h.payload e) (h.payload x)))) [
        | inl less ↦
            rw
              (
                loop_found n p e cmp false h x _ (apart x (reverse rs) vs r) (decides e x h le lx)
                    less,
                less,
                reverse-cons e (x ∷ rs),
                reverse-cons x rs,
              )
              (simp append_assoc (append_inside h p e x (reverse rs) vs r le out))
        | inr more ↦
            rw
              (
                loop_on n p e cmp false h x _ (apart x (reverse rs) vs r) (decides e x h le lx) more
                    lx,
                more,
                prev_in x rs vs r,
                reverse-cons x (insert c h.payload e rs),
                append_assoc,
              )
              (backwards n rs (x ∷ vs) r out (omega arith))
      ]
