-- ===== src/PrList/Visit.antt =====
-- `pr_list_foreach_visit` and `pr_list_foreach_rev_visit`: every node once, in order.
use procenv.Prelude.{
  ℕ, zero, suc, ◌<◌, ◌≡◌, ap, ◌∙◌, List, [], ◌∷◌, ◌++◌, reverse, reverse-cons, append_assoc, true,
  false, Option, arith, ok, Cmd, pure, ◌>>◌, ◌==◌, ==-self, length,
}
use procenv.PrList.{
  Ptr, Heap, is_node, PrListVisitor, visit, foreach_loop, foreach_rev_loop, pr_list_foreach_visit,
  pr_list_foreach_rev_visit,
}
use procenv.PrList.Ring.{count, count-append, Ring, Ring-head, Chain-frame, is_node-ne_null}
use procenv.PrList.Sorted.Loop.{apart, inside, next_in, prev_in, prev_of_head}

-- The visitor on each node of a list in turn.
abbrev pub visit_all : Option PrListVisitor → List Ptr → Cmd Heap (Unit {0})
visit_all v [] = pure tt
visit_all v (x ∷ xs) = visit v x >> visit_all v xs

-- A visitor that returns, and changes neither links nor what is allocated.
abbrev pub KeepsLinks : Option PrListVisitor → Type 0
KeepsLinks v =
    (p : Ptr) (h : Heap)
    → (g : Heap) × (visit v p h ≡ ok (tt, g))
      × (g.next ≡ h.next)
      × (g.prev ≡ h.prev)
      × (g.live ≡ h.live)

module _ (v : Option PrListVisitor) (keeps : KeepsLinks v) (p : Ptr) where
  Ring-kept : (h : Heap) (x : Ptr) (xs : List Ptr) → Ring h p xs → Ring (keeps x h).0 p xs
  Ring-kept h x xs r =
      let (g, _, n, b, l) = keeps x h in
      record {
        links = Chain-frame h g p p xs (λ q _. ap (λ f. f q) n) (λ q _. ap (λ f. f q) b) r.links;
        distinct = r.distinct;
        alive = λ q m. rw l (r.alive q m);
      }

  foreach_end :
      (n : ℕ) (x : Ptr) (h : Heap)
      → is_node (keeps x h).0 x ≡ true
      → (keeps x h).0.next x ≡ p
      → foreach_loop (suc n) p v x h ≡ visit_all v (x ∷ []) h
  unfolding foreach_loop
  foreach_end n x h lx e = rw ((keeps x h).1, lx, e, ==-self)

  foreach_on :
      (n : ℕ) (x y : Ptr) (h : Heap)
      → is_node (keeps x h).0 x ≡ true
      → (keeps x h).0.next x ≡ y
      → (y == p) ≡ false
      → foreach_loop (suc n) p v x h ≡ foreach_loop n p v y (keeps x h).0
  unfolding foreach_loop
  foreach_on n x y h lx e ne = rw ((keeps x h).1, lx, e, ne)

  foreach_loop_lem :
      (n : ℕ) (h : Heap) (us : List Ptr) (x : Ptr) (vs : List Ptr)
      → Ring h p (us ++ x ∷ vs)
      → length vs < n
      → foreach_loop n p v x h ≡ visit_all v (x ∷ vs) h
  foreach_loop_lem zero h us x vs r fuel = absurd (omega arith)
  foreach_loop_lem (suc n) h us x [] r fuel =
      let r' = Ring-kept h x (us ++ x ∷ []) r in
      foreach_end n x h (inside x us [] r') (next_in x us [] r')
  foreach_loop_lem (suc n) h us x (y ∷ vs) r fuel =
      let r' = Ring-kept h x (us ++ x ∷ y ∷ vs) r in
      let r'' : Ring (keeps x h).0 p ((us ++ x ∷ []) ++ y ∷ vs) = rw append_assoc r' in
      foreach_on n x y h (inside x us (y ∷ vs) r') (next_in x us (y ∷ vs) r')
        (apart y (us ++ x ∷ []) vs r'')
      ∙ foreach_loop_lem n (keeps x h).0 (us ++ x ∷ []) y vs r'' (omega arith)
      ∙ rw (keeps x h).1

  -- `pr_list_foreach_visit` runs the visitor on every node of the ring once, from `list` on in the
  -- order of `next`, and ends when the fuel is the number of nodes. Condition: the visitor changes
  -- neither links nor what is allocated.
  pub foreach_visit_lem :
      (fuel : ℕ) (h : Heap) (xs : List Ptr)
      → Ring h p xs
      → length xs < fuel
      → pr_list_foreach_visit fuel p v h ≡ visit_all v (p ∷ xs) h
  unfolding pr_list_foreach_visit
  foreach_visit_lem zero h xs r enough = absurd (omega arith)
  foreach_visit_lem (suc n) h [] r enough =
      let r' = Ring-kept h p [] r in
      rw (is_node-ne_null h p (Ring-head r)) (foreach_end n p h (Ring-head r') r'.links.0)
  foreach_visit_lem (suc n) h (x ∷ xs) r enough =
      let r' = Ring-kept h p (x ∷ xs) r in
      rw (is_node-ne_null h p (Ring-head r)) (
        foreach_on n p x h (Ring-head r') r'.links.0 (apart x [] xs r')
        ∙ foreach_loop_lem n (keeps p h).0 [] x xs r' (omega arith)
        ∙ rw (keeps p h).1)

  rev_end :
      (n : ℕ) (x e : Ptr) (h : Heap)
      → is_node (keeps x h).0 x ≡ true
      → is_node (keeps x h).0 p ≡ true
      → (keeps x h).0.prev x ≡ e
      → (keeps x h).0.prev p ≡ e
      → foreach_rev_loop (suc n) p v x h ≡ visit_all v (x ∷ []) h
  unfolding foreach_rev_loop
  rev_end n x e h lx lp a b = rw ((keeps x h).1, lx, a, lp, b, ==-self)

  rev_on :
      (n : ℕ) (x y e : Ptr) (h : Heap)
      → is_node (keeps x h).0 x ≡ true
      → is_node (keeps x h).0 p ≡ true
      → (keeps x h).0.prev x ≡ y
      → (keeps x h).0.prev p ≡ e
      → (y == e) ≡ false
      → foreach_rev_loop (suc n) p v x h ≡ foreach_rev_loop n p v y (keeps x h).0
  unfolding foreach_rev_loop
  rev_on n x y e h lx lp a b ne = rw ((keeps x h).1, lx, a, lp, b, ne)

  -- `rs` is what is left before `x`, backwards, and `e` is the last node of the ring.
  rev_loop_lem :
      (n : ℕ) (h : Heap) (e : Ptr) (rs : List Ptr) (x : Ptr) (vs : List Ptr)
      → Ring h p (reverse rs ++ x ∷ vs)
      → 0 < count e (x ∷ vs)
      → h.prev p ≡ e
      → suc (length rs) < n
      → foreach_rev_loop n p v x h ≡ visit_all v (x ∷ rs ++ p ∷ []) h
  rev_loop_lem zero h e rs x vs r m b fuel = absurd (omega arith)
  rev_loop_lem (suc zero) h e rs x vs r m b fuel = absurd (omega arith)
  rev_loop_lem (suc (suc n)) h e [] x vs r m b fuel =
      let r' = Ring-kept h x (x ∷ vs) r in
      let b' : (keeps x h).0.prev p ≡ e = ap (λ f. f p) (keeps x h).3 ∙ b in
      let r'' = Ring-kept (keeps x h).0 p (x ∷ vs) r' in
      let b'' : (keeps p (keeps x h).0).0.prev p ≡ e =
        ap (λ f. f p) (keeps p (keeps x h).0).3 ∙ b' in
      rev_on (suc n) x p e h (inside x [] vs r') (Ring-head r') r'.links.1 b'
        (ground (arith, r.distinct e))
      ∙ rev_end n p e (keeps x h).0 (Ring-head r'') (Ring-head r'') b'' b''
      ∙ rw (keeps x h).1
  rev_loop_lem (suc n) h e (y ∷ rs) x vs r m b fuel =
      let r' = Ring-kept h x (reverse (y ∷ rs) ++ x ∷ vs) r in
      let b' : (keeps x h).0.prev p ≡ e = ap (λ f. f p) (keeps x h).3 ∙ b in
      let s : Ring (keeps x h).0 p (reverse rs ++ y ∷ x ∷ vs) =
        rw (reverse-cons, append_assoc) at r' in
      rev_on n x y e h (inside x (reverse (y ∷ rs)) vs r') (Ring-head r') (prev_in x (y ∷ rs) vs r')
        b' (ground (arith, s.distinct e, count-append e (reverse rs) (y ∷ x ∷ vs)))
      ∙ rev_loop_lem n (keeps x h).0 e rs y (x ∷ vs) s (ground arith) b' (omega arith)
      ∙ rw (keeps x h).1

  -- `pr_list_foreach_rev_visit` runs the visitor on every node of the ring once, from the last one
  -- back to `list`, and ends when the fuel is the number of nodes. Condition: the visitor changes
  -- neither links nor what is allocated.
  pub foreach_rev_visit_lem :
      (fuel : ℕ) (h : Heap) (rs : List Ptr)
      → Ring h p (reverse rs)
      → length rs < fuel
      → pr_list_foreach_rev_visit fuel p v h ≡ visit_all v (rs ++ p ∷ []) h
  unfolding pr_list_foreach_rev_visit
  foreach_rev_visit_lem zero h rs r enough = absurd (omega arith)
  foreach_rev_visit_lem (suc n) h [] r enough =
      let r' = Ring-kept h p [] r in
      rw (is_node-ne_null h p (Ring-head r), Ring-head r, r.links.1)
        (rev_end n p p h (Ring-head r') (Ring-head r') r'.links.1 r'.links.1)
  foreach_rev_visit_lem (suc n) h (y ∷ rs) r enough =
      let s : Ring h p (reverse rs ++ y ∷ []) = rw reverse-cons at r in
      rw (is_node-ne_null h p (Ring-head r), Ring-head r, prev_of_head (y ∷ rs) r)
        (rev_loop_lem (suc n) h y rs y [] s (ground arith) (prev_of_head (y ∷ rs) r) (omega arith))
