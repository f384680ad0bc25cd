-- ===== src/PrList/Insert.antt =====
-- `pr_list_append` and `pr_list_prepend` on a ring, and the calls that allocate the entry.
use procenv.Prelude.{
  ◌≤◌, ◌≡◌, ◌≢◌, refl, List, [], ◌∷◌, ◌++◌, true, arith, Outcome, ok, append_assoc,
}
use procenv.PrList.{Ptr, Heap, update, is_node, pr_list_append, pr_list_prepend}
use procenv.PrList.Ring.{
  count, count-append, Chain, Chain-frame, Ring, Ring-rotate, Ring-head, Snoc, none, last, snoc,
}

-- `h` with the node `e` linked in between `a` and `b`.
abbrev pub between : Heap → Ptr → Ptr → Ptr → Heap
between h a e b = record h {
  next = update (update h.next e b) a e;
  prev = update (update h.prev e a) b e;
}

pub append-between :
    (h : Heap) (a b e : Ptr)
    → is_node h a ≡ true
    → is_node h b ≡ true
    → is_node h e ≡ true
    → h.next a ≡ b
    → e ≢ a
    → pr_list_append a e h ≡ ok (e, between h a e b)
unfolding pr_list_append
append-between h a b e la lb le n ne = ground arith

pub prepend-between :
    (h : Heap) (a b e : Ptr)
    → is_node h a ≡ true
    → is_node h b ≡ true
    → is_node h e ≡ true
    → h.prev b ≡ a
    → e ≢ b
    → pr_list_prepend b e h ≡ ok (e, between h a e b)
unfolding pr_list_prepend
prepend-between h a b e la lb le n ne = ground arith

-- The node behind `p` in the ring.
abbrev pub first : List Ptr → Ptr → Ptr
first [] p = p
first (x ∷ xs) p = x

Chain-between :
    (h : Heap) (p e : Ptr) (xs : List Ptr)
    → count e (p ∷ xs) ≡ 0
    → ((q : Ptr) → count q (p ∷ xs) ≤ 1)
    → Chain h p xs p
    → Chain (between h p e (first xs p)) p (e ∷ xs) p
Chain-between h p e [] out d c = ground arith
Chain-between h p e (x ∷ xs) out d c =
    let tail =
      Chain-frame h (between h p e x) x p xs (λ q m. ground (arith, d p))
        (λ q m. ground (arith, d x, count-append q xs (p ∷ []))) c.2 in
    (ground arith, ground arith, (ground arith, ground arith, tail))

pub Ring-between :
    (h : Heap) (p e : Ptr) (xs : List Ptr)
    → Ring h p xs
    → is_node h e ≡ true
    → count e (p ∷ xs) ≡ 0
    → Ring (between h p e (first xs p)) p (e ∷ xs)
Ring-between h p e xs r le out = record {
  links = Chain-between h p e xs out r.distinct r.links;
  distinct = λ q. ground (arith, r.distinct q);
  alive = λ q m. ground (arith, r.alive q);
}

-- What linking `e` into a list of `h` comes to: the call returns `e`, changes no data, and `p` with
-- `ys` is the ring afterwards.
abbrev pub Inserted : Heap → Ptr → Ptr → List Ptr → Outcome (Ptr × Heap) → Type 0
Inserted h p e ys out =
    (g : Heap) × (out ≡ ok (e, g)) × Ring g p ys × (g.payload ≡ h.payload) × (g.live ≡ h.live)

module _ {h : Heap} {p : Ptr} where
  pub first-next : (xs : List Ptr) → Ring h p xs → h.next p ≡ first xs p
  first-next [] r = r.links.0
  first-next (x ∷ xs) r = r.links.0

  pub first-is_node : (xs : List Ptr) → Ring h p xs → is_node h (first xs p) ≡ true
  first-is_node [] r = Ring-head r
  first-is_node (x ∷ xs) r = r.alive x (ground arith)

  -- On a ring, `pr_list_append` of a node that is not in it puts the node directly behind `list`,
  -- returns it, and changes no data.
  pub append-Ring :
      (e : Ptr) (xs : List Ptr)
      → Ring h p xs
      → is_node h e ≡ true
      → count e (p ∷ xs) ≡ 0
      → Inserted h p e (e ∷ xs) (pr_list_append p e h)
  append-Ring e xs r le out = (
    between h p e (first xs p),
    append-between h p (first xs p) e (Ring-head r) (first-is_node xs r) le (first-next xs r)
        (ground arith),
    Ring-between h p e xs r le out,
    refl,
    refl,
  )

  prepend-Snoc :
      (e : Ptr) {xs : List Ptr}
      → Snoc xs
      → Ring h p xs
      → is_node h e ≡ true
      → count e (p ∷ xs) ≡ 0
      → Inserted h p e (xs ++ e ∷ []) (pr_list_prepend p e h)
  prepend-Snoc e none r le out = (
    between h p e p,
    prepend-between h p p e (Ring-head r) (Ring-head r) le r.links.1 (ground arith),
    Ring-between h p e [] r le out,
    refl,
    refl,
  )
  prepend-Snoc e (last us a) r le out =
      let turned = Ring-rotate p a us [] r in
      let none_of : count e (a ∷ p ∷ us) ≡ 0 = ground (arith, count-append e us (a ∷ [])) in
      (
        between h a e p,
        prepend-between h a p e (Ring-head turned) (Ring-head r) le turned.links.1 (ground arith),
        rw append_assoc
            (Ring-rotate a p (e ∷ []) us (Ring-between h a e (p ∷ us) turned le none_of)),
        refl,
        refl,
      )

  -- On a ring, `pr_list_prepend` of a node that is not in it puts the node directly before `list`,
  -- that is last in the ring, returns it, and changes no data.
  pub prepend-Ring :
      (e : Ptr) (xs : List Ptr)
      → Ring h p xs
      → is_node h e ≡ true
      → count e (p ∷ xs) ≡ 0
      → Inserted h p e (xs ++ e ∷ []) (pr_list_prepend p e h)
  prepend-Ring e xs = prepend-Snoc e (snoc xs)

-- An insertion that is read from another node of the ring.
Inserted-rotate :
    (h : Heap) (e : Ptr) (out : Outcome (Ptr × Heap)) (p y : Ptr) (xs ys : List Ptr)
    → Inserted h p e (xs ++ y ∷ ys) out
    → Inserted h y e (ys ++ p ∷ xs) out
Inserted-rotate h e out p y xs ys (g, runs, r, d, l) = (g, runs, Ring-rotate p y xs ys r, d, l)

-- Before or behind any node `x` of the ring of `p`.
module _ (h : Heap) (p e x : Ptr) (us vs : List Ptr) (r : Ring h p (us ++ x ∷ vs))
    (le : is_node h e ≡ true) (out : count e (p ∷ (us ++ x ∷ vs)) ≡ 0) where
  outside : count e (x ∷ (vs ++ p ∷ us)) ≡ 0
  outside = ground (arith, count-append e us (x ∷ vs), count-append e vs (p ∷ us))

  -- `pr_list_prepend` before any node of a ring leaves the order of the others.
  pub prepend_inside : Inserted h p e (us ++ e ∷ x ∷ vs) (pr_list_prepend x e h)
  prepend_inside =
      let at_x = prepend-Ring e (vs ++ p ∷ us) (Ring-rotate p x us vs r) le outside in
      rw append_assoc at (
        Inserted-rotate h e (pr_list_prepend x e h) x p vs (us ++ e ∷ []) (rw append_assoc at at_x))

  -- `pr_list_append` behind any node of a ring leaves the order of the others.
  pub append_inside : Inserted h p e (us ++ x ∷ e ∷ vs) (pr_list_append x e h)
  append_inside =
      Inserted-rotate h e (pr_list_append x e h) x p (e ∷ vs) us
        (append-Ring e (vs ++ p ∷ us) (Ring-rotate p x us vs r) le outside)
