-- ===== src/PrList/Remove.antt =====
-- `pr_list_remove` on a ring.
use procenv.Prelude.{◌≡◌, ◌≢◌, refl, List, [], ◌∷◌, ◌++◌, true, arith, Outcome, ok, append-nil}
use procenv.PrList.{Ptr, Heap, update, is_node, pr_list_remove}
use procenv.PrList.Ring.{
  count-append, Chain, Chain-frame, Chain-split, Chain-join, Ring, Ring-rotate, Ring-head, Snoc,
  none, last, snoc,
}

-- `h` with `e` taken out from between `a` and `b`, and linked to itself.
abbrev pub without : Heap → Ptr → Ptr → Ptr → Heap
without h a e b = record h {
  next = update (update h.next a b) e e;
  prev = update (update h.prev b a) e e;
}

remove-without :
    (h : Heap) (a b e : Ptr)
    → is_node h a ≡ true
    → is_node h b ≡ true
    → is_node h e ≡ true
    → h.prev e ≡ a
    → h.next e ≡ b
    → e ≢ a
    → e ≢ b
    → pr_list_remove e h ≡ ok (e, without h a e b)
unfolding pr_list_remove
remove-without h a b e la lb le p n na nb = ground arith

-- What unlinking `e` comes to: the call returns `e`, which is a ring of its own, changes no data,
-- and `p` with `ys` is the ring afterwards.
abbrev pub Removed : Heap → Ptr → Ptr → List Ptr → Outcome (Ptr × Heap) → Type 0
Removed h p e ys out =
    (g : Heap) × (out ≡ ok (e, g))
    × Ring g p ys
    × Ring g e []
    × (g.payload ≡ h.payload)
    × (g.live ≡ h.live)

alone : (h : Heap) (e a b : Ptr) → is_node h e ≡ true → Ring (without h a e b) e []
alone h e a b le = record {
  links = ground arith;
  distinct = λ q. ground arith;
  alive = λ q m. ground arith;
}

module _ {h : Heap} {e : Ptr} where
  remove-Snoc :
      (x : Ptr) {xs : List Ptr}
      → Snoc xs
      → Ring h e (x ∷ xs)
      → Removed h x e xs (pr_list_remove e h)
  remove-Snoc x none r =
      let lx : is_node h x ≡ true = r.alive x (ground arith) in
      let ne : e ≢ x = ground (arith, r.distinct e) in
      (
        without h x e x,
        remove-without h x x e lx lx (Ring-head r) r.links.2.1 r.links.0 ne ne,
        record { links = ground arith; distinct = λ q. ground arith; alive = λ q m. ground arith },
        alone h e x x (Ring-head r),
        refl,
        refl,
      )
  remove-Snoc x (last us a) r =
      let (front, back) = Chain-split h x e a us [] r.links.2 in
      let cs = count-append a us (a ∷ []) in
      let la : is_node h a ≡ true = r.alive a (ground (arith, cs)) in
      let lx : is_node h x ≡ true = r.alive x (ground arith) in
      let na : e ≢ a = ground (arith, r.distinct e, count-append e us (a ∷ [])) in
      let nx : e ≢ x = ground (arith, r.distinct e) in
      let front' : Chain (without h a e x) x us a =
        Chain-frame h (without h a e x) x a us
          (λ q m. ground (
            arith,
            r.distinct q,
            r.distinct a,
            r.distinct e,
            count-append q us (a ∷ []),
            count-append a us (a ∷ []),
          ))
          (λ q m. ground (arith, r.distinct q, r.distinct x, count-append q us (a ∷ []))) front in
      (
        without h a e x,
        remove-without h a x e la lx (Ring-head r) back.1 r.links.0 na nx,
        record {
          links = Chain-join (without h a e x) x x a us [] front' (ground arith);
          distinct = λ q. ground (arith, r.distinct q);
          alive = λ q m. ground (arith, r.alive q);
        },
        alone h e a x (Ring-head r),
        refl,
        refl,
      )

  -- Removing a node of a ring that has another: the other nodes stay a ring, in their order.
  pub remove-Ring :
      (x : Ptr) (xs : List Ptr) → Ring h e (x ∷ xs) → Removed h x e xs (pr_list_remove e h)
  remove-Ring x xs = remove-Snoc x (snoc xs)

-- `pr_list_remove` of a node `e` of the ring of `p`, other than `p`, returns it as a ring of its
-- own, leaves the other nodes linked in their order, and changes no data.
pub remove-inner :
    {h : Heap} {p : Ptr} (e : Ptr) (us vs : List Ptr)
    → Ring h p (us ++ e ∷ vs)
    → Removed h p e (us ++ vs) (pr_list_remove e h)
remove-inner {p} e us [] r = let g = remove-Ring p us (Ring-rotate p e us [] r) in rw append-nil g
remove-inner {p} e us (v ∷ vs) r =
    let (g, runs, ring, own, d, l) = remove-Ring v (vs ++ p ∷ us) (Ring-rotate p e us (v ∷ vs) r) in
    (g, runs, Ring-rotate v p vs us ring, own, d, l)
