-- ===== src/PrList/Strings.antt =====
-- The calls that allocate an entry for a string: `pr_list_new`, `pr_list_append_str`,
-- `pr_list_prepend_str` and their versions with a length.
use procenv.Prelude.{
  take_all, Bytes, ℕ, ◌+◌, ◌%◌, ◌<◌, ◌≡◌, ◌≢◌, List, [], ◌∷◌, ◌++◌, Option, none, some, true, false,
  arith, Outcome, ok, take, length, ◌==◌, ==-ne,
}
use procenv.PrList.{
  Ptr, null, Heap, update, is_node, size_mod, pr_list_new, pr_list_appendn_str, pr_list_append_str,
  pr_list_prependn_str, pr_list_prepend_str,
}
use procenv.PrList.Ring.{count, count-append, Chain-frame, Ring}
use procenv.PrList.Insert.{Inserted, append-Ring, prepend-Ring}

-- `h` with a new node that is linked to itself.
abbrev pub with_new : Heap → Ptr → Option Bytes → Heap
with_new h e d = record {
  live = update h.live e true;
  payload = update (update h.payload e none) e d;
  next = update (update h.next e null) e e;
  prev = update (update h.prev e null) e e;
}

pub new-with_new :
    (h : Heap) (e : Ptr) (d : Option Bytes) → e ≢ null → pr_list_new e d h ≡ ok (e, with_new h e d)
unfolding pr_list_new
new-with_new h e d ne = ground arith

-- What adding a string to a ring comes to: `e` is returned, it holds the string, no other data
-- changes, and `p` with `ys` is the ring afterwards.
abbrev pub Added : Heap → Ptr → Ptr → Bytes → List Ptr → Outcome (Ptr × Heap) → Type 0
Added h p e str ys out =
    (g : Heap) × (out ≡ ok (e, g))
    × Ring g p ys
    × (g.payload e ≡ some str)
    × ((q : Ptr) → q ≢ e → g.payload q ≡ h.payload q)

module _ {h : Heap} {p : Ptr} (e : Ptr) (xs : List Ptr) (ring : Ring h p xs) (ne : e ≢ null)
    (unused : h.live e ≡ false) where
  unused-count : count e (p ∷ xs) ≡ 0
  unused-count = ground (arith, ring.alive e)

  p_ne_null : (p == null) ≡ false
  p_ne_null = ground (arith, ring.alive p)

  Ring-with_new : (d : Option Bytes) → Ring (with_new h e d) p xs
  Ring-with_new d = record {
    links =
        Chain-frame h (with_new h e d) p p xs (λ q m. let out = unused-count in ground arith)
          (λ q m. let out = unused-count in ground (arith, count-append q xs (p ∷ []))) ring.links;
    distinct = ring.distinct;
    alive = λ q m. ground (arith, ring.alive q);
  }

  new_node : (d : Option Bytes) → is_node (with_new h e d) e ≡ true
  new_node d = ground arith

  Added-Inserted :
      (str : Bytes) (ys : List Ptr) {out : Outcome (Ptr × Heap)}
      → Inserted (with_new h e (some str)) p e ys out
      → Added h p e str ys out
  Added-Inserted str ys (g, runs, r, d, l) =
      (g, runs, r, rw d (ground arith), λ q n. rw d (ground arith))

  -- `pr_list_appendn_str` puts a new entry directly behind `list`. It holds the first `len + 1`
  -- bytes of the string, one more than the length asked for. Condition: `calloc` gives an unused
  -- address.
  pub appendn_str-Ring :
      (str : Bytes) (len : ℕ)
      → Added h p e (take ((1 + len) % size_mod) str) (e ∷ xs) (pr_list_appendn_str e p str len h)
  unfolding pr_list_appendn_str
  appendn_str-Ring str len =
      let copy = take ((1 + len) % size_mod) str in
      let step = append-Ring e xs (Ring-with_new (some copy)) (new_node (some copy)) unused-count in
      Added-Inserted copy (e ∷ xs) (
        step.0,
        rw (p_ne_null, new-with_new h e (some copy) ne, ==-ne e null ne, step.1),
        step.2,
        step.3,
        step.4,
      )

  pub prependn_str-Ring :
      (str : Bytes) (len : ℕ)
      → Added h p e
          (take ((1 + len) % size_mod) str)
          (xs ++ e ∷ [])
          (pr_list_prependn_str e p str len h)
  unfolding pr_list_prependn_str
  prependn_str-Ring str len =
      let copy = take ((1 + len) % size_mod) str in
      let step =
        prepend-Ring e xs (Ring-with_new (some copy)) (new_node (some copy)) unused-count in
      Added-Inserted copy (xs ++ e ∷ []) (
        step.0,
        rw (p_ne_null, new-with_new h e (some copy) ne, ==-ne e null ne, step.1),
        step.2,
        step.3,
        step.4,
      )

  whole : (str : Bytes) → length str + 1 < size_mod → take ((1 + length str) % size_mod) str ≡ str
  whole str small = take_all _ str (omega arith)

  -- `pr_list_append_str` puts a new entry with a copy of the whole string directly behind `list`.
  -- Conditions: the string's length is at most `SIZE_MAX` less two, and `calloc` gives an unused
  -- address.
  pub append_str-Ring :
      (str : Bytes)
      → length str + 1 < size_mod
      → Added h p e str (e ∷ xs) (pr_list_append_str e p str h)
  unfolding pr_list_append_str
  append_str-Ring str small =
      rw p_ne_null (rw (whole str small) at (appendn_str-Ring str (length str)))

  -- `pr_list_prepend_str` puts a new entry with a copy of the whole string last in the ring of
  -- `list`. Conditions: the string's length is at most `SIZE_MAX` less two, and `calloc` gives an
  -- unused address.
  pub prepend_str-Ring :
      (str : Bytes)
      → length str + 1 < size_mod
      → Added h p e str (xs ++ e ∷ []) (pr_list_prepend_str e p str h)
  unfolding pr_list_prepend_str
  prepend_str-Ring str small =
      rw p_ne_null (rw (whole str small) at (prependn_str-Ring str (length str)))
