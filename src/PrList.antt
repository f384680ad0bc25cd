-- ===== src/PrList.antt =====
-- src/pr_list.c: doubly linked circular lists with no terminal node. The nodes live in an explicit
-- heap; a pointer is an address, and a read or write through one that holds no node is `undefined`.
-- A node's `void *data` is NULL or a string, as in every use that the program makes of the lists.
pub mod Insert
pub mod Remove
pub mod Sorted
pub mod Ring
pub mod Strings
pub mod Visit
mod Tests
use procenv.Prelude.{
  Bytes, ℕ, zero, suc, ◌+◌, ◌-◌, ◌%◌, ◌^◌, Bool, true, false, not, ◌&&◌, Option, none, some, List,
  [], ◌∷◌, ℤ, pos, negsuc, is_negative, ltb, ◌==◌, if◌then◌else◌, take, length, undefined, endless,
  Cmd, pure, stop, ◌>>=◌, ◌>>◌, assert,
}

abbrev pub Ptr : Type 0
Ptr = ℕ

abbrev pub null : Ptr
null = 0

pub record Heap : Type 0 where
  pub live : Ptr → Bool
  pub payload : Ptr → Option Bytes
  pub next : Ptr → Ptr
  pub prev : Ptr → Ptr

abbrev pub update : {A : Type 0} → (Ptr → A) → Ptr → A → Ptr → A
update f p a q = if p == q then a else f q

abbrev pub is_node : Heap → Ptr → Bool
is_node h p = not (p == null) && h.live p

-- A pointer that is read or written through must point at a node.
abbrev pub access : Ptr → Cmd Heap (Unit {0})
access p h = if is_node h p then pure tt h else stop undefined h

-- `p->next`, `p->prev` and `p->data`
abbrev pub get_next : Ptr → Cmd Heap Ptr
get_next p = access p >> λ h. pure (h.next p) h

abbrev pub get_prev : Ptr → Cmd Heap Ptr
get_prev p = access p >> λ h. pure (h.prev p) h

abbrev pub get_payload : Ptr → Cmd Heap (Option Bytes)
get_payload p = access p >> λ h. pure (h.payload p) h

abbrev pub set_next : Ptr → Ptr → Cmd Heap (Unit {0})
set_next p q = access p >> λ h. pure tt (record h { next = update h.next p q })

abbrev pub set_prev : Ptr → Ptr → Cmd Heap (Unit {0})
set_prev p q = access p >> λ h. pure tt (record h { prev = update h.prev p q })

-- `assert (p)`
abbrev pub assert_pointer : Ptr → Cmd Heap (Unit {0})
assert_pointer p = assert (not (p == null))

-- `fresh` is what `calloc` returns.
abbrev pub calloc : Ptr → Cmd Heap (Unit {0})
calloc p h = pure tt (record {
  live = update h.live p true;
  payload = update h.payload p none;
  next = update h.next p null;
  prev = update h.prev p null;
})

unfoldable pub pr_list_new : (fresh : Ptr) → Option Bytes → Cmd Heap Ptr
pr_list_new fresh d = if fresh == null then pure null else do
  calloc fresh
  set_prev fresh fresh
  set_next fresh fresh
  (λ h. pure tt (record h { payload = update h.payload fresh d }))
  pure fresh

unfoldable pub pr_list_empty : Ptr → Cmd Heap Bool
pr_list_empty list = do
  assert_pointer list
  n ← get_next list
  p ← get_prev list
  pure (n == list && p == list)

unfoldable pub pr_list_append : Ptr → Ptr → Cmd Heap Ptr
pr_list_append list entry = do
  assert_pointer list
  assert_pointer entry
  set_next entry (← get_next list)
  set_prev entry list
  set_prev (← get_next list) entry
  set_next list entry
  pure entry

unfoldable pub pr_list_prepend : Ptr → Ptr → Cmd Heap Ptr
pr_list_prepend list entry = do
  assert_pointer list
  assert_pointer entry
  set_next entry list
  set_prev entry (← get_prev list)
  set_next (← get_prev list) entry
  set_prev list entry
  pure entry

-- `strndup (str, n)` at a `size_t` n
abbrev pub strndup : Bytes → ℕ → Bytes
strndup str n = take n str

abbrev pub size_mod : ℕ
size_mod = 2 ^ 64

unfoldable pub pr_list_appendn_str : (fresh : Ptr) → Ptr → Bytes → ℕ → Cmd Heap Ptr
pr_list_appendn_str fresh list str len = do
  assert_pointer list
  entry ← pr_list_new fresh (some (strndup str ((1 + len) % size_mod)))
  assert_pointer entry
  pr_list_append list entry
  pure entry

unfoldable pub pr_list_append_str : (fresh : Ptr) → Ptr → Bytes → Cmd Heap Ptr
pr_list_append_str fresh list str = do
  assert_pointer list
  pr_list_appendn_str fresh list str (length str)

unfoldable pub pr_list_prependn_str : (fresh : Ptr) → Ptr → Bytes → ℕ → Cmd Heap Ptr
pr_list_prependn_str fresh list str len = do
  assert_pointer list
  entry ← pr_list_new fresh (some (strndup str ((1 + len) % size_mod)))
  assert_pointer entry
  pr_list_prepend list entry
  pure entry

unfoldable pub pr_list_prepend_str : (fresh : Ptr) → Ptr → Bytes → Cmd Heap Ptr
pr_list_prepend_str fresh list str = do
  assert_pointer list
  pr_list_prependn_str fresh list str (length str)

-- `strcmp`, of which callers use the sign.
unfoldable pub strcmp : Bytes → Bytes → ℤ
strcmp [] [] = pos 0
strcmp [] (b ∷ bs) = negsuc (b - 1)
strcmp (a ∷ as') [] = pos a
strcmp (a ∷ as') (b ∷ bs) =
    if a == b then strcmp as' bs else if ltb a b then negsuc (b - a - 1) else pos (a - b)

-- The body of `pr_list_cmp_str` on the two data pointers.
unfoldable pub cmp_data : Option Bytes → Option Bytes → ℤ
cmp_data none none = pos 0
cmp_data none (some b) = negsuc 0
cmp_data (some a) none = pos 1
cmp_data (some a) (some b) = strcmp a b

unfoldable pub pr_list_cmp_str : Ptr → Ptr → Cmd Heap ℤ
pr_list_cmp_str la lb = do
  assert_pointer la
  assert_pointer lb
  a ← get_payload la
  b ← get_payload lb
  pure (cmp_data a b)

abbrev pub PrListCmp : Type 0
PrListCmp = Ptr → Ptr → Cmd Heap ℤ

-- The macro `pr_list_next`; `prepend` is the direction forwards.
abbrev pub pr_list_next : Ptr → Bool → Cmd Heap Ptr
pr_list_next p prepend = if prepend then get_next p else get_prev p

-- The `for` loop of `pr_list_add_sorted_internal` from `p`, and the call behind it.
unfoldable pub add_sorted_loop : ℕ → Ptr → Ptr → PrListCmp → Bool → Ptr → Cmd Heap Ptr
add_sorted_loop zero list entry cmp prepend p = stop endless
add_sorted_loop (suc fuel) list entry cmp prepend p =
    let handler =
      λ (at' : Ptr). if prepend then pr_list_prepend at' entry else pr_list_append at' entry in
    let rest = add_sorted_loop fuel list entry cmp prepend in
    if p == list then handler list else do
      c ← cmp entry p
      if is_negative c then handler p else (do q ← pr_list_next p prepend; rest q)

unfoldable pub pr_list_add_sorted_internal : ℕ → Ptr → Ptr → PrListCmp → Bool → Cmd Heap Ptr
pr_list_add_sorted_internal fuel list entry cmp prepend = do
  assert_pointer list
  assert_pointer entry
  start ← pr_list_next list prepend
  add_sorted_loop fuel list entry cmp prepend start

unfoldable pub pr_list_prepend_sorted : ℕ → Ptr → Ptr → PrListCmp → Cmd Heap Ptr
pr_list_prepend_sorted fuel list entry cmp = pr_list_add_sorted_internal fuel list entry cmp true

unfoldable pub pr_list_append_sorted : ℕ → Ptr → Ptr → PrListCmp → Cmd Heap Ptr
pr_list_append_sorted fuel list entry cmp = pr_list_add_sorted_internal fuel list entry cmp false

unfoldable pub pr_list_prepend_str_sorted : ℕ → Ptr → Ptr → Cmd Heap Ptr
pr_list_prepend_str_sorted fuel list entry = pr_list_prepend_sorted fuel list entry pr_list_cmp_str

unfoldable pub pr_list_append_str_sorted : ℕ → Ptr → Ptr → Cmd Heap Ptr
pr_list_append_str_sorted fuel list entry = pr_list_append_sorted fuel list entry pr_list_cmp_str

unfoldable pub pr_list_remove : Ptr → Cmd Heap Ptr
pr_list_remove entry = do
  assert_pointer entry
  set_next (← get_prev entry) (← get_next entry)
  set_prev (← get_next entry) (← get_prev entry)
  set_prev entry entry
  set_next entry entry
  pure entry

abbrev pub PrListVisitor : Type 0
PrListVisitor = Ptr → Cmd Heap (Unit {0})

-- `if (visitor) visitor (p)`
abbrev pub visit : Option PrListVisitor → Ptr → Cmd Heap (Unit {0})
visit none p = pure tt
visit (some v) p = v p

unfoldable pub foreach_loop : ℕ → Ptr → Option PrListVisitor → Ptr → Cmd Heap (Unit {0})
foreach_loop zero list visitor p = stop endless
foreach_loop (suc fuel) list visitor p =
    let rest = foreach_loop fuel list visitor in
    do visit visitor p; q ← get_next p; if q == list then pure tt else rest q

unfoldable pub pr_list_foreach_visit : ℕ → Ptr → Option PrListVisitor → Cmd Heap (Unit {0})
pr_list_foreach_visit fuel list visitor = do
  assert_pointer list
  foreach_loop fuel list visitor list

-- `list->prev` is read again after each round.
unfoldable pub foreach_rev_loop : ℕ → Ptr → Option PrListVisitor → Ptr → Cmd Heap (Unit {0})
foreach_rev_loop zero list visitor p = stop endless
foreach_rev_loop (suc fuel) list visitor p =
    let rest = foreach_rev_loop fuel list visitor in
    do visit visitor p; q ← get_prev p; end ← get_prev list; if q == end then pure tt else rest q

unfoldable pub pr_list_foreach_rev_visit : ℕ → Ptr → Option PrListVisitor → Cmd Heap (Unit {0})
pr_list_foreach_rev_visit fuel list visitor = do
  assert_pointer list
  p ← get_prev list
  foreach_rev_loop fuel list visitor p
