-- ===== src/PrList/Sorted.antt =====
-- The order that `pr_list_add_sorted_internal` keeps: where an entry is inserted, and why the
-- result is sorted.
pub mod Keeps
pub mod Loop
use procenv.Prelude.{
  Bytes, ℕ, suc, ◌+◌, ◌-◌, ◌≡◌, refl, List, [], ◌∷◌, Bool, true, false, Option, none, some, arith,
  ℤ, pos, negsuc, is_negative, ltb, ◌==◌, if◌then◌else◌, Bool-cases, inl, inr, ok,
}
use procenv.PrList.{Ptr, Heap, is_node, strcmp, cmp_data, PrListCmp, pr_list_cmp_str}
use procenv.PrList.Ring.{count}

abbrev pub Order : Type 0
Order = Option Bytes → Option Bytes → ℤ

-- A comparison that looks at the data of two nodes only.
abbrev pub Decides : PrListCmp → Order → Type 0
Decides cmp c =
    (e p : Ptr) (h : Heap)
    → is_node h e ≡ true
    → is_node h p ≡ true
    → cmp e p h ≡ ok (c (h.payload e) (h.payload p), h)

-- No two data are each less than the other.
abbrev pub IsAsymmetric : Order → Type 0
IsAsymmetric c = (a b : Option Bytes) → is_negative (c a b) ≡ true → is_negative (c b a) ≡ false

module _ (c : Order) (f : Ptr → Option Bytes) where
  -- `e` before the first address whose data is greater.
  pub insert : Ptr → List Ptr → List Ptr
  insert e [] = e ∷ []
  insert e (x ∷ xs) = if is_negative (c (f e) (f x)) then e ∷ x ∷ xs else x ∷ insert e xs

  -- No address holds less than the one before it.
  abbrev pub IsSorted : List Ptr → Type 0
  IsSorted [] = Unit {0}
  IsSorted (x ∷ []) = Unit {0}
  IsSorted (x ∷ y ∷ r) = (is_negative (c (f y) (f x)) ≡ false) × IsSorted (y ∷ r)

  insert-IsSorted_behind :
      IsAsymmetric c
      → (e x : Ptr) (xs : List Ptr) → is_negative (c (f e) (f x)) ≡ false
      → IsSorted (x ∷ xs)
      → IsSorted (x ∷ insert e xs)
  unfolding insert
  insert-IsSorted_behind asym e x [] h s = (h, tt)
  insert-IsSorted_behind asym e x (y ∷ r) h s = elim (Bool-cases (is_negative (c (f e) (f y)))) [
    | inl less ↦ rw less (h, (asym (f e) (f y) less, s.1))
    | inr more ↦ rw more (s.0, insert-IsSorted_behind asym e y r more s.1)
  ]

  pub insert-IsSorted :
      IsAsymmetric c → (e : Ptr) (xs : List Ptr) → IsSorted xs → IsSorted (insert e xs)
  unfolding insert
  insert-IsSorted asym e [] s = tt
  insert-IsSorted asym e (x ∷ xs) s = elim (Bool-cases (is_negative (c (f e) (f x)))) [
    | inl less ↦ rw less (asym (f e) (f x) less, s)
    | inr more ↦ rw more (insert-IsSorted_behind asym e x xs more s)
  ]

  pub count-insert : (q e : Ptr) (xs : List Ptr) → count q (insert e xs) ≡ count q (e ∷ xs)
  unfolding insert
  count-insert q e [] = refl
  count-insert q e (x ∷ xs) = ground (arith, count-insert q e xs)

strcmp-asymmetric :
    (a b : Bytes) → is_negative (strcmp a b) ≡ true → is_negative (strcmp b a) ≡ false
unfolding strcmp
strcmp-asymmetric [] [] h = refl
strcmp-asymmetric [] (y ∷ bs) h = refl
strcmp-asymmetric (x ∷ as') [] h = cc
strcmp-asymmetric (x ∷ as') (y ∷ bs) h = ground (arith, strcmp-asymmetric as' bs)

pub cmp_data-IsAsymmetric : IsAsymmetric cmp_data
unfolding cmp_data
cmp_data-IsAsymmetric none none h = refl
cmp_data-IsAsymmetric none (some b) h = refl
cmp_data-IsAsymmetric (some a) none h = cc
cmp_data-IsAsymmetric (some a) (some b) h = strcmp-asymmetric a b h

pub pr_list_cmp_str-Decides : Decides pr_list_cmp_str cmp_data
unfolding pr_list_cmp_str
pr_list_cmp_str-Decides e p h le lp = ground arith
