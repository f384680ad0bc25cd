-- ===== src/PrList/Ring.antt =====
-- What the links of a list stand for: the ring of its nodes, read from any of them.
use procenv.Prelude.{
  ℕ, ◌+◌, ◌≤◌, ◌<◌, ◌≡◌, ◌∙◌, List, [], ◌∷◌, ◌++◌, true, false, arith, ◌==◌, if◌then◌else◌,
}
use procenv.PrList.{Ptr, null, Heap, is_node}

pub is_node-ne_null : (h : Heap) (p : Ptr) → is_node h p ≡ true → (p == null) ≡ false
is_node-ne_null h p l = ground arith

-- How often `q` stands in a list of addresses.
abbrev pub count : Ptr → List Ptr → ℕ
count q [] = 0
count q (x ∷ xs) = (if q == x then 1 else 0) + count q xs

pub count-append : (q : Ptr) (xs ys : List Ptr) → count q (xs ++ ys) ≡ count q xs + count q ys
count-append q [] ys = omega arith
count-append q (x ∷ xs) ys = ground (arith, count-append q xs ys)

-- From `a` the links lead through `xs` to `b`, and back.
abbrev pub Chain : Heap → Ptr → List Ptr → Ptr → Type 0
Chain h a [] b = (h.next a ≡ b) × (h.prev b ≡ a)
Chain h a (x ∷ xs) b = (h.next a ≡ x) × (h.prev x ≡ a) × Chain h x xs b

-- `p` is a node of a ring, and `xs` are the others in the order of `next`.
pub record Ring (h : Heap) (p : Ptr) (xs : List Ptr) : Type 0 where
  pub links : Chain h p xs p
  pub distinct : (q : Ptr) → count q (p ∷ xs) ≤ 1
  pub alive : (q : Ptr) → 0 < count q (p ∷ xs) → is_node h q ≡ true

pub Chain-split :
    (h : Heap) (a b y : Ptr) (xs ys : List Ptr)
    → Chain h a (xs ++ y ∷ ys) b
    → Chain h a xs y × Chain h y ys b
Chain-split h a b y [] ys c = ((c.0, c.1), c.2)
Chain-split h a b y (x ∷ xs) ys c = let (l, r) = Chain-split h x b y xs ys c.2 in ((c.0, c.1, l), r)

pub Chain-join :
    (h : Heap) (a b y : Ptr) (xs ys : List Ptr)
    → Chain h a xs y
    → Chain h y ys b
    → Chain h a (xs ++ y ∷ ys) b
Chain-join h a b y [] ys c d = (c.0, c.1, d)
Chain-join h a b y (x ∷ xs) ys c d = (c.0, c.1, Chain-join h x b y xs ys c.2 d)

-- A chain survives a change that spares the `next` of its sources and the `prev` of its targets.
pub Chain-frame :
    (h g : Heap) (a b : Ptr) (xs : List Ptr)
    → ((q : Ptr) → 0 < count q (a ∷ xs) → g.next q ≡ h.next q)
    → ((q : Ptr) → 0 < count q (xs ++ b ∷ []) → g.prev q ≡ h.prev q)
    → Chain h a xs b
    → Chain g a xs b
Chain-frame h g a b [] n p c = (n a (ground arith) ∙ c.0, p b (ground arith) ∙ c.1)
Chain-frame h g a b (x ∷ xs) n p c = (
  n a (ground arith) ∙ c.0,
  p x (ground arith) ∙ c.1,
  Chain-frame h g x b xs (λ q m. n q (ground arith)) (λ q m. p q (ground arith)) c.2,
)

module _ {h : Heap} where
  -- The ring as it is read from another of its nodes.
  pub Ring-rotate :
      (p y : Ptr) (xs ys : List Ptr) → Ring h p (xs ++ y ∷ ys) → Ring h y (ys ++ p ∷ xs)
  Ring-rotate p y xs ys r = record {
    links = let (l, m) = Chain-split h p p y xs ys r.links in Chain-join h y y p ys xs m l;
    distinct =
        λ q. ground (arith, r.distinct q, count-append q xs (y ∷ ys), count-append q ys (p ∷ xs));
    alive =
        λ q m. r.alive q (ground (arith, count-append q xs (y ∷ ys), count-append q ys (p ∷ xs)));
  }

  pub Ring-head : {p : Ptr} {xs : List Ptr} → Ring h p xs → is_node h p ≡ true
  Ring-head {p} r = r.alive p (ground arith)

-- A list of addresses is empty, or has a last one.
pub data Snoc : List Ptr → Type 0 where
  none : Snoc []
  last : (us : List Ptr) (a : Ptr) → Snoc (us ++ a ∷ [])

pub snoc : (xs : List Ptr) → Snoc xs
snoc [] = none
snoc (x ∷ xs) = elim (snoc xs) as (λ ys _. Snoc (x ∷ ys)) [
  | none ↦ last [] x
  | last us a ↦ last (x ∷ us) a
]
