-- ===== src/Memory/Laws.antt =====
-- Accesses behind a text in memory.
use Prim.Native.Nat.add
use mathlib.Core.Option
use procenv.Prelude.{
  ℕ, zero, suc, ◌+◌, ◌<◌, ◌≡◌, refl, ap, Option, none, some, List, [], ◌∷◌, ◌++◌, append-nil, take,
  Text, NoNul, length, arith,
}
use procenv.Memory.{Cell, resize, store, load, overwrite, concatenate, wcsncat, read_text, written}

-- A map over the result that keeps going under another.
map-map :
    {A B C : Type 0} (f : A → B) (g : B → C) (o : Option A)
    → Option.map g (Option.map f o) ≡ Option.map (λ a. g (f a)) o
map-map f g none = refl
map-map f g (some a) = refl

-- The map by a function that changes nothing.
map-id : {A : Type 0} (o : Option A) → o ≡ Option.map (λ a. a) o
map-id none = refl
map-id (some a) = refl

pub resize-written :
    (t : Text) (k : ℕ) (cs : List Cell)
    → resize (length t + k) (written t cs) ≡ written t (resize k cs)
resize-written [] k cs = rw add.zero
resize-written (c ∷ t) k cs = rw add.suc (ap (◌∷◌ (some c)) (resize-written t k cs))

pub store-written :
    (t : Text) (k c : ℕ) (cs : List Cell)
    → store (length t + k) c (written t cs) ≡ Option.map (written t) (store k c cs)
store-written [] k c cs = rw add.zero (map-id (store k c cs))
store-written (x ∷ t) k c cs =
    rw (add.suc, store-written t k c cs) (map-map (written t) (◌∷◌ (some x)) (store k c cs))

pub load-written :
    (t : Text) (k : ℕ) (cs : List Cell) → load (length t + k) (written t cs) ≡ load k cs
load-written [] k cs = rw add.zero
load-written (x ∷ t) k cs = rw add.suc (load-written t k cs)

pub wcsncat-written :
    (t src : Text) (n : ℕ) (cs : List Cell)
    → wcsncat (length t) (written t cs) src n ≡ Option.map (written t) (concatenate cs (take n src))
wcsncat-written [] src n cs = map-id (concatenate cs (take n src))
wcsncat-written (x ∷ t) src n cs =
    rw (wcsncat-written t src n cs)
      (map-map (written t) (◌∷◌ (some x)) (concatenate cs (take n src)))

pub overwrite-enough :
    (src : Text) (cs : List Cell) (ds : List Cell)
    → length cs ≡ suc (length src)
    → overwrite (cs ++ ds) src ≡ some (written src (some 0 ∷ ds))
overwrite-enough src [] ds h = absurd (omega arith)
overwrite-enough [] (c ∷ []) ds h = refl
overwrite-enough [] (c ∷ d ∷ cs) ds h = absurd (omega arith)
overwrite-enough (x ∷ src) (c ∷ cs) ds h = rw (overwrite-enough src cs ds (omega arith))

pub read_text-written :
    (t : Text) (cs : List Cell) → NoNul t → read_text (written t (some 0 ∷ cs)) ≡ some t
read_text-written [] cs h = refl
read_text-written (zero ∷ t) cs h = absurd (h.0 refl)
read_text-written (suc c ∷ t) cs h = rw (read_text-written t cs h.1)

-- A store in bounds gives cells of the same number.
pub length-store :
    (i c : ℕ) (cs : List Cell)
    → i < length cs
    → (ds : List Cell) × (store i c cs ≡ some ds) × (length ds ≡ length cs)
length-store i c [] h = elim h [ ]
length-store zero c (x ∷ cs) h = (some c ∷ cs, refl, refl)
length-store (suc i) c (x ∷ cs) h =
    let (ds, e, l) = length-store i c cs (omega arith) in (x ∷ ds, rw e, ap suc l)

pub length-resize : (n : ℕ) (cs : List Cell) → length (resize n cs) ≡ n
length-resize zero cs = refl
length-resize (suc n) [] = ap suc (length-resize n [])
length-resize (suc n) (c ∷ cs) = ap suc (length-resize n cs)

pub written-append : (t u : Text) (cs : List Cell) → written (t ++ u) cs ≡ written t (written u cs)
written-append [] u cs = refl
written-append (x ∷ t) u cs = ap (◌∷◌ (some x)) (written-append t u cs)

pub overwrite_exact :
    (src : Text) (cs : List Cell)
    → length cs ≡ suc (length src)
    → overwrite cs src ≡ some (written src (some 0 ∷ []))
overwrite_exact src cs h = rw append-nil at (overwrite-enough src cs [] h)

pub load_end : (t : Text) (c : Cell) (cs : List Cell) → load (length t) (written t (c ∷ cs)) ≡ c
load_end [] c cs = refl
load_end (x ∷ t) c cs = load_end t c cs

-- A terminator stored over the terminator of a text changes nothing.
pub store_end :
    (t : Text) → store (length t) 0 (written t (some 0 ∷ [])) ≡ some (written t (some 0 ∷ []))
store_end [] = refl
store_end (x ∷ t) = rw (store_end t)
