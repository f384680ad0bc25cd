-- ===== src/Pstring/Chomp.antt =====
-- What `pstring_chomp` of src/pstring.c removes.
use mathlib.Core.List.{reverse-append}
use procenv.Prelude.{
  ℕ, suc, ◌+◌, ◌-◌, ◌≡◌, ◌≢◌, refl, ap, ◌∙◌, some, List, [], ◌∷◌, ◌++◌, append_assoc, map, reverse,
  reverse-cons, take, length, length-append, Text, NoNul, All, All-append, All-left, All-right,
  Bool, true, false, ◌==◌, ◌||◌, ◌≤◌, ◌<◌, ltb, leb, le→leb, Outcome, ok, arith, Bool-cases, inl,
  inr,
}
use procenv.Memory.{Cell, written}
use procenv.Memory.Laws.{store-written, written-append, read_text-written}
use procenv.Pstring.{PString, text_of, chomp_scan, pstring_chomp}

-- A pstring that holds a text, with a length that leaves the terminator out.
abbrev pub stored : Text → ℕ → PString
stored t size = record { buf = some (written t (some 0 ∷ [])); len = length t; size = size }

abbrev pub is_removable : ℕ → ℕ → Bool
is_removable w c = c == 10 || c == w

-- Of two or more characters a newline is left.
abbrev pub chomped : Text → Text
chomped [] = []
chomped (x ∷ []) = x ∷ []
chomped (x ∷ y ∷ r) = 10 ∷ []

take-written : (t : Text) (cs : List Cell) → take (length t) (written t cs) ≡ map some t
take-written [] cs = refl
take-written (c ∷ t) cs = ap (◌∷◌ (some c)) (take-written t cs)

map-some-append : (t u : Text) → map some (t ++ u) ≡ map some t ++ map some u
map-some-append [] u = refl
map-some-append (c ∷ t) u = ap (◌∷◌ (some c)) (map-some-append t u)

passes :
    (w x : ℕ) (rest : List Cell) (k : ℕ)
    → is_removable w x ≡ true
    → chomp_scan w (some x ∷ rest) k ≡ chomp_scan w rest (k + 1)
unfolding chomp_scan
passes w x rest k h = rw h refl

stops :
    (w x : ℕ) (rest : List Cell) (k : ℕ)
    → is_removable w x ≡ false
    → chomp_scan w (some x ∷ rest) k ≡ some k
unfolding chomp_scan
stops w x rest k h = rw h refl

-- The scan passes over removable characters, and counts them.
scan-reverse :
    (w : ℕ) (tail : Text) (rest : List Cell) (k : ℕ)
    → All (λ x. is_removable w x ≡ true) tail
    → chomp_scan w (reverse (map some tail) ++ rest) k ≡ chomp_scan w rest (k + length tail)
scan-reverse w [] rest k h = let zero_add : k + 0 ≡ k = omega arith in rw zero_add refl
scan-reverse w (x ∷ tail) rest k h =
    let sum : k + length tail + 1 ≡ k + suc (length tail) = omega arith in
    rw
      (
        reverse-cons (some x) (map some tail),
        append_assoc,
        scan-reverse w tail (some x ∷ rest) k h.1,
      )
      (passes w x rest (k + length tail) h.0 ∙ ap (chomp_scan w rest) sum)

-- The scan of a text from its end.
scan-text :
    (w : ℕ) (u : Text) (c : ℕ) (tail : Text)
    → All (λ x. is_removable w x ≡ true) tail
    → is_removable w c ≡ false
    → chomp_scan w (reverse (map some (u ++ c ∷ tail))) 0 ≡ some (length tail)
scan-text w u c tail h n =
    let split : reverse (map some (u ++ c ∷ tail))
        ≡ reverse (map some tail) ++ some c ∷ reverse (map some u) =
      rw
        (
          map-some-append u (c ∷ tail),
          reverse-append (map some u) (some c ∷ map some tail),
          reverse-cons (some c) (map some tail),
          append_assoc,
        )
        refl in
    let zero_add : 0 + length tail ≡ length tail = omega arith in
    rw (split, scan-reverse w tail (some c ∷ reverse (map some u)) 0 h, zero_add)
      (stops w c (reverse (map some u)) (length tail) n)

pub length-written : (t : Text) (cs : List Cell) → length (written t cs) ≡ length t + length cs
length-written [] cs = omega arith
length-written (c ∷ t) cs = omega (arith, length-written t cs)

ltb-ge : (a b : ℕ) → b ≤ a → ltb a b ≡ false
ltb-ge a b h = ground arith

leb-gt : (a b : ℕ) → b < a → leb a b ≡ false
leb-gt a b h = ground arith

module _ (w : ℕ) (u : Text) (c : ℕ) (stop : is_removable w c ≡ false) (size : ℕ) where
  -- What the result of `pstring_chomp` holds.
  abbrev pub Chomps : Text → Outcome PString → Type 0
  Chomps t o = (p : PString) × (o ≡ ok p) × (text_of p ≡ ok t) × (p.len ≡ length t)

  -- With at most one removable character at the end nothing changes.
  pub chomp-keeps :
      (tail : Text)
      → All (λ x. is_removable w x ≡ true) tail
      → length tail ≤ 1
      → pstring_chomp w (stored (u ++ c ∷ tail) size) ≡ ok (stored (u ++ c ∷ tail) size)
  unfolding pstring_chomp
  chomp-keeps tail h few =
      let t = u ++ c ∷ tail in
      elim (Bool-cases (ltb (length t) 2)) [
        | inl short ↦ rw short refl
        | inr long ↦
            rw
              (
                long,
                ltb-ge (length (written t (some 0 ∷ []))) (length t)
                    (omega (arith, length-written t (some 0 ∷ []))),
                take-written t (some 0 ∷ []),
                scan-text w u c tail h stop,
                le→leb (length tail) 1 few,
              )
              refl
      ]

  unchanged :
      (tail : Text)
      → All (λ x. is_removable w x ≡ true) tail
      → NoNul (u ++ c ∷ tail)
      → length tail ≤ 1
      → Chomps (u ++ c ∷ tail) (pstring_chomp w (stored (u ++ c ∷ tail) size))
  unchanged tail h n few =
      let t = u ++ c ∷ tail in
      (stored t size, chomp-keeps tail h few, rw (read_text-written t [] n) refl, refl)

  shortened :
      (x y : ℕ) (r : Text)
      → All (λ x. is_removable w x ≡ true) (x ∷ y ∷ r)
      → NoNul (u ++ c ∷ x ∷ y ∷ r)
      → Chomps (u ++ c ∷ 10 ∷ []) (pstring_chomp w (stored (u ++ c ∷ x ∷ y ∷ r) size))
  unfolding pstring_chomp
  shortened x y r h n =
      let t = u ++ c ∷ x ∷ y ∷ r in
      let v = u ++ c ∷ 10 ∷ [] in
      let size_t : length t ≡ length u + suc (suc (suc (length r))) =
        length-append u (c ∷ x ∷ y ∷ r) in
      let size_v : length v ≡ length u + 2 = length-append u (c ∷ 10 ∷ []) in
      let len : length t - (suc (suc (length r)) - 1) ≡ length u + 2 = omega arith in
      let last : length u + 2 - 1 ≡ length u + 1 = omega arith in
      let rest = written r (some 0 ∷ []) in
      let cells = written-append u (c ∷ x ∷ y ∷ r) (some 0 ∷ []) in
      let first = store-written u 1 10 (some c ∷ some x ∷ some y ∷ rest) in
      let second = store-written u 2 0 (some c ∷ some 10 ∷ some y ∷ rest) in
      let out = written v (some 0 ∷ rest) in
      let joined : written u (some c ∷ some 10 ∷ some 0 ∷ rest) ≡ out =
        rw (written-append u (c ∷ 10 ∷ []) (some 0 ∷ rest)) refl in
      let no_nul =
        All-append (λ c. c ≢ 0) u (c ∷ 10 ∷ []) (All-left (λ c. c ≢ 0) u (c ∷ x ∷ y ∷ r) n)
          ((All-right (λ c. c ≢ 0) u (c ∷ x ∷ y ∷ r) n).0, (omega arith, tt)) in
      (
        record { buf = some out; len = length u + 2; size = size },
        rw
            (
              ltb-ge (length t) 2 (omega arith),
              ltb-ge (length (written t (some 0 ∷ []))) (length t)
                  (omega (arith, length-written t (some 0 ∷ []))),
              take-written t (some 0 ∷ []),
              scan-text w u c (x ∷ y ∷ r) h stop,
              leb-gt (length (x ∷ y ∷ r)) 1 (omega arith),
              len,
              last,
              cells,
              first,
              second,
              joined,
            )
            refl,
        rw (read_text-written v rest no_nul) refl,
        rw size_v refl,
      )

  -- `pstring_chomp` leaves the text up to its last character that is neither a newline nor the
  -- indent character. Behind it one such character is kept, and two or more become one newline. The
  -- length stays that of the text. Conditions: there is such a last character, the text holds no nul,
  -- and the pstring's length leaves the terminator out, as that of the document.
  pub pstring_chomp_lem :
      (tail : Text)
      → All (λ x. is_removable w x ≡ true) tail
      → NoNul (u ++ c ∷ tail)
      → Chomps (u ++ c ∷ chomped tail) (pstring_chomp w (stored (u ++ c ∷ tail) size))
  pstring_chomp_lem [] h n = unchanged [] h n (omega arith)
  pstring_chomp_lem (x ∷ []) h n = unchanged (x ∷ []) h n (omega arith)
  pstring_chomp_lem (x ∷ y ∷ r) h n = shortened x y r h n
