-- ===== src/StringUtil/Fields/Splits.antt =====
-- The fields that `split_fields` of src/string-util.c finds.
use procenv.Prelude.{
  ℕ, zero, suc, ◌+◌, ◌≤◌, ◌<◌, ◌≡◌, ◌≢◌, refl, List, [], ◌∷◌, ◌++◌, append-nil, map, length,
  length-append, replicate, All, true, false, ◌==◌, ==-self, ==-ne, Bytes, ok, arith,
}
use procenv.StringUtil.Fields.{skip_delimiters, take_field, split_loop, split_at, split_fields}

-- No byte is the delimiter.
abbrev pub HasNo : ℕ → Bytes → Type 0
HasNo d x = All (λ c. (c == d) ≡ false) x

take_field-end : (d : ℕ) (x : Bytes) → HasNo d x → take_field d x ≡ (x, [])
unfolding take_field
take_field-end d [] h = refl
take_field-end d (c ∷ x) h = rw (h.0, take_field-end d x h.1) refl

take_field-delimiter : (d : ℕ) (x r : Bytes) → HasNo d x → take_field d (x ++ d ∷ r) ≡ (x, d ∷ r)
unfolding take_field
take_field-delimiter d [] r h = rw (==-self d) refl
take_field-delimiter d (c ∷ x) r h = rw (h.0, take_field-delimiter d x r h.1) refl

skip-replicate :
    (d n : ℕ) (t : Bytes) → skip_delimiters d (replicate n d ++ t) ≡ skip_delimiters d t
unfolding skip_delimiters
skip-replicate d zero t = refl
skip-replicate d (suc n) t = rw (==-self d, skip-replicate d n t) refl

-- Fields, each with a first byte, the rest of its bytes, and the number of further delimiters behind
-- it; and a last field, with no delimiter behind it.
pub record Piece : Type 0 where
  pub first : ℕ
  pub others : Bytes
  pub gap : ℕ

abbrev pub field_of : Piece → Bytes
field_of p = p.first ∷ p.others

pub spread : ℕ → List Piece → Bytes → Bytes
spread d [] last = last
spread d (p ∷ ps) last = field_of p ++ (replicate (suc p.gap) d ++ spread d ps last)

-- A last field that is empty is none.
abbrev pub last_field : Bytes → List Bytes
last_field [] = []
last_field (c ∷ t) = (c ∷ t) ∷ []

abbrev pub ArePieces : ℕ → List Piece → Type 0
ArePieces d ps = All (λ p. HasNo d (field_of p)) ps

loop-spread :
    (d : ℕ) (ps : List Piece) (last : Bytes) (gap fuel : ℕ)
    → ArePieces d ps
    → HasNo d last
    → length ps + 1 < fuel
    → split_loop fuel d true (replicate gap d ++ spread d ps last)
      ≡ ok (map field_of ps ++ last_field last)
unfolding split_loop split_at skip_delimiters spread
loop-spread d ps last gap zero hp hl le = absurd (omega arith)
loop-spread d [] [] gap (suc fuel) hp hl le = rw (skip-replicate d gap []) refl
loop-spread d [] (c ∷ last) gap (suc zero) hp hl le = absurd (omega arith)
loop-spread d [] (c ∷ last) gap (suc (suc fuel)) hp hl le =
    rw (skip-replicate d gap (c ∷ last), hl.0, take_field-end d (c ∷ last) hl) refl
loop-spread d (p ∷ ps) last gap (suc fuel) hp hl le =
    let rest = replicate p.gap d ++ spread d ps last in
    rw
      (
        skip-replicate d gap (field_of p ++ d ∷ rest),
        hp.0.0,
        take_field-delimiter d (field_of p) rest hp.0,
        loop-spread d ps last (suc p.gap) fuel hp.1 hl (omega arith),
      )
      refl

length-spread : (d : ℕ) (ps : List Piece) (last : Bytes) → length ps ≤ length (spread d ps last)
unfolding spread
length-spread d [] last = omega arith
length-spread d (p ∷ ps) last = omega (
  arith,
  length-spread d ps last,
  length-append p.others (replicate (suc p.gap) d ++ spread d ps last),
  length-append (replicate p.gap d) (spread d ps last),
)

-- With `compress`, `split_fields` returns, and gives the fields of a string: it ignores delimiters
-- in front, any number of them between two fields, and those at the end. Conditions: the delimiter is
-- not nul, and stands in no field.
pub split_fields-spread :
    (d : ℕ) (ps : List Piece) (last : Bytes) (gap : ℕ)
    → d ≢ 0
    → ArePieces d ps
    → HasNo d last
    → split_fields (replicate gap d ++ spread d ps last) d true
      ≡ ok (map field_of ps ++ last_field last)
unfolding split_fields
split_fields-spread d ps last gap nz hp hl = rw (==-ne d 0 nz) (
    loop-spread d ps last gap _ hp hl
      (omega (arith, length-spread d ps last, length-append (replicate gap d) (spread d ps last))))

-- Each field behind a delimiter of its own.
pub prefixed : ℕ → List Bytes → Bytes
prefixed d [] = []
prefixed d (x ∷ xs) = d ∷ (x ++ prefixed d xs)

take_field-prefixed :
    (d : ℕ) (x : Bytes) (xs : List Bytes)
    → HasNo d x
    → take_field d (x ++ prefixed d xs) ≡ (x, prefixed d xs)
unfolding prefixed
take_field-prefixed d x [] h = rw append-nil (take_field-end d x h)
take_field-prefixed d x (y ∷ ys) h = take_field-delimiter d x (y ++ prefixed d ys) h

loop-prefixed :
    (d : ℕ) (xs : List Bytes) (fuel : ℕ)
    → All (HasNo d) xs
    → length xs < fuel
    → split_loop fuel d false (prefixed d xs) ≡ ok xs
unfolding split_loop split_at prefixed
loop-prefixed d xs zero h le = absurd (omega arith)
loop-prefixed d [] (suc fuel) h le = refl
loop-prefixed d (x ∷ xs) (suc fuel) h le =
    rw (take_field-prefixed d x xs h.0, loop-prefixed d xs fuel h.1 (omega arith)) refl

length-prefixed : (d : ℕ) (xs : List Bytes) → length xs ≤ length (prefixed d xs)
unfolding prefixed
length-prefixed d [] = omega arith
length-prefixed d (x ∷ xs) = omega (arith, length-prefixed d xs, length-append x (prefixed d xs))

-- Without `compress`, `split_fields` returns, and is the inverse of putting the delimiter in front of
-- every field, empty fields included. Conditions: the delimiter is not nul, and stands in no field.
pub split_fields-prefixed :
    (d : ℕ) (xs : List Bytes)
    → d ≢ 0
    → All (HasNo d) xs
    → split_fields (prefixed d xs) d false ≡ ok xs
unfolding split_fields
split_fields-prefixed d xs nz h =
    rw (==-ne d 0 nz) (loop-prefixed d xs _ h (omega (arith, length-prefixed d xs)))

-- Without `compress` the first byte is skipped even if it is no delimiter: `split_fields` loses the
-- first byte of a string's first field. Conditions: the delimiter is not nul, and stands in no field.
pub split_fields-loses :
    (d c : ℕ) (x : Bytes) (xs : List Bytes)
    → d ≢ 0
    → HasNo d x
    → All (HasNo d) xs
    → split_fields (c ∷ (x ++ prefixed d xs)) d false ≡ ok (x ∷ xs)
unfolding split_fields split_loop split_at
split_fields-loses d c x xs nz h hs =
    rw
      (
        ==-ne d 0 nz,
        take_field-prefixed d x xs h,
        loop-prefixed d xs (suc (suc (length (x ++ prefixed d xs)))) hs
            (omega (arith, length-append x (prefixed d xs), length-prefixed d xs)),
      )
      refl
