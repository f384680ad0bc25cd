-- ===== src/Program/Tokens.antt =====
-- `strsep` (&string, delimiter), by which src/procenv.c walks the fields of $PATH and of a command.
use procenv.Prelude.{
  ℕ, ◌<◌, ◌≡◌, ◌≢◌, refl, Option, none, some, List, [], ◌∷◌, ◌++◌, length, Bytes, ◌==◌, All, arith,
  if◌then◌else◌, Bool-cases, inl, inr,
}

-- The token in front of the first delimiter, and what is behind it; NULL if there is none.
unfoldable pub strsep : ℕ → Bytes → Bytes × Option Bytes
strsep d [] = ([], none)
strsep d (c ∷ t) = let rest = strsep d t in if c == d then ([], some t) else (c ∷ rest.0, rest.1)

-- The fields of a string: as many as delimiters, and one more.
abbrev pub add_front : ℕ → List Bytes → List Bytes
add_front c [] = (c ∷ []) ∷ []
add_front c (f ∷ fs) = (c ∷ f) ∷ fs

unfoldable pub fields : ℕ → Bytes → List Bytes
fields d [] = [] ∷ []
fields d (c ∷ t) = let rest = fields d t in if c == d then [] ∷ rest else add_front c rest

abbrev pub more_fields : ℕ → Option Bytes → List Bytes
more_fields d none = []
more_fields d (some t) = fields d t

-- The fields with delimiters between them.
abbrev pub join : ℕ → List Bytes → Bytes
join d [] = []
join d (f ∷ []) = f
join d (f ∷ g ∷ fs) = f ++ d ∷ join d (g ∷ fs)

module _ (d : ℕ) where
  pub fields-strsep : (s : Bytes) → fields d s ≡ (strsep d s).0 ∷ more_fields d (strsep d s).1
  unfolding fields strsep
  fields-strsep [] = refl
  fields-strsep (c ∷ t) = elim (Bool-cases (c == d)) [
    | inl e ↦ rw e refl
    | inr e ↦ rw (e, fields-strsep t) refl
  ]

  -- What is behind a delimiter is shorter.
  pub strsep-shorter : (s t : Bytes) → (strsep d s).1 ≡ some t → length t < length s
  unfolding strsep
  strsep-shorter [] t h = ground arith
  strsep-shorter (c ∷ s) t h = ground (arith, strsep-shorter s t)

  join-add_front :
      (c : ℕ) (f : Bytes) (fs : List Bytes) → join d (add_front c (f ∷ fs)) ≡ c ∷ join d (f ∷ fs)
  join-add_front c f [] = refl
  join-add_front c f (g ∷ fs) = refl

  -- The fields of a string are the string, cut at every delimiter.
  pub join-fields : (s : Bytes) → join d (fields d s) ≡ s
  unfolding fields
  join-fields [] = refl
  join-fields (c ∷ t) =
      let ih = rw (fields-strsep t) at (join-fields t) in
      elim (Bool-cases (c == d)) [
        | inl e ↦ rw (e, fields-strsep t, ih) (ground arith)
        | inr e ↦
            rw
              (
                e,
                fields-strsep t,
                join-add_front c (strsep d t).0 (more_fields d (strsep d t).1),
                ih,
              )
              refl
      ]

  All-add_front :
      (c : ℕ)
      → c ≢ d
      → (fs : List Bytes) → All (All (λ x. x ≢ d)) fs
      → All (All (λ x. x ≢ d)) (add_front c fs)
  All-add_front c n [] h = ((n, tt), tt)
  All-add_front c n (f ∷ fs) h = ((n, h.0), h.1)

  pub fields-free : (s : Bytes) → All (All (λ x. x ≢ d)) (fields d s)
  unfolding fields
  fields-free [] = (tt, tt)
  fields-free (c ∷ t) = elim (Bool-cases (c == d)) [
    | inl e ↦ rw e (tt, fields-free t)
    | inr e ↦ rw e (All-add_front c (ground arith) (fields d t) (fields-free t))
  ]
