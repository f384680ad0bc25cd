-- ===== src/Program/Show/Stat/Path.antt =====
-- Where `get_path` of src/procenv.c looks for a program.
use mathlib.Core.Option
use procenv.Prelude.{
  if◌then◌else◌, get_elem?, append_assoc, length-append, ℕ, zero, suc, ◌+◌, ◌<◌, ◌≡◌, ◌≢◌, refl, ap,
  ◌∙◌, Option, none, some, List, [], ◌∷◌, ◌++◌, length, true, false, ◌==◌, leb, Bytes, Outcome, ok,
  halt, undefined, All, arith, Bool-cases, inl, inr, Option-cases,
}
use procenv.Program.Tokens.{strsep, fields, more_fields, fields-strsep, strsep-shorter}
use procenv.Program.Show.Stat.{
  Files, has_slash, last_index, byte_at, slash_behind, try_possible, try_element, search_path,
  get_path,
}

-- The search over the elements of $PATH, one after the other.
abbrev pub try_all : Files → Bytes → List Bytes → Outcome (Option Bytes)
try_all f argv0 [] = ok none
try_all f argv0 (e ∷ es) = try_element f argv0 e (try_all f argv0 es)

abbrev Enough : ℕ → Option Bytes → Type 0
Enough fuel none = 0 < fuel
Enough fuel (some s) = length s + 1 < fuel

at-append : (d : Bytes) (c : ℕ) (r : Bytes) → get_elem? (d ++ c ∷ r) (length d) ≡ some c
at-append [] c r = refl
at-append (x ∷ d) c r = at-append d c r

-- The last byte of an element.
last-append :
    (d : Bytes) (c : ℕ) → byte_at (d ++ c ∷ []) (last_index (length (d ++ c ∷ []))) ≡ some c
last-append d c =
    let size : length (d ++ c ∷ []) ≡ suc (length d) = omega (arith, length-append d (c ∷ [])) in
    rw (size, append_assoc) (at-append d c (0 ∷ []))

slash_behind-append :
    (d : Bytes) (c : ℕ) → slash_behind (d ++ c ∷ []) ≡ some (if c == b'/' then [] else b'/' ∷ [])
unfolding slash_behind
slash_behind-append d c =
    ap (Option.map (λ c. if c == b'/' then [] else b'/' ∷ [])) (last-append d c)

module _ (f : Files) (argv0 : Bytes) where
  search_path_lem :
      (fuel : ℕ) (tmp : Option Bytes)
      → Enough fuel tmp
      → search_path fuel f argv0 tmp ≡ try_all f argv0 (more_fields b':' tmp)
  unfolding search_path
  search_path_lem zero none h = absurd (omega arith)
  search_path_lem zero (some s) h = absurd (omega arith)
  search_path_lem (suc fuel) none h = refl
  search_path_lem (suc fuel) (some s) h =
      let rest : Enough fuel (strsep b':' s).1 = elim (Option-cases (strsep b':' s).1) [
        | inl e ↦ rw e (omega arith)
        | inr (r, e) ↦ rw e (omega (arith, strsep-shorter b':' s r e))
      ] in
      rw (fields-strsep b':' s, search_path_lem fuel (strsep b':' s).1 rest) refl

  -- An element is not empty, and the path below it has a slash in front of the name: the one that
  -- the element ends in, or one that is added.
  pub data Below : Bytes → Bytes → Type 0 where
    with_slash : (d : Bytes) → Below (d ++ b'/' ∷ []) (d ++ b'/' ∷ argv0)
    no_slash : (d : Bytes) (c : ℕ) → c ≢ b'/' → Below (d ++ c ∷ []) (d ++ c ∷ b'/' ∷ argv0)

  -- An element that the search passes over: the path below it is short enough, and no file.
  abbrev pub Passes : Bytes → Type 0
  Passes e = (p : Bytes) × Below e p × (length p < f.path_max) × (f.exists p ≡ false)

  -- An element that holds the program, and its path.
  abbrev pub Holds : Bytes → Bytes → Type 0
  Holds e p = Below e p × (length p < f.path_max) × (f.exists p ≡ true)

  try-Below :
      (e p : Bytes) (r : Outcome (Option Bytes))
      → Below e p
      → try_element f argv0 e r ≡ try_possible f p r
  unfolding try_element
  try-Below e p r (with_slash d) = rw (try_element, slash_behind-append d b'/', append_assoc) refl
  try-Below e p r (no_slash d c n) =
      let other : (c == b'/') ≡ false = ground arith in
      rw (try_element, slash_behind-append d c, other, append_assoc) refl

  passes : (e : Bytes) (r : Outcome (Option Bytes)) → Passes e → try_element f argv0 e r ≡ r
  passes e r (p, b, h, x) =
      let short : leb f.path_max (length p) ≡ false = ground arith in
      try-Below e p r b ∙ (rw (short, x) refl)

  holds :
      (e p : Bytes) (r : Outcome (Option Bytes)) → Holds e p → try_element f argv0 e r ≡ ok (some p)
  holds e p r (b, h, x) =
      let short : leb f.path_max (length p) ≡ false = ground arith in
      try-Below e p r b ∙ (rw (short, x) refl)

  try_all-append :
      (pre es : List Bytes) → All Passes pre → try_all f argv0 (pre ++ es) ≡ try_all f argv0 es
  try_all-append [] es h = refl
  try_all-append (e ∷ pre) es (p, h) =
      passes e (try_all f argv0 (pre ++ es)) p ∙ try_all-append pre es h

-- The branch of `get_path` that searches.
searches :
    (f : Files) (argv0 : Bytes)
    → has_slash argv0 ≡ false
    → get_path f argv0 ≡ try_all f argv0 (fields b':' f.path)
unfolding get_path has_slash
searches f [] h = search_path_lem f [] (suc (suc (length f.path))) (some f.path) (omega arith)
searches f (c ∷ t) h = elim (Bool-cases (c == b'/')) [
  | inl e ↦ absurd (ground arith)
  | inr e ↦
      let rest : has_slash t ≡ false = ground arith in
      rw (e, rest)
        (search_path_lem f (c ∷ t) (suc (suc (length f.path))) (some f.path) (omega arith))
]

-- `get_path` of a name without a slash finds the program in the first element of $PATH that holds
-- it, with one slash added between the two exactly where the element does not end in one.
-- Conditions: no element in front of that one holds it, and up to there no element is empty and no
-- path is longer than the buffer.
pub get_path-first :
    (f : Files) (argv0 : Bytes) (pre post : List Bytes) (e p : Bytes)
    → has_slash argv0 ≡ false
    → fields b':' f.path ≡ pre ++ e ∷ post
    → All (Passes f argv0) pre
    → Holds f argv0 e p
    → get_path f argv0 ≡ ok (some p)
get_path-first f argv0 pre post e p slash split passed h =
    searches f argv0 slash
    ∙ ap (try_all f argv0) split
    ∙ try_all-append f argv0 pre (e ∷ post) passed
    ∙ holds f argv0 e p (try_all f argv0 post) h

-- Where no element of $PATH holds the program `get_path` gives NULL. Conditions: no element is
-- empty, and no path is longer than the buffer.
pub get_path-nowhere :
    (f : Files) (argv0 : Bytes)
    → has_slash argv0 ≡ false
    → All (Passes f argv0) (fields b':' f.path)
    → get_path f argv0 ≡ ok none
get_path-nowhere f argv0 slash p = searches f argv0 slash ∙ go (fields b':' f.path) p
  where
    go : (es : List Bytes) → All (Passes f argv0) es → try_all f argv0 es ≡ ok none
    go [] h = refl
    go (e ∷ es) (h, hs) = passes f argv0 e (try_all f argv0 es) h ∙ go es hs

-- For a name without a slash, an empty element of $PATH, which by convention is the working
-- directory, makes `get_path` read in front of the element: `strlen (element) - 1` wraps around.
-- Conditions: each element in front of it is not empty and does not hold the program, and the path
-- below it fits the buffer.
pub get_path-empty_element :
    (f : Files) (argv0 : Bytes) (pre post : List Bytes)
    → has_slash argv0 ≡ false
    → fields b':' f.path ≡ pre ++ [] ∷ post
    → All (Passes f argv0) pre
    → get_path f argv0 ≡ halt undefined
get_path-empty_element f argv0 pre post slash split p =
    searches f argv0 slash
    ∙ ap (try_all f argv0) split
    ∙ try_all-append f argv0 pre ([] ∷ post) p
    ∙ (unfold try_element slash_behind in refl)
