-- ===== src/Output/Encode/Translate.antt =====
-- What `output_translate` of src/output.c does to a text.
use Prim.Native.Nat.add
use procenv.Prelude.{
  ℕ, suc, ◌+◌, ◌-◌, ◌≡◌, ◌≢◌, NoNul, All-append, refl, Option, none, some, List, [], ◌∷◌, ◌++◌,
  append-nil, append_assoc, length, length-append, take_all, Text, ok, arith, Bool-cases, inl, inr,
  ◌⊎◌, ◌==◌,
}
use procenv.Memory.{zeros, written, overwrite}
use procenv.Memory.Laws.{wcsncat-written, written-append, load_end}
use procenv.Pstring.{PString, pstring_create, text_of}
use procenv.Output.{OutputFormat}
use procenv.Output.Encode.{
  xml_map, json_map, TranslateMapEntry, translate_map, extra_for, extra_of, replacement, add_piece,
  translate_pass, translate_expanded, output_translate,
}

-- One character, replaced if the table has it.
abbrev pub or_kept : Option Text → ℕ → Text
or_kept none c = c ∷ []
or_kept (some to) c = to

abbrev pub replaced : List TranslateMapEntry → ℕ → Text
replaced m c = or_kept (replacement m c) c

-- The text with every character replaced.
unfoldable pub translate : List TranslateMapEntry → Text → Text
translate m [] = []
translate m (c ∷ t) = replaced m c ++ translate m t

pub overwrite-zeros :
    (x : Text) (k : ℕ) → overwrite (zeros (suc (length x + k))) x ≡ some (written x (zeros (suc k)))
overwrite-zeros [] k = rw add.zero refl
overwrite-zeros (c ∷ x) k = rw (add.suc, overwrite-zeros x k) refl

-- A piece that fits is written behind what is there.
add_piece-written :
    (done x : Text) (k : ℕ)
    → add_piece (written done (zeros (suc (length x + k)))) (length done) x
      ≡ ok (written (done ++ x) (zeros (suc k)), length (done ++ x))
add_piece-written done x k =
    rw
      (
        wcsncat-written done x (length x) (zeros (suc (length x + k))),
        take_all (length x) x (omega arith),
        overwrite-zeros x k,
        written-append done x (zeros (suc k)),
        length-append done x,
      )
      refl

Option-cases : {A : Type 0} (o : Option A) → (o ≡ none) ⊎ ((a : A) × (o ≡ some a))
Option-cases none = inl refl
Option-cases (some a) = inr (a, refl)

module _ (m : List TranslateMapEntry) where
  -- The second pass writes the translation behind what is there and what is pending.
  translate_pass-written :
      (t pending done : Text) (r : ℕ)
      → r ≡ length pending + length (translate m t)
      → translate_pass m (written done (zeros (suc r))) (length done) pending t
        ≡ ok (
          written (done ++ (pending ++ translate m t)) (zeros 1),
          length (done ++ (pending ++ translate m t)),
        )
  unfolding translate_pass translate
  translate_pass-written [] pending done r h =
      let room : r ≡ length pending + 0 = omega arith in
      rw (room, append-nil) (add_piece-written done pending 0)
  translate_pass-written (c ∷ t) pending done r h = elim (Option-cases (replacement m c)) [
    | inl keep ↦
        let h' = rw keep at h in
        rw (translate_pass, keep)
          (rw append_assoc at (
            translate_pass-written t (pending ++ c ∷ []) done r
              (omega (arith, h', length-append pending (c ∷ [])))))
    | inr (to, e) ↦
        let h' = rw e at h in
        let l = length (translate m t) in
        let room : r ≡ length pending + (length to + l) =
          omega (arith, h', length-append to (translate m t)) in
        rw
          (
            translate_pass,
            e,
            room,
            add_piece-written done pending (length to + l),
            add_piece-written (done ++ pending) to l,
            ← append_assoc,
            ← append_assoc,
          )
          (translate_pass-written t [] ((done ++ pending) ++ to) l (omega arith))
  ]

-- No replacement holds a nul.
abbrev pub HasNoNul : List TranslateMapEntry → Type 0
HasNoNul [] = Unit {0}
HasNoNul (e ∷ m) = NoNul e.0 × HasNoNul m

NoNul-replacement : (m : List TranslateMapEntry) (c : ℕ) → HasNoNul m → c ≢ 0 → NoNul (replaced m c)
unfolding replacement
NoNul-replacement [] c h n = (n, tt)
NoNul-replacement ((to, from) ∷ m) c h n = elim (Bool-cases (c == from)) [
  | inl e ↦ rw e h.0
  | inr e ↦ rw e (NoNul-replacement m c h.1 n)
]

-- What both tables of the code have: an entry makes a text longer, by the amount that the first pass
-- adds, and no character has two entries.
pub record IsTable (m : List TranslateMapEntry) : Type 0 where
  pub sizes : (c : ℕ) → length (replaced m c) ≡ extra_for m c + 1
  pub keeps : (c : ℕ) → extra_for m c ≡ 0 → replaced m c ≡ c ∷ []
  pub no_nul : HasNoNul m

module _ (m : List TranslateMapEntry) (table : IsTable m) where
  pub length-translate : (t : Text) → length (translate m t) ≡ length t + extra_of m t
  unfolding translate extra_of
  length-translate [] = refl
  length-translate (c ∷ t) =
      omega (arith, length-append (replaced m c) (translate m t), length-translate t, table.sizes c)

  pub NoNul-translate : (t : Text) → NoNul t → NoNul (translate m t)
  unfolding translate
  NoNul-translate [] h = tt
  NoNul-translate (c ∷ t) h =
      All-append (λ c. c ≢ 0) (replaced m c) (translate m t)
        (NoNul-replacement m c table.no_nul h.0) (NoNul-translate t h.1)

  translate-same : (t : Text) → extra_of m t ≡ 0 → translate m t ≡ t
  unfolding translate extra_of
  translate-same [] h = refl
  translate-same (c ∷ t) h = rw (table.keeps c (omega arith), translate-same t (omega arith)) refl

  expanded :
      (t : Text) (len : ℕ)
      → len ≡ suc (length (translate m t))
      → translate_expanded m t len ≡ ok (pstring_create (translate m t))
  unfolding translate_expanded pstring_create
  expanded t len h =
      let u = translate m t in
      let last : suc (length u) - 1 ≡ length u = omega arith in
      let one : length u + 1 ≡ 1 + length u = omega arith in
      let all : suc (length u) ≡ 1 + length u = omega arith in
      rw
        (
          h,
          translate_pass-written m t [] [] (length u) (omega arith),
          last,
          load_end u (some 0) [],
          one,
          all,
        )
        refl

  -- `output_translate` of a pstring whose length counts its terminator gives a new one of the text
  -- with every character of the table replaced, of exactly the size that it needs.
  pub output_translate_lem :
      (f : OutputFormat)
      → translate_map f ≡ ok m
      → (s : PString) (t : Text) → text_of s ≡ ok t
      → s.len ≡ length t + 1
      → output_translate f s ≡ ok (pstring_create (translate m t))
  unfolding output_translate
  output_translate_lem f e s t is_t l = elim (Bool-cases (extra_of m t == 0)) [
    | inl same ↦ rw (e, is_t, same, translate-same t (ground arith)) refl
    | inr more ↦
        rw (e, is_t, more) (expanded t (s.len + extra_of m t) (omega (arith, length-translate t)))
  ]

-- The two tables are such.
pub xml_map-IsTable : IsTable xml_map
unfolding extra_for replacement
xml_map-IsTable = record {
  sizes = λ c. ground arith;
  keeps = λ c h. ground arith;
  no_nul = (
    (omega arith, (omega arith, (omega arith, (omega arith, (omega arith, (omega arith, tt)))))),
    (
      (omega arith, (omega arith, (omega arith, (omega arith, (omega arith, (omega arith, tt)))))),
      (
        (omega arith, (omega arith, (omega arith, (omega arith, (omega arith, tt))))),
        (
          (omega arith, (omega arith, (omega arith, (omega arith, tt)))),
          ((omega arith, (omega arith, (omega arith, (omega arith, tt)))), tt),
        ),
      ),
    ),
  );
}

pub json_map-IsTable : IsTable json_map
unfolding extra_for replacement
json_map-IsTable = record {
  sizes = λ c. ground arith;
  keeps = λ c h. ground arith;
  no_nul = (
    (omega arith, (omega arith, tt)),
    ((omega arith, (omega arith, (omega arith, (omega arith, tt)))), tt),
  );
}
