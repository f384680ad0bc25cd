-- ===== src/Output/Settings.antt =====
-- The names of the output formats, as `set_output_format` reads and `get_output_format_name` gives
-- them.
use procenv.Prelude.{
  ◌≡◌, refl, sym, ap, ◌∙◌, [], ◌∷◌, Bytes, ok, codes, ◌↔◌, Bool-cases, inl, inr, true, arith,
}
use procenv.Output.{
  State, OutputFormat, text, crumb, json, xml, same, find_name, find_format, set_output_format,
  get_output_format_name,
}

pub same-eq : (a b : Bytes) → same a b ≡ true → a ≡ b
unfolding same
same-eq [] [] h = refl
same-eq [] (y ∷ b) h = cc
same-eq (x ∷ a) [] h = cc
same-eq (x ∷ a) (y ∷ b) h = ground (arith, same-eq a b)

pub same_refl : (a : Bytes) → same a a ≡ true
unfolding same
same_refl [] = refl
same_refl (x ∷ a) = ground (arith, same_refl a)

-- The names that the manual page lists for `--format`.
abbrev pub format_name : OutputFormat → Bytes
format_name text = codes "text"
format_name crumb = codes "crumb"
format_name json = codes "json"
format_name xml = codes "xml"

abbrev pub with_format : State → OutputFormat → State
with_format s f = record s { output_format = f }

-- The format whose name was given.
abbrev pub Named : Bytes → State → State → Type 0
Named name s t = (f : OutputFormat) × (name ≡ format_name f) × (t ≡ with_format s f)

set_named :
    (f : OutputFormat) (s : State) → set_output_format (format_name f) s ≡ ok (tt, with_format s f)
unfolding set_output_format find_name same
set_named text s = refl
set_named crumb s = refl
set_named json s = refl
set_named xml s = refl

got-Named : (name : Bytes) (s t : State) → set_output_format name s ≡ ok (tt, t) → Named name s t
unfolding set_output_format find_name
got-Named name s t h = elim (Bool-cases (same name (format_name text))) [
  | inl e ↦ (text, same-eq name (format_name text) e, cc)
  | inr n_text ↦ elim (Bool-cases (same name (format_name crumb))) [
    | inl e ↦ (crumb, same-eq name (format_name crumb) e, cc)
    | inr n_crumb ↦ elim (Bool-cases (same name (format_name json))) [
      | inl e ↦ (json, same-eq name (format_name json) e, cc)
      | inr n_json ↦ elim (Bool-cases (same name (format_name xml))) [
        | inl e ↦ (xml, same-eq name (format_name xml) e, cc)
        | inr n_xml ↦ absurd (cc)
      ]
    ]
  ]
]

get_named :
    (f : OutputFormat) (s : State)
    → get_output_format_name (with_format s f) ≡ ok (format_name f, with_format s f)
unfolding get_output_format_name find_format
get_named text s = refl
get_named crumb s = refl
get_named json s = refl
get_named xml s = refl

-- `set_output_format` returns for exactly the names "text", "crumb", "json" and "xml", and then sets
-- the format of that name and nothing else; `get_output_format_name` gives that name of the format
-- that is set, and changes nothing.
pub output_format-exact :
    (name : Bytes) (s t : State) (f : OutputFormat)
    → ((set_output_format name s ≡ ok (tt, t)) ↔ Named name s t)
      × (get_output_format_name (with_format s f) ≡ ok (format_name f, with_format s f))
output_format-exact name s t f = (
  (
    got-Named name s t,
    λ (g, e, h). ap (λ n. set_output_format n s) e ∙ set_named g s ∙ ap (λ u. ok (tt, u)) (sym h),
  ),
  get_named f s,
)
