-- ===== src/Output/Encode.antt =====
-- `output_translate` and `encode_string` of src/output.c, on wide strings in memory.
pub mod Codes
pub mod Read
mod Tests
pub mod Translate
use procenv.Prelude.{
  ℕ, zero, suc, ◌+◌, ◌-◌, ◌*◌, ◌/◌, ◌%◌, Option, none, some, List, [], ◌∷◌, ◌++◌, length, Bool,
  ◌==◌, leb, ltb, if◌then◌else◌, Text, Outcome, ok, halt, assertion, undefined,
}
use procenv.Memory.{Cell, zeros, load, store, write_at, wcsncat, read_text}
use procenv.Pstring.{PString, sizeof_wchar, defined, then_do, pstring_create, text_of}
use procenv.Output.{OutputFormat, text, crumb, json, xml}

-- A `TranslateMapEntry`: the replacement, and the character it stands for.
abbrev pub TranslateMapEntry : Type 0
TranslateMapEntry = Text × ℕ

-- The two tables of `translate_table` without their terminators, whose `from` is L'\0' and so fits
-- no character of a string.
abbrev pub xml_map : List TranslateMapEntry
xml_map =
    (b'&' ∷ b'a' ∷ b'p' ∷ b'o' ∷ b's' ∷ b';' ∷ [], 39)
    ∷ (b'&' ∷ b'q' ∷ b'u' ∷ b'o' ∷ b't' ∷ b';' ∷ [], 34)
    ∷ (b'&' ∷ b'a' ∷ b'm' ∷ b'p' ∷ b';' ∷ [], 38)
    ∷ (b'&' ∷ b'l' ∷ b't' ∷ b';' ∷ [], 60)
    ∷ (b'&' ∷ b'g' ∷ b't' ∷ b';' ∷ [], 62)
    ∷ []

abbrev pub json_map : List TranslateMapEntry
json_map = (92 ∷ 34 ∷ [], 34) ∷ (92 ∷ 92 ∷ 92 ∷ 92 ∷ [], 92) ∷ []

-- The table of a format; `output_translate` asserts that the format has one.
abbrev pub translate_map : OutputFormat → Outcome (List TranslateMapEntry)
translate_map xml = ok xml_map
translate_map json = ok json_map
translate_map text = halt assertion
translate_map crumb = halt assertion

-- The inner loop of the first pass: what the matching entries add. No `break` ends it.
unfoldable pub extra_for : List TranslateMapEntry → ℕ → ℕ
extra_for [] c = 0
extra_for ((to, from) ∷ map') c = (if c == from then length to - 1 else 0) + extra_for map' c

-- The first pass.
unfoldable pub extra_of : List TranslateMapEntry → Text → ℕ
extra_of map' [] = 0
extra_of map' (c ∷ t) = extra_for map' c + extra_of map' t

-- The inner loop of the second pass: the first entry that fits.
unfoldable pub replacement : List TranslateMapEntry → ℕ → Option Text
replacement [] c = none
replacement ((to, from) ∷ map') c = if c == from then some to else replacement map' c

-- `wcsncat (result->buf + result->len, x, amount); result->len += amount`
abbrev pub add_piece : List Cell → ℕ → Text → Outcome (List Cell × ℕ)
add_piece buf len x =
    then_do (defined (wcsncat len buf x (length x))) λ buf'. ok (buf', len + length x)

-- The second pass: `pending` are the characters from `start` to `p`.
unfoldable pub translate_pass :
    List TranslateMapEntry → List Cell → ℕ → Text → Text → Outcome (List Cell × ℕ)
translate_pass map' buf len pending [] = add_piece buf len pending
translate_pass map' buf len pending (c ∷ t) =
    let keep = translate_pass map' buf len (pending ++ c ∷ []) t in
    elim (replacement map' c) [
      | none ↦ keep
      | some to ↦ then_do (add_piece buf len pending) λ (buf1, len1).
          then_do (add_piece buf1 len1 to) λ (buf2, len2). translate_pass map' buf2 len2 [] t
    ]

-- What `output_translate` does where a character has to be replaced, and its last check.
unfoldable pub translate_expanded : List TranslateMapEntry → Text → ℕ → Outcome PString
translate_expanded map' t len = then_do (translate_pass map' (zeros len) 0 [] t) λ (buf, filled).
    then_do (defined (load (len - 1) buf)) λ end.
      if end == 0
      then ok (record { buf = some buf; len = filled + 1; size = len * sizeof_wchar })
      else halt assertion

unfoldable pub output_translate : OutputFormat → PString → Outcome PString
output_translate f s = then_do (translate_map f) λ map'. then_do (text_of s) λ t.
    if extra_of map' t == 0
    then ok (pstring_create t)
    else translate_expanded map' t (s.len + extra_of map' t)

-- `%x` of a number in at most eight digits.
abbrev pub hex_digit : ℕ → ℕ
hex_digit d = if ltb d 10 then 48 + d else 87 + d

unfoldable pub hex_onto : ℕ → ℕ → Text → Text
hex_onto zero n out = out
hex_onto (suc fuel) n out =
    let rest = hex_onto fuel (n / 16) (hex_digit (n % 16) ∷ out) in if n == 0 then out else rest

-- Zeros in front, up to a precision.
unfoldable pub zero_padded : ℕ → Text → Text
zero_padded zero x = x
zero_padded (suc n) x = if leb (suc n) (length x) then x else 48 ∷ zero_padded n x

abbrev pub hex : ℕ → ℕ → Text
hex precision n = zero_padded precision (hex_onto 8 n [])

-- L"\\u%4.4x" and L"&#x%2.2x;"
unfoldable pub non_printable_code : OutputFormat → ℕ → Text
non_printable_code json c = 92 ∷ b'u' ∷ hex 4 c
non_printable_code _ c = b'&' ∷ b'#' ∷ b'x' ∷ (hex 2 c ++ b';' ∷ [])

module _ (iswprint : ℕ → Bool) where
  unfoldable pub non_printables : Text → ℕ
  non_printables [] = 0
  non_printables (c ∷ t) = (if iswprint c then 0 else 1) + non_printables t

  -- The last loop of `encode_string`: `q` is the position in the new buffer. A code that does not
  -- fit `new_size` makes `swprintf` leave the buffer in no known state.
  unfoldable pub encode_pass : OutputFormat → ℕ → List Cell → ℕ → Text → Outcome (List Cell)
  encode_pass f new_size buf q [] = ok buf
  encode_pass f new_size buf q (c ∷ t) =
      let code = non_printable_code f c in
      if iswprint c
      then then_do (defined (store q c buf)) (λ buf'. encode_pass f new_size buf' (q + 1) t)
      else if leb new_size (length code)
      then halt undefined
      else then_do (defined (write_at q code buf))
          (λ buf'. encode_pass f new_size buf' (q + length code) t)

  -- The part of `encode_string` from the count of non-printable characters on.
  unfoldable pub encode_non_printables : OutputFormat → PString → Outcome PString
  encode_non_printables f s = then_do (text_of s) λ t.
      let count = non_printables t in
      if count == 0
      then ok s
      else let new_size = (s.len - count) + count * 6 in
        then_do (encode_pass f new_size (zeros (1 + new_size)) 0 t) λ buf.
          then_do (defined (read_text buf)) λ u.
            ok (record { buf = some buf; len = length u + 1; size = (1 + new_size) * sizeof_wchar })

  -- The new value of `*pstr`. The return value, which is negative in no run modelled, is left out.
  unfoldable pub encode_string : OutputFormat → PString → Outcome PString
  encode_string f s = if leb s.len 1 then ok s else elim f [
    | text ↦ ok s
    | crumb ↦ ok s
    | json ↦ then_do (output_translate json s) (encode_non_printables json)
    | xml ↦ then_do (output_translate xml s) (encode_non_printables xml)
  ]
