-- ===== src/StringUtil/Fields.antt =====
-- `split_fields` of src/string-util.c. A string is its bytes before the terminator.
pub mod Splits
use procenv.Prelude.{
  ℕ, zero, suc, Option, List, [], ◌∷◌, length, Bool, true, false, ◌==◌, if◌then◌else◌, Bytes,
  Outcome, ok, halt, endless, assertion,
}
use procenv.Pstring.{then_do}

-- `while (.. *p == delimiter) p++;`
unfoldable pub skip_delimiters : ℕ → Bytes → Bytes
skip_delimiters d [] = []
skip_delimiters d (c ∷ t) = if c == d then skip_delimiters d t else c ∷ t

-- `while (.. *p && *p != delimiter) p++;` splits what is left at `p`.
unfoldable pub take_field : ℕ → Bytes → Bytes × Bytes
take_field d [] = ([], [])
take_field d (c ∷ t) = if c == d then ([], c ∷ t) else (c ∷ (take_field d t).0, (take_field d t).1)

-- `if (! compress) p++;`
abbrev pub field_start : Bool → ℕ → Bytes → Bytes
field_start true c t = c ∷ t
field_start false c t = t

-- The body of the outer loop behind `skip leading prefix`, with what the rounds behind it give.
unfoldable pub split_at : (Bytes → Outcome (List Bytes)) → ℕ → Bool → Bytes → Outcome (List Bytes)
split_at rest d compress [] = ok []
split_at rest d compress (c ∷ t) =
    then_do (rest (take_field d (field_start compress c t)).1)
      λ fields. ok ((take_field d (field_start compress c t)).0 ∷ fields)

-- The outer loop, with the fields it adds to the array.
unfoldable pub split_loop : ℕ → ℕ → Bool → Bytes → Outcome (List Bytes)
split_loop zero d compress t = halt endless
split_loop (suc fuel) d compress t =
    split_at (split_loop fuel d compress) d compress (if compress then skip_delimiters d t else t)

-- The array; the count that is returned is its length.
unfoldable pub split_fields : Bytes → ℕ → Bool → Outcome (List Bytes)
split_fields string delimiter compress =
    if delimiter == 0
    then halt assertion
    else split_loop (suc (suc (length string))) delimiter compress string
