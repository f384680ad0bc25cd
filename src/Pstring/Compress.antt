-- ===== src/Pstring/Compress.antt =====
-- `pstring_compress` of src/pstring.c. The code reads one buffer at `to` and writes it at `from`, which
-- is never behind `to`: what is read is not written yet. The model reads one text and writes another.
pub mod Clean
use procenv.Prelude.{
  ℕ, zero, suc, ◌+◌, ◌-◌, ◌*◌, Option, none, some, List, [], ◌∷◌, length, Bool, true, false, ◌&&◌,
  not, ◌==◌, ltb, if◌then◌else◌, Text, Outcome, ok, halt, assertion, endless, undefined,
}
use procenv.Memory.{Cell, resize, store, overwrite}
use procenv.Pstring.{PString, sizeof_wchar, defined, then_do, text_of}

-- `*to == c`, for a `c` that is not nul.
abbrev pub starts_with : ℕ → Text → Bool
starts_with c [] = false
starts_with c (x ∷ t) = x == c

-- `while (*to == L'\n' && *(to+1) == L'\n')`: what is left, and how many characters are not.
unfoldable pub skip_blanks : Text → Text × ℕ
skip_blanks [] = ([], 0)
skip_blanks (c ∷ t) =
    let rest = skip_blanks t in
    if c == 10 && starts_with 10 t then (rest.0, suc (rest.1)) else (c ∷ t, 0)

-- `while (*to == remove_char)`
unfoldable pub skip_run : ℕ → Text → Text × ℕ
skip_run w [] = ([], 0)
skip_run w (c ∷ t) =
    let rest = skip_run w t in if c == w then (rest.0, suc (rest.1)) else (c ∷ t, 0)

-- `while (*to == L'\n')`
unfoldable pub skip_newlines : Text → Text
skip_newlines [] = []
skip_newlines (c ∷ t) = let rest = skip_newlines t in if c == 10 then rest else c ∷ t

-- A round from `again:` to the copying, with `blanks` and `count`.
unfoldable pub again : ℕ → ℕ → Text → ℕ → ℕ → Outcome (Text × (ℕ × ℕ))
again zero w t blanks count = halt endless
again (suc fuel) w t blanks count =
    let start = (skip_blanks t).0 in
    let blanks1 = blanks + (skip_blanks t).1 in
    let to = (skip_run w start).0 in
    let run = (skip_run w start).1 in
    let rest = again fuel w (skip_newlines to) blanks1 (count + run) in
    if run == 0
    then ok (start, (blanks1, count))
    else if starts_with 10 to && not (run == 1)
    then (if starts_with w (skip_newlines to)
        then rest
        else ok (skip_newlines to, (blanks1 + 1, count + run)))
    else ok (start, (blanks1, 0))

-- `*from++ = *to++`, and what the rounds behind it give. At the terminator it copies that, and the loop
-- goes on to read behind it.
unfoldable pub copy_one :
    (Text → ℕ → ℕ → Outcome (Text × (ℕ × ℕ))) → Text × (ℕ × ℕ) → Outcome (Text × (ℕ × ℕ))
copy_one rest ([], n) = halt undefined
copy_one rest (x ∷ t, n) = then_do (rest t n.0 n.1) λ out. ok (x ∷ out.0, out.1)

-- The outer loop: the text that is written, and the two counts.
unfoldable pub compress_loop : ℕ → ℕ → Text → ℕ → ℕ → Outcome (Text × (ℕ × ℕ))
compress_loop zero w t blanks count = halt endless
compress_loop (suc fuel) w [] blanks count = ok ([], (blanks, count))
compress_loop (suc fuel) w (c ∷ t) blanks count =
    then_do (again (suc (suc (length t))) w (c ∷ t) blanks count) (copy_one (compress_loop fuel w))

-- What follows the loop. A `new_len` below 0 would wrap around, and the memory for it not exist.
unfoldable pub shrink : PString → List Cell → ℕ → Outcome PString
shrink s cs removed =
    if removed == 0
    then ok (record s { buf = some cs })
    else if ltb s.len removed
    then halt assertion
    else let new_len = s.len - removed in
      then_do (defined (store (new_len - 1) 0 (resize new_len cs)))
        λ cs1. ok (record { buf = some cs1; len = new_len; size = new_len * sizeof_wchar })

abbrev pub compress_cells : ℕ → PString → Option (List Cell) → Outcome PString
compress_cells w s none = halt assertion
compress_cells w s (some cs) = then_do (text_of s) λ t.
    then_do (compress_loop (suc (length t)) w t 0 0)
      λ out. then_do (defined (overwrite cs out.0)) λ cs1. shrink s cs1 (out.1.0 + out.1.1)

unfoldable pub pstring_compress : ℕ → PString → Outcome PString
pstring_compress w s = compress_cells w s s.buf
