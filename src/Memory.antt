-- ===== src/Memory.antt =====
-- Memory for wide characters: an array of cells, each with a character or never written. An access
-- past the end, or a read of a cell that was never written, has no result.
pub mod Laws
use mathlib.Core.Option
use procenv.Prelude.{
  ℕ, zero, suc, Option, none, some, List, [], ◌∷◌, ◌++◌, map, replicate, take, Text,
}

abbrev pub Cell : Type 0
Cell = Option ℕ

-- `realloc` to `n` cells: what fits is kept, and new cells are not written.
abbrev pub resize : ℕ → List Cell → List Cell
resize zero cs = []
resize (suc n) [] = none ∷ resize n []
resize (suc n) (c ∷ cs) = c ∷ resize n cs

-- `realloc` of a pointer that may be NULL.
abbrev pub realloc : Option (List Cell) → ℕ → List Cell
realloc none n = resize n []
realloc (some cs) n = resize n cs

-- `memset (.., 0, ..)` over `n` cells that have just been allocated.
abbrev pub zeros : ℕ → List Cell
zeros n = replicate n (some 0)

-- `buf[i] = c`
abbrev pub store : ℕ → ℕ → List Cell → Option (List Cell)
store i c [] = none
store zero c (_ ∷ cs) = some (some c ∷ cs)
store (suc i) c (x ∷ cs) = Option.map (◌∷◌ x) (store i c cs)

-- `buf[i]`
abbrev pub load : ℕ → List Cell → Option ℕ
load i [] = none
load zero (c ∷ cs) = c
load (suc i) (c ∷ cs) = load i cs

-- The characters of `src`, then a terminator, over the first cells.
abbrev pub overwrite : List Cell → Text → Option (List Cell)
overwrite [] src = none
overwrite (_ ∷ cs) [] = some (some 0 ∷ cs)
overwrite (_ ∷ cs) (c ∷ src) = Option.map (◌∷◌ (some c)) (overwrite cs src)

-- The same from cell `i` on, as `swprintf (buf + i, ..)` writes.
abbrev pub write_at : ℕ → Text → List Cell → Option (List Cell)
write_at zero src cs = overwrite cs src
write_at (suc i) src [] = none
write_at (suc i) src (c ∷ cs) = Option.map (◌∷◌ c) (write_at i src cs)

-- To the first terminator, and the characters of `src` from there.
abbrev pub concatenate : List Cell → Text → Option (List Cell)
concatenate [] src = none
concatenate (none ∷ cs) src = none
concatenate (some zero ∷ cs) src = overwrite (some zero ∷ cs) src
concatenate (some (suc c) ∷ cs) src = Option.map (◌∷◌ (some (suc c))) (concatenate cs src)

-- `wcsncat (buf + i, src, n)`
abbrev pub wcsncat : ℕ → List Cell → Text → ℕ → Option (List Cell)
wcsncat zero cs src n = concatenate cs (take n src)
wcsncat (suc i) [] src n = none
wcsncat (suc i) (c ∷ cs) src n = Option.map (◌∷◌ c) (wcsncat i cs src n)

-- The wide string that begins at the first cell.
abbrev pub read_text : List Cell → Option Text
read_text [] = none
read_text (none ∷ cs) = none
read_text (some zero ∷ cs) = some []
read_text (some (suc c) ∷ cs) = Option.map (◌∷◌ (suc c)) (read_text cs)

-- A text that stands in memory, and what stands behind it.
abbrev pub written : Text → List Cell → List Cell
written t cs = map some t ++ cs
