-- ===== src/StringUtil.antt =====
-- src/string-util.c. A `pstring **` is the pointer's value before and after the call, NULL as none.
-- A `const wchar_t *` source is the text before its terminator.
pub mod ByteStrings
pub mod Doc
pub mod Fields
pub mod Fresh
mod Tests
use mathlib.Core.Option
use procenv.Prelude.{
  ℕ, zero, suc, ◌+◌, ◌-◌, ◌*◌, Option, none, some, List, [], ◌∷◌, ◌++◌, length, take, Bytes, Text,
  Bool, true, false, not, ◌&&◌, ◌==◌, ltb, if◌then◌else◌, Outcome, ok, halt, died, assertion,
  undefined, endless,
}
use procenv.Memory.{Cell, realloc, resize, zeros, store, load, wcsncat, read_text, written}
use procenv.Pstring.{
  PString, sizeof_wchar, defined, then_do, Decode, char_to_wchar, pstring_new, text_of,
}

-- `if (! *dest) *dest = pstring_new ();`
abbrev pub or_new : Option PString → PString
or_new none = pstring_new
or_new (some d) = d

-- The writes of `wappendn` behind `old` characters of the buffer `cells`, and its last check.
unfoldable pub wappendn_write : ℕ → List Cell → Text → ℕ → Outcome (Option PString)
wappendn_write old cells src len =
    let total = old + len in
    then_do (defined (store total 0 cells)) λ marked.
      then_do (defined (wcsncat old marked src len)) λ done.
        then_do (defined (load total done)) λ end.
          if end == 0
          then ok
              (some (record { buf = some done; len = total; size = (1 + total) * sizeof_wchar }))
          else halt assertion

-- The steps of `wappendn` on the pstring `d`, once `len` is known not to be 0.
unfoldable pub wappendn_to : PString → Text → ℕ → Outcome (Option PString)
wappendn_to d src len =
    let total = d.len + len in
    let p = realloc d.buf (1 + total) in
    wappendn_write d.len (if d.len == 0 then zeros (1 + total) else p) src len

unfoldable pub wappendn : Option PString → Text → ℕ → Outcome (Option PString)
wappendn dest src len = if len == 0 then ok dest else wappendn_to (or_new dest) src len

unfoldable pub wappend : Option PString → Text → Outcome (Option PString)
wappend dest src = wappendn dest src (length src)

unfoldable pub wmappend : Decode → Option PString → Bytes → Outcome (Option PString)
wmappend decode dest src = elim (char_to_wchar decode src) [
  | none ↦ halt died
  | some wide_src ↦ wappend dest wide_src
]

-- The `len` bytes asked for are not looked at, but for 0: all of `src` is appended.
unfoldable pub wmappendn : Decode → Option PString → Bytes → ℕ → Outcome (Option PString)
wmappendn decode dest src len = if len == 0 then ok dest else elim (char_to_wchar decode src) [
  | none ↦ halt died
  | some wide_src ↦ wappendn dest wide_src (length wide_src)
]

-- What a format and its arguments expand to: a text, or none where an argument cannot be converted.
-- No format of the program prints a nul character, so `wcslen` of the text is its length.
abbrev pub Expansion : Type 0
Expansion = Option Text

abbrev pub default_alloc_guess_size : ℕ
default_alloc_guess_size = 8

-- `(size_t)vswprintf (new, len, fmt, ap) < len`: the text and its terminator fit, and the call
-- returns the text's length. Otherwise it returns -1, which is `SIZE_MAX` as a `size_t`.
abbrev pub vswprintf_fits : ℕ → Expansion → Bool
vswprintf_fits len none = false
vswprintf_fits len (some t) = ltb (length t) len

-- The `while (true)` loop of `wappendva`: the size at which the text fits.
unfoldable pub wappendva_loop : ℕ → Expansion → ℕ → Outcome ℕ
wappendva_loop zero e len = halt endless
wappendva_loop (suc fuel) e len =
    let rest = wappendva_loop fuel e (len + 1) in if vswprintf_fits len e then ok len else rest

-- The pstring that `wappendva` makes of its buffer of `1 + cells` cells, which hold `t` and zeros.
unfoldable pub pstring_of_buffer : Text → ℕ → PString
pstring_of_buffer t cells =
    let len = length t + 1 in
    record {
      buf = some (resize (1 + len) (written t (zeros (1 + cells - length t))));
      len = len;
      size = (1 + len) * sizeof_wchar;
    }

-- What follows the loop. Where the text did not fit the last size, the buffer holds no string that
-- the C standard specifies.
unfoldable pub wappendva_finish : Option PString → Expansion → ℕ → Outcome (Option PString)
wappendva_finish dest none cells = halt undefined
wappendva_finish dest (some t) cells = elim (vswprintf_fits cells (some t)) [
  | false ↦ halt undefined
  | true ↦ elim dest [ none ↦ ok (some (pstring_of_buffer t cells)) | some d ↦ wappend (some d) t ]
]

unfoldable pub wappendva : ℕ → Option PString → Expansion → Outcome (Option PString)
wappendva fuel dest e =
    then_do (wappendva_loop fuel e default_alloc_guess_size) λ cells. wappendva_finish dest e cells

-- Rounds that suffice for the loop, if the text can be written at all.
abbrev pub enough_rounds : Expansion → ℕ
enough_rounds none = 0
enough_rounds (some t) = suc (length t)

unfoldable pub wappendf : Option PString → Expansion → Outcome (Option PString)
wappendf dest e = wappendva (enough_rounds e) dest e

-- `fmt` is a byte string, which must not be empty; `expand` is what the wide format expands to.
unfoldable pub wmappendva :
    Decode → Option PString → Bytes → (Text → Expansion) → Outcome (Option PString)
wmappendva decode dest fmt expand = elim (char_to_wchar decode fmt) [
  | none ↦ halt died
  | some wide_fmt ↦ wappendva (enough_rounds (expand wide_fmt)) dest (expand wide_fmt)
]

unfoldable pub wmappendf :
    Decode → Option PString → Bytes → (Text → Expansion) → Outcome (Option PString)
wmappendf decode dest fmt expand = elim (char_to_wchar decode fmt) [
  | none ↦ halt died
  | some wide_fmt ↦ wappendva (enough_rounds (expand wide_fmt)) dest (expand wide_fmt)
]

-- The steps of `pappend` from the pstring `d`. `src->buf` is read up to its terminator.
unfoldable pub pappend_to : PString → PString → Outcome (Option PString)
pappend_to d src =
    let total = d.len + src.len - 1 in
    let p = realloc d.buf (1 + total) in
    then_do (text_of src) λ t. then_do (defined (wcsncat d.len p t src.len)) λ done.
      then_do (defined (store total 0 done)) λ ended.
        ok (some (record { buf = some ended; len = total; size = (1 + total) * sizeof_wchar }))

unfoldable pub pappend : Option PString → PString → Outcome (Option PString)
pappend dest src = if src.len == 0 then ok dest else pappend_to (or_new dest) src

-- The byte versions. A `char *` string is its bytes, and `strncat` finds the terminator at once.
-- With `len` past the end of `src` the check behind `strncat` reads a byte that nothing wrote.
unfoldable pub appendn : Option Bytes → Bytes → ℕ → Outcome (Option Bytes)
appendn dest src len =
    if len == 0
    then ok dest
    else if ltb (length src) len
    then halt undefined
    else ok (some (Option.get_or dest [] ++ take len src))

unfoldable pub append : Option Bytes → Bytes → Outcome (Option Bytes)
append dest src = appendn dest src (length src)

-- `vsnprintf` returns the length of the whole text, also where it does not fit; a negative value,
-- here none, is fatal.
unfoldable pub appendva_loop : ℕ → Option Bytes → ℕ → Outcome ℕ
appendva_loop zero e len = halt endless
appendva_loop (suc fuel) none len = halt died
appendva_loop (suc fuel) (some t) len =
    let rest = appendva_loop fuel (some t) (len + 1) in if ltb (length t) len then ok len else rest

unfoldable pub appendva_finish : Option Bytes → Option Bytes → Outcome (Option Bytes)
appendva_finish dest none = halt died
appendva_finish none (some t) = ok (some t)
appendva_finish (some d) (some t) = append (some d) t

unfoldable pub appendva : ℕ → Option Bytes → Option Bytes → Outcome (Option Bytes)
appendva fuel dest e =
    then_do (appendva_loop fuel e default_alloc_guess_size) λ _. appendva_finish dest e

unfoldable pub appendf : Option Bytes → Option Bytes → Outcome (Option Bytes)
appendf dest e = appendva (suc (enough_rounds e)) dest e
