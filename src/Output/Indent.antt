-- ===== src/Output/Indent.antt =====
-- The indentation of src/output.c: `inc_indent`, `dec_indent` and `add_indent`.
use procenv.Prelude.{
  ℕ, zero, suc, ◌-◌, Option, none, some, List, [], ◌∷◌, ◌++◌, replicate, Bool, true, false, not,
  if◌then◌else◌, Text, ℤ, pos, negsuc, ◌+ℤ◌, ◌-ℤ◌, is_negative, fits_int, Outcome, ok, halt,
  undefined, Cmd, pure, ◌>>◌, assert,
}
use procenv.Memory.{Cell}
use procenv.Pstring.{PString, then_do}
use procenv.StringUtil.{wappendf, pappend}
use procenv.Output.{State, same, common_assert, on_doc, putf}

-- `indent = n`; an overflow of `int` is undefined.
abbrev pub set_indent : ℤ → Cmd State (Unit {0})
set_indent n s = if fits_int n then ok (tt, record s { indent = n }) else halt undefined

unfoldable pub inc_indent : Cmd State (Unit {0})
inc_indent s = (assert (not (is_negative s.indent)) >> set_indent (s.indent +ℤ s.indent_amount)) s

unfoldable pub dec_indent : Cmd State (Unit {0})
dec_indent s =
    (assert (not (is_negative s.indent)) >> set_indent (s.indent -ℤ s.indent_amount) >> λ t.
    assert (not (is_negative t.indent)) t)
      s

-- One character in a field of a width: `%*s` and `%*lc`. A negative width pads behind.
abbrev pub padded : ℤ → ℕ → Text
padded (pos n) c = replicate (n - 1) b' ' ++ c ∷ []
padded (negsuc n) c = c ∷ replicate n b' '

-- `wmemset (buf, c, wcslen (buf))`
abbrev pub wmemset : ℕ → List Cell → List Cell
wmemset c [] = []
wmemset c (none ∷ cs) = none ∷ cs
wmemset c (some zero ∷ cs) = some zero ∷ cs
wmemset c (some (suc x) ∷ cs) = some c ∷ wmemset c cs

abbrev pub is_zero : ℤ → Bool
is_zero (pos zero) = true
is_zero (pos (suc n)) = false
is_zero (negsuc n) = false

-- The `else` branch of `add_indent`: a buffer of the right length, overwritten with the indent
-- character.
unfoldable pub add_indent_char : State → Outcome (Option PString)
add_indent_char s = then_do (wappendf none (some (padded s.indent s.wide_indent_char))) λ buffer.
    elim buffer [
      | none ↦ halt undefined
      | some b ↦ pappend s.doc (record b {
        buf = elim b.buf [ none ↦ none | some cs ↦ some (wmemset s.wide_indent_char cs) ];
      })
    ]

-- The call at `&doc`, its only use.
unfoldable pub add_indent : Cmd State (Unit {0})
add_indent = common_assert >> λ s.
    if is_zero s.indent
    then pure tt s
    else if same s.indent_char (b' ' ∷ [])
    then putf (some (padded s.indent b' ')) s
    else on_doc (add_indent_char s) s
