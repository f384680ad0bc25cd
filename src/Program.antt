-- ===== src/Program.antt =====
-- src/procenv.c: the program. The calls of the output layer that its functions make, and the table
-- of functions that a platform provides.
pub mod Emits
pub mod Fails
pub mod Tokens
pub mod Environment
pub mod Show
pub mod Main
pub mod Options
mod TestData
mod Tests
use procenv.Prelude.{
  ℕ, Option, none, some, List, [], ◌∷◌, Bool, true, false, Bytes, undefined, Cmd, pure, stop, codes,
  and_then, Outcome, halt, ℤ, pos, negsuc, int_max, ltb, if◌then◌else◌, ◌-◌, ◌^◌,
}
use procenv.Pstring.{Decode}
use procenv.Printf.{Arg, null, str, char, int, uint, vswprintf, vsnprintf}
use procenv.StringUtil.{appendf}
use procenv.Output.{State}
use procenv.Output.Elements.{entry}

abbrev pub has_null : List Arg → Bool
has_null [] = false
has_null (null ∷ args) = true
has_null (str s ∷ args) = has_null args
has_null (char c ∷ args) = has_null args
has_null (int n ∷ args) = has_null args
has_null (uint n ∷ args) = has_null args

-- `entry (name, fmt, ..)`. A NULL pointer for `%s` has no meaning.
unfoldable pub entryf : Decode → (ℕ → Bool) → Bytes → Bytes → List Arg → Cmd State (Unit {0})
entryf decode iswprint name fmt args = elim (has_null args) [
  | true ↦ stop undefined
  | false ↦ entry decode iswprint name fmt (vswprintf decode args)
]

-- `appendf (&dest, fmt, ..)`
unfoldable pub append_format : Option Bytes → Bytes → List Arg → Outcome (Option Bytes)
append_format dest fmt args = elim (has_null args) [
  | true ↦ halt undefined
  | false ↦ appendf dest (vsnprintf args fmt)
]

-- A `uid_t`, `gid_t` or other unsigned number of 32 bits that is printed by %d.
abbrev pub as_int : ℕ → ℤ
as_int n = if ltb int_max n then negsuc (2 ^ 32 - 1 - n) else pos n

-- `if (ops->f) ops->f ();`
abbrev pub call_op : Option (Cmd State (Unit {0})) → Cmd State (Unit {0})
call_op none = pure tt
call_op (some f) = f

-- A command for each element of a list, in order.
unfoldable pub each : {A : Type 0} → (A → Cmd State (Unit {0})) → List A → Cmd State (Unit {0})
each f [] = pure tt
each f (x ∷ xs) = λ s. and_then (f x s) λ _. each f xs

-- What the program prints for a test.
abbrev pub yes_or_no : Bool → Bytes
yes_or_no true = codes "yes"
yes_or_no false = codes "no"

abbrev pub or_unknown : Option Bytes → Bytes
or_unknown none = codes "unknown"
or_unknown (some s) = s

abbrev pub or_empty : Option Bytes → Bytes
or_empty none = []
or_empty (some s) = s
