-- ===== src/Program/Environment.antt =====
-- `check_envvars` of src/procenv.c: settings from the environment, and the command to run at the end.
pub mod Exec
use mathlib.Core.Option
use procenv.Prelude.{
  ℕ, zero, suc, ◌+◌, ◌-◌, ◌*◌, Option, none, some, List, [], ◌∷◌, length, replicate, Bool, true,
  false, ◌&&◌, ◌||◌, ◌==◌, leb, if◌then◌else◌, Bytes, ℤ, pos, sub_ℕ, fits_int, Outcome, ok, halt,
  undefined, endless, Cmd, pure, ◌>>=◌, ◌>>◌, codes,
}
use procenv.Pstring.{defined, then_do}
use procenv.Output.{
  Output, file, State, same, set_output_value, set_output_file, set_output_file_append,
  set_output_format, set_indent_amount, set_indent_char, set_text_separator, set_crumb_separator,
}
use procenv.Output.Elements.{lift}
use procenv.Program.Tokens.{strsep}

-- `set_output_value_raw`
abbrev pub set_output_value_raw : Output → State → State
set_output_value_raw o s = record s { output = o }

-- A setter that cannot fail.
abbrev pub modify : (State → State) → Cmd State (Unit {0})
modify f s = ok (tt, f s)

abbrev is_space : ℕ → Bool
is_space c = c == 32 || leb 9 c && leb c 13

unfoldable pub skip_spaces : Bytes → Bytes
skip_spaces [] = []
skip_spaces (c ∷ t) = let rest = skip_spaces t in if is_space c then rest else c ∷ t

-- The number that the leading digits stand for.
unfoldable pub leading_number : Bytes → ℕ → ℕ
leading_number [] n = n
leading_number (c ∷ t) n =
    let rest = leading_number t (n * 10 + (c - b'0')) in
    if leb b'0' c && leb c b'9' then rest else n

-- The sign and the digits.
unfoldable pub signed_number : Bytes → ℤ
unfolding leading_number
signed_number [] = pos 0
signed_number (c ∷ t) =
    if c == b'-'
    then sub_ℕ 0 (leading_number t 0)
    else if c == b'+'
    then pos (leading_number t 0)
    else pos (leading_number (c ∷ t) 0)

-- atoi(3), which has no meaning where the number does not fit an `int`.
unfoldable pub atoi : Bytes → Outcome ℤ
unfolding skip_spaces signed_number
atoi s = let n = signed_number (skip_spaces s) in if fits_int n then ok n else halt undefined

-- `getenv (name)`, if it is set and not empty.
abbrev pub given : (Bytes → Option Bytes) → Bytes → Option Bytes
given getenv name = elim (getenv name) [
  | none ↦ none
  | some [] ↦ none
  | some (c ∷ t) ↦ some (c ∷ t)
]

abbrev pub if_given : Option Bytes → (Bytes → Cmd State (Unit {0})) → Cmd State (Unit {0})
if_given none f = pure tt
if_given (some e) f = f e

-- "\\t" is a tab.
abbrev pub or_tab : Bytes → Bytes
or_tab e = if same e (codes "\\t") then 9 ∷ [] else e

-- An argument array is a list of pointers, NULL as none.
abbrev pub ArgArray : Type 0
ArgArray = List (Option Bytes)

-- `exec_args[i] = strdup (token)`
abbrev pub set_arg : ℕ → Bytes → ArgArray → Option ArgArray
set_arg i a [] = none
set_arg zero a (x ∷ xs) = some (some a ∷ xs)
set_arg (suc i) a (x ∷ xs) = Option.map (◌∷◌ x) (set_arg i a xs)

-- The loop that counts the fields; `index (tmp, ' ')` and the step over the space are what `strsep`
-- does to its pointer.
unfoldable pub count_fields : ℕ → Option Bytes → ℕ → Outcome ℕ
count_fields zero tmp count = halt endless
count_fields (suc fuel) none count = ok count
count_fields (suc fuel) (some []) count = ok count
count_fields (suc fuel) (some (c ∷ t)) count = elim (strsep 32 (c ∷ t)).1 [
  | none ↦ ok count
  | some r ↦ count_fields fuel (some r) (count + 1)
]

-- The loop that builds the argument array.
unfoldable pub fill_args : ℕ → Option Bytes → ℕ → ArgArray → Outcome ArgArray
fill_args zero tmp i args = halt endless
fill_args (suc fuel) none i args = ok args
fill_args (suc fuel) (some s) i args =
    then_do (defined (set_arg i (strsep 32 s).0 args)) (fill_args fuel (strsep 32 s).1 (i + 1))

-- The body for $PROCENV_EXEC. `calloc` gives NULL pointers.
unfoldable pub exec_args_of : Bytes → Outcome ArgArray
exec_args_of string =
    then_do (count_fields (suc (suc (length string))) (some string) 1)
      λ count. fill_args (suc (suc (length string))) (some string) 0 (replicate (count + 1) none)

-- `exec_args` behind it, if $PROCENV_EXEC is set; `reexec` is then true.
abbrev pub check_exec : Option Bytes → Cmd State (Option ArgArray)
check_exec none = pure none
check_exec (some e) = lift (exec_args_of e) >>= λ args. pure (some args)

unfoldable pub check_envvars : (Bytes → Option Bytes) → Cmd State (Option ArgArray)
check_envvars getenv = do
  if_given (given getenv (codes "PROCENV_OUTPUT")) set_output_value
  if_given (given getenv (codes "PROCENV_FILE"))
      λ e. modify (set_output_file (some e)) >> modify (set_output_value_raw file)
  if_given (given getenv (codes "PROCENV_FILE_APPEND")) (λ e. modify set_output_file_append)
  if_given (given getenv (codes "PROCENV_FORMAT")) set_output_format
  if_given (given getenv (codes "PROCENV_INDENT"))
      λ e. lift (atoi e) >>= λ n. modify (set_indent_amount n)
  if_given (given getenv (codes "PROCENV_INDENT_CHAR"))
      λ e. modify (set_indent_char (some (or_tab e)))
  if_given (given getenv (codes "PROCENV_SEPARATOR")) (λ e. modify (set_text_separator e))
  if_given (given getenv (codes "PROCENV_CRUMB_SEPARATOR"))
      λ e. modify (set_crumb_separator (some (or_tab e)))
  check_exec (given getenv (codes "PROCENV_EXEC"))
