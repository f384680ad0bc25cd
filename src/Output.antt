-- ===== src/Output.antt =====
-- src/output.c and src/output.h: the state of the output layer, its settings, and the parts that
-- the children model: indentation, breadcrumbs, the three element tables and the open, close and
-- entry calls.
pub mod Indent
pub mod Crumbs
pub mod Encode
pub mod TextTable
pub mod JsonTable
pub mod XmlTable
pub mod Elements
pub mod Master
pub mod Settings
use procenv.Prelude.{
  ℕ, zero, suc, ◌+◌, Option, none, some, List, [], ◌∷◌, ◌++◌, Bool, true, false, not, ◌&&◌, ◌==◌,
  if◌then◌else◌, Bytes, Text, ℤ, pos, negsuc, is_negative, Outcome, ok, halt, died, assertion,
  undefined, Cmd, pure, stop, ◌>>=◌, ◌>>◌, assert,
}
use procenv.Pstring.{PString, Decode}
use procenv.StringUtil.{wappend, wappendf, Expansion}

pub data Output : Type 0 where
  file stderr stdout syslog term : Output

pub data OutputFormat : Type 0 where
  text crumb json xml : OutputFormat

pub data ElementType : Type 0 where
  entry section_open section_close container_open container_close : ElementType
  object_open object_close no_element : ElementType

-- The globals of output.c, and `doc` of procenv.c. `crumb_list` is NULL, or the strings of the
-- breadcrumb list from `crumb_list->next` on. File descriptor -1 is none.
pub record State : Type 0 where
  pub doc : Option PString
  pub output : Output
  pub output_format : OutputFormat
  pub output_file : Option Bytes
  pub output_file_append : Bool
  pub output_fd : Option ℕ
  pub text_separator : Bytes
  pub last_element : ElementType
  pub current_element : ElementType
  pub crumb_list : Option (List Bytes)
  pub indent : ℤ
  pub indent_amount : ℤ
  pub indent_char : Bytes
  pub wide_indent_char : ℕ
  pub crumb_separator : Bytes

-- The initial values of output.c. `doc` is NULL until `main` makes it.
abbrev pub initial : State
initial = record {
  doc = none;
  output = stdout;
  output_format = text;
  output_file = none;
  output_file_append = false;
  output_fd = none;
  text_separator = b':' ∷ b' ' ∷ [];
  last_element = no_element;
  current_element = no_element;
  crumb_list = none;
  indent = pos 0;
  indent_amount = pos 2;
  indent_char = b' ' ∷ [];
  wide_indent_char = 0;
  crumb_separator = b':' ∷ [];
}

-- `! strcmp (a, b)`
unfoldable pub same : Bytes → Bytes → Bool
same [] [] = true
same (a ∷ as') (b ∷ bs) = a == b && same as' bs
same [] (b ∷ bs) = false
same (a ∷ as') [] = false

abbrev pub is_some : {A : Type 0} → Option A → Bool
is_some none = false
is_some (some a) = true

-- `common_assert ()`
abbrev pub common_assert : Cmd State (Unit {0})
common_assert = λ s. (assert (is_some s.doc) >> assert (not (is_negative s.indent_amount))) s

-- A call that appends to `doc`.
abbrev pub on_doc : Outcome (Option PString) → Cmd State (Unit {0})
on_doc (ok d) s = ok (tt, record s { doc = d })
on_doc (halt why) s = halt why

-- `wappend (&doc, x)` and `wappendf (&doc, ..)`
unfoldable pub put : Text → Cmd State (Unit {0})
put x s = on_doc (wappend s.doc x) s

unfoldable pub putf : Expansion → Cmd State (Unit {0})
putf e s = on_doc (wappendf s.doc e) s

abbrev pub set_indent_amount : ℤ → State → State
set_indent_amount amount s = record s { indent_amount = amount }

abbrev pub set_text_separator : Bytes → State → State
set_text_separator sep s = record s { text_separator = sep }

-- The setters that do nothing for NULL.
abbrev pub set_indent_char : Option Bytes → State → State
set_indent_char none s = s
set_indent_char (some c) s = record s { indent_char = c }

abbrev pub set_crumb_separator : Option Bytes → State → State
set_crumb_separator none s = s
set_crumb_separator (some c) s = record s { crumb_separator = c }

abbrev pub set_output_file : Option Bytes → State → State
set_output_file none s = s
set_output_file (some f) s = record s { output_file = some f }

abbrev pub set_output_file_append : State → State
set_output_file_append s = record s { output_file_append = true }

abbrev pub reset_indent : State → State
reset_indent s = record s { indent = pos 0 }

-- The loop over a table of names: the first entry with the name.
unfoldable pub find_name : {A : Type 0} → Bytes → List (Bytes × A) → Option A
find_name name [] = none
find_name name ((n, a) ∷ table) = if same name n then some a else find_name name table

abbrev pub output_map : List (Bytes × Output)
output_map =
    (b'f' ∷ b'i' ∷ b'l' ∷ b'e' ∷ [], file)
    ∷ (b's' ∷ b't' ∷ b'd' ∷ b'e' ∷ b'r' ∷ b'r' ∷ [], stderr)
    ∷ (b's' ∷ b't' ∷ b'd' ∷ b'o' ∷ b'u' ∷ b't' ∷ [], stdout)
    ∷ (b's' ∷ b'y' ∷ b's' ∷ b'l' ∷ b'o' ∷ b'g' ∷ [], syslog)
    ∷ (b't' ∷ b'e' ∷ b'r' ∷ b'm' ∷ b'i' ∷ b'n' ∷ b'a' ∷ b'l' ∷ [], term)
    ∷ []

abbrev pub output_format_map : List (Bytes × OutputFormat)
output_format_map =
    (b't' ∷ b'e' ∷ b'x' ∷ b't' ∷ [], text)
    ∷ (b'c' ∷ b'r' ∷ b'u' ∷ b'm' ∷ b'b' ∷ [], crumb)
    ∷ (b'j' ∷ b's' ∷ b'o' ∷ b'n' ∷ [], json)
    ∷ (b'x' ∷ b'm' ∷ b'l' ∷ [], xml)
    ∷ []

unfoldable pub set_output_value : Bytes → Cmd State (Unit {0})
set_output_value name s = elim (find_name name output_map) [
  | none ↦ halt died
  | some o ↦ ok (tt, record s { output = o })
]

unfoldable pub set_output_format : Bytes → Cmd State (Unit {0})
set_output_format name s = elim (find_name name output_format_map) [
  | none ↦ halt died
  | some f ↦ ok (tt, record s { output_format = f })
]

-- `output_format == p->num`
abbrev pub same_format : OutputFormat → OutputFormat → Bool
same_format text text = true
same_format crumb crumb = true
same_format json json = true
same_format xml xml = true
same_format _ _ = false

unfoldable pub find_format : OutputFormat → List (Bytes × OutputFormat) → Option Bytes
find_format f [] = none
find_format f ((n, g) ∷ table) = if same_format f g then some n else find_format f table

unfoldable pub get_output_format_name : Cmd State Bytes
get_output_format_name s = elim (find_format s.output_format output_format_map) [
  | none ↦ halt died
  | some n ↦ ok (n, s)
]

-- `mbsrtowcs` of the indent character gives one wide character, or the call is fatal.
unfoldable pub handle_indent_char : Decode → Cmd State (Unit {0})
handle_indent_char decode s = elim (decode s.indent_char) [
  | none ↦ halt died
  | some [] ↦ halt died
  | some (c ∷ []) ↦ ok (tt, record s { wide_indent_char = c })
  | some (c ∷ d ∷ r) ↦ halt died
]
