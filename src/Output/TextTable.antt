-- ===== src/Output/TextTable.antt =====
-- `format_text_element` of src/output.c: what is written between two elements in text output. One
-- function for each `case` of the outer `switch`, with the inner `switch` as its clauses.
use procenv.Prelude.{[], ◌∷◌, Text, not_reached, Cmd, pure, stop, ◌>>◌}
use procenv.Output.{
  ElementType, entry, section_open, section_close, container_open, container_close, object_open,
  object_close, no_element, State, common_assert, put,
}
use procenv.Output.Indent.{inc_indent, dec_indent, add_indent}

-- L"\n"
abbrev pub newline : Text
newline = b'\n' ∷ []

-- Three runs of calls that most cases of the tables make: on at the same level, one level in, and
-- one level out.
abbrev pub line_on : Text → Cmd State (Unit {0})
line_on separator = put separator >> add_indent

abbrev pub line_in : Text → Cmd State (Unit {0})
line_in separator = put separator >> inc_indent >> add_indent

abbrev pub line_out : Text → Cmd State (Unit {0})
line_out separator = put separator >> dec_indent >> add_indent

unfoldable pub text_after_entry : ElementType → Cmd State (Unit {0})
text_after_entry entry = line_on newline
text_after_entry section_open = line_on newline
text_after_entry container_open = line_on newline
text_after_entry container_close = line_out newline
text_after_entry section_close = line_out newline
text_after_entry _ = stop not_reached

unfoldable pub text_after_section_open : ElementType → Cmd State (Unit {0})
text_after_section_open entry = line_in newline
text_after_section_open section_open = line_in newline
text_after_section_open container_open = line_in newline
text_after_section_open section_close = pure tt
text_after_section_open _ = stop not_reached

unfoldable pub text_after_section_close : ElementType → Cmd State (Unit {0})
text_after_section_close section_close = line_out newline
text_after_section_close container_close = line_out newline
text_after_section_close entry = line_on newline
text_after_section_close container_open = line_on newline
text_after_section_close section_open = line_on newline
text_after_section_close _ = stop not_reached

unfoldable pub text_after_container_open : ElementType → Cmd State (Unit {0})
text_after_container_open entry = line_in newline
text_after_container_open section_open = line_in newline
text_after_container_open container_open = line_in newline
text_after_container_open container_close = pure tt
text_after_container_open _ = stop not_reached

unfoldable pub text_after_container_close : ElementType → Cmd State (Unit {0})
text_after_container_close section_close = line_out newline
text_after_container_close container_close = line_out newline
text_after_container_close section_open = line_on newline
text_after_container_close entry = line_on newline
text_after_container_close container_open = line_on newline
text_after_container_close _ = stop not_reached

unfoldable pub text_at_start : ElementType → Cmd State (Unit {0})
text_at_start object_open = pure tt
text_at_start object_close = pure tt
text_at_start no_element = stop not_reached
text_at_start _ = add_indent

-- The outer `switch` on `last_element`.
unfoldable pub text_table : ElementType → ElementType → Cmd State (Unit {0})
unfolding text_after_entry text_after_section_open text_after_section_close
    text_after_container_open text_after_container_close text_at_start
text_table entry = text_after_entry
text_table section_open = text_after_section_open
text_table section_close = text_after_section_close
text_table container_open = text_after_container_open
text_table container_close = text_after_container_close
text_table no_element = text_at_start
text_table _ = λ current. stop not_reached

unfoldable pub format_text_element : Cmd State (Unit {0})
unfolding text_table
format_text_element = common_assert >> λ s. text_table s.last_element s.current_element s
