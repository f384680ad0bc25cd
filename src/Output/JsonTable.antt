-- ===== src/Output/JsonTable.antt =====
-- `format_json_element` of src/output.c: what is written between two elements in JSON output.
use procenv.Prelude.{[], ◌∷◌, Text, not_reached, Cmd, pure, stop, ◌>>◌}
use procenv.Output.{
  ElementType, entry, section_open, section_close, container_open, container_close, object_open,
  object_close, no_element, State, common_assert,
}
use procenv.Output.Indent.{add_indent}
use procenv.Output.TextTable.{newline, line_on, line_in, line_out}

-- L",\n"
abbrev pub comma_newline : Text
comma_newline = b',' ∷ b'\n' ∷ []

unfoldable pub json_after_entry : ElementType → Cmd State (Unit {0})
json_after_entry entry = line_on comma_newline
json_after_entry section_open = line_on comma_newline
json_after_entry container_open = line_on comma_newline
json_after_entry section_close = line_out newline
json_after_entry container_close = line_out newline
json_after_entry object_close = line_out newline
json_after_entry _ = stop not_reached

unfoldable pub json_after_section_open : ElementType → Cmd State (Unit {0})
json_after_section_open entry = line_in newline
json_after_section_open section_open = line_in newline
json_after_section_open container_open = line_in newline
json_after_section_open section_close = pure tt
json_after_section_open object_open = pure tt
json_after_section_open container_close = stop not_reached
json_after_section_open _ = stop not_reached

unfoldable pub json_after_section_close : ElementType → Cmd State (Unit {0})
json_after_section_close entry = line_on comma_newline
json_after_section_close section_open = line_on comma_newline
json_after_section_close container_open = line_on comma_newline
json_after_section_close object_open = pure tt
json_after_section_close section_close = line_out newline
json_after_section_close container_close = line_out newline
json_after_section_close object_close = line_out newline
json_after_section_close no_element = stop not_reached

unfoldable pub json_after_container_open : ElementType → Cmd State (Unit {0})
json_after_container_open entry = line_in newline
json_after_container_open container_open = line_in newline
json_after_container_open section_open = line_in newline
json_after_container_open object_open = line_in newline
json_after_container_open object_close = stop not_reached
json_after_container_open section_close = stop not_reached
json_after_container_open container_close = pure tt
json_after_container_open no_element = stop not_reached

unfoldable pub json_after_container_close : ElementType → Cmd State (Unit {0})
json_after_container_close entry = line_on comma_newline
json_after_container_close section_open = line_on comma_newline
json_after_container_close object_open = line_on comma_newline
json_after_container_close container_open = line_on comma_newline
json_after_container_close section_close = line_out newline
json_after_container_close container_close = line_out newline
json_after_container_close object_close = line_out newline
json_after_container_close no_element = stop not_reached

unfoldable pub json_after_object_open : ElementType → Cmd State (Unit {0})
json_after_object_open entry = line_in newline
json_after_object_open container_open = line_in newline
json_after_object_open section_open = line_in newline
json_after_object_open object_close = pure tt
json_after_object_open _ = stop not_reached

unfoldable pub json_after_object_close : ElementType → Cmd State (Unit {0})
json_after_object_close container_close = line_out newline
json_after_object_close section_close = line_out newline
json_after_object_close object_open = line_on comma_newline
json_after_object_close section_open = line_on comma_newline
json_after_object_close _ = stop not_reached

unfoldable pub json_at_start : ElementType → Cmd State (Unit {0})
json_at_start no_element = stop not_reached
json_at_start _ = add_indent

-- The outer `switch` on `last_element`.
unfoldable pub json_table : ElementType → ElementType → Cmd State (Unit {0})
unfolding json_after_entry json_after_section_open json_after_section_close
    json_after_container_open json_after_container_close json_after_object_open
    json_after_object_close json_at_start
json_table entry = json_after_entry
json_table section_open = json_after_section_open
json_table section_close = json_after_section_close
json_table container_open = json_after_container_open
json_table container_close = json_after_container_close
json_table object_open = json_after_object_open
json_table object_close = json_after_object_close
json_table no_element = json_at_start

unfoldable pub format_json_element : Cmd State (Unit {0})
unfolding json_table
format_json_element = common_assert >> λ s. json_table s.last_element s.current_element s
