-- ===== src/Output/XmlTable.antt =====
-- `format_xml_element` of src/output.c: what is written between two elements in XML output.
use procenv.Prelude.{not_reached, Cmd, pure, stop, ◌>>◌}
use procenv.Output.{
  ElementType, entry, section_open, section_close, container_open, container_close, object_open,
  object_close, no_element, State, common_assert, put,
}
use procenv.Output.Indent.{dec_indent, add_indent}
use procenv.Output.TextTable.{newline, line_on, line_in, line_out}

unfoldable pub xml_after_entry : ElementType → Cmd State (Unit {0})
xml_after_entry entry = line_on newline
xml_after_entry section_open = line_on newline
xml_after_entry object_open = line_on newline
xml_after_entry container_open = line_on newline
xml_after_entry section_close = line_out newline
xml_after_entry container_close = line_out newline
xml_after_entry object_close = line_out newline
xml_after_entry no_element = stop not_reached

unfoldable pub xml_after_section_open : ElementType → Cmd State (Unit {0})
xml_after_section_open entry = line_in newline
xml_after_section_open section_open = line_in newline
xml_after_section_open container_open = line_in newline
xml_after_section_open section_close = line_on newline
xml_after_section_open container_close = stop not_reached
xml_after_section_open _ = stop not_reached

unfoldable pub xml_after_section_close : ElementType → Cmd State (Unit {0})
xml_after_section_close section_close = line_out newline
xml_after_section_close container_close = line_out newline
xml_after_section_close object_close = line_on newline
xml_after_section_close section_open = line_on newline
xml_after_section_close entry = line_on newline
xml_after_section_close container_open = line_on newline
xml_after_section_close _ = stop not_reached

unfoldable pub xml_after_container_open : ElementType → Cmd State (Unit {0})
xml_after_container_open entry = line_in newline
xml_after_container_open section_open = line_in newline
xml_after_container_open container_open = line_in newline
xml_after_container_open section_close = stop not_reached
xml_after_container_open container_close = line_on newline
xml_after_container_open object_open = add_indent
xml_after_container_open _ = stop not_reached

unfoldable pub xml_after_container_close : ElementType → Cmd State (Unit {0})
xml_after_container_close section_close = line_out newline
xml_after_container_close container_close = line_out newline
xml_after_container_close object_close = line_out newline
xml_after_container_close entry = line_on newline
xml_after_container_close section_open = line_on newline
xml_after_container_close container_open = line_on newline
xml_after_container_close _ = stop not_reached

unfoldable pub xml_after_object_open : ElementType → Cmd State (Unit {0})
xml_after_object_open entry = line_in newline
xml_after_object_open section_open = line_in newline
xml_after_object_open container_open = line_in newline
xml_after_object_open object_close = pure tt
xml_after_object_open _ = stop not_reached

unfoldable pub xml_after_object_close : ElementType → Cmd State (Unit {0})
xml_after_object_close object_open = pure tt
xml_after_object_close section_close = pure tt
xml_after_object_close container_close = put newline >> dec_indent
xml_after_object_close entry = put newline >> dec_indent
xml_after_object_close _ = stop not_reached

unfoldable pub xml_at_start : ElementType → Cmd State (Unit {0})
xml_at_start no_element = stop not_reached
xml_at_start _ = add_indent

-- The outer `switch` on `last_element`.
unfoldable pub xml_table : ElementType → ElementType → Cmd State (Unit {0})
unfolding xml_after_entry xml_after_section_open xml_after_section_close xml_after_container_open
    xml_after_container_close xml_after_object_open xml_after_object_close xml_at_start
xml_table entry = xml_after_entry
xml_table section_open = xml_after_section_open
xml_table section_close = xml_after_section_close
xml_table container_open = xml_after_container_open
xml_table container_close = xml_after_container_close
xml_table object_open = xml_after_object_open
xml_table object_close = xml_after_object_close
xml_table no_element = xml_at_start

unfoldable pub format_xml_element : Cmd State (Unit {0})
unfolding xml_table
format_xml_element = common_assert >> λ s. xml_table s.last_element s.current_element s
