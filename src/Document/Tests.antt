-- ===== src/Document/Tests.antt =====
-- Runs that write small documents.
use procenv.Prelude.{codes, ◌↔◌, ◌++◌, Text, ℕ, ◌≡◌, refl, Bool, [], ◌∷◌, some, ok, arith, leb}
use procenv.Pstring.{Decode, char_to_pstring, char_to_wchar, pstring_create}
use procenv.StringUtil.{wmappendva, wappendva, wappendva_loop, wappendva_finish, pstring_of_buffer}
use procenv.Output.Encode.{
  encode_string, output_translate, extra_of, extra_for, encode_non_printables, non_printables,
}
use procenv.Output.Settings.{Named, format_name, with_format, output_format-exact}
use procenv.Output.{
  get_output_format_name, set_output_format, State, initial, text, crumb, json, xml, ElementType,
}
use procenv.Document.Crumb.{decoded, HasCrumbs, crumb_node}
use procenv.Document.Crumb.Run.{at, Out, crumb_node-run}
use procenv.Document.Lines.{IsLineFormat, depth}
use procenv.Document.Lines.Calls.{IsLineState}
use procenv.Document.Lines.Whole.{
  emit_lines, text_document, xml_document, text_document-run, xml_document-run,
}
use procenv.Output.Elements.{name_to_wide_name, name_text, value_text}
use procenv.Output.Elements.Steps.{on, indentation, IsReady}
use procenv.Output.Master.{Package}
use procenv.Document.{
  Node, Encodes, emit, Nodes, leaf, section, container, nil, cons, end, object, room, EncodesNodes,
}
use procenv.Document.Json.{json_body}
use procenv.Document.Json.Whole.{
  second_display-run, emit_document, json_document, json_document-run,
}

-- ASCII.
abbrev ascii : Decode
ascii t = some t

abbrev printable : ℕ → Bool
printable c = leb 32 c

abbrev test_package : Package
test_package = record {
  name = b'p' ∷ [];
  version = b'1' ∷ [];
  string = b'p' ∷ [];
  mode = b'm' ∷ [];
  format_version = b'2' ∷ [];
}

abbrev json_state : State
json_state = record initial { output_format = json; wide_indent_char = b' ' }

json_state-IsReady : IsReady json_state 2
json_state-IsReady = record { amount = refl; wide = omega arith }

-- A section with an entry and a container of one object with an entry.
abbrev small : Nodes
small =
    cons
      (section (b's' ∷ []) (
        cons (leaf (b'a' ∷ []) (b'x' ∷ []) some) (
          cons (container (b'c' ∷ []) (object (cons (leaf (b'b' ∷ []) (b'y' ∷ []) some) nil) end))
            nil)))
      nil

small-EncodesNodes : EncodesNodes ascii printable json small
unfolding EncodesNodes name_text value_text name_to_wide_name char_to_pstring char_to_wchar
    pstring_create encode_string output_translate extra_of extra_for encode_non_printables
    non_printables wmappendva wappendva wappendva_loop wappendva_finish pstring_of_buffer
small-EncodesNodes = ((refl, ((refl, refl), ((refl, (((refl, refl), tt), tt)), tt))), tt)

small_text-EncodesNodes : EncodesNodes ascii printable text small
unfolding EncodesNodes name_text value_text name_to_wide_name char_to_pstring char_to_wchar
    pstring_create encode_string output_translate extra_of extra_for encode_non_printables
    non_printables wmappendva wappendva wappendva_loop wappendva_finish pstring_of_buffer
small_text-EncodesNodes = ((refl, ((refl, refl), ((refl, (((refl, refl), tt), tt)), tt))), tt)

small_xml-EncodesNodes : EncodesNodes ascii printable xml small
unfolding EncodesNodes name_text value_text name_to_wide_name char_to_pstring char_to_wchar
    pstring_create encode_string output_translate extra_of extra_for encode_non_printables
    non_printables wmappendva wappendva wappendva_loop wappendva_finish pstring_of_buffer
small_xml-EncodesNodes = ((refl, ((refl, refl), ((refl, (((refl, refl), tt), tt)), tt))), tt)

json_document_example :
    (l : ElementType) × (emit_document ascii printable test_package small
        (on json_state [] 0 ElementType.no_element ElementType.no_element)
      ≡ ok (
        tt,
        on json_state
            (json_document ascii printable (indentation json_state) 2 small)
            0
            l
            ElementType.object_close,
      ))
unfolding room
json_document_example =
    json_document-run ascii printable test_package json_state 2 json_state-IsReady refl small
      small-EncodesNodes (omega arith)

abbrev separator : Text
separator = b':' ∷ b' ' ∷ []

abbrev text_state : State
text_state = record initial { wide_indent_char = b' ' }

abbrev xml_state : State
xml_state = record initial { output_format = xml; wide_indent_char = b' ' }

text_line : IsLineState ascii text_state 2 text separator
text_line = record {
  ready = record { amount = refl; wide = omega arith };
  is_line = IsLineFormat.as_text;
  format = refl;
  separator = refl;
}

xml_line : IsLineState ascii xml_state 2 xml separator
xml_line = record {
  ready = record { amount = refl; wide = omega arith };
  is_line = IsLineFormat.as_xml;
  format = refl;
  separator = refl;
}

text_document_example :
    (l c : ElementType) × (emit_lines ascii printable test_package text_state 2 separator small
        (on text_state [] 0 ElementType.no_element ElementType.no_element)
      ≡ ok (
        tt,
        on text_state
            (text_document ascii printable test_package text_state 2 separator small)
            0
            l
            c,
      ))
unfolding depth
text_document_example =
    text_document-run ascii printable test_package text_state 2 separator text_line small
      small_text-EncodesNodes (omega arith)

xml_document_example :
    (l c : ElementType) × (emit_lines ascii printable test_package xml_state 2 separator small
        (on xml_state [] 0 ElementType.no_element ElementType.no_element)
      ≡ ok (
        tt,
        on xml_state (xml_document ascii printable test_package xml_state 2 separator small) 0 l c,
      ))
unfolding depth
xml_document_example =
    xml_document-run ascii printable test_package xml_state 2 separator xml_line small
      small_xml-EncodesNodes (omega arith)

abbrev crumb_state : State
crumb_state = record initial { output_format = crumb; wide_indent_char = b' ' }

abbrev small_section : Node
small_section = section (b's' ∷ []) (
    cons (leaf (b'a' ∷ []) (b'x' ∷ []) some) (
      cons (container (b'c' ∷ []) (object (cons (leaf (b'b' ∷ []) (b'y' ∷ []) some) nil) end)) nil))

small_section-Encodes : Encodes ascii printable crumb small_section
unfolding EncodesNodes name_text value_text name_to_wide_name char_to_pstring char_to_wchar
    pstring_create encode_string output_translate extra_of extra_for encode_non_printables
    non_printables wmappendva wappendva wappendva_loop wappendva_finish pstring_of_buffer
small_section-Encodes = (refl, ((refl, refl), ((refl, (((refl, refl), tt), tt)), tt)))

small_section-HasCrumbs : HasCrumbs ascii printable small_section
unfolding HasCrumbs decoded
small_section-HasCrumbs = (refl, (tt, ((refl, ((tt, tt), tt)), tt)))

abbrev crumb_ready : IsReady crumb_state 2
crumb_ready = record { amount = refl; wide = omega arith }

crumb_node_example :
    Out ascii printable crumb_state 2 crumb_ready refl
      (b':' ∷ [])
      separator
      refl
      refl
      []
      ([] ++ crumb_node ascii printable (b':' ∷ []) separator [] small_section)
      0
      (emit ascii printable small_section (
        on
          (at ascii printable crumb_state 2 crumb_ready refl (b':' ∷ []) separator refl refl [])
          []
          0
          ElementType.no_element
          ElementType.no_element))
crumb_node_example =
    crumb_node-run ascii printable crumb_state 2 crumb_ready refl (b':' ∷ []) separator refl refl
      small_section [] [] 0 ElementType.no_element ElementType.no_element tt small_section-Encodes
      small_section-HasCrumbs

-- Behind a section at the level inside the first object.
second_display_example :
    (c : ElementType) × (emit_document ascii printable test_package small
        (on json_state (b'}' ∷ []) 2 ElementType.entry ElementType.section_close)
      ≡ ok (
        tt,
        on json_state
            ((b'}' ∷ [])
              ++ (b'{'
                  ∷ (json_body ascii printable (indentation json_state) 2 2 small
                      ++ b'}' ∷ b'\n' ∷ [])))
            2
            c
            ElementType.object_close,
      ))
unfolding room
second_display_example =
    second_display-run ascii printable test_package json_state 2 json_state-IsReady refl small
      (b'}' ∷ []) 2 ElementType.entry small-EncodesNodes (omega arith)

output_format-exact_example :
    ((set_output_format (codes "xml") text_state ≡ ok (tt, with_format text_state xml))
      ↔ Named (codes "xml") text_state (with_format text_state xml))
    × (get_output_format_name (with_format text_state json)
        ≡ ok (format_name json, with_format text_state json))
output_format-exact_example =
    output_format-exact (codes "xml") text_state (with_format text_state xml) json
