-- ===== src/Document/Lines/Table.antt =====
-- The steps of the text and XML state machines that a document meets.
use procenv.Prelude.{ℕ, ◌+◌, ◌≤◌, ◌≡◌, refl, ap, ◌∙◌, [], ◌++◌, append-nil, Text, int_max, ok, Cmd}
use procenv.Output.{State, OutputFormat, xml, ElementType}
use procenv.Output.TextTable.{newline, line_on, line_in, line_out, text_table, format_text_element}
use procenv.Output.XmlTable.{xml_table, format_xml_element}
use procenv.Output.Indent.{add_indent}
use procenv.Output.Elements.{format_element, format_element_in, change_element}
use procenv.Output.Elements.Steps.{
  on, indentation, IsReady, common_assert-on, line_on-on, line_in-on, line_out-on,
}
use procenv.Document.Place.{Done, Starts}
use procenv.Document.Lines.{IsLineFormat, between}

-- What opens and closes a list of items.
pub data Brackets : ElementType → ElementType → Type 0 where
  section : Brackets ElementType.section_open ElementType.section_close
  container : Brackets ElementType.container_open ElementType.container_close

abbrev pub line_table : OutputFormat → ElementType → ElementType → Cmd State (Unit {0})
line_table xml = xml_table
line_table _ = text_table

table-sibling :
    {f : OutputFormat} {c el : ElementType}
    → IsLineFormat f
    → Done c
    → Starts el
    → line_table f c el ≡ line_on newline
unfolding text_table xml_table
table-sibling IsLineFormat.as_text Done.leaf Starts.leaf = refl
table-sibling IsLineFormat.as_text Done.leaf Starts.section = refl
table-sibling IsLineFormat.as_text Done.leaf Starts.container = refl
table-sibling IsLineFormat.as_text Done.section Starts.leaf = refl
table-sibling IsLineFormat.as_text Done.section Starts.section = refl
table-sibling IsLineFormat.as_text Done.section Starts.container = refl
table-sibling IsLineFormat.as_text Done.container Starts.leaf = refl
table-sibling IsLineFormat.as_text Done.container Starts.section = refl
table-sibling IsLineFormat.as_text Done.container Starts.container = refl
table-sibling IsLineFormat.as_xml Done.leaf Starts.leaf = refl
table-sibling IsLineFormat.as_xml Done.leaf Starts.section = refl
table-sibling IsLineFormat.as_xml Done.leaf Starts.container = refl
table-sibling IsLineFormat.as_xml Done.section Starts.leaf = refl
table-sibling IsLineFormat.as_xml Done.section Starts.section = refl
table-sibling IsLineFormat.as_xml Done.section Starts.container = refl
table-sibling IsLineFormat.as_xml Done.container Starts.leaf = refl
table-sibling IsLineFormat.as_xml Done.container Starts.section = refl
table-sibling IsLineFormat.as_xml Done.container Starts.container = refl

table-first :
    {f : OutputFormat} {o close el : ElementType}
    → IsLineFormat f
    → Brackets o close
    → Starts el
    → line_table f o el ≡ line_in newline
unfolding text_table xml_table
table-first IsLineFormat.as_text Brackets.section Starts.leaf = refl
table-first IsLineFormat.as_text Brackets.section Starts.section = refl
table-first IsLineFormat.as_text Brackets.section Starts.container = refl
table-first IsLineFormat.as_text Brackets.container Starts.leaf = refl
table-first IsLineFormat.as_text Brackets.container Starts.section = refl
table-first IsLineFormat.as_text Brackets.container Starts.container = refl
table-first IsLineFormat.as_xml Brackets.section Starts.leaf = refl
table-first IsLineFormat.as_xml Brackets.section Starts.section = refl
table-first IsLineFormat.as_xml Brackets.section Starts.container = refl
table-first IsLineFormat.as_xml Brackets.container Starts.leaf = refl
table-first IsLineFormat.as_xml Brackets.container Starts.section = refl
table-first IsLineFormat.as_xml Brackets.container Starts.container = refl

table-end :
    {f : OutputFormat} {o c close : ElementType}
    → IsLineFormat f
    → Brackets o close
    → Done c
    → line_table f c close ≡ line_out newline
unfolding text_table xml_table
table-end IsLineFormat.as_text Brackets.section Done.leaf = refl
table-end IsLineFormat.as_text Brackets.section Done.section = refl
table-end IsLineFormat.as_text Brackets.section Done.container = refl
table-end IsLineFormat.as_text Brackets.container Done.leaf = refl
table-end IsLineFormat.as_text Brackets.container Done.section = refl
table-end IsLineFormat.as_text Brackets.container Done.container = refl
table-end IsLineFormat.as_xml Brackets.section Done.leaf = refl
table-end IsLineFormat.as_xml Brackets.section Done.section = refl
table-end IsLineFormat.as_xml Brackets.section Done.container = refl
table-end IsLineFormat.as_xml Brackets.container Done.leaf = refl
table-end IsLineFormat.as_xml Brackets.container Done.section = refl
table-end IsLineFormat.as_xml Brackets.container Done.container = refl

-- The first element of all.
table-start :
    {f : OutputFormat} {el : ElementType}
    → IsLineFormat f
    → Starts el
    → line_table f ElementType.no_element el ≡ add_indent
unfolding text_table xml_table
table-start IsLineFormat.as_text Starts.leaf = refl
table-start IsLineFormat.as_text Starts.section = refl
table-start IsLineFormat.as_text Starts.container = refl
table-start IsLineFormat.as_xml Starts.leaf = refl
table-start IsLineFormat.as_xml Starts.section = refl
table-start IsLineFormat.as_xml Starts.container = refl

module _ (s : State) (a : ℕ) (ready : IsReady s a) (f : OutputFormat) (is_line : IsLineFormat f)
    (is_f : s.output_format ≡ f) where
  element_in :
      {g : OutputFormat} (t : Text) (n : ℕ) (c el : ElementType)
      → IsLineFormat g
      → format_element_in g (on s t n c el) ≡ line_table g c el (on s t n c el)
  unfolding format_element_in format_text_element format_xml_element
  element_in t n c el IsLineFormat.as_text = rw (common_assert-on s a ready t n c el) refl
  element_in t n c el IsLineFormat.as_xml = rw (common_assert-on s a ready t n c el) refl

  format_element-line :
      (t : Text) (n : ℕ) (c el : ElementType)
      → format_element (on s t n c el) ≡ line_table f c el (on s t n c el)
  unfolding format_element
  format_element-line t n c el =
      ap (λ g. format_element_in g (on s t n c el)) is_f ∙ element_in t n c el is_line

  pub change-table :
      (t : Text) (n : ℕ) (l c el : ElementType)
      → change_element el (on s t n l c) ≡ line_table f c el (on s t n c el)
  unfolding change_element
  change-table t n l c el = rw (common_assert-on s a ready t n l c) (format_element-line t n c el)

  module _ (t : Text) (n : ℕ) (l : ElementType) where
    pub sibling :
        {c el : ElementType}
        → Done c
        → Starts el
        → change_element el (on s t n l c)
          ≡ ok (tt, on s (t ++ (newline ++ indentation s n)) n c el)
    sibling {c} {el} d st =
        rw (change-table t n l c el, table-sibling is_line d st) (line_on-on s a ready t _ _ n c el)

    pub first_node :
        {o close el : ElementType}
        → Brackets o close
        → Starts el
        → n + a ≤ int_max
        → change_element el (on s t n l o)
          ≡ ok (tt, on s (t ++ (newline ++ indentation s (n + a))) (n + a) o el)
    first_node {o} {close} {el} b st h =
        rw (change-table t n l o el, table-first is_line b st) (line_in-on s a ready t _ _ n o el h)

    pub ends :
        {o c close : ElementType}
        → Brackets o close
        → Done c
        → n ≤ int_max
        → change_element close (on s t (n + a) l c)
          ≡ ok (tt, on s (t ++ (newline ++ indentation s n)) n c close)
    ends {o} {c} {close} b d h =
        rw (change-table t (n + a) l c close, table-end is_line b d)
          (line_out-on s a ready t _ _ n c close h)

    -- The end of an empty list of items.
    ends_empty_in :
        {g : OutputFormat} {o close : ElementType}
        → IsLineFormat g
        → Brackets o close
        → line_table g o close (on s t n o close)
          ≡ ok (tt, on s (t ++ between (indentation s) g a n []) n o close)
    unfolding text_table xml_table between
    ends_empty_in IsLineFormat.as_text Brackets.section = rw append-nil refl
    ends_empty_in IsLineFormat.as_text Brackets.container = rw append-nil refl
    ends_empty_in IsLineFormat.as_xml Brackets.section = line_on-on s a ready t _ _ n _ _
    ends_empty_in IsLineFormat.as_xml Brackets.container = line_on-on s a ready t _ _ n _ _

    pub ends_empty :
        {o close : ElementType}
        → Brackets o close
        → change_element close (on s t n l o)
          ≡ ok (tt, on s (t ++ between (indentation s) f a n []) n o close)
    ends_empty {o} {close} b = rw (change-table t n l o close) (ends_empty_in is_line b)

    -- The first node of a document, on an indentation that is given.
    pub starts :
        {el : ElementType}
        → Starts el
        → (u : Text)
        → add_indent (on s t n ElementType.no_element el)
          ≡ ok (tt, on s u n ElementType.no_element el)
        → change_element el (on s t n l ElementType.no_element)
          ≡ ok (tt, on s u n ElementType.no_element el)
    starts {el} st u h = rw (change-table t n l ElementType.no_element el, table-start is_line st) h
