-- ===== src/Output/Elements.antt =====
-- The calls of src/output.c that the rest of the program makes: headers, sections, containers,
-- objects and entries.
pub mod Names
pub mod Steps
use procenv.Prelude.{
  ℕ, zero, suc, Option, none, some, List, [], ◌∷◌, ◌++◌, Bool, true, false, if◌then◌else◌, Bytes,
  Text, Outcome, ok, halt, died, assertion, undefined, Cmd, pure, stop, ◌>>=◌, ◌>>◌, assert,
}
use procenv.Pstring.{PString, Decode, then_do, char_to_pstring, text_of}
use procenv.StringUtil.{Expansion, wmappendva}
use procenv.Output.{
  OutputFormat, text, crumb, json, xml, ElementType, State, common_assert, put, putf,
}
use procenv.Output.Indent.{inc_indent, dec_indent}
use procenv.Output.Crumbs.{add_breadcrumb, remove_breadcrumb}
use procenv.Output.Encode.{encode_string}
use procenv.Output.TextTable.{newline, format_text_element}
use procenv.Output.JsonTable.{format_json_element}
use procenv.Output.XmlTable.{format_xml_element}

-- Each `switch (output_format)` is a function of the format.
unfoldable pub format_element_in : OutputFormat → Cmd State (Unit {0})
format_element_in text = format_text_element
format_element_in crumb = pure tt
format_element_in json = format_json_element
format_element_in xml = format_xml_element

unfoldable pub format_element : Cmd State (Unit {0})
format_element s = format_element_in s.output_format s

unfoldable pub change_element : ElementType → Cmd State (Unit {0})
change_element new = common_assert >> λ s.
    format_element (record s { last_element = s.current_element; current_element = new })

-- The `if (output_format == OUTPUT_FORMAT_JSON)` of `object_open` and `object_close`.
unfoldable pub change_object_in : OutputFormat → Bool → ElementType → Cmd State (Unit {0})
change_object_in json true new = format_element
change_object_in json false new = change_element new
change_object_in _ retain new = pure tt

abbrev pub change_object : Bool → ElementType → Cmd State (Unit {0})
change_object retain new s = change_object_in s.output_format retain new s

-- The `switch` of both: only JSON has a text for an object.
unfoldable pub put_json_in : OutputFormat → Text → Cmd State (Unit {0})
put_json_in json x = put x
put_json_in _ x = pure tt

abbrev pub put_json : Text → Cmd State (Unit {0})
put_json x s = put_json_in s.output_format x s

unfoldable pub object_open : Bool → Cmd State (Unit {0})
object_open retain =
    common_assert >> change_object retain ElementType.object_open >> put_json (b'{' ∷ [])

unfoldable pub object_close : Bool → Cmd State (Unit {0})
object_close retain =
    common_assert >> change_object retain ElementType.object_close >> put_json (b'}' ∷ [])

-- A text that stands for `%ls` in a format.
abbrev pub lift : {A : Type 0} → Outcome A → Cmd State A
lift (ok a) s = ok (a, s)
lift (halt why) s = halt why

-- L"<section name=\"%ls\">" and L"<container name=\"%ls\">" begin so.
abbrev pub xml_section_open : Text
xml_section_open =
    b'<' ∷ b's' ∷ b'e' ∷ b'c' ∷ b't' ∷ b'i' ∷ b'o' ∷ b'n' ∷ b' ' ∷ b'n' ∷ b'a' ∷ b'm' ∷ b'e' ∷ b'='
    ∷ 34 ∷ []

abbrev pub xml_section_close : Text
xml_section_close = b'<' ∷ b'/' ∷ b's' ∷ b'e' ∷ b'c' ∷ b't' ∷ b'i' ∷ b'o' ∷ b'n' ∷ b'>' ∷ []

abbrev pub xml_container_open : Text
xml_container_open =
    b'<' ∷ b'c' ∷ b'o' ∷ b'n' ∷ b't' ∷ b'a' ∷ b'i' ∷ b'n' ∷ b'e' ∷ b'r' ∷ b' ' ∷ b'n' ∷ b'a' ∷ b'm'
    ∷ b'e' ∷ b'=' ∷ 34 ∷ []

abbrev pub xml_container_close : Text
xml_container_close =
    b'<' ∷ b'/' ∷ b'c' ∷ b'o' ∷ b'n' ∷ b't' ∷ b'a' ∷ b'i' ∷ b'n' ∷ b'e' ∷ b'r' ∷ b'>' ∷ []

abbrev pub xml_entry_open : Text
xml_entry_open =
    b'<' ∷ b'e' ∷ b'n' ∷ b't' ∷ b'r' ∷ b'y' ∷ b' ' ∷ b'n' ∷ b'a' ∷ b'm' ∷ b'e' ∷ b'=' ∷ 34 ∷ []

abbrev pub xml_entry_close : Text
xml_entry_close = b'<' ∷ b'/' ∷ b'e' ∷ b'n' ∷ b't' ∷ b'r' ∷ b'y' ∷ b'>' ∷ []

-- What a section or container writes when it opens and when it closes.
unfoldable pub section_open_text : OutputFormat → Text → Text
section_open_text text x = x ++ b':' ∷ []
section_open_text crumb x = []
section_open_text json x = 34 ∷ (x ++ 34 ∷ b' ' ∷ b':' ∷ b' ' ∷ b'{' ∷ [])
section_open_text xml x = xml_section_open ++ (x ++ 34 ∷ b'>' ∷ [])

unfoldable pub container_open_text : OutputFormat → Text → Text
container_open_text text x = x ++ b':' ∷ []
container_open_text crumb x = []
container_open_text json x = 34 ∷ (x ++ 34 ∷ b' ' ∷ b':' ∷ b' ' ∷ b'[' ∷ [])
container_open_text xml x = xml_container_open ++ (x ++ 34 ∷ b'>' ∷ [])

unfoldable pub put_section_close : OutputFormat → Cmd State (Unit {0})
put_section_close text = pure tt
put_section_close crumb = remove_breadcrumb
put_section_close json = put (b'}' ∷ [])
put_section_close xml = put xml_section_close

unfoldable pub section_close : Cmd State (Unit {0})
section_close = common_assert >> change_element ElementType.section_close >> λ s.
    put_section_close s.output_format s

unfoldable pub put_container_close : OutputFormat → Cmd State (Unit {0})
put_container_close text = pure tt
put_container_close crumb = remove_breadcrumb
put_container_close json = put (b']' ∷ [])
put_container_close xml = put xml_container_close

unfoldable pub container_close : Cmd State (Unit {0})
container_close = common_assert >> change_element ElementType.container_close >> λ s.
    put_container_close s.output_format s

abbrev pub footer : Cmd State (Unit {0})
footer = common_assert >> section_close

unfoldable pub put_section_open : OutputFormat → Bytes → Text → Cmd State (Unit {0})
put_section_open crumb name x = add_breadcrumb name
put_section_open f name x = putf (some (section_open_text f x))

unfoldable pub put_container_open : OutputFormat → Bytes → Text → Cmd State (Unit {0})
put_container_open crumb name x = add_breadcrumb name
put_container_open f name x = putf (some (container_open_text f x))

module _ (decode : Decode) (iswprint : ℕ → Bool) where
  unfoldable pub name_to_wide_name : OutputFormat → Bytes → Outcome PString
  name_to_wide_name f name = elim (char_to_pstring decode name) [
    | none ↦ halt died
    | some p ↦ encode_string iswprint f p
  ]

  -- The encoded name as `%ls` prints it.
  unfoldable pub name_text : OutputFormat → Bytes → Outcome Text
  name_text f name = then_do (name_to_wide_name f name) text_of

  unfoldable pub section_open : Bytes → Cmd State (Unit {0})
  section_open name = common_assert >> λ s.
      (do
        x ← lift (name_text s.output_format name)
        change_element ElementType.section_open
        put_section_open s.output_format name x)
        s

  unfoldable pub container_open : Bytes → Cmd State (Unit {0})
  container_open name = common_assert >> λ s.
      (do
        x ← lift (name_text s.output_format name)
        change_element ElementType.container_open
        put_container_open s.output_format name x)
        s

  abbrev pub header : Bytes → Cmd State (Unit {0})
  header name = common_assert >> section_open name

  -- The value of an entry: the expanded format, encoded, as `%ls` prints it.
  unfoldable pub value_text : OutputFormat → Bytes → (Text → Expansion) → Outcome Text
  value_text f fmt expand =
      then_do (wmappendva decode none fmt expand) λ v. elim v [
        | none ↦ halt assertion
        | some p ↦ then_do (encode_string iswprint f p) text_of
      ]

  -- Byte strings that stand for `%s` in a wide format: one text, if both can be converted.
  unfoldable pub both : Bytes → Bytes → Expansion
  both a b = elim (decode a) [
    | none ↦ none
    | some x ↦ elim (decode b) [ none ↦ none | some y ↦ some (x ++ y) ]
  ]

  -- The loop over the breadcrumbs.
  unfoldable pub put_crumbs : List Bytes → Bytes → Cmd State (Unit {0})
  put_crumbs [] separator = pure tt
  put_crumbs (c ∷ cs) separator = putf (both c separator) >> put_crumbs cs separator

  -- L"%ls%s%ls", and what follows.
  unfoldable pub separated : Text → Bytes → Text → Text → Expansion
  separated x separator y end = elim (decode separator) [
    | none ↦ none
    | some m ↦ some (x ++ (m ++ (y ++ end)))
  ]

  unfoldable pub put_entry_crumb : Option (List Bytes) → Text → Text → Cmd State (Unit {0})
  put_entry_crumb none x y s = halt assertion
  put_entry_crumb (some cs) x y s =
      (put_crumbs cs s.crumb_separator >> putf (separated x s.text_separator y newline)) s

  unfoldable pub put_entry : OutputFormat → Text → Text → Cmd State (Unit {0})
  put_entry crumb x y s = put_entry_crumb s.crumb_list x y s
  put_entry text x y s = putf (separated x s.text_separator y []) s
  put_entry json x y s = putf (some (34 ∷ (x ++ (34 ∷ b' ' ∷ b':' ∷ b' ' ∷ 34 ∷ (y ++ 34 ∷ []))))) s
  put_entry xml x y s =
      putf (some (xml_entry_open ++ (x ++ (34 ∷ b'>' ∷ (y ++ xml_entry_close))))) s

  unfoldable pub entry : Bytes → Bytes → (Text → Expansion) → Cmd State (Unit {0})
  entry name fmt expand = common_assert >> change_element ElementType.entry >> λ s.
      (do
        x ← lift (name_text s.output_format name)
        y ← lift (value_text s.output_format fmt expand)
        put_entry s.output_format x y)
        s
