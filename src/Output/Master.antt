-- ===== src/Output/Master.antt =====
-- `master_header` and `master_footer` of src/output.c.
use procenv.Prelude.{Text, [], ◌∷◌, ◌++◌, some, false, Cmd, pure, ◌>>◌}
use procenv.Output.{OutputFormat, text, crumb, json, xml, State, common_assert, put, putf}
use procenv.Output.Indent.{inc_indent, dec_indent}
use procenv.Output.Elements.{object_open, object_close}
use procenv.Output.TextTable.{newline}

-- The strings that the build configures, and the mode as the header prints it.
pub record Package : Type 0 where
  pub name : Text
  pub version : Text
  pub string : Text
  pub mode : Text
  pub format_version : Text

-- L"<?xml version=\"1.0\" encoding=\"UTF-8\"?>\n"
unfoldable pub xml_declaration : Text
xml_declaration =
    b'<' ∷ b'?' ∷ b'x' ∷ b'm' ∷ b'l' ∷ b' ' ∷ b'v' ∷ b'e' ∷ b'r' ∷ b's' ∷ b'i' ∷ b'o' ∷ b'n' ∷ b'='
    ∷ 34 ∷ b'1' ∷ b'.' ∷ b'0' ∷ 34 ∷ b' ' ∷ b'e' ∷ b'n' ∷ b'c' ∷ b'o' ∷ b'd' ∷ b'i' ∷ b'n' ∷ b'g'
    ∷ b'=' ∷ 34 ∷ b'U' ∷ b'T' ∷ b'F' ∷ b'-' ∷ b'8' ∷ 34 ∷ b'?' ∷ b'>' ∷ b'\n' ∷ []

-- One attribute: a space, the name, and the quoted value.
abbrev pub attribute : Text → Text → Text
attribute name value = b' ' ∷ (name ++ (b'=' ∷ 34 ∷ (value ++ 34 ∷ [])))

unfoldable pub root_open : Package → Text
root_open p =
    b'<'
    ∷ (p.name
        ++ (attribute (b'v' ∷ b'e' ∷ b'r' ∷ b's' ∷ b'i' ∷ b'o' ∷ b'n' ∷ []) p.version
            ++ (attribute
                  (b'p' ∷ b'a' ∷ b'c' ∷ b'k' ∷ b'a' ∷ b'g' ∷ b'e' ∷ b'_' ∷ b's' ∷ b't' ∷ b'r' ∷ b'i'
                    ∷ b'n' ∷ b'g' ∷ [])
                  p.string
                ++ (attribute (b'm' ∷ b'o' ∷ b'd' ∷ b'e' ∷ []) p.mode
                    ++ (attribute
                          (b'f' ∷ b'o' ∷ b'r' ∷ b'm' ∷ b'a' ∷ b't' ∷ b'_' ∷ b'v' ∷ b'e' ∷ b'r'
                            ∷ b's' ∷ b'i' ∷ b'o' ∷ b'n' ∷ [])
                          p.format_version
                        ++ b'>' ∷ b'\n' ∷ [])))))

unfoldable pub root_close : Package → Text
root_close p = b'<' ∷ b'/' ∷ (p.name ++ b'>' ∷ b'\n' ∷ [])

unfoldable pub master_header_in : Package → OutputFormat → Cmd State (Unit {0})
master_header_in p text = pure tt
master_header_in p crumb = pure tt
master_header_in p json = object_open false
master_header_in p xml = put xml_declaration >> putf (some (root_open p)) >> inc_indent

unfoldable pub master_header : Package → Cmd State (Unit {0})
master_header p = common_assert >> λ s. master_header_in p s.output_format s

unfoldable pub master_footer_in : Package → OutputFormat → Cmd State (Unit {0})
master_footer_in p text = put newline
master_footer_in p crumb = put newline
master_footer_in p json = object_close false >> put newline
master_footer_in p xml = put newline >> dec_indent >> putf (some (root_close p))

unfoldable pub master_footer : Package → Cmd State (Unit {0})
master_footer p = common_assert >> λ s. master_footer_in p s.output_format s
