-- ===== src/Document/Json/Whole.antt =====
-- A whole JSON document, from `master_header` to `master_footer`.
use procenv.Prelude.{
  ℕ, Bool, ◌+◌, ◌≤◌, ◌≡◌, refl, ap, [], ◌∷◌, ◌++◌, append_assoc, Text, int_max, ok, Cmd, ◌>>◌,
  arith,
}
use procenv.Pstring.{Decode}
use procenv.Output.{State, json, ElementType}
use procenv.Output.Elements.{change_element}
use procenv.Output.Elements.Steps.{on, indentation, IsReady, common_assert-on, put-on}
use procenv.Output.JsonTable.{json_table}
use procenv.Output.Indent.{add_indent}
use procenv.Output.Master.{
  Package, master_header, master_header_in, master_footer, master_footer_in,
}
use procenv.Output.TextTable.{newline}
use procenv.Document.Place.{Opened, Ends}
use procenv.Document.{Nodes, room_nodes, emit_nodes, EncodesNodes}
use procenv.Document.Json.{json_body}
use procenv.Document.Json.Table.{change-table}
use procenv.Document.Json.Calls.{object_open-run, object_close-run}
use procenv.Document.Json.Run.{body-run}

module _ (decode : Decode) (iswprint : ℕ → Bool) where
  -- The calls of a run that displays `xs`.
  abbrev pub emit_document : Package → Nodes → Cmd State (Unit {0})
  emit_document p xs = master_header p >> emit_nodes decode iswprint xs >> master_footer p

  -- The text of the document, described with no state.
  abbrev pub json_document : (ℕ → Text) → ℕ → Nodes → Text
  json_document ind a xs = b'{' ∷ (json_body decode iswprint ind a 0 xs ++ b'}' ∷ b'\n' ∷ [])

  module _ (p : Package) (s : State) (a : ℕ) (ready : IsReady s a)
      (is_json : s.output_format ≡ json) where
    starts :
        change_element ElementType.object_open
          (on s [] 0 ElementType.no_element ElementType.no_element)
        ≡ ok (tt, on s [] 0 ElementType.no_element ElementType.object_open)
    unfolding json_table add_indent
    starts =
        rw
          (change-table s a ready is_json [] 0 ElementType.no_element ElementType.no_element
            ElementType.object_open)
          (rw (common_assert-on s a ready [] 0 ElementType.no_element ElementType.object_open) refl)

    header-run :
        master_header p (on s [] 0 ElementType.no_element ElementType.no_element)
        ≡ ok (tt, on s (b'{' ∷ []) 0 ElementType.no_element ElementType.object_open)
    unfolding master_header master_header_in
    header-run =
        rw
          (
            common_assert-on s a ready [] 0 ElementType.no_element ElementType.no_element,
            ap (master_header_in p) is_json,
          )
          (object_open-run decode iswprint s a ready is_json [] 0 ElementType.no_element
            ElementType.no_element [] 0 starts)

    footer-run :
        (t0 : Text) (n0 : ℕ) (l c : ElementType) (t : Text) (n : ℕ)
        → change_element ElementType.object_close (on s t0 n0 l c)
          ≡ ok (tt, on s t n c ElementType.object_close)
        → master_footer p (on s t0 n0 l c)
          ≡ ok (tt, on s (t ++ b'}' ∷ b'\n' ∷ []) n c ElementType.object_close)
    unfolding master_footer master_footer_in
    footer-run t0 n0 l c t n h =
        rw
          (
            common_assert-on s a ready t0 n0 l c,
            ap (master_footer_in p) is_json,
            object_close-run decode iswprint s a ready is_json t0 n0 l c t n h,
            put-on s a ready (t ++ b'}' ∷ []) n c ElementType.object_close newline,
            append_assoc,
          )
          refl

    -- In JSON output, on an empty document, `master_header`, the calls for any nested document and
    -- `master_footer` return, write the text that `json_document` describes, and leave the
    -- indentation 0. Conditions: the indent amount is not negative, the wide indent character is not
    -- nul, every name and value can be converted and encoded, and the deepest indentation fits
    -- `int`.
    pub json_document-run :
        (xs : Nodes)
        → EncodesNodes decode iswprint json xs
        → a + room_nodes a xs ≤ int_max
        → (l : ElementType) × (emit_document p xs
              (on s [] 0 ElementType.no_element ElementType.no_element)
            ≡ ok (tt, on s (json_document (indentation s) a xs) 0 l ElementType.object_close))
    json_document-run xs h le =
        let b =
          body-run decode iswprint s a ready is_json xs Opened.object Ends.object (b'{' ∷ []) 0
            ElementType.no_element h (omega arith) in
        (
          b.current_el,
          rw
              (
                header-run,
                b.run,
                footer-run b.inner b.level b.last_el b.current_el
                    (b'{' ∷ json_body decode iswprint (indentation s) a 0 xs) 0 b.close,
              )
              refl,
        )

    behind_section :
        (t : Text) (n : ℕ) (l : ElementType)
        → master_header p (on s t n l ElementType.section_close)
          ≡ ok (tt, on s (t ++ b'{' ∷ []) n ElementType.section_close ElementType.object_open)
    unfolding master_header master_header_in json_table
    behind_section t n l =
        rw
          (
            common_assert-on s a ready t n l ElementType.section_close,
            ap (master_header_in p) is_json,
          )
          (object_open-run decode iswprint s a ready is_json t n l ElementType.section_close t n (
            change-table s a ready is_json t n l ElementType.section_close ElementType.object_open))

    -- In JSON output, a second display option behind a section writes a second object right behind the
    -- text of the first one, with no comma, and `master_footer` closes only the second one: the
    -- indentation stays that of the section, which is inside the first object. Conditions: the indent
    -- amount is not negative, the wide indent character is not nul, every name and value can be
    -- converted and encoded, and the deepest indentation fits `int`.
    pub second_display-run :
        (xs : Nodes) (t : Text) (n : ℕ) (l : ElementType)
        → EncodesNodes decode iswprint json xs
        → n + (a + room_nodes a xs) ≤ int_max
        → (c : ElementType) × (emit_document p xs (on s t n l ElementType.section_close)
            ≡ ok (
              tt,
              on s
                  (t
                    ++ (b'{'
                        ∷ (json_body decode iswprint (indentation s) a n xs ++ b'}' ∷ b'\n' ∷ [])))
                  n
                  c
                  ElementType.object_close,
            ))
    second_display-run xs t n l h le =
        let start = t ++ b'{' ∷ [] in
        let b =
          body-run decode iswprint s a ready is_json xs Opened.object Ends.object start n
            ElementType.section_close h le in
        let body = json_body decode iswprint (indentation s) a n xs in
        (
          b.current_el,
          rw
              (
                behind_section t n l,
                b.run,
                footer-run b.inner b.level b.last_el b.current_el (start ++ body) n b.close,
                append_assoc,
                append_assoc,
              )
              refl,
        )
