-- ===== src/Document/Json/Calls.antt =====
-- The calls of src/output.c in JSON output, one at a time.
use procenv.Prelude.{ℕ, Bool, false, ◌≡◌, ap, ◌∙◌, [], ◌∷◌, ◌++◌, append_assoc, Bytes, Text, ok}
use procenv.Pstring.{Decode}
use procenv.StringUtil.{Expansion}
use procenv.Output.{State, json, ElementType}
use procenv.Output.Elements.{
  name_text, value_text, change_element, change_object, change_object_in, put_json_in, section_open,
  section_close, container_open, container_close, object_open, object_close, entry, put_entry,
  put_section_open, put_section_close, put_container_open, put_container_close, section_open_text,
  container_open_text,
}
use procenv.Output.Elements.Steps.{on, indentation, IsReady, common_assert-on, put-on, putf-on}
use procenv.Document.Place.{Leads, Reaches, Done, Starts}
use procenv.Document.{leaf, or_nil, IsText, emit, Encodes}
use procenv.Document.Json.{json_node, json_key}

module _ (decode : Decode) (iswprint : ℕ → Bool) where
  module _ (s : State) (a : ℕ) (ready : IsReady s a) (is_json : s.output_format ≡ json) where
    format-name :
        (name : Bytes)
        → IsText (name_text decode iswprint json name)
        → name_text decode iswprint s.output_format name
          ≡ ok (or_nil (name_text decode iswprint json name))
    format-name name h = ap (λ f. name_text decode iswprint f name) is_json ∙ h

    format-value :
        (fmt : Bytes) (expand : Text → Expansion)
        → IsText (value_text decode iswprint json fmt expand)
        → value_text decode iswprint s.output_format fmt expand
          ≡ ok (or_nil (value_text decode iswprint json fmt expand))
    format-value fmt expand h = ap (λ f. value_text decode iswprint f fmt expand) is_json ∙ h

    pub entry-run :
        (name fmt : Bytes) (expand : Text → Expansion) (t0 : Text) (n0 : ℕ) (l0 c0 : ElementType)
        (t : Text) (n : ℕ)
        → Leads s t0 n0 c0 t n
        → Encodes decode iswprint json (leaf name fmt expand)
        → Reaches s
            (emit decode iswprint (leaf name fmt expand) (on s t0 n0 l0 c0))
            (t ++ json_node decode iswprint (indentation s) a n (leaf name fmt expand))
            n
    unfolding emit json_node entry Encodes put_entry
    entry-run name fmt expand t0 n0 l0 c0 t n leads (hn, hv) =
        let x = or_nil (name_text decode iswprint json name) in
        let y = or_nil (value_text decode iswprint json fmt expand) in
        let put_json_entry = ap (λ f. put_entry decode iswprint f x y) is_json in
        record {
          last_el = c0;
          current_el = ElementType.entry;
          done = Done.leaf;
          run =
              rw
                (
                  common_assert-on s a ready t0 n0 l0 c0,
                  leads l0 ElementType.entry Starts.leaf,
                  format-name name hn,
                  format-value fmt expand hv,
                  put_json_entry,
                  append_assoc,
                )
                (putf-on s a ready t n c0 ElementType.entry _);
        }

    pub section_open-run :
        (name : Bytes) (t0 : Text) (n0 : ℕ) (l0 c0 : ElementType) (t : Text) (n : ℕ)
        → Leads s t0 n0 c0 t n
        → IsText (name_text decode iswprint json name)
        → section_open decode iswprint name (on s t0 n0 l0 c0)
          ≡ ok (
            tt,
            on s
                (t ++ (json_key (or_nil (name_text decode iswprint json name)) ++ b'{' ∷ []))
                n
                c0
                ElementType.section_open,
          )
    unfolding section_open put_section_open section_open_text
    section_open-run name t0 n0 l0 c0 t n leads h =
        let put_json_open =
          ap (λ f. put_section_open f name (or_nil (name_text decode iswprint json name)))
            is_json in
        rw
          (
            common_assert-on s a ready t0 n0 l0 c0,
            format-name name h,
            leads l0 ElementType.section_open Starts.section,
            put_json_open,
            append_assoc,
          )
          (putf-on s a ready t n c0 ElementType.section_open _)

    pub container_open-run :
        (name : Bytes) (t0 : Text) (n0 : ℕ) (l0 c0 : ElementType) (t : Text) (n : ℕ)
        → Leads s t0 n0 c0 t n
        → IsText (name_text decode iswprint json name)
        → container_open decode iswprint name (on s t0 n0 l0 c0)
          ≡ ok (
            tt,
            on s
                (t ++ (json_key (or_nil (name_text decode iswprint json name)) ++ b'[' ∷ []))
                n
                c0
                ElementType.container_open,
          )
    unfolding container_open put_container_open container_open_text
    container_open-run name t0 n0 l0 c0 t n leads h =
        let put_json_open =
          ap (λ f. put_container_open f name (or_nil (name_text decode iswprint json name)))
            is_json in
        rw
          (
            common_assert-on s a ready t0 n0 l0 c0,
            format-name name h,
            leads l0 ElementType.container_open Starts.container,
            put_json_open,
            append_assoc,
          )
          (putf-on s a ready t n c0 ElementType.container_open _)

    module _ (t0 : Text) (n0 : ℕ) (l0 c0 : ElementType) (t : Text) (n : ℕ) where
      pub section_close-run :
          change_element ElementType.section_close (on s t0 n0 l0 c0)
            ≡ ok (tt, on s t n c0 ElementType.section_close)
          → section_close (on s t0 n0 l0 c0)
            ≡ ok (tt, on s (t ++ b'}' ∷ []) n c0 ElementType.section_close)
      unfolding section_close put_section_close
      section_close-run h =
          rw (common_assert-on s a ready t0 n0 l0 c0, h, ap put_section_close is_json)
            (put-on s a ready t n c0 ElementType.section_close _)

      pub container_close-run :
          change_element ElementType.container_close (on s t0 n0 l0 c0)
            ≡ ok (tt, on s t n c0 ElementType.container_close)
          → container_close (on s t0 n0 l0 c0)
            ≡ ok (tt, on s (t ++ b']' ∷ []) n c0 ElementType.container_close)
      unfolding container_close put_container_close
      container_close-run h =
          rw (common_assert-on s a ready t0 n0 l0 c0, h, ap put_container_close is_json)
            (put-on s a ready t n c0 ElementType.container_close _)

      pub object_open-run :
          change_element ElementType.object_open (on s t0 n0 l0 c0)
            ≡ ok (tt, on s t n c0 ElementType.object_open)
          → object_open false (on s t0 n0 l0 c0)
            ≡ ok (tt, on s (t ++ b'{' ∷ []) n c0 ElementType.object_open)
      unfolding object_open put_json_in change_object_in
      object_open-run h =
          let change : change_object false ElementType.object_open (on s t0 n0 l0 c0)
              ≡ ok (tt, on s t n c0 ElementType.object_open) =
            ap (λ f. change_object_in f false ElementType.object_open (on s t0 n0 l0 c0)) is_json
            ∙ h in
          rw (common_assert-on s a ready t0 n0 l0 c0, change)
            (ap (λ f. put_json_in f (b'{' ∷ []) (on s t n c0 ElementType.object_open)) is_json
              ∙ put-on s a ready t n c0 ElementType.object_open _)

      pub object_close-run :
          change_element ElementType.object_close (on s t0 n0 l0 c0)
            ≡ ok (tt, on s t n c0 ElementType.object_close)
          → object_close false (on s t0 n0 l0 c0)
            ≡ ok (tt, on s (t ++ b'}' ∷ []) n c0 ElementType.object_close)
      unfolding object_close put_json_in change_object_in
      object_close-run h =
          let change : change_object false ElementType.object_close (on s t0 n0 l0 c0)
              ≡ ok (tt, on s t n c0 ElementType.object_close) =
            ap (λ f. change_object_in f false ElementType.object_close (on s t0 n0 l0 c0)) is_json
            ∙ h in
          rw (common_assert-on s a ready t0 n0 l0 c0, change)
            (ap (λ f. put_json_in f (b'}' ∷ []) (on s t n c0 ElementType.object_close)) is_json
              ∙ put-on s a ready t n c0 ElementType.object_close _)
