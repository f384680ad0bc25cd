-- ===== src/Document/Lines/Calls.antt =====
-- The calls of src/output.c in text and XML output, one at a time.
use procenv.Prelude.{
  ℕ, Bool, false, ◌≡◌, ap, ◌∙◌, refl, some, [], ◌∷◌, ◌++◌, append-nil, Bytes, Text, ok,
}
use procenv.Pstring.{Decode}
use procenv.StringUtil.{Expansion}
use procenv.Output.{State, OutputFormat, ElementType, putf}
use procenv.Output.Elements.{
  name_text, value_text, change_element, change_object_in, put_json_in, section_open, section_close,
  container_open, container_close, object_open, object_close, entry, put_entry, separated,
  put_section_open, put_section_close, put_container_open, put_container_close, section_open_text,
  container_open_text,
}
use procenv.Output.Elements.Steps.{on, indentation, IsReady, common_assert-on, put-on, putf-on}
use procenv.Document.Place.{Leads, Reaches, Done, Starts}
use procenv.Document.{leaf, or_nil, IsText, emit, Encodes}
use procenv.Document.Lines.{
  IsLineFormat, entry_text, section_close_text, container_close_text, line_node,
}

-- The settings of a run in one of the two formats.
pub record IsLineState (decode : Decode) (s : State) (a : ℕ) (f : OutputFormat) (m : Text)
    : Type 0 where
  pub ready : IsReady s a
  pub is_line : IsLineFormat f
  pub format : s.output_format ≡ f
  pub separator : decode s.text_separator ≡ some m

module _ (decode : Decode) (iswprint : ℕ → Bool) (s : State) (a : ℕ) (f : OutputFormat) (m : Text)
    (line : IsLineState decode s a f m) where
  format-name :
      (name : Bytes)
      → IsText (name_text decode iswprint f name)
      → name_text decode iswprint s.output_format name
        ≡ ok (or_nil (name_text decode iswprint f name))
  format-name name h = ap (λ f. name_text decode iswprint f name) line.format ∙ h

  format-value :
      (fmt : Bytes) (expand : Text → Expansion)
      → IsText (value_text decode iswprint f fmt expand)
      → value_text decode iswprint s.output_format fmt expand
        ≡ ok (or_nil (value_text decode iswprint f fmt expand))
  format-value fmt expand h = ap (λ f. value_text decode iswprint f fmt expand) line.format ∙ h

  separated-text :
      (x y end : Text)
      → separated decode iswprint x s.text_separator y end ≡ some (x ++ (m ++ (y ++ end)))
  unfolding separated
  separated-text x y end = rw (line.separator, separated) refl

  module _ (t : Text) (n : ℕ) (l c : ElementType) where
    entry_in :
        {g : OutputFormat} (x y : Text)
        → IsLineFormat g
        → put_entry decode iswprint g x y (on s t n l c)
          ≡ ok (tt, on s (t ++ entry_text g m x y) n l c)
    unfolding put_entry
    entry_in x y IsLineFormat.as_text =
        ap (λ e. putf e (on s t n l c)) (separated-text x y []) ∙ putf-on s a line.ready t n l c _
    entry_in x y IsLineFormat.as_xml = putf-on s a line.ready t n l c _

    section_open_in :
        {g : OutputFormat} (name : Bytes) (x : Text)
        → IsLineFormat g
        → put_section_open g name x (on s t n l c)
          ≡ ok (tt, on s (t ++ section_open_text g x) n l c)
    unfolding put_section_open
    section_open_in name x IsLineFormat.as_text = putf-on s a line.ready t n l c _
    section_open_in name x IsLineFormat.as_xml = putf-on s a line.ready t n l c _

    container_open_in :
        {g : OutputFormat} (name : Bytes) (x : Text)
        → IsLineFormat g
        → put_container_open g name x (on s t n l c)
          ≡ ok (tt, on s (t ++ container_open_text g x) n l c)
    unfolding put_container_open
    container_open_in name x IsLineFormat.as_text = putf-on s a line.ready t n l c _
    container_open_in name x IsLineFormat.as_xml = putf-on s a line.ready t n l c _

    section_close_in :
        {g : OutputFormat}
        → IsLineFormat g
        → put_section_close g (on s t n l c) ≡ ok (tt, on s (t ++ section_close_text g) n l c)
    unfolding put_section_close
    section_close_in IsLineFormat.as_text = rw append-nil refl
    section_close_in IsLineFormat.as_xml = put-on s a line.ready t n l c _

    container_close_in :
        {g : OutputFormat}
        → IsLineFormat g
        → put_container_close g (on s t n l c) ≡ ok (tt, on s (t ++ container_close_text g) n l c)
    unfolding put_container_close
    container_close_in IsLineFormat.as_text = rw append-nil refl
    container_close_in IsLineFormat.as_xml = put-on s a line.ready t n l c _

    object_in :
        {g : OutputFormat} (el : ElementType)
        → IsLineFormat g
        → change_object_in g false el (on s t n l c) ≡ ok (tt, on s t n l c)
    unfolding change_object_in
    object_in el IsLineFormat.as_text = refl
    object_in el IsLineFormat.as_xml = refl

    brace_in :
        {g : OutputFormat} (x : Text)
        → IsLineFormat g
        → put_json_in g x (on s t n l c) ≡ ok (tt, on s t n l c)
    unfolding put_json_in
    brace_in x IsLineFormat.as_text = refl
    brace_in x IsLineFormat.as_xml = refl

    -- Objects do nothing.
    pub object_open-run : object_open false (on s t n l c) ≡ ok (tt, on s t n l c)
    unfolding object_open
    object_open-run =
        rw
          (
            common_assert-on s a line.ready t n l c,
            ap (λ g. change_object_in g false ElementType.object_open (on s t n l c)) line.format,
            object_in ElementType.object_open line.is_line,
          )
          (ap (λ g. put_json_in g (b'{' ∷ []) (on s t n l c)) line.format
            ∙ brace_in (b'{' ∷ []) line.is_line)

    pub object_close-run : object_close false (on s t n l c) ≡ ok (tt, on s t n l c)
    unfolding object_close
    object_close-run =
        rw
          (
            common_assert-on s a line.ready t n l c,
            ap (λ g. change_object_in g false ElementType.object_close (on s t n l c)) line.format,
            object_in ElementType.object_close line.is_line,
          )
          (ap (λ g. put_json_in g (b'}' ∷ []) (on s t n l c)) line.format
            ∙ brace_in (b'}' ∷ []) line.is_line)

  module _ (t0 : Text) (n0 : ℕ) (l0 c0 : ElementType) (t : Text) (n : ℕ) where
    pub entry-run :
        (name fmt : Bytes) (expand : Text → Expansion)
        → Leads s t0 n0 c0 t n
        → Encodes decode iswprint f (leaf name fmt expand)
        → Reaches s
            (emit decode iswprint (leaf name fmt expand) (on s t0 n0 l0 c0))
            (t ++ line_node decode iswprint (indentation s) f m a n (leaf name fmt expand))
            n
    unfolding emit line_node entry Encodes
    entry-run name fmt expand leads (hn, hv) =
        let x = or_nil (name_text decode iswprint f name) in
        let y = or_nil (value_text decode iswprint f fmt expand) in
        let put_entry_f = ap (λ g. put_entry decode iswprint g x y) line.format in
        record {
          last_el = c0;
          current_el = ElementType.entry;
          done = Done.leaf;
          run =
              rw
                (
                  common_assert-on s a line.ready t0 n0 l0 c0,
                  leads l0 ElementType.entry Starts.leaf,
                  format-name name hn,
                  format-value fmt expand hv,
                  put_entry_f,
                )
                (entry_in t n c0 ElementType.entry x y line.is_line);
        }

    pub section_open-run :
        (name : Bytes)
        → Leads s t0 n0 c0 t n
        → IsText (name_text decode iswprint f name)
        → section_open decode iswprint name (on s t0 n0 l0 c0)
          ≡ ok (
            tt,
            on s
                (t ++ section_open_text f (or_nil (name_text decode iswprint f name)))
                n
                c0
                ElementType.section_open,
          )
    unfolding section_open
    section_open-run name leads h =
        let put_open_f =
          ap (λ g. put_section_open g name (or_nil (name_text decode iswprint f name)))
            line.format in
        rw
          (
            common_assert-on s a line.ready t0 n0 l0 c0,
            format-name name h,
            leads l0 ElementType.section_open Starts.section,
            put_open_f,
          )
          (section_open_in t n c0 ElementType.section_open name _ line.is_line)

    pub container_open-run :
        (name : Bytes)
        → Leads s t0 n0 c0 t n
        → IsText (name_text decode iswprint f name)
        → container_open decode iswprint name (on s t0 n0 l0 c0)
          ≡ ok (
            tt,
            on s
                (t ++ container_open_text f (or_nil (name_text decode iswprint f name)))
                n
                c0
                ElementType.container_open,
          )
    unfolding container_open
    container_open-run name leads h =
        let put_open_f =
          ap (λ g. put_container_open g name (or_nil (name_text decode iswprint f name)))
            line.format in
        rw
          (
            common_assert-on s a line.ready t0 n0 l0 c0,
            format-name name h,
            leads l0 ElementType.container_open Starts.container,
            put_open_f,
          )
          (container_open_in t n c0 ElementType.container_open name _ line.is_line)

    pub section_close-run :
        change_element ElementType.section_close (on s t0 n0 l0 c0)
          ≡ ok (tt, on s t n c0 ElementType.section_close)
        → section_close (on s t0 n0 l0 c0)
          ≡ ok (tt, on s (t ++ section_close_text f) n c0 ElementType.section_close)
    unfolding section_close
    section_close-run h =
        rw (common_assert-on s a line.ready t0 n0 l0 c0, h, ap put_section_close line.format)
          (section_close_in t n c0 ElementType.section_close line.is_line)

    pub container_close-run :
        change_element ElementType.container_close (on s t0 n0 l0 c0)
          ≡ ok (tt, on s t n c0 ElementType.container_close)
        → container_close (on s t0 n0 l0 c0)
          ≡ ok (tt, on s (t ++ container_close_text f) n c0 ElementType.container_close)
    unfolding container_close
    container_close-run h =
        rw (common_assert-on s a line.ready t0 n0 l0 c0, h, ap put_container_close line.format)
          (container_close_in t n c0 ElementType.container_close line.is_line)
