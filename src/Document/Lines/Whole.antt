-- ===== src/Document/Lines/Whole.antt =====
-- Whole documents in text and XML output, from `master_header` to `master_footer`.
use procenv.Prelude.{
  ℕ, Bool, ◌+◌, ◌≤◌, ◌≡◌, refl, ap, List, [], ◌∷◌, ◌++◌, append-nil, append_assoc, Text, int_max,
  Outcome, ok, Cmd, ◌>>◌, arith,
}
use procenv.Pstring.{Decode}
use procenv.Output.{State, OutputFormat, text, xml, ElementType}
use procenv.Output.Elements.Steps.{
  on, indentation, IsReady, common_assert-on, put-on, putf-on, inc_indent-on, dec_indent-on,
  add_indent-start, add_indent-behind,
}
use procenv.Output.Indent.{add_indent}
use procenv.Output.Master.{
  Package, xml_declaration, root_open, root_close, master_header, master_header_in, master_footer,
  master_footer_in,
}
use procenv.Output.TextTable.{newline}
use procenv.Document.Place.{Done, Leads, Reaches}
use procenv.Document.{Nodes, nil, cons, emit_nodes, EncodesNodes}
use procenv.Document.Lines.{line_node, lines, depth_nodes, items}
use procenv.Document.Lines.Table.{starts, sibling}
use procenv.Document.Lines.Calls.{IsLineState}
use procenv.Document.Lines.Run.{node-run}

-- Items on lines of their own, the first with no line break before it.
unfoldable pub top_lines : (ℕ → Text) → ℕ → List Text → Text
top_lines ind n [] = []
top_lines ind n (k ∷ ks) = ind n ++ (k ++ lines ind n ks)

module _ (decode : Decode) (iswprint : ℕ → Bool) (p : Package) (s : State) (a : ℕ) (m : Text) where
  -- The text of a text document, and of an XML document.
  abbrev pub text_document : Nodes → Text
  text_document xs =
      top_lines (indentation s) 0 (items decode iswprint (indentation s) text m a 0 xs) ++ newline

  abbrev pub xml_document : Nodes → Text
  xml_document xs =
      (xml_declaration ++ root_open p)
      ++ (top_lines (indentation s) a (items decode iswprint (indentation s) xml m a a xs)
          ++ (newline ++ root_close p))

  module _ (f : OutputFormat) (line : IsLineState decode s a f m) where
    -- Nodes behind a node.
    more-run :
        (xs : Nodes) (t : Text) (n : ℕ) (l c : ElementType)
        → Done c
        → EncodesNodes decode iswprint f xs
        → n + depth_nodes a xs ≤ int_max
        → Reaches s
            (emit_nodes decode iswprint xs (on s t n l c))
            (t ++ lines (indentation s) n (items decode iswprint (indentation s) f m a n xs))
            n
    unfolding emit_nodes EncodesNodes depth_nodes items lines
    more-run nil t n l c d h le = record {
      last_el = l;
      current_el = c;
      done = d;
      run = rw append-nil refl;
    }
    more-run (cons x xs) t n l c d (hx, hs) le =
        let leads : Leads s t n c (t ++ (newline ++ indentation s n)) n =
          λ l' el st. sibling s a line.ready f line.is_line line.format t n l' d st in
        let y = node-run decode iswprint s a f m line x t n l c _ n leads hx (omega arith) in
        let z =
          more-run xs
            ((t ++ (newline ++ indentation s n))
              ++ line_node decode iswprint (indentation s) f m a n x)
            n y.last_el y.current_el y.done hs (omega arith) in
        record {
          last_el = z.last_el;
          current_el = z.current_el;
          done = z.done;
          run = rw (y.run, z.run, append_assoc, append_assoc, append_assoc) refl;
        }

    -- What a run of nodes from the start of a document comes to.
    abbrev Starting : Outcome (Unit {0} × State) → Text → ℕ → Type 0
    Starting r u n = (l : ElementType) × (c : ElementType) × (r ≡ ok (tt, on s u n l c))

    nodes_start-run :
        (xs : Nodes) (t : Text) (n : ℕ) (l : ElementType)
        → ((l' c' : ElementType)
            → add_indent (on s t n l' c') ≡ ok (tt, on s (t ++ indentation s n) n l' c'))
        → EncodesNodes decode iswprint f xs
        → n + depth_nodes a xs ≤ int_max
        → Starting
            (emit_nodes decode iswprint xs (on s t n l ElementType.no_element))
            (t ++ top_lines (indentation s) n (items decode iswprint (indentation s) f m a n xs))
            n
    unfolding emit_nodes EncodesNodes depth_nodes items top_lines
    nodes_start-run nil t n l ind h le = (l, ElementType.no_element, rw append-nil refl)
    nodes_start-run (cons x xs) t n l ind (hx, hs) le =
        let leads : Leads s t n ElementType.no_element (t ++ indentation s n) n = λ l' el st.
          starts s a line.ready f line.is_line line.format t n l' st (t ++ indentation s n)
            (ind ElementType.no_element el) in
        let y =
          node-run decode iswprint s a f m line x t n l ElementType.no_element _ n leads hx
            (omega arith) in
        let z =
          more-run xs
            ((t ++ indentation s n) ++ line_node decode iswprint (indentation s) f m a n x) n
            y.last_el y.current_el y.done hs (omega arith) in
        (z.last_el, z.current_el, rw (y.run, z.run, append_assoc, append_assoc) refl)

  -- The calls of a run that displays `xs`.
  abbrev pub emit_lines : Nodes → Cmd State (Unit {0})
  emit_lines xs = master_header p >> emit_nodes decode iswprint xs >> master_footer p

  -- In text output, on an empty document, `master_header`, the calls for any nested document and
  -- `master_footer` return, write the text that `text_document` describes, in which objects leave no
  -- trace, and leave the indentation 0. Conditions: the indent amount is not negative, the wide indent
  -- character is not nul, the separator, every name and every value can be converted, and the deepest
  -- indentation fits `int`.
  pub text_document-run :
      IsLineState decode s a text m
      → (xs : Nodes) → EncodesNodes decode iswprint text xs
      → depth_nodes a xs ≤ int_max
      → (l c : ElementType) × (emit_lines xs
            (on s [] 0 ElementType.no_element ElementType.no_element)
          ≡ ok (tt, on s (text_document xs) 0 l c))
  unfolding master_header master_header_in master_footer master_footer_in
  text_document-run line xs h le =
      let b =
        nodes_start-run text line xs [] 0 ElementType.no_element (add_indent-start s a line.ready) h
          (omega arith) in
      (
        b.0,
        b.1,
        rw
            (
              common_assert-on s a line.ready [] 0 ElementType.no_element ElementType.no_element,
              ap (master_header_in p) line.format,
              b.2,
              common_assert-on s a line.ready _ 0 b.0 b.1,
              ap (master_footer_in p) line.format,
            )
            (put-on s a line.ready _ 0 b.0 b.1 newline),
      )

  abbrev head : Text
  head = xml_declaration ++ root_open p

  indent-behind :
      (ready : IsReady s a) (u : Text) (y : ℕ) (w : Text) (l c : ElementType)
      → add_indent (on s (u ++ y ∷ w) a l c) ≡ ok (tt, on s ((u ++ y ∷ w) ++ indentation s a) a l c)
  indent-behind ready u y w l c = rw append_assoc (add_indent-behind s a ready u y w a l c)

  header_indent-on :
      (ready : IsReady s a) (l c : ElementType)
      → add_indent (on s head a l c) ≡ ok (tt, on s (head ++ indentation s a) a l c)
  unfolding root_open
  header_indent-on ready l c = indent-behind ready xml_declaration b'<' _ l c

  xml_header-run :
      IsLineState decode s a xml m
      → a ≤ int_max
      → (l c : ElementType) → master_header p (on s [] 0 l c) ≡ ok (tt, on s head a l c)
  unfolding master_header master_header_in
  xml_header-run line le l c =
      let zero_add : 0 + a ≡ a = omega arith in
      rw
        (
          common_assert-on s a line.ready [] 0 l c,
          ap (master_header_in p) line.format,
          put-on s a line.ready [] 0 l c xml_declaration,
          putf-on s a line.ready xml_declaration 0 l c (root_open p),
          inc_indent-on s a line.ready head 0 l c (omega arith),
          zero_add,
        )
        refl

  xml_footer-run :
      IsLineState decode s a xml m
      → (t : Text) (l c : ElementType)
      → master_footer p (on s t a l c) ≡ ok (tt, on s (t ++ (newline ++ root_close p)) 0 l c)
  unfolding master_footer master_footer_in
  xml_footer-run line t l c =
      let zero_add : 0 + a ≡ a = omega arith in
      let dec = rw zero_add at (dec_indent-on s a line.ready (t ++ newline) 0 l c (omega arith)) in
      rw
        (
          common_assert-on s a line.ready t a l c,
          ap (master_footer_in p) line.format,
          put-on s a line.ready t a l c newline,
          dec,
          putf-on s a line.ready (t ++ newline) 0 l c (root_close p),
          append_assoc,
        )
        refl

  -- In XML output, on an empty document, `master_header`, the calls for any nested document and
  -- `master_footer` return, write the declaration, the root element and in it the text that `items`
  -- describes, and leave the indentation 0. Conditions: the indent amount is not negative, the wide
  -- indent character is not nul, the separator, every name and every value can be converted, and the
  -- deepest indentation inside the root element fits `int`.
  pub xml_document-run :
      IsLineState decode s a xml m
      → (xs : Nodes) → EncodesNodes decode iswprint xml xs
      → a + depth_nodes a xs ≤ int_max
      → (l c : ElementType) × (emit_lines xs
            (on s [] 0 ElementType.no_element ElementType.no_element)
          ≡ ok (tt, on s (xml_document xs) 0 l c))
  xml_document-run line xs h le =
      let o = ElementType.no_element in
      let b = nodes_start-run xml line xs head a o (header_indent-on line.ready) h le in
      (
        b.0,
        b.1,
        rw (xml_header-run line (omega arith) o o, b.2, xml_footer-run line _ b.0 b.1, append_assoc)
            refl,
      )
