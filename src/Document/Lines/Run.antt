-- ===== src/Document/Lines/Run.antt =====
-- Runs of the calls that write a document, in text and XML output.
use procenv.Prelude.{
  ℕ, Bool, ◌+◌, ◌≤◌, refl, List, [], ◌∷◌, ◌++◌, append-nil, append_assoc, Text, int_max, arith,
}
use procenv.Pstring.{Decode}
use procenv.Output.{State, OutputFormat, ElementType}
use procenv.Output.TextTable.{newline}
use procenv.Output.Elements.{name_text, section_open_text, container_open_text}
use procenv.Output.Elements.Steps.{on, indentation}
use procenv.Document.Place.{Done, Leads, Reaches}
use procenv.Document.{
  Node, Nodes, Objects, leaf, section, container, nil, cons, end, object, or_nil, emit, emit_nodes,
  emit_objects, Encodes, EncodesNodes, EncodesObjects,
}
use procenv.Document.Lines.{depth, depth_nodes, depth_objects, line_node, items, object_items}
use procenv.Document.Lines.Table.{Brackets}
use procenv.Document.Lines.Inside.{
  PlaceAt, text_at, level_at, Inside, Inside-snoc, Inside-then, PlaceAt-Leads, PlaceAt-ends,
}
use procenv.Document.Lines.Calls.{
  IsLineState, entry-run, section_open-run, container_open-run, section_close-run,
  container_close-run, object_open-run, object_close-run,
}

module _ (decode : Decode) (iswprint : ℕ → Bool) (s : State) (a : ℕ) (f : OutputFormat) (m : Text)
    (line : IsLineState decode s a f m) where
  abbrev node_text : ℕ → Node → Text
  node_text = line_node decode iswprint (indentation s) f m a

  abbrev item_texts : ℕ → Nodes → List Text
  item_texts = items decode iswprint (indentation s) f m a

  abbrev object_item_texts : ℕ → Objects → List Text
  object_item_texts = object_items decode iswprint (indentation s) f m a

  -- The state behind the items `ks`.
  abbrev behind : Text → ℕ → List Text → ElementType → ElementType → State
  behind t n ks l c = on s (text_at (indentation s) a t n ks) (level_at a n ks) l c

  mutual
    unfolding emit emit_nodes emit_objects depth depth_nodes depth_objects Encodes EncodesNodes
        EncodesObjects line_node items object_items

    pub node-run :
        (x : Node) (t0 : Text) (n0 : ℕ) (l0 c0 : ElementType) (t : Text) (n : ℕ)
        → Leads s t0 n0 c0 t n
        → Encodes decode iswprint f x
        → n + depth a x ≤ int_max
        → Reaches s (emit decode iswprint x (on s t0 n0 l0 c0)) (t ++ node_text n x) n
    node-run (leaf name fmt expand) t0 n0 l0 c0 t n leads h le =
        entry-run decode iswprint s a f m line t0 n0 l0 c0 t n name fmt expand leads h
    node-run (section name xs) t0 n0 l0 c0 t n leads (hn, hs) le =
        let start = t ++ section_open_text f (or_nil (name_text decode iswprint f name)) in
        let b = nodes-run xs Brackets.section start n [] c0 _ PlaceAt.opened hs (omega arith) in
        let e =
          PlaceAt-ends s a start n _ line.ready f line.is_line line.format Brackets.section _
            b.last_el b.current_el b.place (omega arith) in
        record {
          last_el = b.current_el;
          current_el = ElementType.section_close;
          done = Done.section;
          run =
              rw
                (
                  section_open-run decode iswprint s a f m line t0 n0 l0 c0 t n name leads hn,
                  b.run,
                  section_close-run decode iswprint s a f m line _ _ b.last_el b.current_el _ n e,
                  append_assoc,
                  append_assoc,
                )
                refl;
        }
    node-run (container name os) t0 n0 l0 c0 t n leads (hn, hs) le =
        let start = t ++ container_open_text f (or_nil (name_text decode iswprint f name)) in
        let b = objects-run os Brackets.container start n [] c0 _ PlaceAt.opened hs (omega arith) in
        let e =
          PlaceAt-ends s a start n _ line.ready f line.is_line line.format Brackets.container _
            b.last_el b.current_el b.place (omega arith) in
        record {
          last_el = b.current_el;
          current_el = ElementType.container_close;
          done = Done.container;
          run =
              rw
                (
                  container_open-run decode iswprint s a f m line t0 n0 l0 c0 t n name leads hn,
                  b.run,
                  container_close-run decode iswprint s a f m line _ _ b.last_el b.current_el _ n e,
                  append_assoc,
                  append_assoc,
                )
                refl;
        }

    -- The nodes of a list, each on a line behind the items that are there.
    nodes-run :
        (xs : Nodes) {o close : ElementType}
        → Brackets o close
        → (t : Text) (n : ℕ) (ks : List Text) (l c : ElementType) → PlaceAt o ks c
        → EncodesNodes decode iswprint f xs
        → n + a + depth_nodes a xs ≤ int_max
        → Inside s a t n o
            (ks ++ item_texts (n + a) xs)
            (emit_nodes decode iswprint xs (behind t n ks l c))
    nodes-run nil b t n ks l c p h le =
        rw append-nil (record { last_el = l; current_el = c; place = p; run = refl })
    nodes-run (cons x xs) {o} b t n ks l c p (hx, hs) le =
        let k = node_text (n + a) x in
        let leads =
          PlaceAt-Leads s a t n o line.ready f line.is_line line.format b ks c p (omega arith) in
        let y = Inside-snoc s a t n o ks k (
          node-run x _ _ l c
            (text_at (indentation s) a t n ks ++ (newline ++ indentation s (n + a))) (n + a) leads
            hx (omega arith)) in
        let z = nodes-run xs b t n (ks ++ k ∷ []) y.last_el y.current_el y.place hs (omega arith) in
        rw append_assoc at (Inside-then s a t n o (emit_nodes decode iswprint xs) y z)

    objects-run :
        (os : Objects) {o close : ElementType}
        → Brackets o close
        → (t : Text) (n : ℕ) (ks : List Text) (l c : ElementType) → PlaceAt o ks c
        → EncodesObjects decode iswprint f os
        → n + a + depth_objects a os ≤ int_max
        → Inside s a t n o
            (ks ++ object_item_texts (n + a) os)
            (emit_objects decode iswprint os (behind t n ks l c))
    objects-run end b t n ks l c p h le =
        rw append-nil (record { last_el = l; current_el = c; place = p; run = refl })
    objects-run (object xs os) {o} b t n ks l c p (hx, hs) le =
        let y = nodes-run xs b t n ks l c p hx (omega arith) in
        let z =
          objects-run os b t n (ks ++ item_texts (n + a) xs) y.last_el y.current_el y.place hs
            (omega arith) in
        let both : Inside s a t n o ((ks ++ item_texts (n + a) xs) ++ object_item_texts (n + a) os)
            (emit_objects decode iswprint (object xs os) (behind t n ks l c)) =
          record {
            last_el = z.last_el;
            current_el = z.current_el;
            place = z.place;
            run =
                rw
                  (
                    object_open-run decode iswprint s a f m line _ _ l c,
                    y.run,
                    object_close-run decode iswprint s a f m line _ _ y.last_el y.current_el,
                  )
                  z.run;
          } in
        rw append_assoc at both
