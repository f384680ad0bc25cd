-- ===== src/Document/Json/Run.antt =====
-- Runs of the calls that write a document, in JSON output.
use procenv.Prelude.{
  ℕ, Bool, false, ◌+◌, ◌≤◌, ◌≡◌, refl, [], ◌∷◌, ◌++◌, append-nil, append_assoc, Text, int_max,
  Outcome, ok, arith, ◌>>◌,
}
use procenv.Pstring.{Decode}
use procenv.Output.{State, json, ElementType}
use procenv.Output.Elements.{name_text, object_close}
use procenv.Output.Elements.Steps.{on, indentation, IsReady}
use procenv.Document.Place.{Leads, Reaches, Closes, Done, Opened, Ends}
use procenv.Document.{
  Node, Nodes, Objects, leaf, section, container, nil, cons, end, object, or_nil, room, room_nodes,
  room_objects, emit, emit_nodes, emit_objects, Encodes, EncodesNodes, EncodesObjects,
}
use procenv.Output.TextTable.{newline}
use procenv.Output.JsonTable.{comma_newline}
use procenv.Document.Json.{
  json_key, json_node, json_body, json_rest, json_objects, json_rest_objects,
}
use procenv.Document.Json.Table.{
  sibling, first_node, ends_empty, ends, first_object, next_object, last_object,
}
use procenv.Document.Json.Calls.{
  entry-run, section_open-run, container_open-run, section_close-run, container_close-run,
  object_open-run, object_close-run,
}

module _ (decode : Decode) (iswprint : ℕ → Bool) where
  module _ (s : State) (a : ℕ) (ready : IsReady s a) (is_json : s.output_format ≡ json) where
    abbrev node_text : ℕ → Node → Text
    node_text = json_node decode iswprint (indentation s) a

    abbrev rest_text : ℕ → Nodes → Text
    rest_text = json_rest decode iswprint (indentation s) a

    abbrev body_text : ℕ → Nodes → Text
    body_text = json_body decode iswprint (indentation s) a

    abbrev objects_text : ℕ → Objects → Text
    objects_text = json_objects decode iswprint (indentation s) a

    abbrev rest_objects_text : ℕ → Objects → Text
    rest_objects_text = json_rest_objects decode iswprint (indentation s) a

    -- A run that leaves text `t` behind a complete object.
    abbrev ReachesObject : Outcome (Unit {0} × State) → Text → ℕ → Type 0
    ReachesObject r t n = (l : ElementType) × (r ≡ ok (tt, on s t n l ElementType.object_close))

    -- The rest of the objects from inside the first on.
    object_body-run :
        (xs : Nodes) (os : Objects) (t : Text) (n : ℕ) (l : ElementType)
        → Closes s
            (emit_nodes decode iswprint xs (on s (t ++ b'{' ∷ []) n l ElementType.object_open))
            ElementType.object_close
            ((t ++ b'{' ∷ []) ++ body_text n xs)
            n
        → ((t' : Text) (l' : ElementType)
            → ReachesObject
                (emit_objects decode iswprint os (on s t' n l' ElementType.object_close))
                (t' ++ rest_objects_text n os)
                n)
        → ReachesObject
            ((emit_nodes decode iswprint xs
                >> object_close false
                >> emit_objects decode iswprint os)
              (on s (t ++ b'{' ∷ []) n l ElementType.object_open))
            (t ++ (b'{' ∷ (body_text n xs ++ (b'}' ∷ rest_objects_text n os))))
            n
    object_body-run xs os t n l b rest =
        let c =
          object_close-run decode iswprint s a ready is_json b.inner b.level b.last_el b.current_el
            _ n b.close in
        let r = rest (((t ++ b'{' ∷ []) ++ body_text n xs) ++ b'}' ∷ []) b.current_el in
        (r.0, rw (b.run, c, r.1, append_assoc, append_assoc, append_assoc) refl)

    mutual
      unfolding emit emit_nodes emit_objects room room_nodes room_objects Encodes EncodesNodes
          EncodesObjects json_node json_body json_rest json_objects json_rest_objects

      node-run :
          (x : Node) (t0 : Text) (n0 : ℕ) (l0 c0 : ElementType) (t : Text) (n : ℕ)
          → Leads s t0 n0 c0 t n
          → Encodes decode iswprint json x
          → n + room a x ≤ int_max
          → Reaches s (emit decode iswprint x (on s t0 n0 l0 c0)) (t ++ node_text n x) n
      node-run (leaf name fmt expand) t0 n0 l0 c0 t n leads h le =
          entry-run decode iswprint s a ready is_json name fmt expand t0 n0 l0 c0 t n leads h
      node-run (section name xs) t0 n0 l0 c0 t n leads (hn, hs) le =
          let start = t ++ (json_key (or_nil (name_text decode iswprint json name)) ++ b'{' ∷ []) in
          let b = body-run xs Opened.section Ends.section start n c0 hs le in
          record {
            last_el = b.current_el;
            current_el = ElementType.section_close;
            done = Done.section;
            run =
                rw
                  (
                    section_open-run decode iswprint s a ready is_json name t0 n0 l0 c0 t n leads
                        hn,
                    b.run,
                    section_close-run decode iswprint s a ready is_json b.inner b.level b.last_el
                        b.current_el _ n b.close,
                    append_assoc,
                    append_assoc,
                    append_assoc,
                  )
                  refl;
          }
      node-run (container name os) t0 n0 l0 c0 t n leads (hn, hs) le =
          let start = t ++ (json_key (or_nil (name_text decode iswprint json name)) ++ b'[' ∷ []) in
          let b = objects-run os start n c0 hs le in
          record {
            last_el = b.current_el;
            current_el = ElementType.container_close;
            done = Done.container;
            run =
                rw
                  (
                    container_open-run decode iswprint s a ready is_json name t0 n0 l0 c0 t n leads
                        hn,
                    b.run,
                    container_close-run decode iswprint s a ready is_json b.inner b.level b.last_el
                        b.current_el _ n b.close,
                    append_assoc,
                    append_assoc,
                    append_assoc,
                  )
                  refl;
          }

      rest-run :
          (xs : Nodes) (t : Text) (n : ℕ) (l c : ElementType)
          → Done c
          → EncodesNodes decode iswprint json xs
          → n + room_nodes a xs ≤ int_max
          → Reaches s (emit_nodes decode iswprint xs (on s t n l c)) (t ++ rest_text n xs) n
      rest-run nil t n l c d h le = record {
        last_el = l;
        current_el = c;
        done = d;
        run = rw append-nil refl;
      }
      rest-run (cons x xs) t n l c d (hx, hs) le =
          let leads : Leads s t n c (t ++ (comma_newline ++ indentation s n)) n =
            λ l' el st. sibling s a ready is_json t n l' {c = c} {el = el} d st in
          let y =
            node-run x t n l c (t ++ (comma_newline ++ indentation s n)) n leads hx (omega arith) in
          let r =
            rest-run xs ((t ++ (comma_newline ++ indentation s n)) ++ node_text n x) n y.last_el
              y.current_el y.done hs (omega arith) in
          record {
            last_el = r.last_el;
            current_el = r.current_el;
            done = r.done;
            run = rw (y.run, r.run, append_assoc, append_assoc, append_assoc) refl;
          }

      pub body-run :
          (xs : Nodes) {o el : ElementType}
          → Opened o
          → Ends o el
          → (t : Text) (n : ℕ) (l : ElementType) → EncodesNodes decode iswprint json xs
          → n + (a + room_nodes a xs) ≤ int_max
          → Closes s (emit_nodes decode iswprint xs (on s t n l o)) el (t ++ body_text n xs) n
      body-run nil op en t n l h le = record {
        inner = t;
        level = n;
        last_el = l;
        current_el = _;
        run = refl;
        close = rw append-nil (ends_empty s a ready is_json t n l en);
      }
      body-run (cons x xs) {o} {el} op en t n l (hx, hs) le =
          let leads : Leads s t n o (t ++ (newline ++ indentation s (n + a))) (n + a) =
            λ l' el st. first_node s a ready is_json t n l' {c = o} {el = el} op st (omega arith) in
          let y =
            node-run x t n l o (t ++ (newline ++ indentation s (n + a))) (n + a) leads hx
              (omega arith) in
          let r =
            rest-run xs ((t ++ (newline ++ indentation s (n + a))) ++ node_text (n + a) x) (n + a)
              y.last_el y.current_el y.done hs (omega arith) in
          record {
            inner =
                ((t ++ (newline ++ indentation s (n + a))) ++ node_text (n + a) x)
                ++ rest_text (n + a) xs;
            level = n + a;
            last_el = r.last_el;
            current_el = r.current_el;
            run = rw y.run r.run;
            close =
                rw
                  (
                    ends s a ready is_json _ n r.last_el en r.done (omega arith),
                    append_assoc,
                    append_assoc,
                    append_assoc,
                    append_assoc,
                  )
                  refl;
          }

      objects-run :
          (os : Objects) (t : Text) (n : ℕ) (l : ElementType)
          → EncodesObjects decode iswprint json os
          → n + (a + room_objects a os) ≤ int_max
          → Closes s
              (emit_objects decode iswprint os (on s t n l ElementType.container_open))
              ElementType.container_close
              (t ++ objects_text n os)
              n
      objects-run end t n l h le = record {
        inner = t;
        level = n;
        last_el = l;
        current_el = ElementType.container_open;
        run = refl;
        close = rw append-nil (ends_empty s a ready is_json t n l Ends.container);
      }
      objects-run (object xs os) t n l (hx, hs) le =
          let lead = t ++ (newline ++ indentation s (n + a)) in
          let opened =
            object_open-run decode iswprint s a ready is_json t n l ElementType.container_open lead
              (n + a) (first_object s a ready is_json t n l (omega arith)) in
          let y =
            object_body-run xs os lead (n + a) ElementType.container_open
              (body-run xs Opened.object Ends.object _ (n + a) ElementType.container_open hx
                (omega arith))
              (λ t' l'. rest_objects-run os t' (n + a) l' hs (omega arith)) in
          record {
            inner =
                lead ++ (b'{' ∷ (body_text (n + a) xs ++ (b'}' ∷ rest_objects_text (n + a) os)));
            level = n + a;
            last_el = y.0;
            current_el = ElementType.object_close;
            run = rw opened y.1;
            close =
                rw
                  (
                    last_object s a ready is_json _ n y.0 (omega arith),
                    append_assoc,
                    append_assoc,
                    append_assoc,
                    append_assoc,
                  )
                  refl;
          }

      rest_objects-run :
          (os : Objects) (t : Text) (n : ℕ) (l : ElementType)
          → EncodesObjects decode iswprint json os
          → n + room_objects a os ≤ int_max
          → ReachesObject
              (emit_objects decode iswprint os (on s t n l ElementType.object_close))
              (t ++ rest_objects_text n os)
              n
      rest_objects-run end t n l h le = (l, rw append-nil refl)
      rest_objects-run (object xs os) t n l (hx, hs) le =
          let lead = t ++ (comma_newline ++ indentation s n) in
          let opened =
            object_open-run decode iswprint s a ready is_json t n l ElementType.object_close lead n
              (next_object s a ready is_json t n l) in
          let y =
            object_body-run xs os lead n ElementType.object_close
              (body-run xs Opened.object Ends.object _ n ElementType.object_close hx (omega arith))
              (λ t' l'. rest_objects-run os t' n l' hs (omega arith)) in
          (y.0, rw (opened, y.1, append_assoc, append_assoc) refl)
