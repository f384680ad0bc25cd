-- ===== src/Document/Crumb/Run.antt =====
-- Runs of the calls that write a document, in breadcrumb output.
use procenv.Prelude.{
  ℕ, Bool, ◌≡◌, refl, some, List, [], ◌∷◌, ◌++◌, append-nil, append_assoc, All, All-append, Bytes,
  Text, Outcome, ok,
}
use procenv.Pstring.{Decode}
use procenv.Output.{State, crumb, ElementType}
use procenv.Output.Elements.Steps.{on, IsReady}
use procenv.Document.{
  Node, Nodes, Objects, leaf, section, container, nil, cons, end, object, emit, emit_nodes,
  emit_objects, Encodes, EncodesNodes, EncodesObjects,
}
use procenv.Document.Crumb.{
  IsDecoded, crumb_node, crumb_nodes, crumb_objects, HasCrumbs, HasCrumbsNodes, HasCrumbsObjects,
}
use procenv.Document.Crumb.Calls.{
  within, object_open-run, object_close-run, entry-run, section_open-run, section_close-run,
  container_open-run, container_close-run,
}

module _ (decode : Decode) (iswprint : ℕ → Bool) (s : State) (a : ℕ) (ready : IsReady s a)
    (is_crumb : s.output_format ≡ crumb) (sep m : Text)
    (crumb_sep : decode s.crumb_separator ≡ some sep)
    (text_sep : decode s.text_separator ≡ some m) where
  abbrev pub at : List Bytes → State
  at p = within decode iswprint s a ready is_crumb sep m crumb_sep text_sep p

  abbrev pub Out : List Bytes → Text → ℕ → Outcome (Unit {0} × State) → Type 0
  Out p t n r = (l c : ElementType) × (r ≡ ok (tt, on (at p) t n l c))

  All-snoc :
      (p : List Bytes) (name : Bytes)
      → All (IsDecoded decode iswprint) p
      → IsDecoded decode iswprint name
      → All (IsDecoded decode iswprint) (p ++ name ∷ [])
  All-snoc p name h d = All-append (IsDecoded decode iswprint) p (name ∷ []) h (d, tt)

  mutual
    unfolding emit emit_nodes emit_objects Encodes EncodesNodes EncodesObjects crumb_node
        crumb_nodes crumb_objects HasCrumbs HasCrumbsNodes HasCrumbsObjects

    node-run :
        (x : Node) (p : List Bytes) (t : Text) (n : ℕ) (l c : ElementType)
        → All (IsDecoded decode iswprint) p
        → Encodes decode iswprint crumb x
        → HasCrumbs decode iswprint x
        → Out p
            (t ++ crumb_node decode iswprint sep m p x)
            n
            (emit decode iswprint x (on (at p) t n l c))
    node-run (leaf name fmt expand) p t n l c hp h d = (
      c,
      ElementType.entry,
      entry-run decode iswprint s a ready is_crumb sep m crumb_sep text_sep name fmt expand p t n l
          c hp h,
    )
    node-run (section name xs) p t n l c hp (hn, hs) (d, ds) =
        let y =
          nodes-run xs (p ++ name ∷ []) t n c ElementType.section_open (All-snoc p name hp d) hs
            ds in
        (
          y.1,
          ElementType.section_close,
          rw
              (
                section_open-run decode iswprint s a ready is_crumb sep m crumb_sep text_sep name p
                    t n l c hn,
                y.2,
                section_close-run decode iswprint s a ready is_crumb sep m crumb_sep text_sep p name
                    _ n y.0 y.1,
              )
              refl,
        )
    node-run (container name os) p t n l c hp (hn, hs) (d, ds) =
        let y =
          objects-run os (p ++ name ∷ []) t n c ElementType.container_open (All-snoc p name hp d) hs
            ds in
        (
          y.1,
          ElementType.container_close,
          rw
              (
                container_open-run decode iswprint s a ready is_crumb sep m crumb_sep text_sep name
                    p t n l c hn,
                y.2,
                container_close-run decode iswprint s a ready is_crumb sep m crumb_sep text_sep p
                    name _ n y.0 y.1,
              )
              refl,
        )

    nodes-run :
        (xs : Nodes) (p : List Bytes) (t : Text) (n : ℕ) (l c : ElementType)
        → All (IsDecoded decode iswprint) p
        → EncodesNodes decode iswprint crumb xs
        → HasCrumbsNodes decode iswprint xs
        → Out p
            (t ++ crumb_nodes decode iswprint sep m p xs)
            n
            (emit_nodes decode iswprint xs (on (at p) t n l c))
    nodes-run nil p t n l c hp h d = (l, c, rw append-nil refl)
    nodes-run (cons x xs) p t n l c hp (hx, hs) (dx, ds) =
        let y = node-run x p t n l c hp hx dx in
        let z = nodes-run xs p (t ++ crumb_node decode iswprint sep m p x) n y.0 y.1 hp hs ds in
        (z.0, z.1, rw (y.2, z.2, append_assoc) refl)

    objects-run :
        (os : Objects) (p : List Bytes) (t : Text) (n : ℕ) (l c : ElementType)
        → All (IsDecoded decode iswprint) p
        → EncodesObjects decode iswprint crumb os
        → HasCrumbsObjects decode iswprint os
        → Out p
            (t ++ crumb_objects decode iswprint sep m p os)
            n
            (emit_objects decode iswprint os (on (at p) t n l c))
    objects-run end p t n l c hp h d = (l, c, rw append-nil refl)
    objects-run (object xs os) p t n l c hp (hx, hs) (dx, ds) =
        let y = nodes-run xs p t n l c hp hx dx in
        let z = objects-run os p (t ++ crumb_nodes decode iswprint sep m p xs) n y.0 y.1 hp hs ds in
        (
          z.0,
          z.1,
          rw
              (
                object_open-run decode iswprint s a ready is_crumb sep m crumb_sep text_sep p t n l
                    c,
                y.2,
                object_close-run decode iswprint s a ready is_crumb sep m crumb_sep text_sep p _ n
                    y.0 y.1,
                z.2,
                append_assoc,
              )
              refl,
        )

  -- In breadcrumb output, the calls for any nested document return, and append one line for each
  -- entry: the names of the sections and containers that it stands in, its name and its value. They
  -- leave the indentation and the breadcrumbs `p` as they are. Conditions: the indent amount is not
  -- negative, the wide indent character is not nul, every name, every value and both separators can
  -- be converted, and there is a list of breadcrumbs, which may be empty.
  pub crumb_node-run :
      (x : Node) (p : List Bytes) (t : Text) (n : ℕ) (l c : ElementType)
      → All (IsDecoded decode iswprint) p
      → Encodes decode iswprint crumb x
      → HasCrumbs decode iswprint x
      → Out p
          (t ++ crumb_node decode iswprint sep m p x)
          n
          (emit decode iswprint x (on (at p) t n l c))
  crumb_node-run = node-run
