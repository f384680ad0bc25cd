-- ===== src/Document/Json.antt =====
-- JSON output: the text of a document, described with no state.
pub mod Calls
pub mod Run
pub mod Table
pub mod Whole
use procenv.Prelude.{
  ℕ, Bool, pure, ◌+◌, ◌≤◌, ◌≡◌, refl, ap, List, [], ◌∷◌, ◌++◌, append-nil, Bytes, Text, int_max,
  Outcome, ok, Cmd, arith,
}
use procenv.Pstring.{Decode}
use procenv.Output.{State, OutputFormat, json, ElementType}
use procenv.Output.TextTable.{newline, line_on, line_in, line_out}
use procenv.Output.JsonTable.{comma_newline, json_table, format_json_element}
use procenv.Output.Elements.{
  name_text, value_text, format_element, format_element_in, change_element,
}
use procenv.Output.Elements.Steps.{
  on, indentation, IsReady, common_assert-on, line_on-on, line_in-on, line_out-on,
}
use procenv.Document.Place.{Done, Opened, Starts, Ends}
use procenv.Document.{
  Node, Nodes, Objects, leaf, section, container, nil, cons, end, object, or_nil,
}

-- A quoted name and a colon.
abbrev pub json_key : Text → Text
json_key x = 34 ∷ (x ++ 34 ∷ b' ' ∷ b':' ∷ b' ' ∷ [])

module _ (decode : Decode) (iswprint : ℕ → Bool) (ind : ℕ → Text) (a : ℕ) where
  -- The text of a node whose lines are indented by `ind n`.
  unfoldable mutual
    pub json_node : ℕ → Node → Text
    json_node n (leaf name fmt expand) =
        json_key (or_nil (name_text decode iswprint json name))
        ++ (34 ∷ (or_nil (value_text decode iswprint json fmt expand) ++ 34 ∷ []))
    json_node n (section name xs) =
        json_key (or_nil (name_text decode iswprint json name))
        ++ (b'{' ∷ (json_body n xs ++ b'}' ∷ []))
    json_node n (container name os) =
        json_key (or_nil (name_text decode iswprint json name))
        ++ (b'[' ∷ (json_objects n os ++ b']' ∷ []))

    -- What stands between the brackets of a section or an object.
    pub json_body : ℕ → Nodes → Text
    json_body n nil = []
    json_body n (cons x xs) =
        newline
        ++ (ind (n + a) ++ (json_node (n + a) x ++ (json_rest (n + a) xs ++ (newline ++ ind n))))

    -- The nodes behind the first.
    pub json_rest : ℕ → Nodes → Text
    json_rest n nil = []
    json_rest n (cons x xs) = comma_newline ++ (ind n ++ (json_node n x ++ json_rest n xs))

    -- What stands between the brackets of a container.
    pub json_objects : ℕ → Objects → Text
    json_objects n end = []
    json_objects n (object xs os) =
        newline
        ++ (ind (n + a)
            ++ (b'{'
                ∷ (json_body (n + a) xs
                    ++ (b'}' ∷ (json_rest_objects (n + a) os ++ (newline ++ ind n))))))

    pub json_rest_objects : ℕ → Objects → Text
    json_rest_objects n end = []
    json_rest_objects n (object xs os) =
        comma_newline ++ (ind n ++ (b'{' ∷ (json_body n xs ++ (b'}' ∷ json_rest_objects n os))))
