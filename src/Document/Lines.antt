-- ===== src/Document/Lines.antt =====
-- Text and XML output: the text of a document, described with no state. Objects leave no trace in it.
pub mod Table
pub mod Calls
pub mod Inside
pub mod Run
pub mod Whole
use Prim.Native.Nat.{max}
use procenv.Prelude.{ℕ, Bool, ◌+◌, List, [], ◌∷◌, ◌++◌, Text}
use procenv.Pstring.{Decode}
use procenv.Output.{OutputFormat, text, crumb, json, xml}
use procenv.Output.TextTable.{newline}
use procenv.Output.Elements.{
  name_text, value_text, section_open_text, container_open_text, xml_section_close,
  xml_container_close, xml_entry_open, xml_entry_close,
}
use procenv.Document.{
  Node, Nodes, Objects, leaf, section, container, nil, cons, end, object, or_nil,
}

-- The two formats.
pub data IsLineFormat : OutputFormat → Type 0 where
  as_text : IsLineFormat OutputFormat.text
  as_xml : IsLineFormat OutputFormat.xml

-- An entry with the name `x`, the separator `m` and the value `y`.
abbrev pub entry_text : OutputFormat → Text → Text → Text → Text
entry_text xml m x y = xml_entry_open ++ (x ++ (34 ∷ b'>' ∷ (y ++ xml_entry_close)))
entry_text _ m x y = x ++ (m ++ (y ++ []))

abbrev pub section_close_text : OutputFormat → Text
section_close_text xml = xml_section_close
section_close_text _ = []

abbrev pub container_close_text : OutputFormat → Text
container_close_text xml = xml_container_close
container_close_text _ = []

-- How far the lines of a node are indented beyond the node, with `a` for each level.
unfoldable mutual
  pub depth : ℕ → Node → ℕ
  depth a (leaf name fmt expand) = 0
  depth a (section name xs) = a + depth_nodes a xs
  depth a (container name os) = a + depth_objects a os

  pub depth_nodes : ℕ → Nodes → ℕ
  depth_nodes a nil = 0
  depth_nodes a (cons x xs) = max (depth a x) (depth_nodes a xs)

  pub depth_objects : ℕ → Objects → ℕ
  depth_objects a end = 0
  depth_objects a (object xs os) = max (depth_nodes a xs) (depth_objects a os)

module _ (ind : ℕ → Text) where
  -- Items on lines of their own, each behind a line break.
  unfoldable pub lines : ℕ → List Text → Text
  lines n [] = []
  lines n (k ∷ ks) = newline ++ (ind n ++ (k ++ lines n ks))

  -- What stands between an opening and a closing text: the items one level in, and the closing one
  -- on a line of its own. With no items XML still breaks the line.
  unfoldable pub between : OutputFormat → ℕ → ℕ → List Text → Text
  between xml a n [] = newline ++ ind n
  between _ a n [] = []
  between _ a n (k ∷ ks) = lines (n + a) (k ∷ ks) ++ (newline ++ ind n)

module _ (decode : Decode) (iswprint : ℕ → Bool) (ind : ℕ → Text) (f : OutputFormat) (m : Text)
    (a : ℕ) where
  -- The text of a node whose own line is indented by `ind n`.
  unfoldable mutual
    pub line_node : ℕ → Node → Text
    line_node n (leaf name fmt expand) =
        entry_text f m (or_nil (name_text decode iswprint f name))
          (or_nil (value_text decode iswprint f fmt expand))
    line_node n (section name xs) =
        section_open_text f (or_nil (name_text decode iswprint f name))
        ++ (between ind f a n (items (n + a) xs) ++ section_close_text f)
    line_node n (container name os) =
        container_open_text f (or_nil (name_text decode iswprint f name))
        ++ (between ind f a n (object_items (n + a) os) ++ container_close_text f)

    pub items : ℕ → Nodes → List Text
    items n nil = []
    items n (cons x xs) = line_node n x ∷ items n xs

    pub object_items : ℕ → Objects → List Text
    object_items n end = []
    object_items n (object xs os) = items n xs ++ object_items n os
