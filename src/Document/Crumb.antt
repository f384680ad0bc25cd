-- ===== src/Document/Crumb.antt =====
-- Breadcrumb output: each entry on a line of its own, behind the names of what it stands in.
pub mod Calls
pub mod Run
use procenv.Prelude.{
  ℕ, Bool, false, ◌+◌, ◌≡◌, refl, ap, ◌∙◌, Option, none, some, List, [], ◌∷◌, ◌++◌, append-nil,
  append_assoc, drop_last, All, All-append, Bytes, Text, Outcome, ok, Cmd, ◌>>◌, arith,
}
use procenv.Pstring.{Decode}
use procenv.StringUtil.{Expansion}
use procenv.Output.{State, OutputFormat, crumb, ElementType, putf, put}
use procenv.Output.TextTable.{newline}
use procenv.Output.Crumbs.{add_breadcrumb, remove_breadcrumb}
use procenv.Output.Elements.{
  name_text, value_text, format_element, format_element_in, change_element, change_object_in,
  put_json_in, section_open, section_close, container_open, container_close, object_open,
  object_close, entry, put_entry, put_entry_crumb, separated, both, put_crumbs, put_section_open,
  put_section_close, put_container_open, put_container_close,
}
use procenv.Output.Elements.Steps.{on, IsReady, common_assert-on, putf-on}
use procenv.Document.{
  Node, Nodes, Objects, leaf, section, container, nil, cons, end, object, or_nil, IsText, emit,
  emit_nodes, emit_objects, Encodes, EncodesNodes, EncodesObjects,
}

module _ (decode : Decode) (iswprint : ℕ → Bool) where
  -- A byte string as `%s` prints it.
  unfoldable pub decoded : Bytes → Text
  decoded c = elim (decode c) [ none ↦ [] | some t ↦ t ]

  abbrev pub IsDecoded : Bytes → Type 0
  IsDecoded c = decode c ≡ some (decoded c)

  -- The names of sections and containers can be converted.
  unfoldable mutual
    pub HasCrumbs : Node → Type 0
    HasCrumbs (leaf name fmt expand) = Unit {0}
    HasCrumbs (section name xs) = IsDecoded name × HasCrumbsNodes xs
    HasCrumbs (container name os) = IsDecoded name × HasCrumbsObjects os

    pub HasCrumbsNodes : Nodes → Type 0
    HasCrumbsNodes nil = Unit {0}
    HasCrumbsNodes (cons x xs) = HasCrumbs x × HasCrumbsNodes xs

    pub HasCrumbsObjects : Objects → Type 0
    HasCrumbsObjects end = Unit {0}
    HasCrumbsObjects (object xs os) = HasCrumbsNodes xs × HasCrumbsObjects os

  module _ (sep m : Text) where
    -- The crumbs before an entry.
    unfoldable pub crumbs_text : List Bytes → Text
    crumbs_text [] = []
    crumbs_text (c ∷ cs) = (decoded c ++ sep) ++ crumbs_text cs

    -- The lines of the entries, with the names `p` that they stand in.
    unfoldable mutual
      pub crumb_node : List Bytes → Node → Text
      crumb_node p (leaf name fmt expand) =
          crumbs_text p
          ++ (or_nil (name_text decode iswprint crumb name)
              ++ (m ++ (or_nil (value_text decode iswprint crumb fmt expand) ++ newline)))
      crumb_node p (section name xs) = crumb_nodes (p ++ name ∷ []) xs
      crumb_node p (container name os) = crumb_objects (p ++ name ∷ []) os

      pub crumb_nodes : List Bytes → Nodes → Text
      crumb_nodes p nil = []
      crumb_nodes p (cons x xs) = crumb_node p x ++ crumb_nodes p xs

      pub crumb_objects : List Bytes → Objects → Text
      crumb_objects p end = []
      crumb_objects p (object xs os) = crumb_nodes p xs ++ crumb_objects p os
