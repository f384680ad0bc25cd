-- ===== src/Document.antt =====
-- A document as the callers of src/output.c make one: nested sections, containers and objects with
-- entries, each opened and closed again.
pub mod Json
pub mod Crumb
pub mod Lines
pub mod Place
mod Tests
use Prim.Native.Nat.{max}
use procenv.Prelude.{
  ℕ, ◌+◌, ◌≡◌, [], Bytes, Text, Outcome, ok, halt, Cmd, pure, ◌>>=◌, ◌>>◌, Bool, false,
}
use procenv.Pstring.{Decode}
use procenv.StringUtil.{Expansion}
use procenv.Output.{State, OutputFormat}
use procenv.Output.Elements.{
  name_text, value_text, section_open, section_close, container_open, container_close, object_open,
  object_close, entry,
}

-- An entry has a name, a format and what the format expands to. A container holds objects, and an
-- object what a section holds.
mutual
  pub data Node : Type 0 where
    leaf : Bytes → Bytes → (Text → Expansion) → Node
    section : Bytes → Nodes → Node
    container : Bytes → Objects → Node

  pub data Nodes : Type 0 where
    nil : Nodes
    cons : Node → Nodes → Nodes

  pub data Objects : Type 0 where
    end : Objects
    object : Nodes → Objects → Objects

-- The text of a conversion that succeeds.
abbrev pub or_nil : Outcome Text → Text
or_nil (ok t) = t
or_nil (halt why) = []

abbrev pub IsText : Outcome Text → Type 0
IsText o = o ≡ ok (or_nil o)

-- How far the lines of a node are indented beyond the node, with `a` for each level.
unfoldable mutual
  pub room : ℕ → Node → ℕ
  room a (leaf name fmt expand) = 0
  room a (section name xs) = a + room_nodes a xs
  room a (container name os) = a + room_objects a os

  pub room_nodes : ℕ → Nodes → ℕ
  room_nodes a nil = 0
  room_nodes a (cons x xs) = max (room a x) (room_nodes a xs)

  pub room_objects : ℕ → Objects → ℕ
  room_objects a end = 0
  room_objects a (object xs os) = max (a + room_nodes a xs) (room_objects a os)

module _ (decode : Decode) (iswprint : ℕ → Bool) where
  -- The calls that make a document.
  unfoldable mutual
    pub emit : Node → Cmd State (Unit {0})
    emit (leaf name fmt expand) = entry decode iswprint name fmt expand
    emit (section name xs) = section_open decode iswprint name >> emit_nodes xs >> section_close
    emit (container name os) =
        container_open decode iswprint name >> emit_objects os >> container_close

    pub emit_nodes : Nodes → Cmd State (Unit {0})
    emit_nodes nil = pure tt
    emit_nodes (cons x xs) = emit x >> emit_nodes xs

    pub emit_objects : Objects → Cmd State (Unit {0})
    emit_objects end = pure tt
    emit_objects (object xs os) =
        object_open false >> emit_nodes xs >> object_close false >> emit_objects os

  -- Every name and value of a document can be converted and encoded.
  unfoldable mutual
    pub Encodes : OutputFormat → Node → Type 0
    Encodes f (leaf name fmt expand) =
        IsText (name_text decode iswprint f name) × IsText (value_text decode iswprint f fmt expand)
    Encodes f (section name xs) = IsText (name_text decode iswprint f name) × EncodesNodes f xs
    Encodes f (container name os) = IsText (name_text decode iswprint f name) × EncodesObjects f os

    pub EncodesNodes : OutputFormat → Nodes → Type 0
    EncodesNodes f nil = Unit {0}
    EncodesNodes f (cons x xs) = Encodes f x × EncodesNodes f xs

    pub EncodesObjects : OutputFormat → Objects → Type 0
    EncodesObjects f end = Unit {0}
    EncodesObjects f (object xs os) = EncodesNodes f xs × EncodesObjects f os
