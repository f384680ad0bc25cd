-- ===== src/Document/Place.antt =====
-- Where a document is between two elements, and what runs of its calls come to.
use procenv.Prelude.{ℕ, Text, ◌≡◌, Outcome, ok}
use procenv.Output.{State}
use procenv.Output.Elements.{change_element}
use procenv.Output.Elements.Steps.{on}
use procenv.Output.{
  ElementType, entry, section_open, section_close, container_open, container_close, object_open,
  object_close,
}

-- The elements behind which another node may follow.
pub data Done : ElementType → Type 0 where
  leaf : Done entry
  section : Done section_close
  container : Done container_close

-- The elements inside which a first node may follow.
pub data Opened : ElementType → Type 0 where
  section : Opened section_open
  object : Opened object_open

-- The elements that begin a node.
pub data Starts : ElementType → Type 0 where
  leaf : Starts entry
  section : Starts section_open
  container : Starts container_open

-- The end of what an element opened.
pub data Ends : ElementType → ElementType → Type 0 where
  section : Ends section_open section_close
  container : Ends container_open container_close
  object : Ends object_open object_close

-- The next node's start writes what is between `t0` and `t`.
abbrev pub Leads : State → Text → ℕ → ElementType → Text → ℕ → Type 0
Leads s t0 n0 c t n =
    (l el : ElementType) → Starts el → change_element el (on s t0 n0 l c) ≡ ok (tt, on s t n c el)

-- A run that leaves text `t` and indentation `n` behind a complete node.
pub record Reaches (s : State) (r : Outcome (Unit {0} × State)) (t : Text) (n : ℕ) : Type 0 where
  pub last_el : ElementType
  pub current_el : ElementType
  pub done : Done current_el
  pub run : r ≡ ok (tt, on s t n last_el current_el)

-- A run to the end of what stands between two brackets, and the step to the closing one.
pub record Closes (s : State) (r : Outcome (Unit {0} × State)) (el : ElementType) (t : Text) (n : ℕ)
    : Type 0 where
  pub inner : Text
  pub level : ℕ
  pub last_el : ElementType
  pub current_el : ElementType
  pub run : r ≡ ok (tt, on s inner level last_el current_el)
  pub close :
      change_element el (on s inner level last_el current_el) ≡ ok (tt, on s t n current_el el)
