-- ===== src/Document/Lines/Inside.antt =====
-- A run inside a section or a container, in text and XML output: the items that are written so far.
use procenv.Prelude.{
  ℕ, ◌+◌, ◌≤◌, ◌≡◌, refl, List, [], ◌∷◌, ◌++◌, append-nil, append_assoc, Text, Outcome, ok, int_max,
  Cmd, and_then,
}
use procenv.Output.{State, OutputFormat, ElementType}
use procenv.Output.TextTable.{newline}
use procenv.Output.Elements.{change_element}
use procenv.Output.Elements.Steps.{on, indentation, IsReady}
use procenv.Document.Place.{Done, Leads, Reaches}
use procenv.Document.Lines.{IsLineFormat, lines, between}
use procenv.Document.Lines.Table.{Brackets, sibling, first_node, ends, ends_empty}

-- The current element behind the items `ks` of what `o` opened.
pub data PlaceAt : ElementType → List Text → ElementType → Type 0 where
  opened : {o : ElementType} → PlaceAt o [] o
  behind : {o c : ElementType} {k : Text} {ks : List Text} → Done c → PlaceAt o (k ∷ ks) c

-- The text and the indentation behind the items.
abbrev pub text_at : (ℕ → Text) → ℕ → Text → ℕ → List Text → Text
text_at ind a t n [] = t
text_at ind a t n (k ∷ ks) = t ++ lines ind (n + a) (k ∷ ks)

abbrev pub level_at : ℕ → ℕ → List Text → ℕ
level_at a n [] = n
level_at a n (k ∷ ks) = n + a

pub record Inside (s : State) (a : ℕ) (t : Text) (n : ℕ) (o : ElementType) (ks : List Text)
    (r : Outcome (Unit {0} × State)) : Type 0 where
  pub last_el : ElementType
  pub current_el : ElementType
  pub place : PlaceAt o ks current_el
  pub run :
      r ≡ ok (tt, on s (text_at (indentation s) a t n ks) (level_at a n ks) last_el current_el)

lines-cons :
    (ind : ℕ → Text) (n : ℕ) (k : Text) (ks : List Text)
    → lines ind n (k ∷ ks) ≡ newline ++ (ind n ++ (k ++ lines ind n ks))
unfolding lines
lines-cons ind n k ks = refl

lines-nil : (ind : ℕ → Text) (n : ℕ) → lines ind n [] ≡ []
unfolding lines
lines-nil ind n = refl

lines-snoc :
    (ind : ℕ → Text) (n : ℕ) (ks : List Text) (k : Text)
    → lines ind n (ks ++ k ∷ []) ≡ lines ind n ks ++ (newline ++ (ind n ++ k))
lines-snoc ind n [] k = rw (lines-cons ind n k [], lines-nil ind n, append-nil) refl
lines-snoc ind n (x ∷ ks) k =
    rw
      (
        lines-cons ind n x (ks ++ k ∷ []),
        lines-cons ind n x ks,
        lines-snoc ind n ks k,
        append_assoc,
        append_assoc,
        append_assoc,
      )
      refl

text_at-snoc :
    (ind : ℕ → Text) (a : ℕ) (t : Text) (n : ℕ) (ks : List Text) (k : Text)
    → text_at ind a t n (ks ++ k ∷ []) ≡ (text_at ind a t n ks ++ (newline ++ ind (n + a))) ++ k
text_at-snoc ind a t n [] k =
    rw (lines-cons ind (n + a) k [], lines-nil ind (n + a), append-nil, append_assoc) refl
text_at-snoc ind a t n (x ∷ ks) k =
    rw (lines-snoc ind (n + a) (x ∷ ks) k, append_assoc, append_assoc) refl

level_at-snoc : (a n : ℕ) (ks : List Text) (k : Text) → level_at a n (ks ++ k ∷ []) ≡ n + a
level_at-snoc a n [] k = refl
level_at-snoc a n (x ∷ ks) k = refl

PlaceAt-snoc : {o c : ElementType} (ks : List Text) (k : Text) → Done c → PlaceAt o (ks ++ k ∷ []) c
PlaceAt-snoc [] k d = behind d
PlaceAt-snoc (x ∷ ks) k d = behind d

module _ (s : State) (a : ℕ) (t : Text) (n : ℕ) (o : ElementType) where
  -- One more item.
  pub Inside-snoc :
      (ks : List Text) (k : Text) {r : Outcome (Unit {0} × State)}
      → Reaches s r
          ((text_at (indentation s) a t n ks ++ (newline ++ indentation s (n + a))) ++ k)
          (n + a)
      → Inside s a t n o (ks ++ k ∷ []) r
  Inside-snoc ks k y = record {
    last_el = y.last_el;
    current_el = y.current_el;
    place = PlaceAt-snoc ks k y.done;
    run = rw (text_at-snoc (indentation s) a t n ks k, level_at-snoc a n ks k) y.run;
  }

  -- A run that goes on.
  pub Inside-then :
      {ks ks' : List Text} {r : Outcome (Unit {0} × State)} (m : Cmd State (Unit {0}))
      (y : Inside s a t n o ks r)
      → Inside s a t n o ks'
          (m (on s (text_at (indentation s) a t n ks) (level_at a n ks) y.last_el y.current_el))
      → Inside s a t n o ks' (and_then r (λ _. m))
  Inside-then m y z = record {
    last_el = z.last_el;
    current_el = z.current_el;
    place = z.place;
    run = rw y.run z.run;
  }

  module _ (ready : IsReady s a) (f : OutputFormat) (is_line : IsLineFormat f)
      (is_f : s.output_format ≡ f) {close : ElementType} (b : Brackets o close) where
    pub PlaceAt-Leads :
        (ks : List Text) (c : ElementType)
        → PlaceAt o ks c
        → n + a ≤ int_max
        → Leads s
            (text_at (indentation s) a t n ks)
            (level_at a n ks)
            c
            (text_at (indentation s) a t n ks ++ (newline ++ indentation s (n + a)))
            (n + a)
    PlaceAt-Leads [] c PlaceAt.opened h =
        λ l el st. first_node s a ready f is_line is_f t n l {o = o} {el = el} b st h
    PlaceAt-Leads (k ∷ ks) c (PlaceAt.behind d) h = λ l el st.
        sibling s a ready f is_line is_f (t ++ lines (indentation s) (n + a) (k ∷ ks)) (n + a) l d
          st

    pub PlaceAt-ends :
        (ks : List Text) (l c : ElementType)
        → PlaceAt o ks c
        → n ≤ int_max
        → change_element close (on s (text_at (indentation s) a t n ks) (level_at a n ks) l c)
          ≡ ok (tt, on s (t ++ between (indentation s) f a n ks) n c close)
    unfolding between
    PlaceAt-ends [] l c PlaceAt.opened h = ends_empty s a ready f is_line is_f t n l b
    PlaceAt-ends (k ∷ ks) l c (PlaceAt.behind d) h =
        rw
          (
            ends s a ready f is_line is_f (t ++ lines (indentation s) (n + a) (k ∷ ks)) n l b d h,
            append_assoc,
          )
          refl
