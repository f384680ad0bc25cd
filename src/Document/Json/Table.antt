-- ===== src/Document/Json/Table.antt =====
-- The steps of the JSON state machine that a document meets.
use procenv.Prelude.{ℕ, pure, ◌+◌, ◌≤◌, ◌≡◌, refl, ap, ◌++◌, Text, int_max, ok}
use procenv.Output.{State, json, ElementType}
use procenv.Output.TextTable.{newline, line_on, line_in, line_out}
use procenv.Output.JsonTable.{comma_newline, json_table, format_json_element}
use procenv.Output.Elements.{format_element, format_element_in, change_element}
use procenv.Output.Elements.Steps.{
  on, indentation, IsReady, common_assert-on, line_on-on, line_in-on, line_out-on,
}
use procenv.Document.Place.{Done, Opened, Starts, Ends}

-- The rows of the table that a document meets.
table-sibling : {c el : ElementType} → Done c → Starts el → json_table c el ≡ line_on comma_newline
unfolding json_table
table-sibling Done.leaf Starts.leaf = refl
table-sibling Done.leaf Starts.section = refl
table-sibling Done.leaf Starts.container = refl
table-sibling Done.section Starts.leaf = refl
table-sibling Done.section Starts.section = refl
table-sibling Done.section Starts.container = refl
table-sibling Done.container Starts.leaf = refl
table-sibling Done.container Starts.section = refl
table-sibling Done.container Starts.container = refl

table-first : {c el : ElementType} → Opened c → Starts el → json_table c el ≡ line_in newline
unfolding json_table
table-first Opened.section Starts.leaf = refl
table-first Opened.section Starts.section = refl
table-first Opened.section Starts.container = refl
table-first Opened.object Starts.leaf = refl
table-first Opened.object Starts.section = refl
table-first Opened.object Starts.container = refl

table-empty : {o el : ElementType} → Ends o el → json_table o el ≡ pure tt
unfolding json_table
table-empty Ends.section = refl
table-empty Ends.container = refl
table-empty Ends.object = refl

table-end : {o c el : ElementType} → Ends o el → Done c → json_table c el ≡ line_out newline
unfolding json_table
table-end Ends.section Done.leaf = refl
table-end Ends.section Done.section = refl
table-end Ends.section Done.container = refl
table-end Ends.container Done.leaf = refl
table-end Ends.container Done.section = refl
table-end Ends.container Done.container = refl
table-end Ends.object Done.leaf = refl
table-end Ends.object Done.section = refl
table-end Ends.object Done.container = refl

-- Objects in a container.
table-first_object : json_table ElementType.container_open ElementType.object_open ≡ line_in newline
unfolding json_table
table-first_object = refl

table-next_object :
    json_table ElementType.object_close ElementType.object_open ≡ line_on comma_newline
unfolding json_table
table-next_object = refl

table-last_object :
    json_table ElementType.object_close ElementType.container_close ≡ line_out newline
unfolding json_table
table-last_object = refl

format_element-json :
    (s : State) → s.output_format ≡ json → format_element s ≡ format_json_element s
unfolding format_element format_element_in
format_element-json s e = ap (λ f. format_element_in f s) e

module _ (s : State) (a : ℕ) (ready : IsReady s a) (is_json : s.output_format ≡ json) where
  -- `change_element` is the table's entry for the element before and the new one.
  pub change-table :
      (t : Text) (n : ℕ) (l c el : ElementType)
      → change_element el (on s t n l c) ≡ json_table c el (on s t n c el)
  unfolding change_element format_json_element
  change-table t n l c el = rw (
    common_assert-on s a ready t n l c,
    format_element-json (on s t n c el) is_json,
    common_assert-on s a ready t n c el,
  )

  module _ (t : Text) (n : ℕ) (l : ElementType) where
    pub sibling :
        {c el : ElementType}
        → Done c
        → Starts el
        → change_element el (on s t n l c)
          ≡ ok (tt, on s (t ++ (comma_newline ++ indentation s n)) n c el)
    sibling {c} {el} d st =
        rw (change-table t n l c el, table-sibling d st) (line_on-on s a ready t _ _ n c el)

    pub first_node :
        {c el : ElementType}
        → Opened c
        → Starts el
        → n + a ≤ int_max
        → change_element el (on s t n l c)
          ≡ ok (tt, on s (t ++ (newline ++ indentation s (n + a))) (n + a) c el)
    first_node {c} {el} o st h =
        rw (change-table t n l c el, table-first o st) (line_in-on s a ready t _ _ n c el h)

    pub ends_empty :
        {o el : ElementType} → Ends o el → change_element el (on s t n l o) ≡ ok (tt, on s t n o el)
    ends_empty {o} {el} e = rw (change-table t n l o el, table-empty e)

    pub ends :
        {o c el : ElementType}
        → Ends o el
        → Done c
        → n ≤ int_max
        → change_element el (on s t (n + a) l c)
          ≡ ok (tt, on s (t ++ (newline ++ indentation s n)) n c el)
    ends {o} {c} {el} e d h =
        rw (change-table t (n + a) l c el, table-end e d) (line_out-on s a ready t _ _ n c el h)

    pub first_object :
        n + a ≤ int_max
        → change_element ElementType.object_open (on s t n l ElementType.container_open)
          ≡ ok (
            tt,
            on s
                (t ++ (newline ++ indentation s (n + a)))
                (n + a)
                ElementType.container_open
                ElementType.object_open,
          )
    first_object h =
        rw
          (
            change-table t n l ElementType.container_open ElementType.object_open,
            table-first_object,
          )
          (line_in-on s a ready t _ _ n _ _ h)

    pub next_object :
        change_element ElementType.object_open (on s t n l ElementType.object_close)
        ≡ ok (
          tt,
          on s
              (t ++ (comma_newline ++ indentation s n))
              n
              ElementType.object_close
              ElementType.object_open,
        )
    next_object =
        rw (change-table t n l ElementType.object_close ElementType.object_open, table-next_object)
          (line_on-on s a ready t _ _ n _ _)

    pub last_object :
        n ≤ int_max
        → change_element ElementType.container_close (on s t (n + a) l ElementType.object_close)
          ≡ ok (
            tt,
            on s
                (t ++ (newline ++ indentation s n))
                n
                ElementType.object_close
                ElementType.container_close,
          )
    last_object h =
        rw
          (
            change-table t (n + a) l ElementType.object_close ElementType.container_close,
            table-last_object,
          )
          (line_out-on s a ready t _ _ n _ _ h)
