-- ===== src/Output/Crumbs.antt =====
-- The breadcrumbs of src/output.c, as the list of the strings in the ring behind `crumb_list`.
use procenv.Prelude.{
  Option, none, some, List, [], ◌∷◌, ◌++◌, Bytes, ok, halt, assertion, undefined, drop_last, Cmd,
  pure,
}
use procenv.Output.{State, crumb}

-- `if (! crumb_list) crumb_list = pr_list_new (NULL);`
abbrev pub or_no_crumbs : Option (List Bytes) → List Bytes
or_no_crumbs none = []
or_no_crumbs (some cs) = cs

-- `pr_list_prepend_str` at the list's head makes the new string its last.
unfoldable pub add_breadcrumb : Bytes → Cmd State (Unit {0})
add_breadcrumb name s =
    ok (tt, record s { crumb_list = some (or_no_crumbs s.crumb_list ++ name ∷ []) })

-- `pr_list_remove (crumb_list->prev)` takes the last string. With none left the call frees the
-- list's own node, and every later use of the list is undefined.
unfoldable pub remove_breadcrumb : Cmd State (Unit {0})
remove_breadcrumb s = elim s.crumb_list [
  | none ↦ halt assertion
  | some [] ↦ halt undefined
  | some (c ∷ cs) ↦ ok (tt, record s { crumb_list = some (drop_last (c ∷ cs)) })
]

-- `remove_breadcrumb` until the list is empty.
unfoldable pub clear_breadcrumbs : Cmd State (Unit {0})
clear_breadcrumbs s = elim s.crumb_list [
  | none ↦ halt assertion
  | some cs ↦ ok (tt, record s { crumb_list = some [] })
]

-- The pointer is not reset by the code, and not used again; here it is none.
unfoldable pub free_breadcrumbs : Cmd State (Unit {0})
free_breadcrumbs s = elim s.output_format [
  | crumb ↦ elim s.crumb_list [
    | none ↦ pure tt s
    | some cs ↦ ok (tt, record s { crumb_list = none })
  ]
  | _ ↦ pure tt s
]
