-- ===== src/Program/Show/Process/Groups.antt =====
-- The value that `show_all_groups` of src/procenv.c displays.
use mathlib.Core.Option
use mathlib.Core.List.{Perm}
use procenv.Prelude.{
  Outcome, Option-cases, ℤ, pos, ℕ, zero, suc, ◌+◌, ◌<◌, ◌≡◌, refl, Option, none, some, List, [],
  ◌∷◌, ◌++◌, append_assoc, append-nil, map, length, leb, le→leb, if◌then◌else◌, Bytes, ok, codes,
  All, arith, Bool-cases, inl, inr,
}
use procenv.Pstring.{then_do}
use procenv.Printf.{str, int, vsnprintf}
use procenv.Printf.Laws.{vsnprintf-string, vsnprintf-comma}
use procenv.StringUtil.ByteStrings.{appendf-none, appendf-some}
use procenv.Program.{append_format, as_int, or_empty}
use procenv.Program.Show.Process.{
  qsort_compar, sort_strings, Accounts, get_group_name, query_groups, group_text, group_texts,
  append_names, groups_value,
}

-- What the system answers: it fails as long as there is no room for all groups of the process.
abbrev pub answer : List ℕ → ℕ → Option (List ℕ)
answer groups size = if leb (length groups) size then some groups else none

-- The loop ends with the groups of the process.
pub query_groups_lem :
    (groups : List ℕ) (fuel size : ℕ)
    → length groups < fuel + size
    → query_groups (suc fuel) (answer groups) size ≡ ok groups
unfolding query_groups
query_groups_lem groups zero size h =
    rw (query_groups, answer, le→leb (length groups) size (omega arith)) refl
query_groups_lem groups (suc fuel) size h = elim (Bool-cases (leb (length groups) size)) [
  | inl e ↦ rw (query_groups, answer, e) refl
  | inr e ↦ rw (query_groups, answer, e) (query_groups_lem groups fuel (size + 1) (omega arith))
]

-- A group that the database names.
abbrev pub IsNamed : Accounts → ℕ → Type 0
IsNamed db gid = (name : Bytes) × (get_group_name db gid ≡ some name)

-- A group's name between quotes, and its number.
abbrev pub group_line : Accounts → ℕ → Bytes
group_line db gid =
    or_empty (
      vsnprintf (str (or_empty (get_group_name db gid)) ∷ int (as_int gid) ∷ [])
        (codes "'%s' (%d)"))

-- Texts with a comma and a space between them.
abbrev pub comma_list : List Bytes → Bytes
comma_list [] = []
comma_list (n ∷ []) = n
comma_list (n ∷ m ∷ ns) = n ++ (codes ", " ++ comma_list (m ∷ ns))

group_text_lem :
    (db : Accounts) (gid : ℕ) → IsNamed db gid → group_text db gid ≡ ok (some (group_line db gid))
unfolding group_text append_format vsnprintf
group_text_lem db gid (name, e) = rw e (appendf-none _)

group_texts_lem :
    (db : Accounts) (gs : List ℕ)
    → All (IsNamed db) gs
    → group_texts db gs ≡ ok (map (group_line db) gs)
unfolding group_texts
group_texts_lem db [] h = refl
group_texts_lem db (g ∷ gs) (n, h) = rw (group_text_lem db g n, group_texts_lem db gs h) refl

append_names_lem :
    (d : Bytes) (ns : List Bytes) → append_names (some d) ns ≡ ok (some (d ++ comma_list ns))
unfolding append_names append_format
append_names_lem d [] = rw append-nil refl
append_names_lem d (n ∷ []) = rw (vsnprintf-string n) (appendf-some d n)
append_names_lem d (n ∷ m ∷ ns) =
    rw
      (
        vsnprintf-comma n,
        appendf-some d (n ++ codes ", "),
        append_names_lem (d ++ (n ++ codes ", ")) (m ∷ ns),
        append_assoc,
        append_assoc,
      )
      refl

pub groups_value_lem :
    (db : Accounts) (sort : List Bytes → List Bytes) (pw_gid g : ℕ) (gs : List ℕ) (fuel : ℕ)
    → All (IsNamed db) (g ∷ gs)
    → length (g ∷ gs) < fuel
    → then_do (query_groups (suc fuel) (answer (g ∷ gs)) 32) (groups_value db sort pw_gid)
      ≡ ok (some (codes " " ++ comma_list (sort (map (group_line db) (g ∷ gs)))))
unfolding groups_value append_format vsnprintf
groups_value_lem db sort pw_gid g gs fuel h le =
    rw (query_groups_lem (g ∷ gs) fuel 32 (omega arith), space, group_texts_lem db (g ∷ gs) h)
      (append_names_lem (codes " ") (sort (map (group_line db) (g ∷ gs))))
  where
    space : append_format none (codes " ") [] ≡ ok (some (codes " "))
    space = appendf-none (codes " ")

pub query_groups_alone :
    (getgroups : ℕ → Option (List ℕ)) (fuel : ℕ)
    → getgroups 32 ≡ some []
    → query_groups (suc fuel) getgroups 32 ≡ ok []
unfolding query_groups
query_groups_alone getgroups fuel h = rw (query_groups, h) refl

-- A process without supplementary groups has the group of its user.
abbrev pub alone_value : Accounts → ℕ → Option Bytes
alone_value db pw_gid =
    Option.map (λ n. or_empty (vsnprintf (str n ∷ int (as_int pw_gid) ∷ []) (codes " '%s' (%d)")))
      (get_group_name db pw_gid)

pub groups_value_alone :
    (db : Accounts) (sort : List Bytes → List Bytes) (pw_gid : ℕ)
    → groups_value db sort pw_gid [] ≡ ok (alone_value db pw_gid)
unfolding groups_value append_format vsnprintf
groups_value_alone db sort pw_gid = elim (Option-cases (get_group_name db pw_gid)) [
  | inl e ↦ rw (groups_value, e) refl
  | inr (n, e) ↦ rw (groups_value, e) (appendf-none _)
]

-- No string is in front of one that is less.
abbrev pub AtMostZero : ℤ → Type 0
AtMostZero (pos (suc n)) = ⊥
AtMostZero _ = Unit {0}

abbrev pub Ascending : (Bytes → Bytes → ℤ) → List Bytes → Type 0
Ascending compar [] = Unit {0}
Ascending compar (x ∷ []) = Unit {0}
Ascending compar (x ∷ y ∷ t) = AtMostZero (compar x y) × Ascending compar (y ∷ t)

-- What qsort(3) does to an array: a rearrangement in which no element is in front of one that is
-- less.
pub record Sorts (qsort : (Bytes → Bytes → ℤ) → List Bytes → List Bytes)
    (compar : Bytes → Bytes → ℤ) (xs : List Bytes) : Type 0 where
  pub rearranges : Perm xs (qsort compar xs)
  pub orders : Ascending compar (qsort compar xs)

module _ (db : Accounts) (qsort : (Bytes → Bytes → ℤ) → List Bytes → List Bytes)
    (strcoll : Bytes → Bytes → ℤ) (pw_gid : ℕ) where
  -- The value is a space, and then names of groups with commas between them, each once, in the order
  -- of strcoll.
  abbrev pub IsList : List ℕ → Outcome (Option Bytes) → Type 0
  IsList groups r =
      (ns : List Bytes) × Perm (map (group_line db) groups) ns
      × Ascending strcoll ns
      × (r ≡ ok (some (codes " " ++ comma_list ns)))

  -- For a process with supplementary groups `show_all_groups` asks until they fit, and displays a
  -- space and then all of them, each as often as it was answered, by name and number, with commas
  -- between them and in the order of strcoll. Conditions: `getgroups` fails exactly while there is no
  -- room for the groups, each group has a name, qsort sorts their names by the comparison it is
  -- given, and the fuel exceeds the number of groups.
  pub groups_value_sorted :
      (g : ℕ) (gs : List ℕ) (fuel : ℕ)
      → All (IsNamed db) (g ∷ gs)
      → Sorts qsort (qsort_compar strcoll) (map (group_line db) (g ∷ gs))
      → length (g ∷ gs) < fuel
      → IsList (g ∷ gs) (
          then_do
            (query_groups (suc fuel) (answer (g ∷ gs)) 32)
            (groups_value db (sort_strings qsort strcoll) pw_gid))
  unfolding qsort_compar
  groups_value_sorted g gs fuel h sorts le = (
    sort_strings qsort strcoll (map (group_line db) (g ∷ gs)),
    sorts.rearranges,
    sorts.orders,
    groups_value_lem db (sort_strings qsort strcoll) pw_gid g gs fuel h le,
  )
