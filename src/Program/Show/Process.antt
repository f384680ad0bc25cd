-- ===== src/Program/Show/Process.antt =====
-- `show_proc` and `show_all_groups` of src/procenv.c.
pub mod Groups
pub mod Runs
use procenv.Prelude.{
  ℕ, zero, suc, ◌+◌, Option, none, some, List, [], ◌∷◌, ◌++◌, length, Bool, true, false, ◌==◌,
  if◌then◌else◌, Bytes, ℤ, pos, Outcome, ok, halt, endless, Cmd, pure, ◌>>=◌, ◌>>◌, codes,
}
use procenv.Pstring.{Decode, then_do}
use procenv.Printf.{Arg, str, int, string}
use procenv.Output.{State}
use procenv.Output.Elements.{header, footer, section_open, section_close, lift}
use procenv.Program.{entryf, append_format, as_int, call_op, yes_or_no, or_unknown, or_empty}
use procenv.Program.Show.{Ops}

pub record Passwd : Type 0 where
  pub pw_name : Bytes
  pub pw_gecos : Bytes
  pub pw_dir : Bytes
  pub pw_shell : Bytes
  pub pw_gid : ℕ

-- `struct procenv_user`, with what has_ctty and is_console say of its terminal.
pub record User : Type 0 where
  pub passwd : Passwd
  pub proc_name : Bytes
  pub ctrl_terminal : Bytes
  pub pid : ℤ
  pub ppid : ℤ
  pub sid : ℤ
  pub login : Option Bytes
  pub pgroup : ℤ
  pub fg_pgroup : ℤ
  pub uid : ℕ
  pub euid : ℕ
  pub suid : ℕ
  pub gid : ℕ
  pub egid : ℕ
  pub sgid : ℕ
  pub has_ctty : Bool
  pub is_console : Bool

-- The databases of users and groups: `getpwuid` and `getgrgid`, by their names.
pub record Accounts : Type 0 where
  pub getpwuid : ℕ → Option Bytes
  pub getgrgid : ℕ → Option Bytes

abbrev pub get_user_name : Accounts → ℕ → Option Bytes
get_user_name db uid = db.getpwuid uid

abbrev pub get_group_name : Accounts → ℕ → Option Bytes
get_group_name db gid = db.getgrgid gid

-- `a == b` of two `int`s.
unfoldable pub same_int : ℤ → ℤ → Bool
same_int (pos a) (pos b) = a == b
same_int (ℤ.negsuc a) (ℤ.negsuc b) = a == b
same_int _ _ = false

abbrev pub is_session_leader : User → Bool
is_session_leader u = same_int u.sid u.pid

abbrev pub is_process_group_leader : User → Bool
is_process_group_leader u = same_int u.pgroup u.pid

-- The three strings of "%d (%s%s%s)": a name between quotes, or that it is not known.
abbrev pub quoted : Option Bytes → List Arg
quoted none = str [] ∷ str (codes "unknown") ∷ str [] ∷ []
quoted (some n) = str (codes "'") ∷ str n ∷ str (codes "'") ∷ []

-- `getgroups (size, groups)` until the groups fit: none is a call that fails.
unfoldable pub query_groups : ℕ → (ℕ → Option (List ℕ)) → ℕ → Outcome (List ℕ)
query_groups zero getgroups size = halt endless
query_groups (suc fuel) getgroups size = elim (getgroups size) [
  | none ↦ query_groups fuel getgroups (size + 1)
  | some groups ↦ ok groups
]

-- The name of a group, `appendf (&group_names[i], "'%s' (%d)", ..)`.
unfoldable pub group_text : Accounts → ℕ → Outcome (Option Bytes)
group_text db gid =
    append_format none (codes "'%s' (%d)") (string (get_group_name db gid) ∷ int (as_int gid) ∷ [])

unfoldable pub group_texts : Accounts → List ℕ → Outcome (List Bytes)
group_texts db [] = ok []
group_texts db (g ∷ gs) =
    then_do (group_text db g) λ t. then_do (group_texts db gs) λ ts. ok (or_empty t ∷ ts)

-- The last name is appended with no comma behind it.
unfoldable pub append_names : Option Bytes → List Bytes → Outcome (Option Bytes)
append_names dest [] = ok dest
append_names dest (n ∷ []) = append_format dest (codes "%s") (str n ∷ [])
append_names dest (n ∷ m ∷ ns) =
    then_do (append_format dest (codes "%s, ") (str n ∷ [])) λ d. append_names d (m ∷ ns)

-- The order of qsort(3); `strcoll` is that of the C library under the program's locale.
unfoldable pub qsort_compar : (Bytes → Bytes → ℤ) → Bytes → Bytes → ℤ
qsort_compar strcoll a b = strcoll a b

-- `qsort (xs, .., qsort_compar)`, where `qsort` is the C library's.
abbrev pub sort_strings :
    ((Bytes → Bytes → ℤ) → List Bytes → List Bytes) → (Bytes → Bytes → ℤ) → List Bytes → List Bytes
sort_strings qsort strcoll = qsort (qsort_compar strcoll)

-- The entry's value; none is a group that has no name.
unfoldable pub groups_value :
    Accounts → (List Bytes → List Bytes) → ℕ → List ℕ → Outcome (Option Bytes)
groups_value db sort pw_gid [] = elim (get_group_name db pw_gid) [
  | none ↦ ok none
  | some group ↦ append_format none (codes " '%s' (%d)") (str group ∷ int (as_int pw_gid) ∷ [])
]
groups_value db sort pw_gid (g ∷ gs) =
    then_do (append_format none (codes " ") [])
      λ d. then_do (group_texts db (g ∷ gs)) λ names. append_names d (sort names)

module _ (decode : Decode) (iswprint : ℕ → Bool) where
  unfoldable pub show_all_groups :
      ℕ → Accounts → (List Bytes → List Bytes) → (ℕ → Option (List ℕ)) → User → Cmd State (Unit {0})
  show_all_groups fuel db sort getgroups u =
      lift (then_do (query_groups fuel getgroups 32) (groups_value db sort u.passwd.pw_gid))
      >>= λ value.
          entryf decode iswprint (codes "groups") (codes "%s") (str (or_unknown value) ∷ [])

  abbrev pub show_ids :
      Bytes → Bytes → Bytes → ℕ → ℕ → ℕ → (ℕ → Option Bytes) → Cmd State (Unit {0})
  show_ids real effective saved r e s name_of = do
    entryf decode iswprint real (codes "%d ('%s')") (int (as_int r) ∷ string (name_of r) ∷ [])
    entryf decode iswprint effective (codes "%d ('%s')") (int (as_int e) ∷ string (name_of e) ∷ [])
    entryf decode iswprint saved (codes "%d (%s%s%s)") (int (as_int s) ∷ quoted (name_of s))

  unfoldable pub show_user_ids : Accounts → User → Cmd State (Unit {0})
  show_user_ids db u =
      section_open decode iswprint (codes "user")
      >> show_ids (codes "real user id (uid)") (codes "effective user id (euid)")
          (codes "saved set-user-id (suid)") u.uid u.euid u.suid (get_user_name db)
      >> section_close

  unfoldable pub show_group_ids : Accounts → User → Cmd State (Unit {0})
  show_group_ids db u =
      section_open decode iswprint (codes "group")
      >> show_ids (codes "real group id (gid)") (codes "effective group id (egid)")
          (codes "saved set-group-id (sgid)") u.gid u.egid u.sgid (get_group_name db)
      >> section_close

  unfoldable pub show_passwd : Passwd → Cmd State (Unit {0})
  show_passwd p =
      section_open decode iswprint (codes "passwd")
      >> (do
        entryf decode iswprint (codes "name") (codes "'%s'") (str p.pw_name ∷ [])
        entryf decode iswprint (codes "gecos") (codes "'%s'") (str p.pw_gecos ∷ [])
        entryf decode iswprint (codes "dir") (codes "'%s'") (str p.pw_dir ∷ [])
        entryf decode iswprint (codes "shell") (codes "'%s'") (str p.pw_shell ∷ []))
      >> section_close

  -- `show_groups` stands for `show_all_groups`.
  unfoldable pub show_proc : Ops → Accounts → User → Cmd State (Unit {0}) → Cmd State (Unit {0})
  show_proc ops db u show_groups =
      header decode iswprint (codes "process")
      >> (do
        entryf decode iswprint (codes "process id (pid)") (codes "%d") (int u.pid ∷ [])
        entryf decode iswprint (codes "parent process id (ppid)") (codes "%d") (int u.ppid ∷ [])
        entryf decode iswprint (codes "session id (sid)") (codes "%d (leader=%s)")
            (int u.sid ∷ str (yes_or_no (is_session_leader u)) ∷ [])
        entryf decode iswprint (codes "name") (codes "'%s'") (str u.proc_name ∷ [])
        call_op ops.handle_proc_branch
        entryf decode iswprint (codes "process group id") (codes "%d (leader=%s)")
            (int u.pgroup ∷ str (yes_or_no (is_process_group_leader u)) ∷ [])
        entryf decode iswprint (codes "foreground process group") (codes "%d")
            (int u.fg_pgroup ∷ [])
        entryf decode iswprint (codes "terminal") (codes "'%s'") (str u.ctrl_terminal ∷ [])
        entryf decode iswprint (codes "has controlling terminal") (codes "%s")
            (str (yes_or_no u.has_ctty) ∷ [])
        entryf decode iswprint (codes "on console") (codes "%s") (str (yes_or_no u.is_console) ∷ [])
        show_user_ids db u
        show_group_ids db u
        entryf decode iswprint (codes "login name") (codes "'%s'") (str (or_empty u.login) ∷ [])
        show_passwd u.passwd
        show_groups)
      >> footer
