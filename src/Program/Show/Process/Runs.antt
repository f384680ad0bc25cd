-- ===== src/Program/Show/Process/Runs.antt =====
-- The document that `show_proc` displays.
use procenv.Prelude.{ℕ, ◌≡◌, refl, Option, none, some, [], ◌∷◌, Bool, false, Bytes, codes, Cmd}
use procenv.Pstring.{Decode}
use procenv.Printf.{str, int, string}
use procenv.Output.{State}
use procenv.Document.{Node, Nodes, section, nil, cons}
use procenv.Program.{call_op, as_int, yes_or_no, or_empty, has_null}
use procenv.Program.Emits.{
  Emits, nodes, append_nodes, ◌then◌, Emits-entryf, Emits-section, Emits-header,
}
use procenv.Program.Show.{Ops}
use procenv.Program.Show.Process.{
  Passwd, User, Accounts, get_user_name, get_group_name, is_session_leader, is_process_group_leader,
  quoted, show_ids, show_user_ids, show_group_ids, show_passwd, show_proc,
}
use procenv.Program.Show.Meta.Runs.{field, string_field}

module _ (decode : Decode) where
  abbrev pub ids_nodes : Bytes → Bytes → Bytes → ℕ → ℕ → ℕ → (ℕ → Option Bytes) → Nodes
  ids_nodes real effective saved r e s name_of = nodes (
      field decode real (codes "%d ('%s')") (int (as_int r) ∷ string (name_of r) ∷ [])
      ∷ field decode effective (codes "%d ('%s')") (int (as_int e) ∷ string (name_of e) ∷ [])
      ∷ field decode saved (codes "%d (%s%s%s)") (int (as_int s) ∷ quoted (name_of s))
      ∷ [])

  abbrev pub user_ids_node : Accounts → User → Node
  user_ids_node db u = section (codes "user") (
      ids_nodes (codes "real user id (uid)") (codes "effective user id (euid)")
        (codes "saved set-user-id (suid)") u.uid u.euid u.suid (get_user_name db))

  abbrev pub group_ids_node : Accounts → User → Node
  group_ids_node db u = section (codes "group") (
      ids_nodes (codes "real group id (gid)") (codes "effective group id (egid)")
        (codes "saved set-group-id (sgid)") u.gid u.egid u.sgid (get_group_name db))

  abbrev pub passwd_node : Passwd → Node
  passwd_node p = section (codes "passwd") (
      nodes (
        field decode (codes "name") (codes "'%s'") (str p.pw_name ∷ [])
        ∷ field decode (codes "gecos") (codes "'%s'") (str p.pw_gecos ∷ [])
        ∷ field decode (codes "dir") (codes "'%s'") (str p.pw_dir ∷ [])
        ∷ field decode (codes "shell") (codes "'%s'") (str p.pw_shell ∷ [])
        ∷ []))

  -- What the platform displays of the process's branch stands in the middle.
  abbrev pub proc_node : Nodes → Accounts → User → Nodes → Node
  proc_node branch db u groups = section (codes "process") (
      append_nodes
        (nodes (
          field decode (codes "process id (pid)") (codes "%d") (int u.pid ∷ [])
          ∷ field decode (codes "parent process id (ppid)") (codes "%d") (int u.ppid ∷ [])
          ∷ field decode (codes "session id (sid)") (codes "%d (leader=%s)")
              (int u.sid ∷ str (yes_or_no (is_session_leader u)) ∷ [])
          ∷ field decode (codes "name") (codes "'%s'") (str u.proc_name ∷ [])
          ∷ []))
        (append_nodes branch (
          append_nodes
            (nodes (
              field decode (codes "process group id") (codes "%d (leader=%s)")
                (int u.pgroup ∷ str (yes_or_no (is_process_group_leader u)) ∷ [])
              ∷ field decode (codes "foreground process group") (codes "%d") (int u.fg_pgroup ∷ [])
              ∷ field decode (codes "terminal") (codes "'%s'") (str u.ctrl_terminal ∷ [])
              ∷ string_field decode (codes "has controlling terminal") (yes_or_no u.has_ctty)
              ∷ string_field decode (codes "on console") (yes_or_no u.is_console)
              ∷ user_ids_node db u
              ∷ group_ids_node db u
              ∷ field decode (codes "login name") (codes "'%s'") (str (or_empty u.login) ∷ [])
              ∷ passwd_node u.passwd
              ∷ []))
            groups)))

-- The real and effective ids have names.
pub record AreNamed (db : Accounts) (u : User) : Type 0 where
  pub uid : has_null (string (get_user_name db u.uid) ∷ []) ≡ false
  pub euid : has_null (string (get_user_name db u.euid) ∷ []) ≡ false
  pub gid : has_null (string (get_group_name db u.gid) ∷ []) ≡ false
  pub egid : has_null (string (get_group_name db u.egid) ∷ []) ≡ false

module _ (decode : Decode) (iswprint : ℕ → Bool) where
  saved-named : (n : Option Bytes) → has_null (quoted n) ≡ false
  saved-named none = refl
  saved-named (some n) = refl

  ids-Emits :
      (real effective saved : Bytes) (r e s : ℕ) (name_of : ℕ → Option Bytes)
      → has_null (string (name_of r) ∷ []) ≡ false
      → has_null (string (name_of e) ∷ []) ≡ false
      → Emits decode iswprint
          (show_ids decode iswprint real effective saved r e s name_of)
          (ids_nodes decode real effective saved r e s name_of)
  ids-Emits real effective saved r e s name_of hr he =
      let entry = Emits-entryf decode iswprint in
      entry _ _ _ hr then entry _ _ _ he then entry _ _ _ (saved-named (name_of s))

  user_ids-Emits :
      (db : Accounts) (u : User)
      → AreNamed db u
      → Emits decode iswprint
          (show_user_ids decode iswprint db u)
          (cons (user_ids_node decode db u) nil)
  unfolding show_user_ids
  user_ids-Emits db u n = Emits-section decode iswprint (codes "user") (
      ids-Emits (codes "real user id (uid)") (codes "effective user id (euid)")
        (codes "saved set-user-id (suid)") u.uid u.euid u.suid (get_user_name db) n.uid n.euid)

  group_ids-Emits :
      (db : Accounts) (u : User)
      → AreNamed db u
      → Emits decode iswprint
          (show_group_ids decode iswprint db u)
          (cons (group_ids_node decode db u) nil)
  unfolding show_group_ids
  group_ids-Emits db u n = Emits-section decode iswprint (codes "group") (
      ids-Emits (codes "real group id (gid)") (codes "effective group id (egid)")
        (codes "saved set-group-id (sgid)") u.gid u.egid u.sgid (get_group_name db) n.gid n.egid)

  passwd-Emits :
      (p : Passwd)
      → Emits decode iswprint (show_passwd decode iswprint p) (cons (passwd_node decode p) nil)
  unfolding show_passwd
  passwd-Emits p =
      let entry = Emits-entryf decode iswprint in
      Emits-section decode iswprint (codes "passwd")
        (entry _ _ _ refl then entry _ _ _ refl then entry _ _ _ refl then entry _ _ _ refl)

  -- `show_proc` displays the identity of the process: a section with its ids, the branch that the
  -- platform displays, the user's and the group's ids with their names, the password entry and the
  -- groups. Conditions: the platform and the groups display nodes, and the real and effective ids
  -- have names.
  pub show_proc-Emits :
      (ops : Ops) (db : Accounts) (u : User) {show_groups : Cmd State (Unit {0})}
      {branch groups : Nodes}
      → Emits decode iswprint (call_op ops.handle_proc_branch) branch
      → AreNamed db u
      → Emits decode iswprint show_groups groups
      → Emits decode iswprint
          (show_proc decode iswprint ops db u show_groups)
          (cons (proc_node decode branch db u groups) nil)
  unfolding show_proc
  show_proc-Emits ops db u hb n hg =
      let entry = Emits-entryf decode iswprint in
      Emits-header decode iswprint (codes "process") (
        entry _ _ _ refl
        then entry _ _ _ refl
        then entry _ _ _ refl
        then entry _ _ _ refl
        then hb
        then entry _ _ _ refl
        then entry _ _ _ refl
        then entry _ _ _ refl
        then entry _ _ _ refl
        then entry _ _ _ refl
        then user_ids-Emits db u n
        then group_ids-Emits db u n
        then entry _ _ _ refl
        then passwd-Emits u.passwd
        then hg)
