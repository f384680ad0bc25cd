-- ===== src/Program/Show/Stat/Runs.antt =====
-- The document that `show_stat` displays.
use procenv.Prelude.{
  ℕ, ◌%◌, ◌^◌, ◌≡◌, refl, Option, some, [], ◌∷◌, drop_last, Bool, false, Bytes, ok, codes, ◌>>◌,
}
use procenv.Pstring.{Decode}
use procenv.Printf.{str, int, uint, string}
use procenv.Output.Elements.{section_open, section_close}
use procenv.Document.{Node, section, nil, cons}
use procenv.Program.{entryf, as_int, has_null}
use procenv.Program.Emits.{Emits, nodes, ◌then◌, Emits-entryf, Emits-section, Emits-header}
use procenv.Program.Show.Process.{Accounts, get_user_name, get_group_name}
use procenv.Program.Show.Stat.{
  Files, Stat, get_path, format_perms, show_when, show_stat_of, show_stat,
}
use procenv.Program.Show.Meta.Runs.{field, string_field}

module _ (decode : Decode) where
  abbrev pub when_node : Bytes → ℕ → Bytes → Node
  when_node name t formatted =
      field decode name (codes "%lu (%s)") (uint t ∷ str (drop_last formatted) ∷ [])

  -- The entry of the group has the number of the file's group, and the name of the group whose
  -- number is the file's user.
  abbrev pub group_node : Accounts → Stat → Node
  group_node db st =
      field decode (codes "group id (gid)") (codes "%d ('%s')")
        (int (as_int st.st_gid) ∷ string (get_group_name db st.st_uid) ∷ [])

  abbrev pub device_node : Stat → Node
  device_node st = section (codes "device") (
      nodes (
        field decode (codes "major") (codes "%u") (uint st.major ∷ [])
        ∷ field decode (codes "minor") (codes "%u") (uint st.minor ∷ [])
        ∷ []))

  abbrev pub permissions_node : Stat → Node
  permissions_node st = section (codes "permissions") (
      nodes (
        field decode (codes "octal") (codes "%4.4o") (uint (st.st_mode % 2 ^ 12) ∷ [])
        ∷ string_field decode (codes "symbolic") (format_perms st.st_mode)
        ∷ []))

  abbrev pub times_node : Stat → Node
  times_node st = section (codes "times") (
      nodes (
        when_node (codes "atime (access)") st.st_atime st.atime
        ∷ when_node (codes "mtime (modification)") st.st_mtime st.mtime
        ∷ when_node (codes "ctime (status change)") st.st_ctime st.ctime
        ∷ []))

  abbrev pub stat_node : Accounts → Bytes → Bytes → Stat → Node
  stat_node db program_name real_path st = section (codes "stat") (
      nodes (
        field decode (codes "argv[0]") (codes "'%s'") (str program_name ∷ [])
        ∷ field decode (codes "real path") (codes "'%s'") (str real_path ∷ [])
        ∷ device_node st
        ∷ field decode (codes "inode") (codes "%lu") (uint st.st_ino ∷ [])
        ∷ permissions_node st
        ∷ field decode (codes "hard links") (codes "%u") (uint st.st_nlink ∷ [])
        ∷ field decode (codes "user id (uid)") (codes "%d ('%s')")
            (int (as_int st.st_uid) ∷ string (get_user_name db st.st_uid) ∷ [])
        ∷ group_node db st
        ∷ field decode (codes "size") (codes "%lu bytes (%lu 512-byte blocks)")
            (uint st.st_size ∷ uint st.st_blocks ∷ [])
        ∷ times_node st
        ∷ []))

module _ (decode : Decode) (iswprint : ℕ → Bool) where
  device-Emits :
      (st : Stat)
      → Emits decode iswprint
          (section_open decode iswprint (codes "device")
            >> (do
              entryf decode iswprint (codes "major") (codes "%u") (uint st.major ∷ [])
              entryf decode iswprint (codes "minor") (codes "%u") (uint st.minor ∷ []))
            >> section_close)
          (cons (device_node decode st) nil)
  device-Emits st =
      let entry = Emits-entryf decode iswprint in
      Emits-section decode iswprint (codes "device") (entry _ _ _ refl then entry _ _ _ refl)

  permissions-Emits :
      (st : Stat)
      → Emits decode iswprint
          (section_open decode iswprint (codes "permissions")
            >> (do
              entryf decode iswprint
                  (codes "octal")
                  (codes "%4.4o")
                  (uint (st.st_mode % 2 ^ 12) ∷ [])
              entryf decode iswprint
                  (codes "symbolic")
                  (codes "%s")
                  (str (format_perms st.st_mode) ∷ []))
            >> section_close)
          (cons (permissions_node decode st) nil)
  permissions-Emits st =
      let entry = Emits-entryf decode iswprint in
      Emits-section decode iswprint (codes "permissions") (entry _ _ _ refl then entry _ _ _ refl)

  times-Emits :
      (st : Stat)
      → Emits decode iswprint
          (section_open decode iswprint (codes "times")
            >> (do
              show_when decode iswprint (codes "atime (access)") st.st_atime st.atime
              show_when decode iswprint (codes "mtime (modification)") st.st_mtime st.mtime
              show_when decode iswprint (codes "ctime (status change)") st.st_ctime st.ctime)
            >> section_close)
          (cons (times_node decode st) nil)
  times-Emits st =
      let entry = Emits-entryf decode iswprint in
      Emits-section decode iswprint (codes "times")
        (entry _ _ _ refl then entry _ _ _ refl then entry _ _ _ refl)

  -- The file that `get_path` finds. The name beside the number of its group is that of the group whose
  -- number is the number of the file's user.
  pub show_stat-Emits :
      (f : Files) (query : Bytes → Option (Bytes × Stat)) (db : Accounts)
      (program_name p real_path : Bytes) (st : Stat)
      → get_path f program_name ≡ ok (some p)
      → query p ≡ some (real_path, st)
      → has_null (string (get_user_name db st.st_uid) ∷ []) ≡ false
      → has_null (string (get_group_name db st.st_uid) ∷ []) ≡ false
      → Emits decode iswprint
          (show_stat decode iswprint f query db program_name)
          (cons (stat_node decode db program_name real_path st) nil)
  unfolding show_stat show_stat_of
  show_stat-Emits f query db program_name p real_path st found queried user group =
      let entry = Emits-entryf decode iswprint in
      let shown : Emits decode iswprint (show_stat_of decode iswprint db program_name real_path st)
          (cons (stat_node decode db program_name real_path st) nil) =
        Emits-header decode iswprint (codes "stat") (
          entry _ _ _ refl
          then entry _ _ _ refl
          then device-Emits st
          then entry _ _ _ refl
          then permissions-Emits st
          then entry _ _ _ refl
          then entry _ _ _ user
          then entry _ _ _ group
          then entry _ _ _ refl
          then times-Emits st) in
      record { run = λ s. rw (found, queried) (shown.run s) }
