-- ===== src/Program/Show/Meta/Runs.antt =====
-- The documents that `show_meta`, `show_arguments`, `show_version`, `show_uname` and `show_env`
-- display.
use procenv.Prelude.{
  ℕ, suc, ◌≡◌, refl, Option, none, some, List, [], ◌∷◌, length, Bool, if◌then◌else◌, Bytes, pos,
  codes, All,
}
use procenv.Pstring.{Decode}
use procenv.Printf.{Arg, str, int, uint, vswprintf, vsnprintf}
use procenv.StringUtil.ByteStrings.{appendf-none}
use procenv.Document.{Node, Nodes, Objects, leaf, section, container, nil, cons, end, object}
use procenv.Program.{or_empty, each}
use procenv.Program.Tokens.{strsep}
use procenv.Program.Emits.{
  Emits, EmitsObjects, nodes, ◌then◌, Emits-pure, EmitsObjects-pure, Emits-entryf, Emits-header,
  Emits-container, EmitsObjects-object,
}
use procenv.Program.Show.Meta.{
  Build, Utsname, non_empty_or_unknown, show_argv, show_arguments, show_version, show_uname,
  show_domainname, show_variable, show_env,
}

-- A variable of the environment has an `=`.
abbrev pub IsVariable : Bytes → Type 0
IsVariable v = (value : Bytes) × ((strsep b'=' v).1 ≡ some value)

module _ (decode : Decode) where
  -- An entry: its name, its format and the arguments.
  abbrev pub field : Bytes → Bytes → List Arg → Node
  field name fmt args = leaf name fmt (vswprintf decode args)

  abbrev pub string_field : Bytes → Bytes → Node
  string_field name value = field name (codes "%s") (str value ∷ [])

  abbrev pub argv_name : ℕ → Bytes
  argv_name i = or_empty (vsnprintf (int (pos i) ∷ []) (codes "argv[%d]"))

  abbrev pub argv_objects : ℕ → List Bytes → Objects
  argv_objects i [] = end
  argv_objects i (a ∷ argv) =
      object (cons (string_field (argv_name i) a) nil) (argv_objects (suc i) argv)

  abbrev pub arguments_node : List Bytes → Node
  arguments_node argv = section (codes "arguments") (
      nodes (
        field (codes "count") (codes "%u") (uint (length argv) ∷ [])
        ∷ container (codes "list") (argv_objects 0 argv)
        ∷ []))

  abbrev pub version_node : Build → Node
  version_node b = section (codes "version") (
      nodes (
        string_field (codes "name") b.package_name
        ∷ string_field (codes "version") b.package_version
        ∷ string_field (codes "author") b.authors
        ∷ []))

  abbrev pub domainname_nodes : Option Bytes → Nodes
  domainname_nodes none = nil
  domainname_nodes (some d) = cons (string_field (codes "domainname") (non_empty_or_unknown d)) nil

  abbrev pub uname_node : Utsname → Node
  uname_node u = section (codes "uname") (
      cons (string_field (codes "sysname") u.sysname) (
        cons (string_field (codes "nodename") u.nodename) (
          cons (string_field (codes "release") u.release) (
            cons (string_field (codes "version") u.version)
              (cons (string_field (codes "machine") u.machine) (domainname_nodes u.domainname))))))

  abbrev pub env_nodes : List Bytes → Nodes
  env_nodes [] = nil
  env_nodes (v ∷ vs) =
      cons (string_field (strsep b'=' v).0 (or_empty (strsep b'=' v).1)) (env_nodes vs)

module _ (decode : Decode) (iswprint : ℕ → Bool) where
  argv-some : (i : ℕ) → vsnprintf (int (pos i) ∷ []) (codes "argv[%d]") ≡ some (argv_name decode i)
  unfolding vsnprintf
  argv-some i = refl

  show_argv-Emits :
      (i : ℕ) (argv : List Bytes)
      → EmitsObjects decode iswprint (show_argv decode iswprint i argv) (argv_objects decode i argv)
  unfolding show_argv
  show_argv-Emits i [] = EmitsObjects-pure decode iswprint
  show_argv-Emits i (a ∷ argv) =
      let e =
        EmitsObjects-object decode iswprint
          (Emits-entryf decode iswprint (argv_name decode i) (codes "%s") (str a ∷ []) refl)
          (show_argv-Emits (suc i) argv) in
      record { run = λ s. rw (argv-some i, appendf-none (argv_name decode i)) (e.run s) }

  pub show_arguments-Emits :
      (argv : List Bytes)
      → Emits decode iswprint
          (show_arguments decode iswprint argv)
          (cons (arguments_node decode argv) nil)
  unfolding show_arguments
  show_arguments-Emits argv = Emits-header decode iswprint (codes "arguments") (
      Emits-entryf decode iswprint (codes "count") (codes "%u") (uint (length argv) ∷ []) refl
      then Emits-container decode iswprint (codes "list") (show_argv-Emits 0 argv))

  pub show_version-Emits :
      (b : Build)
      → Emits decode iswprint (show_version decode iswprint b) (cons (version_node decode b) nil)
  unfolding show_version
  show_version-Emits b =
      let entry = Emits-entryf decode iswprint in
      Emits-header decode iswprint (codes "version")
        (entry _ _ _ refl then entry _ _ _ refl then entry _ _ _ refl)

  show_domainname-Emits :
      (d : Option Bytes)
      → Emits decode iswprint (show_domainname decode iswprint d) (domainname_nodes decode d)
  show_domainname-Emits none = Emits-pure decode iswprint
  show_domainname-Emits (some d) = Emits-entryf decode iswprint _ _ _ refl

  pub show_uname-Emits :
      (u : Utsname)
      → Emits decode iswprint (show_uname decode iswprint u) (cons (uname_node decode u) nil)
  unfolding show_uname
  show_uname-Emits u =
      let entry = Emits-entryf decode iswprint in
      Emits-header decode iswprint (codes "uname") (
        entry _ _ _ refl
        then entry _ _ _ refl
        then entry _ _ _ refl
        then entry _ _ _ refl
        then entry _ _ _ refl
        then show_domainname-Emits u.domainname)

  show_variables-Emits :
      (vs : List Bytes)
      → All IsVariable vs
      → Emits decode iswprint (each (show_variable decode iswprint) vs) (env_nodes decode vs)
  unfolding each
  show_variables-Emits [] h = Emits-pure decode iswprint
  show_variables-Emits (v ∷ vs) ((value, e), h) =
      let first : Emits decode iswprint (show_variable decode iswprint v)
          (cons (string_field decode (strsep b'=' v).0 (or_empty (strsep b'=' v).1)) nil) =
        unfold show_variable in
        rw (show_variable, e)
          (Emits-entryf decode iswprint (strsep b'=' v).0 (codes "%s") (str value ∷ []) refl) in
      first then show_variables-Emits vs h

  pub show_env-Emits :
      (sort : List Bytes → List Bytes) (env : List Bytes)
      → All IsVariable (sort env)
      → Emits decode iswprint
          (show_env decode iswprint sort env)
          (cons (section (codes "environment") (env_nodes decode (sort env))) nil)
  unfolding show_env
  show_env-Emits sort env h =
      Emits-header decode iswprint (codes "environment") (show_variables-Emits (sort env) h)
