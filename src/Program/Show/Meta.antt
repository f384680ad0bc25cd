-- ===== src/Program/Show/Meta.antt =====
-- `show_meta`, `show_arguments`, `show_version`, `show_uname` and `show_env` of src/procenv.c.
pub mod Runs
use procenv.Prelude.{
  ℕ, zero, suc, ◌+◌, Option, none, some, List, [], ◌∷◌, ◌++◌, map, length, Bool, true, false, ◌==◌,
  if◌then◌else◌, Bytes, pos, Outcome, ok, halt, Cmd, pure, stop, ◌>>=◌, ◌>>◌, codes, assertion,
  and_then,
}
use procenv.Pstring.{Decode}
use procenv.Printf.{Arg, str, int, uint, vsnprintf}
use procenv.StringUtil.{appendf}
use procenv.Output.{State, get_output_format_name}
use procenv.Output.Elements.{
  header, footer, section_open, section_close, container_open, container_close, object_open,
  object_close, entry, lift,
}
use procenv.Program.{entryf, each, or_empty}
use procenv.Program.Tokens.{strsep}
use procenv.Program.Show.{Ops}

-- The strings of the build, and whether PROCENV_REPRODUCIBLE_BUILD is defined.
pub record Build : Type 0 where
  pub package_name : Bytes
  pub package_version : Bytes
  pub package_string : Bytes
  pub authors : Bytes
  pub reproducible : Bool
  pub format_version : ℕ

-- `struct utsname`; `domainname` is none where the build does not have it.
pub record Utsname : Type 0 where
  pub sysname : Bytes
  pub nodename : Bytes
  pub release : Bytes
  pub version : Bytes
  pub machine : Bytes
  pub domainname : Option Bytes

abbrev pub build_type : Build → Bytes
build_type b = if b.reproducible then codes "reproducible" else codes "standard"

abbrev pub non_empty_or_unknown : Bytes → Bytes
non_empty_or_unknown [] = codes "unknown"
non_empty_or_unknown (c ∷ t) = c ∷ t

module _ (decode : Decode) (iswprint : ℕ → Bool) where
  -- A driver's name is the format itself: `entry ("name", ops->driver.name)`.
  unfoldable pub show_meta : Ops → Build → ℕ → Cmd State (Unit {0})
  show_meta ops b euid =
      header decode iswprint (codes "meta")
      >> (do
        entryf decode iswprint (codes "version") (codes "%s") (str b.package_version ∷ [])
        entryf decode iswprint (codes "package") (codes "%s") (str b.package_string ∷ [])
        entryf decode iswprint (codes "mode") (codes "%s%s")
            (str (if euid == 0 then [] else codes "non-") ∷ str (codes "privileged") ∷ [])
        entryf decode iswprint (codes "build-type") (codes "%s") (str (build_type b) ∷ [])
        section_open decode iswprint (codes "driver")
            >> (entryf decode iswprint (codes "name") ops.driver_name []
                >> entryf decode iswprint (codes "file") ops.driver_file [])
            >> section_close
        get_output_format_name >>= λ name.
            entryf decode iswprint (codes "format-type") (codes "%s") (str name ∷ [])
        entryf decode iswprint (codes "format-version") (codes "%d")
            (int (pos b.format_version) ∷ []))
      >> footer

  -- `appendf (&buffer, "argv[%d]", i)`, and an object with one entry; from argument `i` on.
  unfoldable pub show_argv : ℕ → List Bytes → Cmd State (Unit {0})
  show_argv i [] = pure tt
  show_argv i (a ∷ argv) =
      lift (appendf none (vsnprintf (int (pos i) ∷ []) (codes "argv[%d]"))) >>= λ buffer.
      object_open false
      >> entryf decode iswprint (or_empty buffer) (codes "%s") (str a ∷ [])
      >> object_close false
      >> show_argv (suc i) argv

  unfoldable pub show_arguments : List Bytes → Cmd State (Unit {0})
  show_arguments argv =
      header decode iswprint (codes "arguments")
      >> (entryf decode iswprint (codes "count") (codes "%u") (uint (length argv) ∷ [])
          >> (container_open decode iswprint (codes "list") >> show_argv 0 argv >> container_close))
      >> footer

  unfoldable pub show_version : Build → Cmd State (Unit {0})
  show_version b =
      header decode iswprint (codes "version")
      >> (do
        entryf decode iswprint (codes "name") (codes "%s") (str b.package_name ∷ [])
        entryf decode iswprint (codes "version") (codes "%s") (str b.package_version ∷ [])
        entryf decode iswprint (codes "author") (codes "%s") (str b.authors ∷ []))
      >> footer

  abbrev pub show_domainname : Option Bytes → Cmd State (Unit {0})
  show_domainname none = pure tt
  show_domainname (some d) =
      entryf decode iswprint (codes "domainname") (codes "%s") (str (non_empty_or_unknown d) ∷ [])

  unfoldable pub show_uname : Utsname → Cmd State (Unit {0})
  show_uname u =
      header decode iswprint (codes "uname")
      >> (do
        entryf decode iswprint (codes "sysname") (codes "%s") (str u.sysname ∷ [])
        entryf decode iswprint (codes "nodename") (codes "%s") (str u.nodename ∷ [])
        entryf decode iswprint (codes "release") (codes "%s") (str u.release ∷ [])
        entryf decode iswprint (codes "version") (codes "%s") (str u.version ∷ [])
        entryf decode iswprint (codes "machine") (codes "%s") (str u.machine ∷ [])
        show_domainname u.domainname)
      >> footer

  -- `strchr (name, '=')` splits a variable; without one the program stops.
  unfoldable pub show_variable : Bytes → Cmd State (Unit {0})
  show_variable v = elim (strsep b'=' v).1 [
    | none ↦ stop assertion
    | some value ↦ entryf decode iswprint (strsep b'=' v).0 (codes "%s") (str value ∷ [])
  ]

  -- A copy of the environment is sorted by qsort(3), with strcoll(3) as the order.
  unfoldable pub show_env : (List Bytes → List Bytes) → List Bytes → Cmd State (Unit {0})
  show_env sort env =
      header decode iswprint (codes "environment") >> each show_variable (sort env) >> footer
