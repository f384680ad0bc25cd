-- ===== src/Program/Show/Stat.antt =====
-- `show_stat`, `get_path` and `format_perms` of src/procenv.c.
pub mod Path
pub mod Perms
pub mod Runs
use mathlib.Core.Option
use procenv.Prelude.{
  get_elem?, zero, suc, ◌-◌, ◌^◌, ℕ, zero, suc, ◌+◌, ◌/◌, ◌%◌, ◌^◌, Option, none, some, List, [],
  ◌∷◌, ◌++◌, length, drop_last, Bool, true, false, ◌==◌, leb, if◌then◌else◌, Bytes, pos, Outcome,
  ok, halt, undefined, endless, died, assertion, Cmd, pure, stop, ◌>>=◌, ◌>>◌, codes,
}
use procenv.Pstring.{Decode, then_do}
use procenv.Printf.{Arg, str, int, uint, string}
use procenv.Output.{State}
use procenv.Output.Elements.{header, footer, section_open, section_close, lift}
use procenv.Program.{entryf, as_int}
use procenv.Program.Tokens.{strsep}
use procenv.Program.Show.Process.{Accounts, get_user_name, get_group_name}

-- What a search for a file sees: whether `stat` succeeds, the working directory, $PATH or the
-- standard path, and the size of the buffers.
pub record Files : Type 0 where
  pub exists : Bytes → Bool
  pub cwd : Bytes
  pub path : Bytes
  pub path_max : ℕ

unfoldable pub has_slash : Bytes → Bool
has_slash [] = false
has_slash (c ∷ t) = let rest = has_slash t in if c == b'/' then true else rest

-- `strlen (element) - 1` as a `size_t`.
abbrev pub last_index : ℕ → ℕ
last_index zero = 2 ^ 64 - 1
last_index (suc n) = n

-- `s[i]`, with the terminator; what else is in memory is not known.
abbrev pub byte_at : Bytes → ℕ → Option ℕ
byte_at s i = get_elem? (s ++ 0 ∷ []) i

-- The second "%s" of the path.
unfoldable pub slash_behind : Bytes → Option Bytes
slash_behind element =
    Option.map (λ c. if c == b'/' then [] else b'/' ∷ [])
      (byte_at element (last_index (length element)))

-- One round of the search, with the rounds behind it. A path that is too long does not fit into
-- `possible`.
abbrev pub try_possible : Files → Bytes → Outcome (Option Bytes) → Outcome (Option Bytes)
try_possible f possible rest =
    if leb f.path_max (length possible)
    then halt undefined
    else if f.exists possible
    then ok (some possible)
    else rest

unfoldable pub try_element : Files → Bytes → Bytes → Outcome (Option Bytes) → Outcome (Option Bytes)
try_element f argv0 element rest = elim (slash_behind element) [
  | none ↦ halt undefined
  | some slash ↦ try_possible f (element ++ (slash ++ argv0)) rest
]

unfoldable pub search_path : ℕ → Files → Bytes → Option Bytes → Outcome (Option Bytes)
search_path zero f argv0 tmp = halt endless
search_path (suc fuel) f argv0 none = ok none
search_path (suc fuel) f argv0 (some s) =
    let rest = search_path fuel f argv0 (strsep b':' s).1 in
    try_element f argv0 (strsep b':' s).0 rest

-- A path below the working directory. `strncat` with the room that is left writes its terminator
-- behind the buffer where the name takes all of that room.
unfoldable pub below_cwd : Files → Bytes → Outcome (Option Bytes)
below_cwd f argv0 =
    let p = f.cwd ++ b'/' ∷ argv0 in
    if leb f.path_max (length p)
    then halt undefined
    else if f.exists p
    then ok (some p)
    else ok none

unfoldable pub get_path : Files → Bytes → Outcome (Option Bytes)
get_path f [] = search_path (suc (suc (length f.path))) f [] (some f.path)
get_path f (c ∷ t) =
    if c == b'/'
    then ok (some (c ∷ t))
    else if has_slash t
    then below_cwd f (c ∷ t)
    else search_path (suc (suc (length f.path))) f (c ∷ t) (some f.path)

-- `mode & (1 << k)`
abbrev pub bit : ℕ → ℕ → Bool
bit k mode = (mode / 2 ^ k) % 2 == 1

abbrev pub mark : Bool → ℕ → ℕ
mark b c = if b then c else b'-'

-- A character that a later assignment to the string replaces.
abbrev pub override : Bool → ℕ → ℕ → ℕ
override b new c = if b then new else c

-- The file type is `mode & S_IFMT`, and S_IFLNK is 10 times 2 ^ 12.
unfoldable pub format_perms : ℕ → Bytes
format_perms mode =
    (if (mode / 2 ^ 12) % 16 == 10 then b'l' else b'-')
    ∷ mark (bit 8 mode) b'r'
    ∷ mark (bit 7 mode) b'w'
    ∷ override (bit 11 mode) b's' (mark (bit 6 mode) b'x')
    ∷ mark (bit 5 mode) b'r'
    ∷ mark (bit 4 mode) b'w'
    ∷ override (bit 10 mode) b's' (mark (bit 3 mode) b'x')
    ∷ mark (bit 2 mode) b'r'
    ∷ mark (bit 1 mode) b'w'
    ∷ override (bit 9 mode) b't' (mark (bit 0 mode) b'x')
    ∷ []

-- `struct stat`, with its times as `ctime_r` writes them, a newline at the end.
pub record Stat : Type 0 where
  pub major : ℕ
  pub minor : ℕ
  pub st_ino : ℕ
  pub st_mode : ℕ
  pub st_nlink : ℕ
  pub st_uid : ℕ
  pub st_gid : ℕ
  pub st_size : ℕ
  pub st_blocks : ℕ
  pub st_atime : ℕ
  pub st_mtime : ℕ
  pub st_ctime : ℕ
  pub atime : Bytes
  pub mtime : Bytes
  pub ctime : Bytes

module _ (decode : Decode) (iswprint : ℕ → Bool) where
  abbrev pub show_when : Bytes → ℕ → Bytes → Cmd State (Unit {0})
  show_when name t formatted =
      entryf decode iswprint name (codes "%lu (%s)") (uint t ∷ str (drop_last formatted) ∷ [])

  -- What is displayed of a file. The group's name is asked for by the id of the user, as the code
  -- does.
  unfoldable pub show_stat_of : Accounts → Bytes → Bytes → Stat → Cmd State (Unit {0})
  show_stat_of db program_name real_path st =
      header decode iswprint (codes "stat")
      >> (do
        entryf decode iswprint (codes "argv[0]") (codes "'%s'") (str program_name ∷ [])
        entryf decode iswprint (codes "real path") (codes "'%s'") (str real_path ∷ [])
        section_open decode iswprint (codes "device")
            >> (do
              entryf decode iswprint (codes "major") (codes "%u") (uint st.major ∷ [])
              entryf decode iswprint (codes "minor") (codes "%u") (uint st.minor ∷ []))
            >> section_close
        entryf decode iswprint (codes "inode") (codes "%lu") (uint st.st_ino ∷ [])
        section_open decode iswprint (codes "permissions")
            >> (do
              entryf decode iswprint (codes "octal") (codes "%4.4o")
                  (uint (st.st_mode % 2 ^ 12) ∷ [])
              entryf decode iswprint (codes "symbolic") (codes "%s")
                  (str (format_perms st.st_mode) ∷ []))
            >> section_close
        entryf decode iswprint (codes "hard links") (codes "%u") (uint st.st_nlink ∷ [])
        entryf decode iswprint (codes "user id (uid)") (codes "%d ('%s')")
            (int (as_int st.st_uid) ∷ string (get_user_name db st.st_uid) ∷ [])
        entryf decode iswprint (codes "group id (gid)") (codes "%d ('%s')")
            (int (as_int st.st_gid) ∷ string (get_group_name db st.st_uid) ∷ [])
        entryf decode iswprint (codes "size") (codes "%lu bytes (%lu 512-byte blocks)")
            (uint st.st_size ∷ uint st.st_blocks ∷ [])
        section_open decode iswprint (codes "times")
            >> (do
              show_when (codes "atime (access)") st.st_atime st.atime
              show_when (codes "mtime (modification)") st.st_mtime st.mtime
              show_when (codes "ctime (status change)") st.st_ctime st.ctime)
            >> section_close)
      >> footer

  -- `realpath` and `stat` of the program's path; none is a failure.
  unfoldable pub show_stat :
      Files → (Bytes → Option (Bytes × Stat)) → Accounts → Bytes → Cmd State (Unit {0})
  show_stat f query db program_name = lift (get_path f program_name) >>= λ found. elim found [
    | none ↦ stop assertion
    | some p ↦ elim (query p) [ none ↦ stop died | some q ↦ show_stat_of db program_name q.0 q.1 ]
  ]
