-- ===== src/Program/Show/Misc.antt =====
-- `show_misc`, `get_personality_name` and `get_personality_flags` of src/procenv.c.
pub mod Personality
pub mod Runs
use Prim.Native.Nat.{bit_and}
use procenv.Prelude.{
  ℕ, ◌/◌, ◌%◌, ◌^◌, ◌-◌, Option, none, some, List, [], ◌∷◌, Bool, true, false, not, ◌==◌,
  if◌then◌else◌, Bytes, Outcome, ok, halt, Cmd, pure, ◌>>=◌, ◌>>◌, codes,
}
use procenv.Pstring.{Decode, then_do}
use procenv.Printf.{Arg, str, uint}
use procenv.Output.{State, same}
use procenv.Output.Elements.{header, footer, section_open, section_close, lift}
use procenv.Util.{Roots, in_chroot, Container, container_type}
use procenv.Program.{entryf, append_format, yes_or_no, or_unknown, or_empty}
use procenv.Program.Show.{Map, Ops, op_section}

-- `struct procenv_misc`, the system's answers, and the version of the kernel's headers if the build
-- knows it. PER_MASK is 0xff.
pub record MiscFacts : Type 0 where
  pub umask_value : ℕ
  pub cwd : Bytes
  pub root : Bytes
  pub roots : Roots
  pub container : Container
  pub linux_version_code : Option ℕ
  pub personality : ℕ

abbrev pub per_mask : ℕ
per_mask = 255

unfoldable pub get_personality_name : Map → ℕ → Option Bytes
get_personality_name [] domain = none
get_personality_name ((name, num) ∷ m) domain =
    let rest = get_personality_name m domain in
    if num == bit_and domain per_mask then some name else rest

-- The loop: the list so far, and whether the next name is the first.
unfoldable pub flags_loop : Map → ℕ → Option Bytes → Bool → Outcome (Option Bytes)
flags_loop [] flags list first = ok list
flags_loop ((name, num) ∷ m) flags list first = elim (bit_and flags num == 0) [
  | true ↦ flags_loop m flags list first
  | false ↦
      then_do
        (append_format list (codes "%s%s") (str (if first then [] else codes ", ") ∷ str name ∷ []))
        λ list'. flags_loop m flags list' false
]

unfoldable pub get_personality_flags : Map → ℕ → Outcome (Option Bytes)
get_personality_flags personality_flag_map flags = flags_loop personality_flag_map flags none true

-- A quote unless the text says that the directory is not known.
abbrev pub root_quote : Bytes → Bytes
root_quote root = if same root (codes "unknown") then [] else codes "'"

abbrev pub vm_name : Option Bool → Bytes
vm_name none = codes "unknown"
vm_name (some b) = yes_or_no b

module _ (decode : Decode) (iswprint : ℕ → Bool) where
  -- The three parts of LINUX_VERSION_CODE.
  unfoldable pub show_headers_version : Option ℕ → Cmd State (Unit {0})
  show_headers_version none = pure tt
  show_headers_version (some v) =
      entryf decode iswprint (codes "kernel headers version") (codes "%u.%u.%u")
        (uint (v / 2 ^ 16) ∷ uint ((v / 2 ^ 8) % 2 ^ 8) ∷ uint (v % 2 ^ 8) ∷ [])

  -- `domain & (-1 ^ mask)` is what is left of the domain without its last eight bits.
  unfoldable pub show_personality : Ops → ℕ → Cmd State (Unit {0})
  show_personality ops domain =
      section_open decode iswprint (codes "personality")
      >> (do
        entryf decode iswprint (codes "type") (codes "%s") (
            str (or_unknown (get_personality_name ops.personality_map (bit_and domain per_mask)))
            ∷ [])
        lift (get_personality_flags ops.personality_flag_map (domain - bit_and domain per_mask))
            >>= λ flags.
                entryf decode iswprint (codes "flags") (codes "%s") (str (or_empty flags) ∷ []))
      >> section_close

  unfoldable pub show_misc : Ops → MiscFacts → Cmd State (Unit {0})
  show_misc ops m =
      header decode iswprint (codes "misc")
      >> (do
        entryf decode iswprint (codes "umask") (codes "%4.4o") (uint m.umask_value ∷ [])
        entryf decode iswprint (codes "current directory (cwd)") (codes "'%s'") (str m.cwd ∷ [])
        entryf decode iswprint (codes "root") (codes "%s%s%s")
            (str (root_quote m.root) ∷ str m.root ∷ str (root_quote m.root) ∷ [])
        lift (in_chroot m.roots) >>= λ b.
            entryf decode iswprint (codes "chroot") (codes "%s") (str (yes_or_no b) ∷ [])
        entryf decode iswprint (codes "container") (codes "%s")
            (str (container_type m.container) ∷ [])
        entryf decode iswprint (codes "vm") (codes "%s") (str (vm_name ops.in_vm) ∷ [])
        op_section decode iswprint (codes "prctl") ops.show_prctl
        op_section decode iswprint (codes "security module") ops.show_security_module
        show_headers_version m.linux_version_code
        show_personality ops m.personality)
      >> footer
