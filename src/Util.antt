-- ===== src/Util.antt =====
-- src/util.c: questions to the system. What the system answers is an argument.
mod Tests
use procenv.Prelude.{
  ℕ, ◌%◌, ◌^◌, Option, none, some, List, [], ◌∷◌, drop_last, Bool, true, false, not, ◌&&◌, ◌||◌,
  ◌==◌, if◌then◌else◌, Bytes, ℤ, is_negative, Outcome, ok, halt, died, codes,
}

-- `fcntl (fd, F_GETFL)`, none where it fails with an errno.
unfoldable pub fd_valid : (ℤ → Option (Unit {0})) → ℤ → Bool
fd_valid fcntl fd = elim (is_negative fd) [
  | true ↦ false
  | false ↦ elim (fcntl fd) [ none ↦ false | some flags ↦ true ]
]

-- The inodes of / and /proc/self/root, none where `stat` fails, and whether /proc/curproc is there.
pub record Roots : Type 0 where
  pub root : Option ℕ
  pub bsd_self : Bool
  pub self : Option ℕ

-- An inode as an `int`.
abbrev pub inode : ℕ → ℕ
inode n = n % 2 ^ 32

unfoldable pub in_chroot : Roots → Outcome Bool
in_chroot r = elim r.root [
  | none ↦ halt died
  | some root ↦
      if not (inode root == 2) && not (inode root == 128)
      then ok true
      else if r.bsd_self
      then ok false
      else elim r.self [ none ↦ ok false | some self ↦ ok (not (inode root == inode self)) ]
]

-- The device of /dev/console, whether /proc/vz and /proc/bc are there, and the lines of
-- /proc/self/status as `fgets` reads them.
pub record Container : Type 0 where
  pub console : Option (ℕ × ℕ)
  pub vz : Bool
  pub bc : Bool
  pub status : Option (List Bytes)

-- `strstr (buffer, prefix) == buffer`
unfoldable pub starts_with : Bytes → Bytes → Bool
starts_with [] s = true
starts_with (c ∷ p) [] = false
starts_with (c ∷ p) (d ∷ s) = c == d && starts_with p s

-- Each line without its last character, the newline.
unfoldable pub has_vxid : List Bytes → Bool
has_vxid [] = false
has_vxid (l ∷ ls) = starts_with (codes "VxID") (drop_last l) || has_vxid ls

-- On Linux, where /dev/console is device 5:1.
unfoldable pub container_type : Container → Bytes
container_type c = elim c.console [
  | none ↦ codes "no"
  | some (major, minor) ↦
      if not (major == 5) || not (minor == 1)
      then codes "lxc"
      else if c.vz && not c.bc
      then codes "openvz"
      else elim c.status [
        | none ↦ codes "no"
        | some lines ↦ if has_vxid lines then codes "vserver" else codes "no"
      ]
]
