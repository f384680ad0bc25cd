-- ===== src/Program/Show/Machine.antt =====
-- `show_platform`, `show_data_model` and `show_time` of src/procenv.c, and `is_big_endian` of
-- src/util.c as the order of a word's bytes.
pub mod Runs
use procenv.Prelude.{
  ℕ, zero, suc, ◌-◌, ◌*◌, ◌%◌, ◌^◌, Option, none, some, List, [], ◌∷◌, drop_last, Bool, true, false,
  ◌&&◌, ◌==◌, ltb, if◌then◌else◌, Bytes, ℤ, pos, negsuc, ◌+ℤ◌, died, Cmd, pure, stop, ◌>>=◌, ◌>>◌,
  codes,
}
use procenv.Pstring.{Decode}
use procenv.Printf.{Arg, str, int, uint}
use procenv.Output.{State}
use procenv.Output.Elements.{header, footer}
use procenv.Program.{entryf}
use procenv.Program.Show.{Ops}
use procenv.Program.Show.Tables.{is_minus_one}

-- What the build knows of its machine: the names from `get_os` and `get_arch`, the sizes in bytes of
-- `int`, `long`, `long long` and pointers, and the bytes of the `int` 1 in memory.
pub record Target : Type 0 where
  pub os : Bytes
  pub arch : Bytes
  pub sizeof_int : ℕ
  pub sizeof_long : ℕ
  pub sizeof_long_long : ℕ
  pub sizeof_pointer : ℕ
  pub char_bit : ℕ
  pub one : List ℕ

-- `*(char *)&x == 1` says no.
abbrev pub is_big_endian : List ℕ → Bool
is_big_endian [] = true
is_big_endian (b ∷ bs) = if b == 1 then false else true

-- DATA_MODEL
abbrev pub is_model : Target → ℕ → ℕ → ℕ → Bool
is_model t i l p = t.sizeof_int == i && (t.sizeof_long == l && t.sizeof_pointer == p)

unfoldable pub data_model : Target → Bytes
data_model t =
    if is_model t 2 4 4
    then codes "LP32"
    else if is_model t 4 4 4
    then codes "ILP32"
    else if is_model t 4 4 8 && t.sizeof_long_long == t.sizeof_pointer
    then codes "LLP64"
    else if is_model t 4 8 8
    then codes "LP64"
    else if is_model t 8 8 8
    then codes "ILP64"
    else codes "unknown"

-- `struct tm` of the time: the month counts from 0, and the year from 1900.
pub record Tm : Type 0 where
  pub tm_year : ℤ
  pub tm_mon : ℕ
  pub tm_mday : ℕ
  pub tm_hour : ℕ
  pub tm_min : ℕ

-- What `ops->get_time`, `localtime` and `asctime_r` give, the last with its newline at the end; none
-- where one of them fails.
pub record Clock : Type 0 where
  pub tv_sec : ℕ
  pub tv_nsec : ℕ
  pub tm : Tm
  pub asctime : Bytes

module _ (decode : Decode) (iswprint : ℕ → Bool) where
  unfoldable pub show_data_model : Target → Cmd State (Unit {0})
  show_data_model t = elim (ltb 8 t.sizeof_pointer) [
    | true ↦ stop died
    | false ↦ entryf decode iswprint (codes "data model") (codes "%s (%d/%d/%d)") (
        str (data_model t)
        ∷ int (pos t.sizeof_int)
        ∷ int (pos t.sizeof_long)
        ∷ int (pos t.sizeof_pointer)
        ∷ [])
  ]

  -- The number of bits of the kernel, -1 if it is not known, is printed as `%lu`.
  unfoldable pub show_kernel_bits : Option ℤ → Cmd State (Unit {0})
  show_kernel_bits (some (pos n)) =
      entryf decode iswprint (codes "kernel bits") (codes "%lu") (uint n ∷ [])
  show_kernel_bits (some (negsuc (suc n))) =
      entryf decode iswprint (codes "kernel bits") (codes "%lu") (uint (2 ^ 64 - 2 - n) ∷ [])
  show_kernel_bits _ =
      entryf decode iswprint (codes "kernel bits") (codes "%s") (str (codes "unknown") ∷ [])

  unfoldable pub show_platform : Ops → Target → Cmd State (Unit {0})
  show_platform ops t =
      header decode iswprint (codes "platform")
      >> (do
        entryf decode iswprint (codes "operating system") (codes "%s") (str t.os ∷ [])
        entryf decode iswprint (codes "architecture") (codes "%s") (str t.arch ∷ [])
        show_kernel_bits ops.get_kernel_bits
        entryf decode iswprint (codes "executable bits") (codes "%lu")
            (uint (t.sizeof_pointer * t.char_bit) ∷ [])
        entryf decode iswprint (codes "code endian") (codes "%s")
            (str (if is_big_endian t.one then codes "big" else codes "little") ∷ [])
        show_data_model t)
      >> footer

  -- The arguments of the ISO entry, as the code passes them.
  abbrev pub iso_args : Tm → List Arg
  iso_args tm =
      int (pos 1900 +ℤ tm.tm_year)
      ∷ int (pos tm.tm_mon)
      ∷ int (pos tm.tm_mday)
      ∷ int (pos tm.tm_hour)
      ∷ int (pos tm.tm_min)
      ∷ []

  -- `ops->get_time` missing is none; a failure of one of the calls, an inner none, is fatal.
  unfoldable pub show_time : Option (Option Clock) → Cmd State (Unit {0})
  show_time none = pure tt
  show_time (some none) = stop died
  show_time (some (some c)) =
      header decode iswprint (codes "time")
      >> (do
        entryf decode iswprint (codes "raw") (codes "%u.%lu")
            (uint (c.tv_sec % 2 ^ 32) ∷ uint c.tv_nsec ∷ [])
        entryf decode iswprint (codes "local") (codes "%s") (str (drop_last c.asctime) ∷ [])
        entryf decode iswprint (codes "ISO") (codes "%4.4d-%2.2d-%2.2dT%2.2d:%2.2d")
            (iso_args c.tm))
      >> footer
