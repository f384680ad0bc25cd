-- ===== src/Pstring.antt =====
-- src/pstring.c: wide strings with their length. Allocation is taken to succeed, as in all of the
-- development; a wide character takes four bytes.
pub mod Chomp
pub mod Compress
mod Tests
use mathlib.Core.Option
use procenv.Prelude.{
  ℕ, ◌+◌, ◌-◌, ◌*◌, Option, none, some, List, [], ◌∷◌, reverse, take, length, Bytes, Text, ◌||◌,
  ◌==◌, ltb, leb, if◌then◌else◌, Outcome, ok, halt, undefined,
}
use procenv.Memory.{Cell, store, read_text, written}

pub record PString : Type 0 where
  pub buf : Option (List Cell)
  pub len : ℕ
  pub size : ℕ

abbrev pub sizeof_wchar : ℕ
sizeof_wchar = 4

-- What a step on memory comes to: no result is undefined behaviour.
abbrev pub defined : {A : Type 0} → Option A → Outcome A
defined none = halt undefined
defined (some a) = ok a

-- Sequencing of steps that carry no state.
abbrev pub then_do : {A B : Type 0} → Outcome A → (A → Outcome B) → Outcome B
then_do (ok a) k = k a
then_do (halt why) k = halt why

-- `mbsrtowcs` under the program's locale: the wide characters of a byte string, or none if it is
-- not valid. The two calls of `char_to_wchar` agree, since neither changes the string.
abbrev pub Decode : Type 0
Decode = Bytes → Option Text

-- NULL for a string that is not valid, and for one that is empty.
unfoldable pub char_to_wchar : Decode → Bytes → Option Text
char_to_wchar decode str = elim (decode str) [
  | none ↦ none
  | some t ↦ if length t == 0 then none else some t
]

abbrev pub pstring_new : PString
pstring_new = record { buf = none; len = 0; size = 0 }

-- `wcsdup` and a length that counts the terminator.
unfoldable pub pstring_create : Text → PString
pstring_create str = record {
  buf = some (written str (some 0 ∷ []));
  len = 1 + length str;
  size = (1 + length str) * sizeof_wchar;
}

unfoldable pub char_to_pstring : Decode → Bytes → Option PString
char_to_pstring decode str = Option.map pstring_create (char_to_wchar decode str)

-- The buffer as the program reads it with `%ls`.
abbrev pub text_of : PString → Outcome Text
text_of s = elim s.buf [ none ↦ halt undefined | some cs ↦ defined (read_text cs) ]

-- The scan of `pstring_chomp` backwards: `before` are the cells from the current one down. It counts
-- the removable characters, and leaves the buffer if there is no other.
unfoldable pub chomp_scan : ℕ → List Cell → ℕ → Option ℕ
chomp_scan indent_char [] removable = none
chomp_scan indent_char (none ∷ before) removable = none
chomp_scan indent_char (some c ∷ before) removable =
    let rest = chomp_scan indent_char before (removable + 1) in
    if c == 10 || c == indent_char then rest else some removable

unfoldable pub pstring_chomp : ℕ → PString → Outcome PString
pstring_chomp indent_char s = if ltb s.len 2 then ok s else elim s.buf [
  | none ↦ halt undefined
  | some cs ↦
      if ltb (length cs) s.len
      then halt undefined
      else then_do (defined (chomp_scan indent_char (reverse (take s.len cs)) 0)) λ removable.
        if leb removable 1
        then ok s
        else let len = s.len - (removable - 1) in
          then_do (defined (store (len - 1) 10 cs)) λ cs1.
            then_do (defined (store len 0 cs1)) λ cs2. ok (record s { buf = some cs2; len = len })
]
