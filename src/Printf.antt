-- ===== src/Printf.antt =====
-- What the formats of the program expand to: the directives %s, %c, %d, %u, %x and %o of printf(3),
-- with a zero flag, a width and a precision. Arguments are passed as a list. A bad format, or an
-- argument of the wrong kind, has no expansion.
pub mod Laws
mod Tests
use mathlib.Core.Option
use procenv.Prelude.{
  ℕ, zero, suc, ◌+◌, ◌-◌, ◌*◌, ◌/◌, ◌%◌, Option, none, some, List, [], ◌∷◌, ◌++◌, map, length,
  replicate, Bool, true, false, ◌&&◌, ◌||◌, ◌==◌, ltb, leb, if◌then◌else◌, Bytes, Text, ℤ, pos,
  negsuc,
}
use procenv.Pstring.{Decode}

-- A string, a NULL pointer to one, a character, an `int` or `long`, and an unsigned number.
pub data Arg : Type 0 where
  str : Bytes → Arg
  null : Arg
  char : ℕ → Arg
  int : ℤ → Arg
  uint : ℕ → Arg

-- A pointer that may be NULL.
abbrev pub string : Option Bytes → Arg
string none = null
string (some s) = str s

abbrev pub digit : ℕ → ℕ
digit d = if ltb d 10 then b'0' + d else b'a' + (d - 10)

-- The digits of `n`, most significant first, before `acc`.
unfoldable pub digits : ℕ → ℕ → ℕ → Text → Text
digits zero base n acc = acc
digits (suc fuel) base n acc =
    let rest = digits fuel base (n / base) (digit (n % base) ∷ acc) in
    if ltb n base then digit n ∷ acc else rest

unfoldable pub number : ℕ → ℕ → Text
unfolding digits
number base n = digits (suc n) base n []

-- The fields of a directive between `%` and its letter.
pub record Directive : Type 0 where
  pub zeros : Bool
  pub width : ℕ
  pub precision : Option ℕ

abbrev start : Directive
start = record { zeros = false; width = 0; precision = none }

unfoldable pub pad : ℕ → ℕ → Text → Text
pad c n t = replicate (n - length t) c ++ t

-- The digits of a number, with a sign before them.
unfoldable pub put_number : Directive → Text → Text → Text
unfolding pad
put_number d sign t = elim d.precision [
  | none ↦
      if d.zeros then sign ++ pad b'0' (d.width - length sign) t else pad b' ' d.width (sign ++ t)
  | some p ↦ pad b' ' d.width (sign ++ pad b'0' p t)
]

-- A string; no format of the program gives one a precision.
unfoldable pub put_string : Directive → Text → Text
unfolding pad
put_string d t = pad b' ' d.width t

unfoldable pub convert_signed : Directive → ℤ → Text
unfolding put_number number
convert_signed d (pos n) = put_number d [] (number 10 n)
convert_signed d (negsuc n) = put_number d (b'-' ∷ []) (number 10 (suc n))

-- The letter of a directive and its argument.
unfoldable pub convert : Decode → Directive → ℕ → Arg → Option Text
unfolding put_string put_number number convert_signed
convert decode d c (str s) = if c == b's' then Option.map (put_string d) (decode s) else none
convert decode d c null = none
convert decode d c (char x) = if c == b'c' then some (x ∷ []) else none
convert decode d c (int n) = if c == b'd' then some (convert_signed d n) else none
convert decode d c (uint n) =
    if c == b'u'
    then some (put_number d [] (number 10 n))
    else if c == b'x'
    then some (put_number d [] (number 16 n))
    else if c == b'o'
    then some (put_number d [] (number 8 n))
    else none

-- Outside a directive, or inside one.
pub data Mode : Type 0 where
  plain : Mode
  directive : Directive → Mode

-- What one character of the format writes, and what follows it.
pub record Step : Type 0 where
  pub out : Text
  pub mode : Mode
  pub args : List Arg

abbrev is_digit : ℕ → Bool
is_digit c = leb b'0' c && leb c b'9'

-- A digit is the zero flag, or part of the width or the precision.
abbrev add_digit : ℕ → Directive → Directive
add_digit c d = elim d.precision [
  | none ↦
      if c == b'0' && d.width == 0
      then record d { zeros = true }
      else record d { width = d.width * 10 + (c - b'0') }
  | some p ↦ record d { precision = some (p * 10 + (c - b'0')) }
]

unfoldable pub letter : Decode → Directive → ℕ → List Arg → Option Step
letter decode d c [] = none
letter decode d c (a ∷ args) =
    Option.map (λ out. record { out = out; mode = plain; args = args }) (convert decode d c a)

unfoldable pub step : Decode → Mode → ℕ → List Arg → Option Step
unfolding letter convert
step decode plain c args =
    if c == b'%'
    then some (record { out = []; mode = directive start; args = args })
    else some (record { out = c ∷ []; mode = plain; args = args })
step decode (directive d) c args =
    if c == b'%'
    then some (record { out = c ∷ []; mode = plain; args = args })
    else if is_digit c
    then some (record { out = []; mode = directive (add_digit c d); args = args })
    else if c == b'.'
    then some (record { out = []; mode = directive (record d { precision = some 0 }); args = args })
    else if c == b'l'
    then some (record { out = []; mode = directive d; args = args })
    else letter decode d c args

unfoldable pub expand_from : Decode → Text → Mode → List Arg → Option Text
unfolding step
expand_from decode [] plain args = some []
expand_from decode [] (directive d) args = none
expand_from decode (c ∷ t) m args = elim (step decode m c args) [
  | none ↦ none
  | some s ↦ Option.map (◌++◌ s.out) (expand_from decode t s.mode s.args)
]

-- The wide text that a format and its arguments expand to.
unfoldable pub vswprintf : Decode → List Arg → Text → Option Text
unfolding expand_from
vswprintf decode args fmt = expand_from decode fmt plain args

-- The same for bytes, where nothing is decoded.
unfoldable pub vsnprintf : List Arg → Bytes → Option Bytes
unfolding expand_from
vsnprintf args fmt = expand_from some fmt plain args
