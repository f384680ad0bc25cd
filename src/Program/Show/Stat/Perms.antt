-- ===== src/Program/Show/Stat/Perms.antt =====
-- The string that `format_perms` of src/procenv.c makes of a mode, in octal.
use procenv.Prelude.{
  ℕ, ◌+◌, ◌*◌, ◌/◌, ◌%◌, ◌<◌, ◌≡◌, ◌∙◌, refl, ap, Bool, true, false, ◌==◌, if◌then◌else◌, Bytes, [],
  ◌∷◌, ◌++◌, codes, arith,
}
use procenv.Program.Show.Stat.{bit, mark, override, format_perms}

-- A digit of a mode in octal.
pub data Octal : Type 0 where
  o0 o1 o2 o3 o4 o5 o6 o7 : Octal

abbrev pub value : Octal → ℕ
value o0 = 0
value o1 = 1
value o2 = 2
value o3 = 3
value o4 = 4
value o5 = 5
value o6 = 6
value o7 = 7

-- The permissions of a digit, as ls(1) prints them.
abbrev pub rwx : Octal → Bytes
rwx o0 = codes "---"
rwx o1 = codes "--x"
rwx o2 = codes "-w-"
rwx o3 = codes "-wx"
rwx o4 = codes "r--"
rwx o5 = codes "r-x"
rwx o6 = codes "rw-"
rwx o7 = codes "rwx"

-- The first digit: set-user-id is 4, set-group-id is 2, and the sticky bit is 1.
abbrev pub special : Octal → Bool × Bool × Bool
special o0 = (false, false, false)
special o1 = (false, false, true)
special o2 = (false, true, false)
special o3 = (false, true, true)
special o4 = (true, false, false)
special o5 = (true, false, true)
special o6 = (true, true, false)
special o7 = (true, true, true)

-- A letter in place of the last of three.
abbrev pub marked : Bool → ℕ → Bytes → Bytes
marked true c (r ∷ w ∷ x ∷ t) = r ∷ w ∷ c ∷ t
marked b c t = t

-- A type and four octal digits.
abbrev pub mode_of : ℕ → Octal → Octal → Octal → Octal → ℕ
mode_of kind s u g o = kind * 4096 + value s * 512 + value u * 64 + value g * 8 + value o

value-less : (d : Octal) → value d < 8
value-less o0 = omega arith
value-less o1 = omega arith
value-less o2 = omega arith
value-less o3 = omega arith
value-less o4 = omega arith
value-less o5 = omega arith
value-less o6 = omega arith
value-less o7 = omega arith

-- Digits below a power of two do not reach the bits above.
module _ (kind s u g o : ℕ) (hs : s < 8) (hu : u < 8) (hg : g < 8) (ho : o < 8) where
  abbrev all : ℕ
  all = kind * 4096 + s * 512 + u * 64 + g * 8 + o

  other_digit : (all % 8) ≡ o
  other_digit = omega arith

  group_digit : (all / 8) % 8 ≡ g
  group_digit = omega arith

  user_digit : (all / 64) % 8 ≡ u
  user_digit = omega arith

  special_digit : (all / 512) % 8 ≡ s
  special_digit = omega arith

  kind_digit : kind < 16 → (all / 4096) % 16 ≡ kind
  kind_digit h = omega arith

-- Three characters from a digit, the last with a mark for a special bit.
abbrev row : Bool → ℕ → ℕ → Bytes → Bytes
row b c d rest =
    mark (bit 2 d) b'r' ∷ mark (bit 1 d) b'w' ∷ override b c (mark (bit 0 d) b'x') ∷ rest

-- A bit of a mode is one of a digit.
by_digits :
    (m : ℕ)
    → format_perms m
      ≡ (if (m / 4096) % 16 == 10 then b'l' else b'-')
        ∷ row
            (bit 2 (m / 512 % 8))
            b's'
            (m / 64 % 8)
            (row (bit 1 (m / 512 % 8)) b's' (m / 8 % 8) (row (bit 0 (m / 512 % 8)) b't' (m % 8) []))
unfolding format_perms
by_digits m =
    let b8 : bit 8 m ≡ bit 2 (m / 64 % 8) = ap (λ n. n == 1) (omega arith) in
    let b7 : bit 7 m ≡ bit 1 (m / 64 % 8) = ap (λ n. n == 1) (omega arith) in
    let b6 : bit 6 m ≡ bit 0 (m / 64 % 8) = ap (λ n. n == 1) (omega arith) in
    let b5 : bit 5 m ≡ bit 2 (m / 8 % 8) = ap (λ n. n == 1) (omega arith) in
    let b4 : bit 4 m ≡ bit 1 (m / 8 % 8) = ap (λ n. n == 1) (omega arith) in
    let b3 : bit 3 m ≡ bit 0 (m / 8 % 8) = ap (λ n. n == 1) (omega arith) in
    let b2 : bit 2 m ≡ bit 2 (m % 8) = ap (λ n. n == 1) (omega arith) in
    let b1 : bit 1 m ≡ bit 1 (m % 8) = ap (λ n. n == 1) (omega arith) in
    let b0 : bit 0 m ≡ bit 0 (m % 8) = ap (λ n. n == 1) (omega arith) in
    let b11 : bit 11 m ≡ bit 2 (m / 512 % 8) = ap (λ n. n == 1) (omega arith) in
    let b10 : bit 10 m ≡ bit 1 (m / 512 % 8) = ap (λ n. n == 1) (omega arith) in
    let b9 : bit 9 m ≡ bit 0 (m / 512 % 8) = ap (λ n. n == 1) (omega arith) in
    rw (b8, b7, b6, b5, b4, b3, b2, b1, b0, b11, b10, b9) refl

row-marked :
    (b : Bool) (c : ℕ) (d : Octal) (rest : Bytes)
    → row b c (value d) rest ≡ marked b c (rwx d) ++ rest
row-marked true c o0 rest = refl
row-marked true c o1 rest = refl
row-marked true c o2 rest = refl
row-marked true c o3 rest = refl
row-marked true c o4 rest = refl
row-marked true c o5 rest = refl
row-marked true c o6 rest = refl
row-marked true c o7 rest = refl
row-marked false c o0 rest = refl
row-marked false c o1 rest = refl
row-marked false c o2 rest = refl
row-marked false c o3 rest = refl
row-marked false c o4 rest = refl
row-marked false c o5 rest = refl
row-marked false c o6 rest = refl
row-marked false c o7 rest = refl

-- The three bits of the first digit.
special-bits : (s : Octal) → (bit 2 (value s), bit 1 (value s), bit 0 (value s)) ≡ special s
special-bits o0 = refl
special-bits o1 = refl
special-bits o2 = refl
special-bits o3 = refl
special-bits o4 = refl
special-bits o5 = refl
special-bits o6 = refl
special-bits o7 = refl

-- The letters for three special bits and three digits.
abbrev pub letters : Bool × Bool × Bool → Octal → Octal → Octal → Bytes
letters b u g o =
    marked b.0 b's' (rwx u) ++ (marked b.1 b's' (rwx g) ++ (marked b.2 b't' (rwx o) ++ []))

rows :
    (s u g o : Octal)
    → row
        (bit 2 (value s))
        b's'
        (value u)
        (row (bit 1 (value s)) b's' (value g) (row (bit 0 (value s)) b't' (value o) []))
      ≡ letters (special s) u g o
rows s u g o =
    let b = bit 2 (value s) in
    let c = bit 1 (value s) in
    let d = bit 0 (value s) in
    let others = row-marked d b't' o [] in
    let groups =
      row-marked c b's' g (row d b't' (value o) []) ∙ ap (◌++◌ (marked c b's' (rwx g))) others in
    row-marked b b's' u (row c b's' (value g) (row d b't' (value o) []))
    ∙ ap (◌++◌ (marked b b's' (rwx u))) groups
    ∙ ap (λ x. letters x u g o) (special-bits s)

-- `format_perms` of a mode that is a type and four octal digits gives "l" for a symbolic link and "-"
-- for any other type, and then for each of the last three digits the three letters that ls(1)
-- prints for it, where set-user-id and set-group-id put an "s" in the place of the execute letter of
-- the user and of the group, and the sticky bit a "t" in that of the others, whether the execute bit
-- is set or not. Condition: the type is less than 16.
pub format_perms-octal :
    (kind : ℕ) (s u g o : Octal)
    → kind < 16
    → format_perms (mode_of kind s u g o)
      ≡ (if kind == 10 then b'l' else b'-') ∷ letters (special s) u g o
format_perms-octal kind s u g o h =
    let p = value-less in
    rw
      (
        by_digits (mode_of kind s u g o),
        kind_digit kind (value s) (value u) (value g) (value o) (p s) (p u) (p g) (p o) h,
        special_digit kind (value s) (value u) (value g) (value o) (p s) (p u) (p g) (p o),
        user_digit kind (value s) (value u) (value g) (value o) (p s) (p u) (p g) (p o),
        group_digit kind (value s) (value u) (value g) (value o) (p s) (p u) (p g) (p o),
        other_digit kind (value s) (value u) (value g) (value o) (p s) (p u) (p g) (p o),
      )
      (ap (λ t. (if kind == 10 then b'l' else b'-') ∷ t) (rows s u g o))
