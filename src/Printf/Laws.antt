-- ===== src/Printf/Laws.antt =====
-- Formats with a string and nothing that pads it.
use procenv.Prelude.{
  ℕ, ◌-◌, ◌≡◌, refl, some, [], ◌∷◌, ◌++◌, append-nil, length, Bytes, Text, codes, arith,
}
use procenv.Printf.{str, pad, vsnprintf}

pub pad-zero : (c : ℕ) (t : Text) → pad c 0 t ≡ t
unfolding pad
pad-zero c t = let none_left : 0 - length t ≡ 0 = omega arith in rw none_left refl

pub vsnprintf-string : (n : Bytes) → vsnprintf (str n ∷ []) (codes "%s") ≡ some n
unfolding vsnprintf
vsnprintf-string n =
    let none_left : 0 - length n ≡ 0 = omega arith in rw (none_left, append-nil) refl

pub vsnprintf-comma : (n : Bytes) → vsnprintf (str n ∷ []) (codes "%s, ") ≡ some (n ++ codes ", ")
unfolding vsnprintf
vsnprintf-comma n = let none_left : 0 - length n ≡ 0 = omega arith in rw none_left refl

pub vsnprintf-two : (a b : Bytes) → vsnprintf (str a ∷ str b ∷ []) (codes "%s%s") ≡ some (a ++ b)
unfolding vsnprintf
vsnprintf-two a b =
    let none_left : (t : Bytes) → 0 - length t ≡ 0 = λ t. omega arith in
    rw (none_left a, none_left b, append-nil) refl
