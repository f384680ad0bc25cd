-- ===== src/Pstring/Compress/Clean.antt =====
-- What `pstring_compress` of src/pstring.c leaves as it is, and that it ends.
use procenv.Prelude.{
  ℕ, zero, suc, ◌+◌, ◌-◌, ◌*◌, ◌<◌, ◌≡◌, refl, ap, some, List, [], ◌∷◌, ◌++◌, map, length,
  length-append, ltb, Bool, false, ◌&&◌, not, ◌==◌, Bool-cases, inl, inr, Text, NoNul, ok, arith,
}
use procenv.Memory.{Cell, written, overwrite}
use procenv.Memory.Laws.{
  overwrite_exact, overwrite-enough, resize-written, written-append, store-written,
  read_text-written,
}
use procenv.Pstring.{sizeof_wchar}
use procenv.Pstring.Chomp.{stored, length-written}
use procenv.Pstring.Compress.{
  starts_with, skip_blanks, skip_run, again, copy_one, compress_loop, shrink, pstring_compress,
}

-- A line that begins here has two or more of `w`, and nothing else.
abbrev pub is_blank_run : ℕ → Text → Bool
is_blank_run w t = starts_with 10 (skip_run w t).0 && not ((skip_run w t).1 == 1)

-- There is no empty line, and no `w` from which on a line has two or more of `w` and nothing else.
abbrev pub IsClean : ℕ → Text → Type 0
IsClean w [] = Unit {0}
IsClean w (c ∷ t) =
    ((c == 10 && starts_with 10 t) ≡ false)
    × (((c == w) && is_blank_run w (c ∷ t)) ≡ false)
    × IsClean w t

skip_blanks-clean :
    (c : ℕ) (t : Text) → (c == 10 && starts_with 10 t) ≡ false → skip_blanks (c ∷ t) ≡ (c ∷ t, 0)
unfolding skip_blanks
skip_blanks-clean c t h = rw h refl

skip_run-other : (w c : ℕ) (t : Text) → (c == w) ≡ false → skip_run w (c ∷ t) ≡ (c ∷ t, 0)
unfolding skip_run
skip_run-other w c t h = rw h refl

again-clean :
    (fuel w c : ℕ) (t : Text) (blanks : ℕ)
    → IsClean w (c ∷ t)
    → again (suc fuel) w (c ∷ t) blanks 0 ≡ ok (c ∷ t, (blanks, 0))
unfolding again
again-clean fuel w c t blanks (hb, hr, h) =
    let none' : blanks + 0 ≡ blanks = omega arith in
    elim (Bool-cases (c == w)) [
      | inl is ↦
          let no_blank : is_blank_run w (c ∷ t) ≡ false = rw is at hr in
          elim (Bool-cases ((skip_run w (c ∷ t)).1 == 0)) [
            | inl z ↦ rw (skip_blanks-clean c t hb, none', z) refl
            | inr z ↦ rw (skip_blanks-clean c t hb, none', z, no_blank) refl
          ]
      | inr other ↦ rw (skip_blanks-clean c t hb, none', skip_run-other w c t other) refl
    ]

loop-clean :
    (w : ℕ) (t : Text) (fuel blanks : ℕ)
    → IsClean w t
    → length t < fuel
    → compress_loop fuel w t blanks 0 ≡ ok (t, (blanks, 0))
unfolding compress_loop copy_one
loop-clean w t zero blanks h le = absurd (omega arith)
loop-clean w [] (suc fuel) blanks h le = refl
loop-clean w (c ∷ t) (suc fuel) blanks h le =
    rw (again-clean (suc (length t)) w c t blanks h, loop-clean w t fuel blanks h.2 (omega arith))
      refl

-- `pstring_compress` returns and leaves a text as it is that has no empty line, and no line of which
-- the end is two or more of the character to remove and nothing else. Conditions: the text holds no
-- nul, and the pstring's length leaves the terminator out.
pub pstring_compress-clean :
    (w size : ℕ) (t : Text)
    → IsClean w t
    → NoNul t
    → pstring_compress w (stored t size) ≡ ok (stored t size)
unfolding pstring_compress shrink
pstring_compress-clean w size t h n =
    rw
      (
        read_text-written t [] n,
        loop-clean w t (suc (length t)) 0 h (omega arith),
        overwrite_exact t (written t (some 0 ∷ [])) (omega (arith, length-written t (some 0 ∷ []))),
      )
      refl

-- A text that is clean behind an empty line at its start.
blank-start :
    (fuel w : ℕ) (v : Text)
    → (10 == w) ≡ false
    → IsClean w (10 ∷ v)
    → again (suc fuel) w (10 ∷ 10 ∷ v) 0 0 ≡ ok (10 ∷ v, (1, 0))
unfolding again skip_blanks
blank-start fuel w v not_w h = rw (h.0, skip_run-other w 10 v not_w) refl

written-map : (t : Text) (cs : List Cell) → written t cs ≡ map some t ++ cs
written-map t cs = refl

length-map-some : (t : Text) → length (map some t) ≡ length t
length-map-some [] = refl
length-map-some (c ∷ t) = ap suc (length-map-some t)

-- The cells behind the loop, cut to the new length, which leaves no room for the terminator.
shrink-one :
    (o : Text) (x w size : ℕ)
    → shrink (stored (w ∷ (o ++ x ∷ [])) size) (written (o ++ x ∷ []) (some 0 ∷ some 0 ∷ [])) 1
      ≡ ok (record {
        buf = some (written o (some 0 ∷ []));
        len = length o + 1;
        size = (length o + 1) * sizeof_wchar;
      })
unfolding shrink
shrink-one o x w size =
    let y = o ++ x ∷ [] in
    let len : length y ≡ length o + 1 = length-append o (x ∷ []) in
    let enough : ltb (suc (length y)) 1 ≡ false = ground arith in
    let cut : suc (length y) - 1 ≡ length y + 0 = omega arith in
    let last : length y + 0 - 1 ≡ length o + 0 = omega arith in
    let all : length y + 0 ≡ length o + 1 = omega arith in
    let cells = resize-written y 0 (some 0 ∷ some 0 ∷ []) in
    let split = written-append o (x ∷ []) [] in
    rw (enough, cut, last, cells, split, store-written o 0 0 (some x ∷ []), all) refl

-- An empty line makes `pstring_compress` lose the last character: of a text with an empty line at its
-- start that has no other line to remove, it keeps neither the empty line nor the last character.
-- Conditions: the character to remove is no newline, the text holds no nul, and the pstring's length
-- leaves the terminator out, as that of the document.
pub pstring_compress-loses :
    (w size : ℕ) (v : Text) (x : ℕ)
    → (10 == w) ≡ false
    → IsClean w (10 ∷ (v ++ x ∷ []))
    → NoNul (v ++ x ∷ [])
    → pstring_compress w (stored (10 ∷ 10 ∷ (v ++ x ∷ [])) size)
      ≡ ok (record {
        buf = some (written (10 ∷ v) (some 0 ∷ []));
        len = length v + 2;
        size = (length v + 2) * sizeof_wchar;
      })
unfolding pstring_compress compress_loop copy_one
pstring_compress-loses w size v x not_w h n =
    let u = v ++ x ∷ [] in
    let t = 10 ∷ 10 ∷ u in
    let reads = read_text-written t [] (omega arith, (omega arith, n)) in
    let len : suc (length v) + 1 ≡ length v + 2 = omega arith in
    let cells : overwrite (written t (some 0 ∷ [])) (10 ∷ u)
        ≡ some (written (10 ∷ u) (some 0 ∷ some 0 ∷ [])) =
      overwrite-enough (10 ∷ u) (map some t) (some 0 ∷ []) (omega (arith, length-map-some u)) in
    rw
      (
        reads,
        blank-start (suc (suc (length u))) w u not_w h,
        loop-clean w u (suc (suc (length u))) 1 h.2 (omega arith),
        cells,
        shrink-one (10 ∷ v) x 10 size,
        len,
      )
      refl
