-- ===== src/StringUtil/ByteStrings.antt =====
-- `appendf` of src/string-util.c on byte strings.
use procenv.Prelude.{
  ℕ, zero, suc, ◌+◌, ◌<◌, ◌≡◌, refl, none, some, length, Bytes, arith, ok, ltb, Bool-cases, inl,
  inr, false, ◌==◌, [], ◌++◌, append-nil, take_all,
}
use procenv.StringUtil.{
  default_alloc_guess_size, appendva_loop, appendva, appendva_finish, appendf, append, appendn,
}

loop_ends :
    (fuel : ℕ) (t : Bytes) (len : ℕ)
    → length t < fuel + len
    → (n : ℕ) × (appendva_loop (suc fuel) (some t) len ≡ ok n)
unfolding appendva_loop
loop_ends zero t len h = (len, ground arith)
loop_ends (suc fuel) t len h = elim (Bool-cases (ltb (length t) len)) [
  | inl e ↦ (len, rw e refl)
  | inr e ↦ rw e (loop_ends fuel t (len + 1) (omega arith))
]

-- `appendf` to a NULL string makes one of the whole expansion.
pub appendf-none : (t : Bytes) → appendf none (some t) ≡ ok (some t)
unfolding appendf appendva appendva_finish
appendf-none t =
    let (n, runs) = loop_ends (suc (length t)) t default_alloc_guess_size (omega arith) in
    rw runs refl

-- `appendf` to a string adds the whole expansion at its end.
pub appendf-some : (d t : Bytes) → appendf (some d) (some t) ≡ ok (some (d ++ t))
unfolding appendf appendva appendva_finish append appendn
appendf-some d t =
    let (n, runs) = loop_ends (suc (length t)) t default_alloc_guess_size (omega arith) in
    elim (Bool-cases (length t == 0)) [
      | inl e ↦ let nothing : t ≡ [] = ground arith in rw (runs, e, nothing, append-nil) refl
      | inr e ↦
          let fits : ltb (length t) (length t) ≡ false = ground arith in
          rw (runs, e, fits, take_all (length t) t (omega arith)) refl
    ]
