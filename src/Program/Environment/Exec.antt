-- ===== src/Program/Environment/Exec.antt =====
-- The argument array that `check_envvars` builds from $PROCENV_EXEC.
use procenv.Prelude.{
  ℕ, zero, suc, ◌+◌, ◌<◌, ◌≡◌, ◌≢◌, refl, ap, sym, ◌∙◌, inl, inr, Option-cases, Option, none, some,
  List, [], ◌∷◌, ◌++◌, append_assoc, map, length, length-append, replicate, Bytes, All, Outcome, ok,
  arith,
}
use procenv.Program.Tokens.{
  strsep, fields, more_fields, join, fields-strsep, strsep-shorter, join-fields, fields-free,
}
use procenv.Program.Environment.{ArgArray, set_arg, count_fields, fill_args, exec_args_of}

count_lem :
    (fuel : ℕ) (s : Bytes) (k : ℕ)
    → length s < fuel
    → count_fields fuel (some s) k ≡ ok (k + length (more_fields 32 (strsep 32 s).1))
unfolding count_fields
count_lem zero s k h = absurd (omega arith)
count_lem (suc fuel) [] k h = unfold strsep in ap ok (omega arith)
count_lem (suc fuel) (c ∷ t) k h = elim (Option-cases (strsep 32 (c ∷ t)).1) [
  | inl e ↦ rw (count_fields, e) (ap ok (omega arith))
  | inr (r, e) ↦
      let shorter = strsep-shorter 32 (c ∷ t) r e in
      let sum : k + 1 + length (more_fields 32 (strsep 32 r).1) ≡ k + length (fields 32 r) =
        omega (arith, ap length (fields-strsep 32 r)) in
      rw (count_fields, e) (count_lem fuel r (k + 1) (omega arith) ∙ ap ok sum)
]

set_arg-append :
    (pre : ArgArray) (a : Bytes) (x : Option Bytes) (rest : ArgArray)
    → set_arg (length pre) a (pre ++ x ∷ rest) ≡ some (pre ++ some a ∷ rest)
set_arg-append [] a x rest = refl
set_arg-append (y ∷ pre) a x rest = rw (set_arg-append pre a x rest) refl

-- Room for the tokens of what is left.
abbrev tokens : Option Bytes → List Bytes
tokens = more_fields 32

abbrev Enough : ℕ → Option Bytes → Type 0
Enough fuel none = 0 < fuel
Enough fuel (some s) = length s + 1 < fuel

Enough-rest : (fuel : ℕ) (s : Bytes) → length s + 1 < suc fuel → Enough fuel (strsep 32 s).1
Enough-rest fuel s h = elim (Option-cases (strsep 32 s).1) [
  | inl e ↦ rw e (omega arith)
  | inr (r, e) ↦ rw e (omega (arith, strsep-shorter 32 s r e))
]

fill_lem :
    (fuel : ℕ) (tmp : Option Bytes) (pre rest : ArgArray)
    → Enough fuel tmp
    → fill_args fuel tmp (length pre) (pre ++ (replicate (length (tokens tmp)) none ++ rest))
      ≡ ok (pre ++ (map some (tokens tmp) ++ rest))
unfolding fill_args
fill_lem zero none pre rest h = absurd (omega arith)
fill_lem zero (some s) pre rest h = absurd (omega arith)
fill_lem (suc fuel) none pre rest h = refl
fill_lem (suc fuel) (some s) pre rest h =
    let f = (strsep 32 s).0 in
    let more = tokens (strsep 32 s).1 in
    let regroup : (xs : ArgArray) → pre ++ some f ∷ xs ≡ (pre ++ some f ∷ []) ++ xs =
      λ xs. sym (append_assoc pre (some f ∷ []) xs) in
    let len : length pre + 1 ≡ length (pre ++ some f ∷ []) =
      sym (length-append pre (some f ∷ [])) in
    rw
      (
        fields-strsep 32 s,
        set_arg-append pre f none (replicate (length more) none ++ rest),
        len,
        regroup (replicate (length more) none ++ rest),
        fill_lem fuel (strsep 32 s).1 (pre ++ some f ∷ []) rest (Enough-rest fuel s h),
        regroup (map some more ++ rest),
      )
      refl

replicate-end :
    (n : ℕ) → replicate (suc n) none ≡ replicate n none ++ (let x : ArgArray = none ∷ [] in x)
replicate-end zero = refl
replicate-end (suc n) = ap (◌∷◌ none) (replicate-end n)

-- The fields of the command between single spaces, and the NULL behind them.
pub exec_args_of_lem : (e : Bytes) → exec_args_of e ≡ ok (map some (fields 32 e) ++ none ∷ [])
unfolding exec_args_of
exec_args_of_lem e =
    let more = length (more_fields 32 (strsep 32 e).1) in
    let n : 1 + more + 1 ≡ suc (length (fields 32 e)) =
      omega (arith, ap length (fields-strsep 32 e)) in
    rw (count_lem (suc (suc (length e))) e 1 (omega arith), n, replicate-end (length (fields 32 e)))
      (fill_lem (suc (suc (length e))) (some e) [] (none ∷ []) (omega arith))

-- An argument array for a command: the fields of the command between spaces, which contain no
-- space and joined by spaces are the command again, then the NULL that ends the array.
pub record Splits (e : Bytes) (r : Outcome ArgArray) : Type 0 where
  pub args : List Bytes
  pub built : r ≡ ok (map some args ++ none ∷ [])
  pub joined : join 32 args ≡ e
  pub free : All (All (λ c. c ≢ 32)) args

-- For every command in $PROCENV_EXEC, both loops end, no write is outside of the array that
-- `check_envvars` allocates, and the array is exactly the arguments between the single spaces of the
-- command, in order, with the NULL that `execvp` expects behind them. Joined by spaces they are the
-- command again.
pub exec_args_of-Splits : (e : Bytes) → Splits e (exec_args_of e)
exec_args_of-Splits e = record {
  args = fields 32 e;
  built = exec_args_of_lem e;
  joined = join-fields 32 e;
  free = fields-free 32 e;
}
