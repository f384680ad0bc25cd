-- ===== src/Prelude/Run.antt =====
-- What a run of the program's code comes to, and commands that carry a state.
use mathlib.Core.Bool.{Bool, true, false}

-- Why a run does not return to its caller.
pub data Halt : Type 0 where
  -- `assert` found its condition false
  assertion : Halt
  -- `die` of a branch marked by `assert_not_reached`
  not_reached : Halt
  -- `die` or `bug` for any other reason
  died : Halt
  -- `exit` after a failed write or open
  io_error : Halt
  -- the C standard gives the step no meaning
  undefined : Halt
  -- a loop that never ends
  endless : Halt

pub data Outcome {ℓ} (A : Type ℓ) : Type ℓ where
  ok : A → Outcome A
  halt : Halt → Outcome A

abbrev pub Cmd : Type 0 → Type 0 → Type 0
Cmd S A = S → Outcome (A × S)

abbrev pub pure : {S A : Type 0} → A → Cmd S A
pure a s = ok (a, s)

abbrev pub stop : {S A : Type 0} → Halt → Cmd S A
stop why s = halt why

abbrev pub and_then : {S A B : Type 0} → Outcome (A × S) → (A → Cmd S B) → Outcome (B × S)
and_then (ok (a, s)) k = k a s
and_then (halt why) k = halt why

infixl 5 ◌>>=◌ ◌>>◌
abbrev pub ◌>>=◌ : {S A B : Type 0} → Cmd S A → (A → Cmd S B) → Cmd S B
m >>= k = λ s. and_then (m s) k

abbrev pub ◌>>◌ : {S A B : Type 0} → Cmd S A → Cmd S B → Cmd S B
m >> n = m >>= λ _. n

-- `assert (b)`
abbrev pub assert : {S : Type 0} → Bool → Cmd S (Unit {0})
assert true s = ok (tt, s)
assert false s = halt assertion
