-- ===== src/Program/Fails.antt =====
-- Commands that do not return, whatever the state they start in.
use procenv.Prelude.{◌≡◌, ◌≢◌, refl, Halt, Outcome, ok, halt, Cmd, and_then, ◌>>=◌}
use procenv.Output.{State}
use procenv.Output.Elements.{lift}

pub record Fails {A : Type 0} (c : Cmd State A) : Type 0 where
  pub no_result : (s t : State) (a : A) → c s ≢ ok (a, t)

pub Fails-bind : {A B : Type 0} (c : Cmd State A) (k : A → Cmd State B) → Fails c → Fails (c >>= k)
Fails-bind {A} {B} c k h = record { no_result = λ s t b. go (c s) (h.no_result s) t b }
  where
    go :
        (o : Outcome (A × State))
        → ((u : State) (a : A) → o ≢ ok (a, u))
        → (t : State) (b : B) → and_then o k ≢ ok (b, t)
    go (ok (a, u)) h t b e = h u a (cc)
    go (halt why) h t b e = cc

pub Fails-halt : {A : Type 0} (o : Outcome A) (why : Halt) → o ≡ halt why → Fails (lift o)
Fails-halt o why h = record { no_result = λ s t a. rw h (λ e. cc) }

-- A command that does not return from any result of the one in front of it.
pub Fails-behind :
    {A B : Type 0} (c : Cmd State A) (k : A → Cmd State B)
    → ((s t : State) (a : A) → c s ≡ ok (a, t) → Fails (k a))
    → Fails (c >>= k)
Fails-behind {A} {B} c k h = record { no_result = λ s t b. go (c s) (h s) t b }
  where
    go :
        (o : Outcome (A × State))
        → ((u : State) (a : A) → o ≡ ok (a, u) → Fails (k a))
        → (t : State) (b : B) → and_then o k ≢ ok (b, t)
    go (ok (a, u)) h t b e = (h u a refl).no_result u t b e
    go (halt why) h t b e = cc

-- The result of a command that ends by returning a value.
pub result_of :
    {A B : Type 0} (c : Cmd State A) (v : B) (s t : State) (b : B)
    → (c >>= λ _ u. ok (v, u)) s ≡ ok (b, t)
    → b ≡ v
result_of {A} c v s t b h = go (c s) h
  where
    go : (o : Outcome (A × State)) → and_then o (λ _ u. ok (v, u)) ≡ ok (b, t) → b ≡ v
    go (ok (a, u)) e = cc
    go (halt why) e = cc
