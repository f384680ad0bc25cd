-- ===== src/Program/Show/Signals.antt =====
-- `show_signals` and `get_signal_name` of src/procenv.c.
pub mod Runs
use procenv.Prelude.{
  ℕ, zero, suc, ◌+◌, Option, none, some, List, [], ◌∷◌, length, Bool, true, false, ◌==◌,
  if◌then◌else◌, Bytes, ℤ, pos, negsuc, is_negative, died, Cmd, pure, stop, ◌>>=◌, ◌>>◌, codes,
  assertion, assert, Outcome,
}
use procenv.Pstring.{Decode}
use procenv.Printf.{str, int}
use procenv.Output.{State}
use procenv.Output.Elements.{
  section_open, section_close, container_open, container_close, object_open, object_close, lift,
}
use procenv.Program.{entryf, yes_or_no, or_unknown}
use procenv.Program.Show.{Map, Ops}

-- The signal state of the process: what `sigismember` returns, whether a signal that `sigaction` knows is ignored, and `strsignal`.
pub record SignalState : Type 0 where
  pub sigismember : ℕ → ℤ
  pub sigaction : ℕ → Option Bool
  pub strsignal : ℕ → Option Bytes

unfoldable pub find_number : ℕ → Map → Option Bytes
find_number n [] = none
find_number n ((name, num) ∷ m) = let rest = find_number n m in if n == num then some name else rest

-- `assert (signum)` holds for the signals that are asked for.
unfoldable pub get_signal_name : Map → ℕ → Option Bytes
get_signal_name signal_map signum = find_number signum signal_map

abbrev pub is_blocked : ℤ → Bool
is_blocked (pos zero) = false
is_blocked _ = true

-- The signals that are displayed, with whether they are ignored, and their names.
abbrev pub described : Map → SignalState → ℕ → Option (Bool × Bytes)
described signal_map st i = elim (st.sigaction i) [
  | none ↦ none
  | some ignored ↦ elim (is_negative (st.sigismember i)) [
    | true ↦ none
    | false ↦ elim (get_signal_name signal_map i) [ none ↦ none | some name ↦ some (ignored, name) ]
  ]
]

module _ (decode : Decode) (iswprint : ℕ → Bool) where
  -- What the body of the loop displays.
  unfoldable pub show_signal : SignalState → ℕ → Bool → Bytes → Cmd State (Unit {0})
  show_signal st i ignored name =
      section_open decode iswprint name
      >> (do
        entryf decode iswprint (codes "number") (codes "%d") (int (pos i) ∷ [])
        entryf decode iswprint (codes "description") (codes "'%s'")
            (str (or_unknown (st.strsignal i)) ∷ [])
        entryf decode iswprint (codes "blocked") (codes "%s")
            (str (yes_or_no (is_blocked (st.sigismember i))) ∷ [])
        entryf decode iswprint (codes "ignored") (codes "%s") (str (yes_or_no ignored) ∷ []))
      >> section_close

  -- The loop from signal `i` on, `rounds` times. `continue` is the rest alone.
  unfoldable pub show_signal_loop : Map → SignalState → ℕ → ℕ → Cmd State (Unit {0})
  show_signal_loop signal_map st zero i = pure tt
  show_signal_loop signal_map st (suc rounds) i = elim (described signal_map st i) [
    | none ↦ show_signal_loop signal_map st rounds (suc i)
    | some (ignored, name) ↦
        object_open false
        >> show_signal st i ignored name
        >> object_close false
        >> show_signal_loop signal_map st rounds (suc i)
  ]

  -- Whether `sigprocmask` succeeds is an argument.
  -- `max` is 1 and the number of entries of the map; the loop is `for (i = 1; i < max; i++)`.
  unfoldable pub show_signals : Ops → Bool → SignalState → Cmd State (Unit {0})
  show_signals ops queried st =
      container_open decode iswprint (codes "signals")
      >> (if queried
          then show_signal_loop ops.signal_map st (length ops.signal_map) 1
          else stop died)
      >> container_close
