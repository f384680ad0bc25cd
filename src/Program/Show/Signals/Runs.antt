-- ===== src/Program/Show/Signals/Runs.antt =====
-- The document that `show_signals` displays.
use procenv.Prelude.{
  ℕ, zero, suc, ◌≡◌, refl, Option, none, some, [], ◌∷◌, length, Bool, true, Bytes, pos, codes, ◌⊎◌,
  inl, inr,
}
use procenv.Pstring.{Decode}
use procenv.Printf.{str, int}
use procenv.Document.{Node, Objects, section, container, nil, cons, end, object}
use procenv.Program.{yes_or_no, or_unknown}
use procenv.Program.Emits.{
  Emits, EmitsObjects, nodes, ◌then◌, EmitsObjects-pure, Emits-entryf, Emits-section,
  Emits-container, EmitsObjects-object,
}
use procenv.Program.Show.{Map, Ops}
use procenv.Program.Show.Signals.{
  SignalState, described, is_blocked, show_signal, show_signal_loop, show_signals,
}
use procenv.Program.Show.Meta.Runs.{field, string_field}

abbrev pub signal_node : Decode → SignalState → ℕ → Bool → Bytes → Node
signal_node decode st i ignored name = section name (
    nodes (
      field decode (codes "number") (codes "%d") (int (pos i) ∷ [])
      ∷ field decode (codes "description") (codes "'%s'") (str (or_unknown (st.strsignal i)) ∷ [])
      ∷ string_field decode (codes "blocked") (yes_or_no (is_blocked (st.sigismember i)))
      ∷ string_field decode (codes "ignored") (yes_or_no ignored)
      ∷ []))

-- An object for each of `n` signals from `i` on that has a name and that the system knows.
abbrev pub signal_objects : Decode → Map → SignalState → ℕ → ℕ → Objects
signal_objects decode m st zero i = end
signal_objects decode m st (suc n) i = elim (described m st i) [
  | none ↦ signal_objects decode m st n (suc i)
  | some (ignored, name) ↦
      object (cons (signal_node decode st i ignored name) nil)
        (signal_objects decode m st n (suc i))
]

described-cases : (o : Option (Bool × Bytes)) → (o ≡ none) ⊎ ((p : Bool × Bytes) × (o ≡ some p))
described-cases none = inl refl
described-cases (some p) = inr (p, refl)

module _ (decode : Decode) (iswprint : ℕ → Bool) (m : Map) (st : SignalState) where
  show_signal-Emits :
      (i : ℕ) (ignored : Bool) (name : Bytes)
      → Emits decode iswprint
          (show_signal decode iswprint st i ignored name)
          (cons (signal_node decode st i ignored name) nil)
  unfolding show_signal
  show_signal-Emits i ignored name =
      let entry = Emits-entryf decode iswprint in
      Emits-section decode iswprint name
        (entry _ _ _ refl then entry _ _ _ refl then entry _ _ _ refl then entry _ _ _ refl)

  pub show_signal_loop-Emits :
      (n i : ℕ)
      → EmitsObjects decode iswprint
          (show_signal_loop decode iswprint m st n i)
          (signal_objects decode m st n i)
  unfolding show_signal_loop
  show_signal_loop-Emits zero i = EmitsObjects-pure decode iswprint
  show_signal_loop-Emits (suc n) i = elim (described-cases (described m st i)) [
    | inl e ↦ rw (show_signal_loop, signal_objects, e) (show_signal_loop-Emits n (suc i))
    | inr (p, e) ↦
        rw (show_signal_loop, signal_objects, e)
          (EmitsObjects-object decode iswprint (show_signal-Emits i p.0 p.1)
            (show_signal_loop-Emits n (suc i)))
  ]

pub show_signals-Emits :
    (decode : Decode) (iswprint : ℕ → Bool) (ops : Ops) (st : SignalState)
    → Emits decode iswprint (show_signals decode iswprint ops true st) (
        cons
          (container
            (codes "signals")
            (signal_objects decode ops.signal_map st (length ops.signal_map) 1))
          nil)
unfolding show_signals
show_signals-Emits decode iswprint ops st =
    Emits-container decode iswprint (codes "signals")
      (show_signal_loop-Emits decode iswprint ops.signal_map st (length ops.signal_map) 1)
