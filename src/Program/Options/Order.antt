-- ===== src/Program/Options/Order.antt =====
-- The order of the options.
use procenv.Prelude.{
  ℕ, ◌≡◌, refl, ap, List, [], ◌∷◌, ◌++◌, Bool, true, false, ◌&&◌, not, ◌||◌, Bytes, ok, halt, died,
  codes, ◌∙◌,
}
use procenv.Pstring.{Decode}
use procenv.Output.{State, same}
use procenv.Program.Fails.{Fails, Fails-bind, Fails-behind, Fails-halt, result_of}
use procenv.Program.Main.{World}
use procenv.Program.Options.{
  Event, letter, long, Flags, apply_long, display_letter, handle_long_if, handle_long,
  handle_letter, handle_event, options_loop,
}

module _ (decode : Decode) (iswprint : ℕ → Bool) (w : World) where
  long-done :
      (b : Bool) (name arg : Bytes) (f f' : Flags) (s t : State)
      → handle_long_if decode iswprint w b name arg f s ≡ ok (f', t)
      → f'.done ≡ f.done
  unfolding handle_long_if
  long-done true name arg f f' s t e = cc
  long-done false name arg f f' s t e =
      let g = record f { reexec = f.reexec || same (codes "exec") name } in
      ap (λ (g : Flags). g.done) (result_of (apply_long decode iswprint w name arg) g s t f' e)

  -- `done` is never reset.
  stays_done :
      (e : Event) (f f' : Flags) (s t : State)
      → f.done ≡ true
      → handle_event decode iswprint w e f s ≡ ok (f', t)
      → f'.done ≡ true
  unfolding handle_event handle_letter handle_long
  stays_done (letter c) f f' s t h e =
      ap (λ (g : Flags). g.done)
        (result_of (display_letter decode iswprint w c) (record f { done = true }) s t f' e)
  stays_done (long name arg) f f' s t h e =
      long-done (f.done && not (same (codes "exec") name)) name arg f f' s t e ∙ h

  too_late :
      (between : List Event) (name arg : Bytes) (behind : List Event) (f : Flags)
      → f.done ≡ true
      → same (codes "exec") name ≡ false
      → Fails (options_loop decode iswprint w (between ++ long name arg ∷ behind) f)
  unfolding options_loop handle_event handle_long handle_long_if
  too_late [] name arg behind f d h =
      let late : (f.done && not (same (codes "exec") name)) ≡ true = rw (d, h) refl in
      let stops : Fails (handle_long decode iswprint w name arg f) =
        rw (handle_long, late) (Fails-halt (halt died) died refl) in
      Fails-bind (handle_event decode iswprint w (long name arg) f)
        (options_loop decode iswprint w behind) stops
  too_late (e ∷ between) name arg behind f d h =
      Fails-behind (handle_event decode iswprint w e f)
        (options_loop decode iswprint w (between ++ long name arg ∷ behind))
        λ s t f' r. too_late between name arg behind f' (stays_done e f f' s t d r) h

  -- `main` stops at a long option that sets something, such as "--format", once a display option has
  -- been seen, whatever stands between the two and behind: it never comes to its output. Condition:
  -- the option is not "--exec".
  pub late_option-Fails :
      (c : ℕ) (between : List Event) (name arg : Bytes) (behind : List Event) (f : Flags)
      → same (codes "exec") name ≡ false
      → Fails (options_loop decode iswprint w (letter c ∷ (between ++ long name arg ∷ behind)) f)
  unfolding options_loop handle_event handle_letter
  late_option-Fails c between name arg behind f h =
      Fails-behind (handle_event decode iswprint w (letter c) f)
        (options_loop decode iswprint w (between ++ long name arg ∷ behind))
        λ s t f' r.
          too_late between name arg behind f'
            (ap (λ (g : Flags). g.done)
              (result_of (display_letter decode iswprint w c) (record f { done = true }) s t f' r))
            h
