-- ===== src/Program/Options/Whole.antt =====
-- A whole run of `main` of src/procenv.c, from the environment on.
use procenv.Prelude.{
  ℕ, ◌+◌, ◌≤◌, ◌≡◌, refl, ap, ◌∙◌, Option, none, some, List, [], ◌∷◌, ◌++◌, map, Bool, Bytes,
  int_max, ok, and_then, codes, All, arith,
}
use procenv.Pstring.{Decode, pstring_new}
use procenv.Output.{
  State, initial, json, ElementType, same, find_name, set_output_format, handle_indent_char,
}
use procenv.Output.Elements.Steps.{on, indentation, IsReady}
use procenv.Document.{Nodes, room_nodes, EncodesNodes}
use procenv.Document.Json.Whole.{json_document}
use procenv.Program.Tokens.{fields}
use procenv.Program.Environment.{ArgArray, given, check_envvars}
use procenv.Program.Environment.Exec.{exec_args_of_lem}
use procenv.Program.Main.{Display, display_options, find_display, World}
use procenv.Program.Main.Displays.{Displays}
use procenv.Program.Options.{letter, flags_of, run_main, main}
use procenv.Program.Options.Single.{run_main-json}

-- The variables that set something, but for the format and the command.
abbrev pub other_settings : List Bytes
other_settings =
    codes "PROCENV_OUTPUT"
    ∷ codes "PROCENV_FILE"
    ∷ codes "PROCENV_FILE_APPEND"
    ∷ codes "PROCENV_INDENT"
    ∷ codes "PROCENV_INDENT_CHAR"
    ∷ codes "PROCENV_SEPARATOR"
    ∷ codes "PROCENV_CRUMB_SEPARATOR"
    ∷ []

-- The globals of the output layer in front of the loop over the options.
abbrev pub json_start : State
json_start = record initial {
  doc = some pstring_new;
  output_format = json;
  wide_indent_char = b' ';
}

json_start-IsReady : IsReady json_start 2
json_start-IsReady = record { amount = refl; wide = omega arith }

-- The arguments of a command and the NULL behind them.
abbrev pub command_of : Bytes → ArgArray
command_of e = map some (fields 32 e) ++ none ∷ []

checked :
    (getenv : Bytes → Option Bytes) (e : Bytes) (s : State)
    → given getenv (codes "PROCENV_FORMAT") ≡ some (codes "json")
    → given getenv (codes "PROCENV_EXEC") ≡ some e
    → All (λ n. given getenv n ≡ none) other_settings
    → check_envvars getenv s ≡ ok (some (command_of e), record s { output_format = json })
unfolding check_envvars set_output_format find_name same
checked getenv e s f x (o, (file, (append, (ind, (ind_char, (sep, (crumb, u))))))) =
    rw (check_envvars, o, file, append, f, ind, ind_char, sep, crumb, x, exec_args_of_lem e) refl

-- A space is a wide character.
indent_read :
    (decode : Decode)
    → decode (b' ' ∷ []) ≡ some (b' ' ∷ [])
    → handle_indent_char decode (record initial { doc = some pstring_new; output_format = json })
      ≡ ok (tt, json_start)
unfolding handle_indent_char
indent_read decode space = rw (handle_indent_char, space) refl

module _ (decode : Decode) (iswprint : ℕ → Bool) (w : World) (getenv : Bytes → Option Bytes) where
  -- With $PROCENV_FORMAT set to "json", a command in $PROCENV_EXEC, none of the other settings in
  -- the environment, and one display option, `main` returns up to its output. The document is the
  -- one that `json_document` describes for the tree of the option, and the command that is run
  -- behind it is that of $PROCENV_EXEC, cut at every space, whatever arguments are left on the
  -- command line. Conditions: the option's tree is one of `Displays`, so that its queries of the
  -- system succeed and the platform's operations display trees; a space is converted to a space;
  -- every name and value can be converted and encoded; the deepest indentation fits `int`.
  pub main-json :
      (e : Bytes) (c : ℕ) (d : Display) (xs : Nodes) (rest : List Bytes)
      → given getenv (codes "PROCENV_FORMAT") ≡ some (codes "json")
      → given getenv (codes "PROCENV_EXEC") ≡ some e
      → All (λ n. given getenv n ≡ none) other_settings
      → decode (b' ' ∷ []) ≡ some (b' ' ∷ [])
      → find_display c display_options ≡ some d
      → Displays decode iswprint w d xs
      → EncodesNodes decode iswprint json xs
      → 2 + room_nodes 2 xs ≤ int_max
      → (l : ElementType) × (main decode iswprint w getenv (letter c ∷ []) rest initial
          ≡ ok (
            some (command_of e),
            on json_start
                (json_document decode iswprint (indentation json_start) 2 xs)
                0
                l
                ElementType.object_close,
          ))
  unfolding main
  main-json e c d xs rest f x o space found shows encodes room =
      let (l, r) =
        run_main-json decode iswprint w json_start 2 json_start-IsReady refl (λ h. omega (arith, h))
          c d xs rest (some (command_of e)) found shows encodes room in
      let s = record initial { doc = some pstring_new } in
      (
        l,
        rw (checked getenv e s f x o) (
            ap
              (λ o. and_then o λ _.
                run_main decode iswprint w (letter c ∷ []) rest (flags_of (some (command_of e))))
              (indent_read decode space)
            ∙ r),
      )
