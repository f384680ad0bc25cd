-- ===== src/Program/Options.antt =====
-- `main` of src/procenv.c: the loop over the options, and what follows it up to the output.
pub mod Order
pub mod Single
pub mod Whole
use procenv.Prelude.{
  ℕ, Option, none, some, List, [], ◌∷◌, ◌++◌, map, Bool, true, false, not, ◌&&◌, ◌||◌, ◌==◌,
  if◌then◌else◌, Bytes, ℤ, pos, negsuc, zero, suc, Outcome, ok, halt, undefined, died, Cmd, pure,
  stop, ◌>>=◌, ◌>>◌, codes,
}
use procenv.Pstring.{Decode, PString, pstring_new, pstring_chomp}
use procenv.Pstring.Compress.{pstring_compress}
use procenv.Output.{
  State, OutputFormat, text, crumb, json, xml, Output, file, same, common_assert, set_output_value,
  set_output_file, set_output_file_append, set_output_format, set_indent_amount, set_indent_char,
  set_text_separator, set_crumb_separator, reset_indent, handle_indent_char,
}
use procenv.Output.Elements.{lift}
use procenv.Output.Master.{master_header, master_footer}
use procenv.Program.Environment.{
  check_envvars, atoi, or_tab, modify, set_output_value_raw, ArgArray,
}
use procenv.Program.Main.{Display, display_options, find_display, World, show_display, dump}

-- What `getopt_long` returns: the letter of an option, or 0 with the name of a long option and its
-- argument.
pub data Event : Type 0 where
  letter : ℕ → Event
  long : Bytes → Bytes → Event

-- The variables of `main` and the globals `reexec` and `exec_args`.
pub record Flags : Type 0 where
  pub done : Bool
  pub reexec : Bool
  pub exec_args : Option ArgArray

-- The flags behind `check_envvars`, which sets `reexec` along with `exec_args`.
abbrev pub flags_of : Option ArgArray → Flags
flags_of none = record { done = false; reexec = false; exec_args = none }
flags_of (some args) = record { done = false; reexec = true; exec_args = some args }

abbrev is_positive : ℤ → Bool
is_positive (pos (suc n)) = true
is_positive _ = false

-- An indent amount that is not positive is fatal.
unfoldable pub set_indent_option : Bytes → Cmd State (Unit {0})
set_indent_option optarg = lift (atoi optarg) >>= λ n.
    modify (set_indent_amount n) >> (if is_positive n then pure tt else stop died)

module _ (decode : Decode) (iswprint : ℕ → Bool) (w : World) where
  -- The chain of `strcmp` for the long options without a letter, but for "exec".
  unfoldable pub set_long_option : Bytes → Bytes → Cmd State (Unit {0})
  set_long_option name optarg =
      if same (codes "output") name
      then set_output_value optarg
      else if same (codes "file") name
      then modify (set_output_value_raw file) >> modify (set_output_file (some optarg))
      else if same (codes "file-append") name
      then modify set_output_file_append
      else if same (codes "exec") name
      then pure tt
      else if same (codes "format") name
      then set_output_format optarg
      else if same (codes "indent") name
      then set_indent_option optarg
      else if same (codes "indent-char") name
      then modify (set_indent_char (some (or_tab optarg))) >> handle_indent_char decode
      else if same (codes "separator") name
      then modify (set_text_separator (or_tab optarg))
      else if same (codes "crumb-separator") name
      then modify (set_crumb_separator (some (or_tab optarg)))
      else pure tt

  abbrev pub apply_long : Bytes → Bytes → Cmd State (Unit {0})
  apply_long name optarg = set_long_option name optarg >> modify reset_indent

  -- `case 0`, with whether it comes too late: behind a display option only "exec" may stand.
  unfoldable pub handle_long_if : Bool → Bytes → Bytes → Flags → Cmd State Flags
  handle_long_if true name optarg f = stop died
  handle_long_if false name optarg f = apply_long name optarg >>= λ _.
      pure (record f { reexec = f.reexec || same (codes "exec") name })

  unfoldable pub handle_long : Bytes → Bytes → Flags → Cmd State Flags
  handle_long name optarg f =
      handle_long_if (f.done && not (same (codes "exec") name)) name optarg f

  unfoldable pub show_letter : Option Display → Cmd State (Unit {0})
  show_letter none = pure tt
  show_letter (some d) = show_display decode iswprint w d

  -- A letter: `master_header` in front of what it displays. '?' is fatal.
  abbrev pub display_letter : ℕ → Cmd State (Unit {0})
  display_letter c =
      master_header w.build_package
      >> (if c == b'?' then stop died else show_letter (find_display c display_options))

  unfoldable pub handle_letter : ℕ → Flags → Cmd State Flags
  handle_letter c f = display_letter c >>= λ _. pure (record f { done = true })

  unfoldable pub handle_event : Event → Flags → Cmd State Flags
  handle_event (letter c) f = handle_letter c f
  handle_event (long name optarg) f = handle_long name optarg f

  unfoldable pub options_loop : List Event → Flags → Cmd State Flags
  options_loop [] f = pure f
  options_loop (e ∷ es) f = handle_event e f >>= options_loop es

  -- A step on the document.
  unfoldable pub on_pstring : (PString → Outcome PString) → Cmd State (Unit {0})
  on_pstring g s = elim s.doc [
    | none ↦ halt undefined
    | some d ↦ (lift (g d) >>= λ d'. modify λ t. record t { doc = some d' }) s
  ]

  abbrev pub chomp_doc : Cmd State (Unit {0})
  chomp_doc s = on_pstring (pstring_chomp s.wide_indent_char) s

  abbrev pub compress_doc : Cmd State (Unit {0})
  compress_doc s = on_pstring (pstring_compress s.wide_indent_char) s

  abbrev pub compress_in : OutputFormat → Cmd State (Unit {0})
  compress_in xml = pure tt
  compress_in json = pure tt
  compress_in _ = compress_doc

  -- `if (done)` behind the loop.
  unfoldable pub finish_done : Cmd State (Unit {0})
  finish_done =
      common_assert
      >> master_footer w.build_package
      >> chomp_doc
      >> (λ s. compress_in s.output_format s)

  -- The arguments that are left, from `argv[optind]` on, and the checks for `--exec`. What $PROCENV_EXEC
  -- has set stays.
  unfoldable pub exec_command : Flags → List Bytes → Cmd State (Option ArgArray)
  exec_command f rest = elim f.reexec [
    | false ↦ pure none
    | true ↦ elim f.exec_args [
      | some args ↦ pure (some args)
      | none ↦ elim rest [
        | [] ↦ stop died
        | a ∷ as' ↦ pure (some (some a ∷ (map some as' ++ none ∷ [])))
      ]
    ]
  ]

  -- From the loop to `_show_output_pstring`: the document, and the command to run at the end. `output_init`
  -- only opens the system log.
  unfoldable pub run_main : List Event → List Bytes → Flags → Cmd State (Option ArgArray)
  run_main events rest f = options_loop events f >>= λ f'.
      (if f'.done then finish_done else pure tt)
      >> (exec_command f' rest >>= λ command.
          (if f'.done then pure tt else dump decode iswprint w >> chomp_doc >> compress_doc)
          >> pure command)

  -- What `init` does to the globals of the output layer.
  abbrev pub init : Cmd State (Unit {0})
  init = handle_indent_char decode

  -- `main` up to its output, with the document made.
  unfoldable pub main :
      (Bytes → Option Bytes) → List Event → List Bytes → Cmd State (Option ArgArray)
  main getenv events rest =
      modify (λ s. record s { doc = some pstring_new })
      >> (check_envvars getenv >>= λ args. init >> run_main events rest (flags_of args))
