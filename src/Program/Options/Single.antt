-- ===== src/Program/Options/Single.antt =====
-- A run with one display option.
use procenv.Prelude.{
  Option, ℕ, ◌+◌, ◌*◌, length, ◌≤◌, ◌≡◌, ◌≢◌, refl, ap, ◌∙◌, none, some, List, [], ◌∷◌, ◌++◌, Bool,
  true, false, ◌==◌, if◌then◌else◌, Bytes, Text, int_max, Outcome, ok, halt, pure, and_then, ◌>>=◌,
  ◌>>◌, arith, Bool-cases, inl, inr,
}
use procenv.Pstring.{Decode, pstring_chomp, sizeof_wchar}
use procenv.Pstring.Chomp.{stored, is_removable, chomp-keeps}
use procenv.Output.{State, json, ElementType, common_assert}
use procenv.Output.Elements.{lift}
use procenv.Output.Elements.Steps.{on, indentation, IsReady}
use procenv.Output.Master.{master_header, master_footer, master_footer_in}
use procenv.Document.{Nodes, room_nodes, emit_nodes, EncodesNodes}
use procenv.Document.Json.{json_body}
use procenv.Document.Json.Whole.{json_document, json_document-run}
use procenv.Program.Emits.{and_then-cong, assert_twice}
use procenv.Program.Environment.{ArgArray, modify}
use procenv.Program.Main.{Display, display_options, find_display, World, show_display, dump}
use procenv.Program.Main.Displays.{Displays}
use procenv.Program.Main.Runs.{show_display-Emits}
use procenv.Program.Options.{
  letter, flags_of, display_letter, show_letter, handle_letter, handle_event, options_loop,
  on_pstring, chomp_doc, compress_doc, finish_done, exec_command, run_main,
}

-- No display option is '?'.
not_invalid : (c : ℕ) (d : Display) → find_display c display_options ≡ some d → (c == b'?') ≡ false
unfolding find_display
not_invalid c d h = elim (Bool-cases (c == b'?')) [
  | inl e ↦
      let c_is : c ≡ b'?' = ground arith in
      let none_is : find_display b'?' display_options ≡ some d = rw c_is at h in
      absurd (ground (arith, none_is))
  | inr e ↦ e
]

module _ (decode : Decode) (iswprint : ℕ → Bool) (w : World) (s : State) (a : ℕ)
    (ready : IsReady s a) (is_json : s.output_format ≡ json)
    (wide : s.wide_indent_char ≢ b'}') where
  -- The document of a JSON run ends in a brace and a newline, and stays as it is.
  chomp-json :
      (t : Text) (n : ℕ) (l c : ElementType)
      → chomp_doc decode iswprint w (on s (b'{' ∷ (t ++ b'}' ∷ b'\n' ∷ [])) n l c)
        ≡ ok (tt, on s (b'{' ∷ (t ++ b'}' ∷ b'\n' ∷ [])) n l c)
  unfolding on_pstring
  chomp-json t n l c =
      let u = b'{' ∷ t in
      let size = (1 + length (u ++ b'}' ∷ b'\n' ∷ [])) * sizeof_wchar in
      let stop : is_removable s.wide_indent_char b'}' ≡ false = ground arith in
      let kept : pstring_chomp s.wide_indent_char (stored (u ++ b'}' ∷ b'\n' ∷ []) size)
          ≡ ok (stored (u ++ b'}' ∷ b'\n' ∷ []) size) =
        chomp-keeps s.wide_indent_char u b'}' stop size (b'\n' ∷ []) (refl, tt) (omega arith) in
      ap
        (λ o.
          and_then (lift o (on s (u ++ b'}' ∷ b'\n' ∷ []) n l c))
            λ d'. modify λ t. record t { doc = some d' })
        kept

  footed :
      (u t : State)
      → master_footer w.build_package u ≡ ok (tt, t)
      → (common_assert >> master_footer w.build_package) u ≡ ok (tt, t)
  unfolding master_footer
  footed u t h = assert_twice (λ s. master_footer_in w.build_package s.output_format s) u ∙ h

  -- What follows the loop, where `master_footer` ends a document that is kept.
  ends :
      (o : Outcome (Unit {0} × State)) (t : State) (rest : List Bytes) (args : Option ArgArray)
      → and_then o (λ _. master_footer w.build_package) ≡ ok (tt, t)
      → t.output_format ≡ json
      → chomp_doc decode iswprint w t ≡ ok (tt, t)
      → and_then
          (and_then (and_then o (λ _. pure (record (flags_of args) { done = true }))) (λ f. pure f))
          (λ f.
            (if f.done then finish_done decode iswprint w else pure tt)
            >> (exec_command decode iswprint w f rest >>= λ command.
                (if f.done
                  then pure tt
                  else dump decode iswprint w
                    >> chomp_doc decode iswprint w
                    >> compress_doc decode iswprint w)
                >> pure command))
        ≡ ok (args, t)
  unfolding finish_done exec_command master_footer
  ends (halt why) t rest args h j k = absurd (cc)
  ends (ok (tt, u)) t rest none h j k = rw (footed u t h, k, j) refl
  ends (ok (tt, u)) t rest (some args) h j k = rw (footed u t h, k, j) refl

  -- What the letter's option writes behind the header.
  letter-run :
      (c : ℕ) (d : Display) (xs : Nodes) (t : State)
      → find_display c display_options ≡ some d
      → Displays decode iswprint w d xs
      → display_letter decode iswprint w c t
        ≡ (master_header w.build_package >> emit_nodes decode iswprint xs) t
  unfolding show_letter
  letter-run c d xs t found shows =
      let valid = not_invalid c d found in
      let written = show_display-Emits decode iswprint w shows in
      rw (valid, found)
        (and_then-cong (master_header w.build_package t) (λ _. show_display decode iswprint w d)
          (λ _. emit_nodes decode iswprint xs) λ _ u. written.run u)

  -- With JSON output and one display option, `main` returns up to its output, the command to
  -- run is the one that $PROCENV_EXEC has set, and none without it, and the document it outputs is the one that `json_document` describes for the tree of the
  -- option: a header brace, the tree, a closing brace and a newline, which `pstring_chomp` keeps.
  -- Conditions: the option's tree is one of `Displays`, so that its queries of the system succeed
  -- and the platform's operations display trees; every name and value can be converted and encoded;
  -- the indent amount is not negative and the deepest indentation fits `int`; the wide indent
  -- character is neither nul nor a closing brace; nothing has been written before.
  pub run_main-json :
      (c : ℕ) (d : Display) (xs : Nodes) (rest : List Bytes) (args : Option ArgArray)
      → find_display c display_options ≡ some d
      → Displays decode iswprint w d xs
      → EncodesNodes decode iswprint json xs
      → a + room_nodes a xs ≤ int_max
      → (l : ElementType) × (run_main decode iswprint w
            (letter c ∷ [])
            rest
            (flags_of args)
            (on s [] 0 ElementType.no_element ElementType.no_element)
          ≡ ok (
            args,
            on s (json_document decode iswprint (indentation s) a xs) 0 l ElementType.object_close,
          ))
  unfolding run_main options_loop handle_event handle_letter
  run_main-json c d xs rest args found shows encodes room =
      let start = on s [] 0 ElementType.no_element ElementType.no_element in
      let (l, e) =
        json_document-run decode iswprint w.build_package s a ready is_json xs encodes room in
      let end =
        on s (json_document decode iswprint (indentation s) a xs) 0 l ElementType.object_close in
      let kept =
        chomp-json (json_body decode iswprint (indentation s) a 0 xs) 0 l
          ElementType.object_close in
      (
        l,
        rw (letter-run c d xs start found shows) (
            ends ((master_header w.build_package >> emit_nodes decode iswprint xs) start) end rest
              args e is_json kept),
      )
