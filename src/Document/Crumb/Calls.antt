-- ===== src/Document/Crumb/Calls.antt =====
-- The calls of src/output.c in breadcrumb output, one at a time.
use procenv.Prelude.{
  ℕ, Bool, false, ◌≡◌, refl, ap, ◌∙◌, some, List, [], ◌∷◌, ◌++◌, append-nil, append_assoc,
  drop_last, All, Bytes, Text, ok,
}
use procenv.Pstring.{Decode}
use procenv.StringUtil.{Expansion}
use procenv.Output.{State, crumb, ElementType, putf}
use procenv.Output.TextTable.{newline}
use procenv.Output.Crumbs.{add_breadcrumb, remove_breadcrumb}
use procenv.Output.Elements.{
  name_text, value_text, format_element, format_element_in, change_element, change_object_in,
  put_json_in, section_open, section_close, container_open, container_close, object_open,
  object_close, entry, put_entry, put_entry_crumb, separated, both, put_crumbs, put_section_open,
  put_section_close, put_container_open, put_container_close,
}
use procenv.Output.Elements.Steps.{on, IsReady, common_assert-on, putf-on}
use procenv.Document.{leaf, or_nil, IsText, Encodes}
use procenv.Document.Crumb.{decoded, IsDecoded, crumbs_text, crumb_node}

module _ (decode : Decode) (iswprint : ℕ → Bool) where
  module _ (s : State) (a : ℕ) (ready : IsReady s a) (is_crumb : s.output_format ≡ crumb)
      (sep m : Text) (crumb_sep : decode s.crumb_separator ≡ some sep)
      (text_sep : decode s.text_separator ≡ some m) where
    -- The state with the names `p`.
    abbrev pub within : List Bytes → State
    within p = record s { crumb_list = some p }

    pub within-IsReady : (p : List Bytes) → IsReady (within p) a
    within-IsReady p = record { amount = ready.amount; wide = ready.wide }

    module _ (p : List Bytes) (t : Text) (n : ℕ) (l c : ElementType) where
      change-run :
          (el : ElementType)
          → change_element el (on (within p) t n l c) ≡ ok (tt, on (within p) t n c el)
      unfolding change_element format_element format_element_in
      change-run el =
          rw (common_assert-on (within p) a (within-IsReady p) t n l c)
            (ap (λ f. format_element_in f (on (within p) t n c el)) is_crumb)

      pub object_open-run :
          object_open false (on (within p) t n l c) ≡ ok (tt, on (within p) t n l c)
      unfolding object_open change_object_in put_json_in
      object_open-run =
          rw
            (
              common_assert-on (within p) a (within-IsReady p) t n l c,
              ap (λ g. change_object_in g false ElementType.object_open (on (within p) t n l c))
                  is_crumb,
            )
            (ap (λ g. put_json_in g (b'{' ∷ []) (on (within p) t n l c)) is_crumb)

      pub object_close-run :
          object_close false (on (within p) t n l c) ≡ ok (tt, on (within p) t n l c)
      unfolding object_close change_object_in put_json_in
      object_close-run =
          rw
            (
              common_assert-on (within p) a (within-IsReady p) t n l c,
              ap (λ g. change_object_in g false ElementType.object_close (on (within p) t n l c))
                  is_crumb,
            )
            (ap (λ g. put_json_in g (b'}' ∷ []) (on (within p) t n l c)) is_crumb)

    both-decoded :
        (c : Bytes)
        → IsDecoded decode iswprint c
        → both decode iswprint c s.crumb_separator ≡ some (decoded decode iswprint c ++ sep)
    unfolding both
    both-decoded c h = rw (both, h, crumb_sep) refl

    put_crumbs-run :
        (p cs : List Bytes) (t : Text) (n : ℕ) (l c : ElementType)
        → All (IsDecoded decode iswprint) cs
        → put_crumbs decode iswprint cs s.crumb_separator (on (within p) t n l c)
          ≡ ok (tt, on (within p) (t ++ crumbs_text decode iswprint sep m cs) n l c)
    unfolding put_crumbs crumbs_text
    put_crumbs-run p [] t n l c h = rw append-nil refl
    put_crumbs-run p (d ∷ cs) t n l c h =
        rw
          (
            both-decoded d h.0,
            putf-on (within p) a (within-IsReady p) t n l c (decoded decode iswprint d ++ sep),
            put_crumbs-run p cs (t ++ (decoded decode iswprint d ++ sep)) n l c h.1,
            append_assoc,
          )
          refl

    separated-text :
        (x y e : Text)
        → separated decode iswprint x s.text_separator y e ≡ some (x ++ (m ++ (y ++ e)))
    unfolding separated
    separated-text x y e = rw (text_sep, separated) refl

    pub entry-run :
        (name fmt : Bytes) (expand : Text → Expansion) (p : List Bytes) (t : Text) (n : ℕ)
        (l c : ElementType)
        → All (IsDecoded decode iswprint) p
        → Encodes decode iswprint crumb (leaf name fmt expand)
        → entry decode iswprint name fmt expand (on (within p) t n l c)
          ≡ ok (
            tt,
            on
                (within p)
                (t ++ crumb_node decode iswprint sep m p (leaf name fmt expand))
                n
                c
                ElementType.entry,
          )
    unfolding entry put_entry put_entry_crumb crumb_node Encodes
    entry-run name fmt expand p t n l c hp (hn, hv) =
        let x = or_nil (name_text decode iswprint crumb name) in
        let y = or_nil (value_text decode iswprint crumb fmt expand) in
        let named = ap (λ f. name_text decode iswprint f name) is_crumb ∙ hn in
        let valued = ap (λ f. value_text decode iswprint f fmt expand) is_crumb ∙ hv in
        let put_f = ap (λ f. put_entry decode iswprint f x y) is_crumb in
        rw
          (
            common_assert-on (within p) a (within-IsReady p) t n l c,
            change-run p t n l c ElementType.entry,
            named,
            valued,
            put_f,
            put_crumbs-run p p t n c ElementType.entry hp,
          )
          (ap
              (λ e.
                putf e
                  (on (within p) (t ++ crumbs_text decode iswprint sep m p) n c ElementType.entry))
              (separated-text x y newline)
            ∙ rw
                (
                  putf-on (within p) a (within-IsReady p) (t ++ crumbs_text decode iswprint sep m p)
                      n c ElementType.entry (x ++ (m ++ (y ++ newline))),
                  append_assoc,
                )
                refl)

    add-run :
        (p : List Bytes) (name : Bytes) (t : Text) (n : ℕ) (l c : ElementType)
        → add_breadcrumb name (on (within p) t n l c)
          ≡ ok (tt, on (within (p ++ name ∷ [])) t n l c)
    unfolding add_breadcrumb
    add-run p name t n l c = refl

    drop_last-snoc : (p : List Bytes) (name : Bytes) → drop_last (p ++ name ∷ []) ≡ p
    drop_last-snoc [] name = refl
    drop_last-snoc (x ∷ []) name = refl
    drop_last-snoc (x ∷ y ∷ p) name = ap (◌∷◌ x) (drop_last-snoc (y ∷ p) name)

    remove-run :
        (p : List Bytes) (name : Bytes) (t : Text) (n : ℕ) (l c : ElementType)
        → remove_breadcrumb (on (within (p ++ name ∷ [])) t n l c) ≡ ok (tt, on (within p) t n l c)
    unfolding remove_breadcrumb
    remove-run [] name t n l c = refl
    remove-run (x ∷ p) name t n l c = rw (drop_last-snoc (x ∷ p) name) refl

    pub section_open-run :
        (name : Bytes) (p : List Bytes) (t : Text) (n : ℕ) (l c : ElementType)
        → IsText (name_text decode iswprint crumb name)
        → section_open decode iswprint name (on (within p) t n l c)
          ≡ ok (tt, on (within (p ++ name ∷ [])) t n c ElementType.section_open)
    unfolding section_open put_section_open
    section_open-run name p t n l c h =
        let named = ap (λ f. name_text decode iswprint f name) is_crumb ∙ h in
        let put_f =
          ap (λ f. put_section_open f name (or_nil (name_text decode iswprint crumb name)))
            is_crumb in
        rw
          (
            common_assert-on (within p) a (within-IsReady p) t n l c,
            named,
            change-run p t n l c ElementType.section_open,
            put_f,
          )
          (add-run p name t n c ElementType.section_open)

    pub container_open-run :
        (name : Bytes) (p : List Bytes) (t : Text) (n : ℕ) (l c : ElementType)
        → IsText (name_text decode iswprint crumb name)
        → container_open decode iswprint name (on (within p) t n l c)
          ≡ ok (tt, on (within (p ++ name ∷ [])) t n c ElementType.container_open)
    unfolding container_open put_container_open
    container_open-run name p t n l c h =
        let named = ap (λ f. name_text decode iswprint f name) is_crumb ∙ h in
        let put_f =
          ap (λ f. put_container_open f name (or_nil (name_text decode iswprint crumb name)))
            is_crumb in
        rw
          (
            common_assert-on (within p) a (within-IsReady p) t n l c,
            named,
            change-run p t n l c ElementType.container_open,
            put_f,
          )
          (add-run p name t n c ElementType.container_open)

    pub section_close-run :
        (p : List Bytes) (name : Bytes) (t : Text) (n : ℕ) (l c : ElementType)
        → section_close (on (within (p ++ name ∷ [])) t n l c)
          ≡ ok (tt, on (within p) t n c ElementType.section_close)
    unfolding section_close put_section_close
    section_close-run p name t n l c =
        let q = p ++ name ∷ [] in
        rw
          (
            common_assert-on (within q) a (within-IsReady q) t n l c,
            change-run q t n l c ElementType.section_close,
            ap put_section_close is_crumb,
          )
          (remove-run p name t n c ElementType.section_close)

    pub container_close-run :
        (p : List Bytes) (name : Bytes) (t : Text) (n : ℕ) (l c : ElementType)
        → container_close (on (within (p ++ name ∷ [])) t n l c)
          ≡ ok (tt, on (within p) t n c ElementType.container_close)
    unfolding container_close put_container_close
    container_close-run p name t n l c =
        let q = p ++ name ∷ [] in
        rw
          (
            common_assert-on (within q) a (within-IsReady q) t n l c,
            change-run q t n l c ElementType.container_close,
            ap put_container_close is_crumb,
          )
          (remove-run p name t n c ElementType.container_close)
