-- ===== src/Output/Elements/Steps.antt =====
-- The calls of the element tables on a state whose document holds a text.
use procenv.Prelude.{
  ℕ, zero, suc, ◌+◌, ◌-◌, ◌≤◌, ◌≡◌, ◌≢◌, refl, ap, some, List, [], ◌∷◌, ◌++◌, append-nil,
  append_assoc, replicate, length, length-replicate, length-append, if◌then◌else◌, Text, NoNul,
  All-append, pos, int_max, le→leb, sub_ℕ-pos, ok, arith, Bool-cases, inl, inr,
}
use procenv.Memory.{Cell, written}
use procenv.Memory.Laws.{read_text-written}
use procenv.StringUtil.Doc.{doc_of, wappend-doc_of, wappendf-doc_of, pappend-doc_of}
use procenv.StringUtil.Fresh.{wappendf-fresh_of, NoNul-replicate}
use procenv.Output.{ElementType, State, same, common_assert, put, putf}
use procenv.Output.Indent.{inc_indent, dec_indent, add_indent, add_indent_char, padded, wmemset}
use procenv.Output.TextTable.{line_on, line_in, line_out}

-- `s` with the text `t` in its document, the indentation `n`, and two elements.
abbrev pub on : State → Text → ℕ → ElementType → ElementType → State
on s t n l c = record s {
  doc = some (doc_of t);
  indent = pos n;
  last_element = l;
  current_element = c;
}

-- The indentation of a level, in the indent character.
pub indentation : State → ℕ → Text
indentation s n =
    if same s.indent_char (b' ' ∷ []) then replicate n b' ' else replicate n s.wide_indent_char

-- What holds of the settings in every run: the amount is not negative, and the wide indent
-- character is none that ends a string.
pub record IsReady (s : State) (a : ℕ) : Type 0 where
  pub amount : s.indent_amount ≡ pos a
  pub wide : s.wide_indent_char ≢ 0

padded-replicate : (n c : ℕ) → replicate n c ++ c ∷ [] ≡ replicate (suc n) c
padded-replicate zero c = refl
padded-replicate (suc n) c = ap (◌∷◌ c) (padded-replicate n c)

suc-sub-one : (n : ℕ) → suc n - 1 ≡ n
suc-sub-one n = omega arith

NoNul-padded : (n c : ℕ) → c ≢ 0 → NoNul (padded (pos (suc n)) c)
NoNul-padded n c h =
    All-append (λ c. c ≢ 0) (replicate (suc n - 1) b' ') (c ∷ [])
      (NoNul-replicate (suc n - 1) b' ' (omega arith)) (h, tt)

wmemset-written :
    (c : ℕ) (x : Text) (cs : List Cell)
    → NoNul x
    → wmemset c (written x (some 0 ∷ cs)) ≡ written (replicate (length x) c) (some 0 ∷ cs)
wmemset-written c [] cs h = refl
wmemset-written c (zero ∷ x) cs h = absurd (h.0 refl)
wmemset-written c (suc d ∷ x) cs h = ap (◌∷◌ (some c)) (wmemset-written c x cs h.1)

length-padded : (n c : ℕ) → length (padded (pos (suc n)) c) ≡ suc n
length-padded n c = omega (
  arith,
  length-append (replicate (suc n - 1) b' ') (c ∷ []),
  length-replicate {A = ℕ} (suc n - 1) b' ',
)

module _ (s : State) (a : ℕ) (ready : IsReady s a) where
  module _ (t : Text) (n : ℕ) (l c : ElementType) where
    pub put-on : (x : Text) → put x (on s t n l c) ≡ ok (tt, on s (t ++ x) n l c)
    unfolding put
    put-on x = rw (wappend-doc_of t x)

    pub putf-on : (x : Text) → putf (some x) (on s t n l c) ≡ ok (tt, on s (t ++ x) n l c)
    unfolding putf
    putf-on x = rw (wappendf-doc_of t x)

    pub common_assert-on : common_assert (on s t n l c) ≡ ok (tt, on s t n l c)
    common_assert-on = rw ready.amount

    pub inc_indent-on : n + a ≤ int_max → inc_indent (on s t n l c) ≡ ok (tt, on s t (n + a) l c)
    unfolding inc_indent
    inc_indent-on h = rw (ready.amount, le→leb (n + a) int_max h)

    pub dec_indent-on : n ≤ int_max → dec_indent (on s t (n + a) l c) ≡ ok (tt, on s t n l c)
    unfolding dec_indent
    dec_indent-on h = rw (ready.amount, sub_ℕ-pos n a, le→leb n int_max h)

  -- The buffer of the branch for other indent characters.
  char-text :
      (t : Text) (y n : ℕ) (l c : ElementType)
      → add_indent_char (on s (y ∷ t) (suc n) l c)
        ≡ ok (some (doc_of ((y ∷ t) ++ replicate (suc n) s.wide_indent_char)))
  unfolding add_indent_char
  char-text t y n l c =
      let w = s.wide_indent_char in
      let x = padded (pos (suc n)) w in
      let len : length x ≡ suc n = length-padded n w in
      rw (wappendf-fresh_of x, wmemset-written w x (some 0 ∷ []) (NoNul-padded n w ready.wide), len)
        (pappend-doc_of y t (replicate (suc n) w) _ (omega (arith, length-replicate n w)) (
          rw (
            read_text-written (replicate (suc n) w) (some 0 ∷ [])
              (NoNul-replicate (suc n) w ready.wide))))

  -- `add_indent` appends as many indent characters as the indentation, for a blank as indent character
  -- and for any other. Conditions: the document is not empty, the indent amount is not negative, and
  -- the wide indent character is not nul.
  pub add_indent-on :
      (t : Text) (y n : ℕ) (l c : ElementType)
      → add_indent (on s (y ∷ t) n l c) ≡ ok (tt, on s ((y ∷ t) ++ indentation s n) n l c)
  unfolding add_indent indentation
  add_indent-on t y zero l c = elim (Bool-cases (same s.indent_char (b' ' ∷ []))) [
    | inl space ↦ rw (common_assert-on (y ∷ t) 0 l c, space, append-nil)
    | inr other ↦ rw (common_assert-on (y ∷ t) 0 l c, other, append-nil)
  ]
  add_indent-on t y (suc n) l c = elim (Bool-cases (same s.indent_char (b' ' ∷ []))) [
    | inl space ↦ rw (
      common_assert-on (y ∷ t) (suc n) l c,
      space,
      suc-sub-one n,
      putf-on (y ∷ t) (suc n) l c (replicate n b' ' ++ b' ' ∷ []),
      padded-replicate n b' ',
    )
    | inr other ↦ rw (common_assert-on (y ∷ t) (suc n) l c, other, char-text t y n l c)
  ]

  -- At the start of an empty document.
  pub add_indent-start :
      (l c : ElementType) → add_indent (on s [] 0 l c) ≡ ok (tt, on s ([] ++ indentation s 0) 0 l c)
  unfolding add_indent indentation
  add_indent-start l c = elim (Bool-cases (same s.indent_char (b' ' ∷ []))) [
    | inl space ↦ rw (common_assert-on [] 0 l c, space) refl
    | inr other ↦ rw (common_assert-on [] 0 l c, other) refl
  ]

  -- A separator of at least one character leaves the document not empty.
  pub add_indent-behind :
      (t : Text) (x : ℕ) (sep : Text) (n : ℕ) (l c : ElementType)
      → add_indent (on s (t ++ x ∷ sep) n l c)
        ≡ ok (tt, on s (t ++ ((x ∷ sep) ++ indentation s n)) n l c)
  add_indent-behind [] x sep n l c = add_indent-on sep x n l c
  add_indent-behind (y ∷ t) x sep n l c = rw (← append_assoc) (add_indent-on (t ++ x ∷ sep) y n l c)

  module _ (t : Text) (x : ℕ) (sep : Text) (n : ℕ) (l c : ElementType) where
    -- A line at the same level.
    pub line_on-on :
        line_on (x ∷ sep) (on s t n l c) ≡ ok (tt, on s (t ++ ((x ∷ sep) ++ indentation s n)) n l c)
    line_on-on = rw (put-on t n l c (x ∷ sep)) (add_indent-behind t x sep n l c)

    -- A line one level in.
    pub line_in-on :
        n + a ≤ int_max
        → line_in (x ∷ sep) (on s t n l c)
          ≡ ok (tt, on s (t ++ ((x ∷ sep) ++ indentation s (n + a))) (n + a) l c)
    line_in-on h =
        rw (put-on t n l c (x ∷ sep), inc_indent-on (t ++ x ∷ sep) n l c h)
          (add_indent-behind t x sep (n + a) l c)

    -- A line one level out.
    pub line_out-on :
        n ≤ int_max
        → line_out (x ∷ sep) (on s t (n + a) l c)
          ≡ ok (tt, on s (t ++ ((x ∷ sep) ++ indentation s n)) n l c)
    line_out-on h =
        rw (put-on t (n + a) l c (x ∷ sep), dec_indent-on (t ++ x ∷ sep) n l c h)
          (add_indent-behind t x sep n l c)
