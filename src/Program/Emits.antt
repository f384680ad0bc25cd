-- ===== src/Program/Emits.antt =====
-- Commands that write the calls of a document: rules for the functions that display one.
use procenv.Prelude.{
  ℕ, ◌≡◌, refl, ◌∙◌, ap, sym, List, [], ◌∷◌, Bool, false, Bytes, Outcome, ok, halt, Cmd, pure,
  and_then, ◌>>◌, ◌>>=◌, arith,
}
use procenv.Pstring.{Decode}
use procenv.Printf.{Arg, vswprintf}
use procenv.Output.{State, common_assert}
use procenv.Output.Elements.{
  header, footer, section_open, section_close, container_open, container_close, object_open,
  object_close,
}
use procenv.Document.{
  Node, Nodes, Objects, leaf, section, container, nil, cons, end, object, emit, emit_nodes,
  emit_objects,
}
use procenv.Program.{entryf, has_null, each}

abbrev pub append_nodes : Nodes → Nodes → Nodes
append_nodes nil ys = ys
append_nodes (cons x xs) ys = cons x (append_nodes xs ys)

abbrev pub append_objects : Objects → Objects → Objects
append_objects end ps = ps
append_objects (object xs os) ps = object xs (append_objects os ps)

abbrev pub nodes : List Node → Nodes
nodes [] = nil
nodes (x ∷ xs) = cons x (nodes xs)

-- A node for each element of a list.
abbrev pub map_nodes : {A : Type 0} → (A → Node) → List A → Nodes
map_nodes g [] = nil
map_nodes g (x ∷ xs) = cons (g x) (map_nodes g xs)

pub and_then_assoc :
    {S A B C : Type 0} (o : Outcome (A × S)) (k : A → Cmd S B) (l : B → Cmd S C)
    → and_then (and_then o k) l ≡ and_then o (λ a s. and_then (k a s) l)
and_then_assoc (ok (a, s)) k l = refl
and_then_assoc (halt why) k l = refl

pub and_then-cong :
    {S A B : Type 0} (o : Outcome (A × S)) (k l : A → Cmd S B)
    → ((a : A) (s : S) → k a s ≡ l a s)
    → and_then o k ≡ and_then o l
and_then-cong (ok (a, s)) k l h = h a s
and_then-cong (halt why) k l h = refl

pub and_then-pure : {S : Type 0} (o : Outcome (Unit {0} × S)) → and_then o (λ _. pure tt) ≡ o
and_then-pure (ok (tt, s)) = refl
and_then-pure (halt why) = refl

-- `common_assert ()` twice is once.
pub assert_twice :
    {A : Type 0} (k : Cmd State A) (s : State)
    → (common_assert >> (common_assert >> k)) s ≡ (common_assert >> k) s
assert_twice k s = ground arith

footer-section_close : (s : State) → footer s ≡ section_close s
unfolding section_close
footer-section_close s = ground arith

module _ (decode : Decode) (iswprint : ℕ → Bool) where
  -- A command that is the calls of a run of nodes, and one that is those of objects.
  pub record Emits (c : Cmd State (Unit {0})) (xs : Nodes) : Type 0 where
    pub run : (s : State) → c s ≡ emit_nodes decode iswprint xs s

  pub record EmitsObjects (c : Cmd State (Unit {0})) (os : Objects) : Type 0 where
    pub run : (s : State) → c s ≡ emit_objects decode iswprint os s

  pub Emits-pure : Emits (pure tt) nil
  unfolding emit_nodes
  Emits-pure = record { run = λ s. refl }

  emit_nodes-append :
      (xs ys : Nodes) (s : State)
      → emit_nodes decode iswprint (append_nodes xs ys) s
        ≡ (emit_nodes decode iswprint xs >> emit_nodes decode iswprint ys) s
  unfolding emit_nodes
  emit_nodes-append nil ys s = refl
  emit_nodes-append (cons x xs) ys s =
      and_then-cong (emit decode iswprint x s) _ _ (λ _ t. emit_nodes-append xs ys t)
      ∙ sym (and_then_assoc (emit decode iswprint x s) _ _)

  pub Emits->> :
      {c d : Cmd State (Unit {0})} {xs ys : Nodes}
      → Emits c xs
      → Emits d ys
      → Emits (c >> d) (append_nodes xs ys)
  Emits->> {d = d} {xs} {ys} h k = record {
    run = λ s.
        ap (λ o. and_then o (λ _. d)) (h.run s)
        ∙ and_then-cong (emit_nodes decode iswprint xs s) _ _ (λ _ t. k.run t)
        ∙ sym (emit_nodes-append xs ys s);
  }

  pub Emits-emit : (x : Node) → Emits (emit decode iswprint x) (cons x nil)
  unfolding emit_nodes
  Emits-emit x = record { run = λ s. sym (and_then-pure (emit decode iswprint x s)) }

  pub Emits-entryf :
      (name fmt : Bytes) (args : List Arg)
      → has_null args ≡ false
      → Emits
          (entryf decode iswprint name fmt args)
          (cons (leaf name fmt (vswprintf decode args)) nil)
  unfolding entryf emit
  Emits-entryf name fmt args h = rw (entryf, h) (Emits-emit (leaf name fmt (vswprintf decode args)))

  -- A call between two others.
  between :
      {b c : Cmd State (Unit {0})} (a d : Cmd State (Unit {0}))
      → ((s : State) → b s ≡ c s)
      → (s : State) → (a >> b >> d) s ≡ (a >> c >> d) s
  between a d h s = ap (λ o. and_then o (λ _. d)) (and_then-cong (a s) _ _ (λ _ t. h t))

  pub Emits-section :
      {c : Cmd State (Unit {0})} {xs : Nodes} (name : Bytes)
      → Emits c xs
      → Emits (section_open decode iswprint name >> c >> section_close) (cons (section name xs) nil)
  unfolding emit
  Emits-section {xs = xs} name h = record {
    run = λ s.
        between (section_open decode iswprint name) section_close h.run s
        ∙ (Emits-emit (section name xs)).run s;
  }

  pub Emits-container :
      {c : Cmd State (Unit {0})} {os : Objects} (name : Bytes)
      → EmitsObjects c os
      → Emits
          (container_open decode iswprint name >> c >> container_close)
          (cons (container name os) nil)
  unfolding emit
  Emits-container {os = os} name h = record {
    run = λ s.
        between (container_open decode iswprint name) container_close h.run s
        ∙ (Emits-emit (container name os)).run s;
  }

  header-section_open :
      (name : Bytes) (s : State)
      → header decode iswprint name s ≡ section_open decode iswprint name s
  unfolding section_open
  header-section_open name s = assert_twice _ s

  -- `header` and `footer` are `section_open` and `section_close`.
  pub Emits-header :
      {c : Cmd State (Unit {0})} {xs : Nodes} (name : Bytes)
      → Emits c xs
      → Emits (header decode iswprint name >> c >> footer) (cons (section name xs) nil)
  Emits-header {c} name h = record {
    run = λ s.
        and_then-cong ((header decode iswprint name >> c) s) _ _ (λ _ t. footer-section_close t)
        ∙ ap (λ o. and_then (and_then o (λ _. c)) (λ _. section_close)) (header-section_open name s)
        ∙ (Emits-section name h).run s;
  }

  pub EmitsObjects-pure : EmitsObjects (pure tt) end
  unfolding emit_objects
  EmitsObjects-pure = record { run = λ s. refl }

  pub EmitsObjects-object :
      {c d : Cmd State (Unit {0})} {xs : Nodes} {os : Objects}
      → Emits c xs
      → EmitsObjects d os
      → EmitsObjects (object_open false >> c >> object_close false >> d) (object xs os)
  unfolding emit_objects
  EmitsObjects-object {d = d} {xs} h k = record {
    run = λ s.
        ap (λ o. and_then o (λ _. d)) (between (object_open false) (object_close false) h.run s)
        ∙ and_then-cong
            ((object_open false >> emit_nodes decode iswprint xs >> object_close false) s) _ _
            (λ _ t. k.run t);
  }

-- One command behind another.
infixr 30 ◌then◌
abbrev pub ◌then◌ :
    {decode : Decode} {iswprint : ℕ → Bool} {c d : Cmd State (Unit {0})} {xs ys : Nodes}
    → Emits decode iswprint c xs
    → Emits decode iswprint d ys
    → Emits decode iswprint (c >> d) (append_nodes xs ys)
◌then◌ {decode} {iswprint} h k = Emits->> decode iswprint h k

-- A command behind one that gives a value and changes nothing.
pub Emits-after :
    {decode : Decode} {iswprint : ℕ → Bool} {A : Type 0} (c : Cmd State A) (a : A)
    (k : A → Cmd State (Unit {0})) {xs : Nodes}
    → ((s : State) → c s ≡ ok (a, s))
    → Emits decode iswprint (k a) xs
    → Emits decode iswprint (c >>= k) xs
Emits-after c a k h e = record { run = λ s. ap (λ o. and_then o k) (h s) ∙ e.run s }

-- A node for each element that a loop displays.
pub Emits-each :
    {decode : Decode} {iswprint : ℕ → Bool} {A : Type 0} {f : A → Cmd State (Unit {0})}
    {g : A → Node}
    → ((x : A) → Emits decode iswprint (f x) (cons (g x) nil))
    → (xs : List A) → Emits decode iswprint (each f xs) (map_nodes g xs)
unfolding each
Emits-each h [] = Emits-pure _ _
Emits-each h (x ∷ xs) = h x then Emits-each h xs
