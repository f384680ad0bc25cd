-- ===== src/Program/Show/Tables/Runs.antt =====
-- The documents that `show_sysconf`, `show_rusage`, `show_sizeof`, `show_locale` and `show_threads`
-- display.
use procenv.Prelude.{
  ℕ, ◌≡◌, ◌≢◌, refl, ap, sym, subst, Option, none, some, [], ◌∷◌, Bool, true, false, ◌==◌,
  if◌then◌else◌, Bytes, ℤ, pos, ok, halt, undefined, codes, Bool-cases, inl, inr, All, arith,
}
use procenv.Pstring.{Decode}
use procenv.Printf.{Arg, str, int, uint}
use procenv.Output.{State}
use procenv.Output.Elements.{lift}
use procenv.Document.{Node, Nodes, section, nil, cons}
use procenv.Program.{or_unknown, or_empty}
use procenv.Program.Emits.{
  Emits, nodes, map_nodes, append_nodes, ◌then◌, Emits-pure, Emits-entryf, Emits-section,
  Emits-header, Emits-each, Emits-after,
}
use procenv.Program.Show.{Map}
use procenv.Program.Show.Tables.{
  is_minus_one, rusage_fields, find_unterminated, get_thread_scheduler_name, Threads, scope_name,
  inherit_name, show_number_or, guard_arg, show_sysconf_entry, show_sysconf, show_usage,
  show_rusage, show_sizeof_type, show_sizeof, show_category, show_getenv, show_locale,
  show_thread_scheduler, show_concurrency, show_threads,
}
use procenv.Program.Show.Meta.Runs.{field, string_field}

module _ (decode : Decode) where
  abbrev pub sysconf_value : Bytes → ℤ → Bool → Node
  sysconf_value name n true = string_field decode name (codes "n/a")
  sysconf_value name n false = field decode name (codes "%ld") (int n ∷ [])

  abbrev pub sysconf_node : (ℕ → ℤ) → Bytes × ℕ → Node
  sysconf_node sysconf (name, num) = sysconf_value name (sysconf num) (is_minus_one (sysconf num))

  abbrev pub sizeof_node : Bytes × ℕ → Node
  sizeof_node (name, size) =
      field decode name (codes "%lu byte%s")
        (uint size ∷ str (if size == 1 then [] else codes "s") ∷ [])

  abbrev pub sizeof_nodes : ℕ → Map → Node
  sizeof_nodes char_bit types = section (codes "sizeof") (
      cons (field decode (codes "bits/byte (CHAR_BIT)") (codes "%d") (int (pos char_bit) ∷ []))
        (map_nodes sizeof_node types))

  abbrev pub locale_node : (Bytes → Option Bytes) → Map → (ℕ → Option Bytes) → Node
  locale_node getenv locale_map setlocale = section (codes "locale") (
      cons (string_field decode (codes "LANG") (or_empty (getenv (codes "LANG")))) (
        cons (string_field decode (codes "LANGUAGE") (or_empty (getenv (codes "LANGUAGE")))) (
          append_nodes
            (map_nodes (λ (p : Bytes × ℕ). string_field decode p.0 (or_unknown (setlocale p.1)))
              locale_map)
            (cons (string_field decode (codes "LC_ALL") (or_empty (getenv (codes "LC_ALL"))))
              nil))))

  abbrev pub number_or : Bytes → Bytes → Option Arg → Node
  number_or name fmt none = string_field decode name (codes "unknown")
  number_or name fmt (some a) = field decode name fmt (a ∷ [])

  abbrev pub concurrency_nodes : Option ℤ → Nodes
  concurrency_nodes none = nil
  concurrency_nodes (some n) =
      cons (field decode (codes "concurrency") (codes "%d") (int n ∷ [])) nil

  -- The section of the scheduler, with its type, its priority and whether it is inherited.
  abbrev pub scheduler_node : Node → Node → Option Bool → Node
  scheduler_node type priority inherit = section (codes "scheduler") (
      nodes (
        type
        ∷ priority
        ∷ string_field decode (codes "inherit-scheduler attribute") (inherit_name inherit)
        ∷ []))

  abbrev pub threads_node : Threads → Node → Node → Node
  threads_node t type priority = section (codes "threads") (
      cons (field decode (codes "stack size") (codes "%lu bytes") (uint t.stack_size ∷ [])) (
        cons (string_field decode (codes "scope") (scope_name t.scope_system)) (
          cons (number_or (codes "guard size") (codes "%lu bytes") (guard_arg t.guard_size)) (
            cons (scheduler_node type priority t.inherit_sched)
              (concurrency_nodes t.concurrency)))))

module _ (decode : Decode) (iswprint : ℕ → Bool) where
  sysconf_entry-Emits :
      (sysconf : ℕ → ℤ) (p : Bytes × ℕ)
      → Emits decode iswprint
          (show_sysconf_entry decode iswprint sysconf p)
          (cons (sysconf_node decode sysconf p) nil)
  unfolding show_sysconf_entry
  sysconf_entry-Emits sysconf (name, num) = elim (Bool-cases (is_minus_one (sysconf num))) [
    | inl e ↦ rw (show_sysconf_entry, sysconf_value, e) (Emits-entryf decode iswprint _ _ _ refl)
    | inr e ↦ rw (show_sysconf_entry, sysconf_value, e) (Emits-entryf decode iswprint _ _ _ refl)
  ]

  pub show_sysconf-Emits :
      (m : Map) (sysconf : ℕ → ℤ)
      → Emits decode iswprint
          (show_sysconf decode iswprint m sysconf)
          (cons (section (codes "sysconf") (map_nodes (sysconf_node decode sysconf) m)) nil)
  unfolding show_sysconf
  show_sysconf-Emits m sysconf =
      Emits-header decode iswprint (codes "sysconf") (Emits-each (sysconf_entry-Emits sysconf) m)

  pub show_rusage-Emits :
      (usage : Bytes → ℕ)
      → Emits decode iswprint (show_rusage decode iswprint (some usage)) (
          cons
            (section (codes "rusage") (
              map_nodes
                (λ name. field decode name (codes "%lu") (uint (usage name) ∷ []))
                rusage_fields))
            nil)
  unfolding show_rusage show_usage
  show_rusage-Emits usage =
      Emits-header decode iswprint (codes "rusage")
        (Emits-each (λ name. Emits-entryf decode iswprint _ _ _ refl) rusage_fields)

  show_sizeof_type-Emits :
      (p : Bytes × ℕ)
      → Emits decode iswprint (show_sizeof_type decode iswprint p) (cons (sizeof_node decode p) nil)
  unfolding show_sizeof_type
  show_sizeof_type-Emits (name, size) = Emits-entryf decode iswprint _ _ _ refl

  pub show_sizeof-Emits :
      (char_bit : ℕ) (types : Map)
      → Emits decode iswprint
          (show_sizeof decode iswprint char_bit types)
          (cons (sizeof_nodes decode char_bit types) nil)
  unfolding show_sizeof
  show_sizeof-Emits char_bit types =
      Emits-header decode iswprint (codes "sizeof")
        (Emits-entryf decode iswprint _ _ _ refl then Emits-each show_sizeof_type-Emits types)

  show_category-Emits :
      (setlocale : ℕ → Option Bytes) (p : Bytes × ℕ)
      → Emits decode iswprint
          (show_category decode iswprint setlocale p)
          (cons (string_field decode p.0 (or_unknown (setlocale p.1))) nil)
  unfolding show_category
  show_category-Emits setlocale (name, num) = Emits-entryf decode iswprint _ _ _ refl

  pub show_locale-Emits :
      (getenv : Bytes → Option Bytes) (m : Map) (setlocale : ℕ → Option Bytes)
      → Emits decode iswprint
          (show_locale decode iswprint getenv m setlocale)
          (cons (locale_node decode getenv m setlocale) nil)
  unfolding show_locale show_getenv
  show_locale-Emits getenv m setlocale =
      let entry = Emits-entryf decode iswprint in
      Emits-header decode iswprint (codes "locale") (
        entry _ _ _ refl
        then entry _ _ _ refl
        then Emits-each (show_category-Emits setlocale) m
        then entry _ _ _ refl)

  guard-Emits :
      (name fmt : Bytes) (n : Option ℕ)
      → Emits decode iswprint
          (show_number_or decode iswprint name fmt (guard_arg n))
          (cons (number_or decode name fmt (guard_arg n)) nil)
  guard-Emits name fmt none = Emits-entryf decode iswprint _ _ _ refl
  guard-Emits name fmt (some n) = Emits-entryf decode iswprint _ _ _ refl

  concurrency-Emits :
      (n : Option ℤ)
      → Emits decode iswprint (show_concurrency decode iswprint n) (concurrency_nodes decode n)
  concurrency-Emits none = Emits-pure decode iswprint
  concurrency-Emits (some n) = Emits-entryf decode iswprint _ _ _ refl

  -- The type and the priority of the scheduler.
  abbrev TypeEmits : Option (ℕ × ℤ) → Map → Bytes → ℤ → Type 0
  TypeEmits p policies name priority =
      Emits decode iswprint (show_thread_scheduler decode iswprint policies p) (
        cons (string_field decode (codes "type") name)
          (cons (field decode (codes "priority") (codes "%d") (int priority ∷ [])) nil))

  thread_type-Emits :
      (policies : Map) (sched : ℕ) (priority : ℤ) (name : Bytes)
      → get_thread_scheduler_name policies sched ≡ ok name
      → TypeEmits (some (sched, priority)) policies name priority
  unfolding show_thread_scheduler
  thread_type-Emits policies sched priority name e =
      let named : (s : State) → lift (get_thread_scheduler_name policies sched) s ≡ ok (name, s) =
        λ s. ap (λ o. lift o s) e in
      let entry = Emits-entryf decode iswprint in
      Emits-after (lift (get_thread_scheduler_name policies sched)) name _ named (entry _ _ _ refl)
      then entry _ _ _ refl

  -- A policy that the map names.
  pub show_threads-Emits :
      (policies : Map) (t : Threads) (sched : ℕ) (priority : ℤ) (name : Bytes)
      → t.schedparam ≡ some (sched, priority)
      → get_thread_scheduler_name policies sched ≡ ok name
      → Emits decode iswprint (show_threads decode iswprint policies t) (
          cons
            (threads_node decode t
              (string_field decode (codes "type") name)
              (field decode (codes "priority") (codes "%d") (int priority ∷ [])))
            nil)
  unfolding show_threads
  show_threads-Emits policies t sched priority name h e =
      let entry = Emits-entryf decode iswprint in
      let type : TypeEmits t.schedparam policies name priority =
        subst (λ p. TypeEmits p policies name priority) (sym h)
          (thread_type-Emits policies sched priority name e) in
      Emits-header decode iswprint (codes "threads") (
        entry _ _ _ refl
        then entry _ _ _ refl
        then guard-Emits (codes "guard size") (codes "%lu bytes") t.guard_size
        then Emits-section decode iswprint (codes "scheduler") (type then entry _ _ _ refl)
        then concurrency-Emits t.concurrency)

-- A policy that the map does not name.
beyond :
    (policies : Map) (sched : ℕ)
    → All (λ p. p.1 ≢ sched) policies
    → get_thread_scheduler_name policies sched ≡ halt undefined
unfolding get_thread_scheduler_name find_unterminated
beyond [] sched h = refl
beyond ((name, num) ∷ m) sched (n, h) = ground (arith, beyond m sched h)

module _ (decode : Decode) (iswprint : ℕ → Bool) where
  -- The part of `show_threads` that displays the scheduler's type and priority comes to undefined
  -- behaviour where the scheduling policy is none of those in the map, such as SCHED_BATCH: the
  -- search of `get_thread_scheduler_name` runs past the end of the map, which has no terminator.
  pub show_thread_scheduler_overrun :
      (policies : Map) (sched : ℕ) (priority : ℤ) (s : State)
      → All (λ p. p.1 ≢ sched) policies
      → show_thread_scheduler decode iswprint policies (some (sched, priority)) s ≡ halt undefined
  unfolding show_thread_scheduler
  show_thread_scheduler_overrun policies sched priority s n = rw (beyond policies sched n) refl
