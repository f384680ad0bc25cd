-- ===== src/Program/Show/Tables.antt =====
-- `show_sysconf`, `show_rusage`, `show_sizeof`, `show_locale`, `show_threads` and
-- `get_thread_scheduler_name` of src/procenv.c, and `get_speed` of src/util.c.
pub mod Runs
use procenv.Prelude.{
  ℕ, zero, suc, ◌+◌, Option, none, some, List, [], ◌∷◌, map, Bool, true, false, ◌==◌, if◌then◌else◌,
  Bytes, ℤ, pos, negsuc, Outcome, ok, halt, undefined, died, Cmd, pure, stop, ◌>>=◌, ◌>>◌, codes,
}
use procenv.Pstring.{Decode}
use procenv.Printf.{Arg, str, int, uint, string}
use procenv.Output.{State}
use procenv.Output.Elements.{header, footer, section_open, section_close, lift}
use procenv.Program.{entryf, each, or_unknown, or_empty}
use procenv.Program.Show.{Map}

-- `value == -1`
abbrev pub is_minus_one : ℤ → Bool
is_minus_one (negsuc zero) = true
is_minus_one _ = false

-- The fields that `show_rusage` displays.
abbrev pub rusage_fields : List Bytes
rusage_fields =
    codes "ru_maxrss"
    ∷ codes "ru_ixrss"
    ∷ codes "ru_idrss"
    ∷ codes "ru_isrss"
    ∷ codes "ru_minflt"
    ∷ codes "ru_majflt"
    ∷ codes "ru_nswap"
    ∷ codes "ru_inblock"
    ∷ codes "ru_oublock"
    ∷ codes "ru_msgsnd"
    ∷ codes "ru_msgrcv"
    ∷ codes "ru_nsignals"
    ∷ codes "ru_nvcsw"
    ∷ codes "ru_nivcsw"
    ∷ []

-- A map that has no terminator: a search past its end reads memory behind it.
unfoldable pub find_unterminated : ℕ → Map → Outcome Bytes
find_unterminated n [] = halt undefined
find_unterminated n ((name, num) ∷ m) =
    let rest = find_unterminated n m in if num == n then ok name else rest

-- The policies' numbers are those of the system.
abbrev pub thread_sched_policy_map : ℕ → ℕ → ℕ → Map
thread_sched_policy_map other fifo rr =
    (codes "SCHED_OTHER", other) ∷ (codes "SCHED_FIFO", fifo) ∷ (codes "SCHED_RR", rr) ∷ []

unfoldable pub get_thread_scheduler_name : Map → ℕ → Outcome Bytes
get_thread_scheduler_name policies sched = find_unterminated sched policies

-- The baud rates that have a name, and their names; the list's end is the terminator.
unfoldable pub get_speed : Map → ℕ → Option Bytes
get_speed [] speed = none
get_speed ((name, s) ∷ m) speed =
    let rest = get_speed m speed in if speed == s then some name else rest

-- What the pthread functions give; none where a call fails. `concurrency` is none on NetBSD.
pub record Threads : Type 0 where
  pub stack_size : ℕ
  pub scope_system : Option Bool
  pub guard_size : Option ℕ
  pub schedparam : Option (ℕ × ℤ)
  pub inherit_sched : Option Bool
  pub concurrency : Option ℤ

abbrev pub scope_name : Option Bool → Bytes
scope_name none = codes "unknown"
scope_name (some true) = codes "PTHREAD_SCOPE_SYSTEM"
scope_name (some false) = codes "PTHREAD_SCOPE_PROCESS"

abbrev pub inherit_name : Option Bool → Bytes
inherit_name none = codes "unknown"
inherit_name (some true) = codes "PTHREAD_INHERIT_SCHED"
inherit_name (some false) = codes "PTHREAD_EXPLICIT_SCHED"

abbrev pub guard_arg : Option ℕ → Option Arg
guard_arg none = none
guard_arg (some n) = some (uint n)

module _ (decode : Decode) (iswprint : ℕ → Bool) where
  abbrev pub show_number_or : Bytes → Bytes → Option Arg → Cmd State (Unit {0})
  show_number_or name fmt none =
      entryf decode iswprint name (codes "%s") (str (codes "unknown") ∷ [])
  show_number_or name fmt (some a) = entryf decode iswprint name fmt (a ∷ [])

  unfoldable pub show_sysconf_entry : (ℕ → ℤ) → Bytes × ℕ → Cmd State (Unit {0})
  show_sysconf_entry sysconf (name, num) = elim (is_minus_one (sysconf num)) [
    | true ↦ entryf decode iswprint name (codes "%s") (str (codes "n/a") ∷ [])
    | false ↦ entryf decode iswprint name (codes "%ld") (int (sysconf num) ∷ [])
  ]

  unfoldable pub show_sysconf : Map → (ℕ → ℤ) → Cmd State (Unit {0})
  show_sysconf sysconf_map sysconf =
      header decode iswprint (codes "sysconf")
      >> each (show_sysconf_entry sysconf) sysconf_map
      >> footer

  unfoldable pub show_usage : (Bytes → ℕ) → Bytes → Cmd State (Unit {0})
  show_usage usage name = entryf decode iswprint name (codes "%lu") (uint (usage name) ∷ [])

  unfoldable pub show_rusage : Option (Bytes → ℕ) → Cmd State (Unit {0})
  show_rusage none = stop died
  show_rusage (some usage) =
      header decode iswprint (codes "rusage") >> each (show_usage usage) rusage_fields >> footer

  -- `show_sizeof_type`
  unfoldable pub show_sizeof_type : Bytes × ℕ → Cmd State (Unit {0})
  show_sizeof_type (name, size) =
      entryf decode iswprint name (codes "%lu byte%s")
        (uint size ∷ str (if size == 1 then [] else codes "s") ∷ [])

  -- The types are those that the build has, in the order of the calls.
  unfoldable pub show_sizeof : ℕ → Map → Cmd State (Unit {0})
  show_sizeof char_bit types =
      header decode iswprint (codes "sizeof")
      >> (entryf decode iswprint (codes "bits/byte (CHAR_BIT)") (codes "%d")
            (int (pos char_bit) ∷ [])
          >> each show_sizeof_type types)
      >> footer

  unfoldable pub show_category : (ℕ → Option Bytes) → Bytes × ℕ → Cmd State (Unit {0})
  show_category setlocale (name, num) =
      entryf decode iswprint name (codes "%s") (str (or_unknown (setlocale num)) ∷ [])

  unfoldable pub show_getenv : (Bytes → Option Bytes) → Bytes → Cmd State (Unit {0})
  show_getenv getenv name =
      entryf decode iswprint name (codes "%s") (str (or_empty (getenv name)) ∷ [])

  -- The locale of the environment is set in between and reset at the end; `setlocale` here is the
  -- query in that locale.
  unfoldable pub show_locale :
      (Bytes → Option Bytes) → Map → (ℕ → Option Bytes) → Cmd State (Unit {0})
  show_locale getenv locale_map setlocale =
      header decode iswprint (codes "locale")
      >> (show_getenv getenv (codes "LANG")
          >> (show_getenv getenv (codes "LANGUAGE")
              >> (each (show_category setlocale) locale_map
                  >> show_getenv getenv (codes "LC_ALL"))))
      >> footer

  unfoldable pub show_thread_scheduler : Map → Option (ℕ × ℤ) → Cmd State (Unit {0})
  show_thread_scheduler policies none =
      show_number_or (codes "type") (codes "%s") none
      >> show_number_or (codes "priority") (codes "%d") none
  show_thread_scheduler policies (some (sched, priority)) =
      (lift (get_thread_scheduler_name policies sched) >>= λ name.
      entryf decode iswprint (codes "type") (codes "%s") (str name ∷ []))
      >> entryf decode iswprint (codes "priority") (codes "%d") (int priority ∷ [])

  abbrev pub show_concurrency : Option ℤ → Cmd State (Unit {0})
  show_concurrency none = pure tt
  show_concurrency (some n) = entryf decode iswprint (codes "concurrency") (codes "%d") (int n ∷ [])

  unfoldable pub show_threads : Map → Threads → Cmd State (Unit {0})
  show_threads policies t =
      header decode iswprint (codes "threads")
      >> (do
        entryf decode iswprint (codes "stack size") (codes "%lu bytes") (uint t.stack_size ∷ [])
        entryf decode iswprint (codes "scope") (codes "%s") (str (scope_name t.scope_system) ∷ [])
        show_number_or (codes "guard size") (codes "%lu bytes") (guard_arg t.guard_size)
        section_open decode iswprint (codes "scheduler")
            >> (show_thread_scheduler policies t.schedparam
                >> entryf decode iswprint (codes "inherit-scheduler attribute") (codes "%s")
                    (str (inherit_name t.inherit_sched) ∷ []))
            >> section_close
        show_concurrency t.concurrency)
      >> footer
