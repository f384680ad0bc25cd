-- ===== src/Program/Main.antt =====
-- The display options of `main` in src/procenv.c, and `dump`, which displays everything.
pub mod Displays
pub mod Runs
use procenv.Prelude.{
  ℕ, Option, none, some, List, [], ◌∷◌, ◌++◌, map, Bool, true, false, not, ◌&&◌, ◌||◌, ◌==◌,
  if◌then◌else◌, Bytes, ℤ, pos, negsuc, zero, suc, Outcome, ok, halt, undefined, died, Cmd, pure,
  stop, ◌>>=◌, ◌>>◌, codes,
}
use procenv.Pstring.{Decode, PString, pstring_new, pstring_chomp, then_do}
use procenv.Pstring.Compress.{pstring_compress}
use procenv.Output.{
  State, OutputFormat, xml, json, Output, file, same, common_assert, set_output_value,
  set_output_file, set_output_file_append, set_output_format, set_indent_amount, set_indent_char,
  set_text_separator, set_crumb_separator, reset_indent, handle_indent_char,
}
use procenv.Output.Elements.{lift}
use procenv.Output.Master.{Package, master_header, master_footer}
use procenv.Program.{each}
use procenv.Program.Environment.{atoi, or_tab, modify, set_output_value_raw, ArgArray}
use procenv.Program.Show.{
  Map, Ops, Priority, ShowMountType, all, mounts, pathconf, show_capabilities, show_cgroups,
  show_clocks, show_confstrs, show_fds, show_libs, show_msg_queues, show_namespaces, show_oom,
  show_rlimits, show_semaphores, show_shared_mem, show_timezone, show_mounts, show_cpu, show_memory,
}
use procenv.Program.Show.Meta.{
  Build, Utsname, show_meta, show_arguments, show_version, show_uname, show_env,
}
use procenv.Program.Show.Tables.{
  Threads, show_sysconf, show_rusage, show_sizeof, show_locale, show_threads,
}
use procenv.Program.Show.Machine.{Target, Clock, show_platform, show_time}
use procenv.Program.Show.Process.{sort_strings, Accounts, User, show_all_groups, show_proc}
use procenv.Program.Show.Signals.{SignalState, show_signals}
use procenv.Program.Show.Stat.{Files, Stat, show_stat}
use procenv.Program.Show.Network.{Families, Ifaddr, show_network}
use procenv.Program.Show.Misc.{MiscFacts, show_misc}

-- A display option: what each letter selects.
pub data Display : Type 0 where
  meta arguments libs libc cgroups cpu compiler env semaphores fds namespaces sizeof usage : Display
  misc uname clocks rlimits locale mounts_of msg_queues confstrs network oom proc platform : Display
  time ranges signals shared_mem tty threads stat rusage version capabilities : Display
  pathconf_of sysconf memory timezone : Display

-- The letters of the `switch`.
abbrev pub display_options : List (ℕ × Display)
display_options =
    (b'a', meta)
    ∷ (b'A', arguments)
    ∷ (b'b', libs)
    ∷ (b'B', libc)
    ∷ (b'c', cgroups)
    ∷ (b'C', cpu)
    ∷ (b'd', compiler)
    ∷ (b'e', env)
    ∷ (b'E', semaphores)
    ∷ (b'f', fds)
    ∷ (b'F', namespaces)
    ∷ (b'g', sizeof)
    ∷ (b'h', usage)
    ∷ (b'i', misc)
    ∷ (b'j', uname)
    ∷ (b'k', clocks)
    ∷ (b'l', rlimits)
    ∷ (b'L', locale)
    ∷ (b'm', mounts_of)
    ∷ (b'M', msg_queues)
    ∷ (b'n', confstrs)
    ∷ (b'N', network)
    ∷ (b'o', oom)
    ∷ (b'p', proc)
    ∷ (b'P', platform)
    ∷ (b'q', time)
    ∷ (b'r', ranges)
    ∷ (b's', signals)
    ∷ (b'S', shared_mem)
    ∷ (b't', tty)
    ∷ (b'T', threads)
    ∷ (b'u', stat)
    ∷ (b'U', rusage)
    ∷ (b'v', version)
    ∷ (b'w', capabilities)
    ∷ (b'x', pathconf_of)
    ∷ (b'y', sysconf)
    ∷ (b'Y', memory)
    ∷ (b'z', timezone)
    ∷ []

unfoldable pub find_display : ℕ → List (ℕ × Display) → Option Display
find_display c [] = none
find_display c ((l, d) ∷ m) = let rest = find_display c m in if c == l then some d else rest

-- What the program knows of its surroundings. The last five fields are display functions that are
-- not modelled.
pub record World : Type 0 where
  pub build_package : Package
  pub build : Build
  pub ops : Ops
  pub argv : List Bytes
  pub user : User
  pub accounts : Accounts
  pub getgroups : ℕ → Option (List ℕ)
  pub group_rounds : ℕ
  pub qsort : (Bytes → Bytes → ℤ) → List Bytes → List Bytes
  pub strcoll : Bytes → Bytes → ℤ
  pub environ : List Bytes
  pub getenv : Bytes → Option Bytes
  pub priority : Priority
  pub pagesize : ℤ
  pub uts : Utsname
  pub sysconf_map : Map
  pub sysconf : ℕ → ℤ
  pub rusage : Option (Bytes → ℕ)
  pub char_bit : ℕ
  pub types : Map
  pub locale_map : Map
  pub setlocale : ℕ → Option Bytes
  pub policies : Map
  pub threads : Threads
  pub target : Target
  pub clock : Option (Option Clock)
  pub sigprocmask : Bool
  pub signals : SignalState
  pub files : Files
  pub query : Bytes → Option (Bytes × Stat)
  pub program_name : Bytes
  pub families : Families
  pub ifaddrs : Option (List Ifaddr)
  pub misc : MiscFacts
  pub show_libc : Cmd State (Unit {0})
  pub show_compiler : Cmd State (Unit {0})
  pub show_ranges : Cmd State (Unit {0})
  pub show_tty_attrs : Cmd State (Unit {0})
  pub usage : Cmd State (Unit {0})

abbrev pub sort_of : World → List Bytes → List Bytes
sort_of w = sort_strings w.qsort w.strcoll

module _ (decode : Decode) (iswprint : ℕ → Bool) (w : World) where
  -- The `switch` of `main`. What `misc` and `proc` query anew is part of `w`.
  unfoldable pub show_display : Display → Cmd State (Unit {0})
  show_display meta = show_meta decode iswprint w.ops w.build w.user.euid
  show_display arguments = show_arguments decode iswprint w.argv
  show_display libs = show_libs decode iswprint w.ops
  show_display libc = w.show_libc
  show_display cgroups = show_cgroups decode iswprint w.ops
  show_display cpu = show_cpu decode iswprint w.ops w.priority
  show_display compiler = w.show_compiler
  show_display env = show_env decode iswprint (sort_of w) w.environ
  show_display semaphores = show_semaphores decode iswprint w.ops
  show_display fds = show_fds decode iswprint w.ops
  show_display namespaces = show_namespaces decode iswprint w.ops
  show_display sizeof = show_sizeof decode iswprint w.char_bit w.types
  show_display usage = w.usage
  show_display misc = show_misc decode iswprint w.ops w.misc
  show_display uname = show_uname decode iswprint w.uts
  show_display clocks = show_clocks decode iswprint w.ops
  show_display rlimits = show_rlimits decode iswprint w.ops
  show_display locale = show_locale decode iswprint w.getenv w.locale_map w.setlocale
  show_display mounts_of = show_mounts decode iswprint w.ops mounts
  show_display msg_queues = show_msg_queues decode iswprint w.ops
  show_display confstrs = show_confstrs decode iswprint w.ops
  show_display network = show_network decode iswprint w.ops w.families w.ifaddrs
  show_display oom = show_oom decode iswprint w.ops
  show_display proc =
      show_proc decode iswprint w.ops w.accounts w.user
        (show_all_groups decode iswprint w.group_rounds w.accounts (sort_of w) w.getgroups w.user)
  show_display platform = show_platform decode iswprint w.ops w.target
  show_display time = show_time decode iswprint w.clock
  show_display ranges = w.show_ranges
  show_display signals = show_signals decode iswprint w.ops w.sigprocmask w.signals
  show_display shared_mem = show_shared_mem decode iswprint w.ops
  show_display tty = w.show_tty_attrs
  show_display threads = show_threads decode iswprint w.policies w.threads
  show_display stat = show_stat decode iswprint w.files w.query w.accounts w.program_name
  show_display rusage = show_rusage decode iswprint w.rusage
  show_display version = show_version decode iswprint w.build
  show_display capabilities = show_capabilities decode iswprint w.ops
  show_display pathconf_of = show_mounts decode iswprint w.ops pathconf
  show_display sysconf = show_sysconf decode iswprint w.sysconf_map w.sysconf
  show_display memory = show_memory decode iswprint w.ops w.pagesize
  show_display timezone = show_timezone decode iswprint w.ops

  -- The calls of `dump`, in their order; its mounts are SHOW_ALL.
  abbrev pub dump_before_mounts : List Display
  dump_before_mounts =
      meta ∷ arguments ∷ capabilities ∷ cgroups ∷ clocks ∷ compiler ∷ confstrs ∷ cpu ∷ env ∷ fds
      ∷ libc ∷ libs ∷ rlimits ∷ locale ∷ memory ∷ msg_queues ∷ misc ∷ []

  abbrev pub dump_after_mounts : List Display
  dump_after_mounts =
      namespaces ∷ network ∷ oom ∷ platform ∷ proc ∷ ranges ∷ rusage ∷ semaphores ∷ shared_mem
      ∷ signals ∷ sizeof ∷ stat ∷ sysconf ∷ threads ∷ time ∷ timezone ∷ tty ∷ uname ∷ []

  unfoldable pub dump : Cmd State (Unit {0})
  dump =
      master_header w.build_package
      >> (do
        each show_display dump_before_mounts
        show_mounts decode iswprint w.ops all
        each show_display dump_after_mounts)
      >> master_footer w.build_package
