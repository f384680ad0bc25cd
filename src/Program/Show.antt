-- ===== src/Program/Show.antt =====
-- The display functions of src/procenv.c, and the table of operations of src/platform.h that they
-- call. Here are those that only head what an operation displays.
pub mod Runs
pub mod Process
pub mod Meta
pub mod Tables
pub mod Machine
pub mod Signals
pub mod Stat
pub mod Network
pub mod Misc
use procenv.Prelude.{
  ℕ, Option, none, some, List, Bool, true, false, Bytes, ℤ, pos, Outcome, ok, halt, died, undefined,
  Cmd, pure, stop, ◌>>=◌, ◌>>◌, codes, [], ◌∷◌,
}
use procenv.Pstring.{Decode}
use procenv.Printf.{int}
use procenv.Output.{State}
use procenv.Output.Elements.{
  header, footer, section_open, section_close, container_open, container_close,
}
use procenv.Program.{entryf, call_op}

pub data ShowMountType : Type 0 where
  all mounts pathconf : ShowMountType

-- A map of names is a list; its terminator is the list's end.
abbrev pub Map : Type 0
Map = List (Bytes × ℕ)

-- `struct procenv_ops`: a function that is not provided is none. A function that displays is its
-- calls of the output layer, and one that gets a value is the value.
pub record Ops : Type 0 where
  pub driver_name : Bytes
  pub driver_file : Bytes
  pub signal_map : Map
  pub if_flag_map : Map
  pub personality_map : Map
  pub personality_flag_map : Map
  pub get_kernel_bits : Option ℤ
  pub show_capabilities : Option (Cmd State (Unit {0}))
  pub show_cgroups : Option (Cmd State (Unit {0}))
  pub show_clocks : Option (Cmd State (Unit {0}))
  pub show_confstrs : Option (Cmd State (Unit {0}))
  pub show_cpu_affinities : Option (Cmd State (Unit {0}))
  pub show_cpu : Option (Cmd State (Unit {0}))
  pub show_extended_if_flags : Option (Bytes → Cmd State (Unit {0}))
  pub show_fds : Option (Cmd State (Unit {0}))
  pub show_io_priorities : Option (Cmd State (Unit {0}))
  pub show_mounts : Option (ShowMountType → Cmd State (Unit {0}))
  pub show_msg_queues : Option (Cmd State (Unit {0}))
  pub show_namespaces : Option (Cmd State (Unit {0}))
  pub show_oom : Option (Cmd State (Unit {0}))
  pub show_prctl : Option (Cmd State (Unit {0}))
  pub show_rlimits : Option (Cmd State (Unit {0}))
  pub show_security_module : Option (Cmd State (Unit {0}))
  pub show_semaphores : Option (Cmd State (Unit {0}))
  pub show_shared_mem : Option (Cmd State (Unit {0}))
  pub show_timezone : Option (Cmd State (Unit {0}))
  pub show_libs : Option (Cmd State (Unit {0}))
  pub handle_memory : Option (Cmd State (Unit {0}))
  pub handle_numa_memory : Option (Cmd State (Unit {0}))
  pub handle_proc_branch : Option (Cmd State (Unit {0}))
  pub handle_scheduler_type : Option (Cmd State (Unit {0}))
  pub in_vm : Option Bool

pub record Priority : Type 0 where
  pub process : ℤ
  pub pgrp : ℤ
  pub user : ℤ

abbrev pub mounts_name : ShowMountType → Bytes
mounts_name pathconf = codes "pathconf"
mounts_name _ = codes "mounts"

abbrev pub mounts_op :
    Option (ShowMountType → Cmd State (Unit {0})) → ShowMountType → Option (Cmd State (Unit {0}))
mounts_op none what = none
mounts_op (some f) what = some (f what)

module _ (decode : Decode) (iswprint : ℕ → Bool) where
  abbrev pub show_in_section : Bytes → Option (Cmd State (Unit {0})) → Cmd State (Unit {0})
  show_in_section name op = header decode iswprint name >> call_op op >> footer

  abbrev pub show_in_container : Bytes → Option (Cmd State (Unit {0})) → Cmd State (Unit {0})
  show_in_container name op = container_open decode iswprint name >> call_op op >> container_close

  -- `if (ops->show_x) { section_open (name); ops->show_x (); section_close (); }`
  abbrev pub op_section : Bytes → Option (Cmd State (Unit {0})) → Cmd State (Unit {0})
  op_section name none = pure tt
  op_section name (some f) = section_open decode iswprint name >> f >> section_close

-- `common_assert ()` in front of some of these is also the first step of `header`.
module _ (decode : Decode) (iswprint : ℕ → Bool) (ops : Ops) where
  unfoldable pub show_capabilities : Cmd State (Unit {0})
  show_capabilities = show_in_section decode iswprint (codes "capabilities") ops.show_capabilities

  unfoldable pub show_cgroups : Cmd State (Unit {0})
  show_cgroups = show_in_section decode iswprint (codes "cgroups") ops.show_cgroups

  unfoldable pub show_clocks : Cmd State (Unit {0})
  show_clocks = show_in_section decode iswprint (codes "clocks") ops.show_clocks

  unfoldable pub show_confstrs : Cmd State (Unit {0})
  show_confstrs = show_in_section decode iswprint (codes "confstr") ops.show_confstrs

  unfoldable pub show_fds : Cmd State (Unit {0})
  show_fds = show_in_container decode iswprint (codes "file descriptors") ops.show_fds

  unfoldable pub show_libs : Cmd State (Unit {0})
  show_libs = show_in_container decode iswprint (codes "libraries") ops.show_libs

  unfoldable pub show_msg_queues : Cmd State (Unit {0})
  show_msg_queues = show_in_section decode iswprint (codes "message queues") ops.show_msg_queues

  unfoldable pub show_namespaces : Cmd State (Unit {0})
  show_namespaces = show_in_container decode iswprint (codes "namespaces") ops.show_namespaces

  unfoldable pub show_oom : Cmd State (Unit {0})
  show_oom = show_in_section decode iswprint (codes "oom") ops.show_oom

  unfoldable pub show_rlimits : Cmd State (Unit {0})
  show_rlimits = show_in_section decode iswprint (codes "limits") ops.show_rlimits

  unfoldable pub show_semaphores : Cmd State (Unit {0})
  show_semaphores = show_in_section decode iswprint (codes "semaphores") ops.show_semaphores

  unfoldable pub show_shared_mem : Cmd State (Unit {0})
  show_shared_mem = show_in_section decode iswprint (codes "shared memory") ops.show_shared_mem

  unfoldable pub show_timezone : Cmd State (Unit {0})
  show_timezone = show_in_section decode iswprint (codes "timezone") ops.show_timezone

  unfoldable pub show_mounts : ShowMountType → Cmd State (Unit {0})
  show_mounts what =
      show_in_section decode iswprint (mounts_name what) (mounts_op ops.show_mounts what)

  unfoldable pub show_priorities : Priority → Cmd State (Unit {0})
  show_priorities p =
      section_open decode iswprint (codes "scheduler")
      >> (do
        call_op ops.handle_scheduler_type
        section_open decode iswprint (codes "priority")
            >> (do
              entryf decode iswprint (codes "process") (codes "%d") (int p.process ∷ [])
              entryf decode iswprint (codes "process group") (codes "%d") (int p.pgrp ∷ [])
              entryf decode iswprint (codes "user") (codes "%d") (int p.user ∷ []))
            >> section_close
        op_section decode iswprint (codes "I/O priority") ops.show_io_priorities)
      >> section_close

  unfoldable pub show_cpu : Priority → Cmd State (Unit {0})
  show_cpu p =
      header decode iswprint (codes "cpu")
      >> (do call_op ops.show_cpu; call_op ops.show_cpu_affinities; show_priorities p)
      >> footer

  unfoldable pub show_memory : ℤ → Cmd State (Unit {0})
  show_memory pagesize =
      header decode iswprint (codes "memory")
      >> (do
        entryf decode iswprint (codes "page size") (codes "%d bytes") (int pagesize ∷ [])
        call_op ops.handle_memory
        call_op ops.handle_numa_memory)
      >> footer
