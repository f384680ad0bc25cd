-- ===== src/Program/Main/Displays.antt =====
-- The documents that the display options write: a tree for each option, from what the program knows of
-- its surroundings.
use procenv.Prelude.{
  none, ℕ, suc, ◌≡◌, ◌≤◌, ◌<◌, some, List, [], ◌∷◌, ◌++◌, map, length, Bool, true, false, Bytes, ℤ,
  ok, codes, All,
}
use procenv.Pstring.{Decode}
use procenv.Printf.{int, uint, string}
use procenv.Document.{Nodes, Objects, section, container, nil, cons}
use procenv.Util.{in_chroot}
use procenv.Program.{or_unknown, has_null}
use procenv.Program.Emits.{map_nodes, append_nodes}
use procenv.Program.Show.{mounts, pathconf, mounts_op}
use procenv.Program.Show.Runs.{OpEmits, OpEmitsObjects, scheduler_node, op_section_nodes}
use procenv.Program.Show.Meta.Runs.{
  field, string_field, arguments_node, version_node, uname_node, env_nodes, IsVariable,
}
use procenv.Program.Show.Tables.{rusage_fields, get_thread_scheduler_name}
use procenv.Program.Show.Tables.Runs.{sysconf_node, sizeof_nodes, locale_node, threads_node}
use procenv.Program.Show.Machine.{Clock}
use procenv.Program.Show.Machine.Runs.{platform_node, time_node}
use procenv.Program.Show.Process.Runs.{proc_node, AreNamed}
use procenv.Program.Show.Process.Groups.{alone_value, IsNamed, group_line, comma_list, answer}
use procenv.Program.Show.Signals.Runs.{signal_objects}
use procenv.Program.Show.Stat.{Stat, get_path}
use procenv.Program.Show.Stat.Runs.{stat_node}
use procenv.Program.Show.Network.{Ifaddr, extended_op}
use procenv.Program.Show.Network.Plan.{plan}
use procenv.Program.Show.Network.Whole.{plan_nodes}
use procenv.Program.Show.Misc.Runs.{misc_node}
use procenv.Program.Main.{
  sort_of, Display, arguments, libs, cgroups, cpu, env, semaphores, fds, namespaces, sizeof, misc,
  uname, clocks, rlimits, locale, mounts_of, msg_queues, confstrs, network, oom, proc, platform,
  time, signals, shared_mem, threads, stat, rusage, version, capabilities, pathconf_of, sysconf,
  memory, timezone, World,
}

-- The value of the entry for the groups of a process.
abbrev pub groups_text : World → List ℕ → Bytes
groups_text w gs = codes " " ++ comma_list ((sort_of w) (map (group_line w.accounts) gs))

module _ (decode : Decode) (iswprint : ℕ → Bool) (w : World) where
  -- The tree that a display option writes. An operation of the platform displays what it displays, or is
  -- missing; where a query of the system may fail, it succeeds; each variable of the environment has
  -- a '='; and accounts and groups have names where the program prints them with no test.
  pub data Displays : Display → Nodes → Type 0 where
    of_arguments : Displays arguments (cons (arguments_node decode w.argv) nil)
    of_libs :
        {os : Objects}
        → OpEmitsObjects decode iswprint w.ops.show_libs os
        → Displays libs (cons (container (codes "libraries") os) nil)
    of_cgroups :
        {xs : Nodes}
        → OpEmits decode iswprint w.ops.show_cgroups xs
        → Displays cgroups (cons (section (codes "cgroups") xs) nil)
    of_cpu :
        {c a t io : Nodes}
        → OpEmits decode iswprint w.ops.show_cpu c
        → OpEmits decode iswprint w.ops.show_cpu_affinities a
        → OpEmits decode iswprint w.ops.handle_scheduler_type t
        → OpEmits decode iswprint w.ops.show_io_priorities io
        → Displays cpu (
            cons
              (section (codes "cpu") (
                append_nodes c (
                  append_nodes a
                    (cons (scheduler_node decode iswprint w.ops w.priority t io) nil))))
              nil)
    of_env :
        All IsVariable ((sort_of w) w.environ)
        → Displays env
            (cons (section (codes "environment") (env_nodes decode ((sort_of w) w.environ))) nil)
    of_semaphores :
        {xs : Nodes}
        → OpEmits decode iswprint w.ops.show_semaphores xs
        → Displays semaphores (cons (section (codes "semaphores") xs) nil)
    of_fds :
        {os : Objects}
        → OpEmitsObjects decode iswprint w.ops.show_fds os
        → Displays fds (cons (container (codes "file descriptors") os) nil)
    of_namespaces :
        {os : Objects}
        → OpEmitsObjects decode iswprint w.ops.show_namespaces os
        → Displays namespaces (cons (container (codes "namespaces") os) nil)
    of_sizeof : Displays sizeof (cons (sizeof_nodes decode w.char_bit w.types) nil)
    of_misc :
        {prctl security : Nodes} (chroot : Bool)
        → in_chroot w.misc.roots ≡ ok chroot
        → OpEmits decode iswprint w.ops.show_prctl prctl
        → OpEmits decode iswprint w.ops.show_security_module security
        → Displays misc (
            cons
              (misc_node decode w.ops w.misc chroot
                (op_section_nodes decode iswprint (codes "prctl") w.ops.show_prctl prctl)
                (op_section_nodes decode iswprint
                  (codes "security module")
                  w.ops.show_security_module
                  security))
              nil)
    of_uname : Displays uname (cons (uname_node decode w.uts) nil)
    of_clocks :
        {xs : Nodes}
        → OpEmits decode iswprint w.ops.show_clocks xs
        → Displays clocks (cons (section (codes "clocks") xs) nil)
    of_rlimits :
        {xs : Nodes}
        → OpEmits decode iswprint w.ops.show_rlimits xs
        → Displays rlimits (cons (section (codes "limits") xs) nil)
    of_locale : Displays locale (cons (locale_node decode w.getenv w.locale_map w.setlocale) nil)
    of_mounts :
        {xs : Nodes}
        → OpEmits decode iswprint (mounts_op w.ops.show_mounts mounts) xs
        → Displays mounts_of (cons (section (codes "mounts") xs) nil)
    of_msg_queues :
        {xs : Nodes}
        → OpEmits decode iswprint w.ops.show_msg_queues xs
        → Displays msg_queues (cons (section (codes "message queues") xs) nil)
    of_confstrs :
        {xs : Nodes}
        → OpEmits decode iswprint w.ops.show_confstrs xs
        → Displays confstrs (cons (section (codes "confstr") xs) nil)
    of_network :
        (ifs : List Ifaddr) (ext : Bytes → Objects)
        → w.ifaddrs ≡ some ifs
        → ((name : Bytes)
            → OpEmitsObjects decode iswprint
                (extended_op w.ops.show_extended_if_flags name)
                (ext name))
        → Displays network (
            cons
              (section
                (codes "network")
                (plan_nodes decode w.ops w.families ext (plan w.families ifs [])))
              nil)
    of_oom :
        {xs : Nodes}
        → OpEmits decode iswprint w.ops.show_oom xs
        → Displays oom (cons (section (codes "oom") xs) nil)
    of_proc :
        {branch : Nodes} (g : ℕ) (gs : List ℕ) (fuel : ℕ)
        → OpEmits decode iswprint w.ops.handle_proc_branch branch
        → AreNamed w.accounts w.user
        → w.getgroups ≡ answer (g ∷ gs)
        → All (IsNamed w.accounts) (g ∷ gs)
        → w.group_rounds ≡ suc fuel
        → length (g ∷ gs) < fuel
        → Displays proc (
            cons
              (proc_node decode branch w.accounts w.user
                (cons (string_field decode (codes "groups") (groups_text w (g ∷ gs))) nil))
              nil)
    of_proc_alone :
        {branch : Nodes} (fuel : ℕ)
        → OpEmits decode iswprint w.ops.handle_proc_branch branch
        → AreNamed w.accounts w.user
        → w.getgroups 32 ≡ some []
        → w.group_rounds ≡ suc fuel
        → Displays proc (
            cons
              (proc_node decode branch w.accounts w.user (
                cons
                  (string_field decode
                    (codes "groups")
                    (or_unknown (alone_value w.accounts w.user.passwd.pw_gid)))
                  nil))
              nil)
    of_platform :
        w.target.sizeof_pointer ≤ 8
        → Displays platform (cons (platform_node decode w.ops.get_kernel_bits w.target) nil)
    of_no_time : w.clock ≡ none → Displays time nil
    of_time : (c : Clock) → w.clock ≡ some (some c) → Displays time (cons (time_node decode c) nil)
    of_signals :
        w.sigprocmask ≡ true
        → Displays signals (
            cons
              (container
                (codes "signals")
                (signal_objects decode w.ops.signal_map w.signals (length w.ops.signal_map) 1))
              nil)
    of_shared_mem :
        {xs : Nodes}
        → OpEmits decode iswprint w.ops.show_shared_mem xs
        → Displays shared_mem (cons (section (codes "shared memory") xs) nil)
    of_threads :
        (sched : ℕ) (priority : ℤ) (name : Bytes)
        → w.threads.schedparam ≡ some (sched, priority)
        → get_thread_scheduler_name w.policies sched ≡ ok name
        → Displays threads (
            cons
              (threads_node decode w.threads
                (string_field decode (codes "type") name)
                (field decode (codes "priority") (codes "%d") (int priority ∷ [])))
              nil)
    of_stat :
        (p real_path : Bytes) (st : Stat)
        → get_path w.files w.program_name ≡ ok (some p)
        → w.query p ≡ some (real_path, st)
        → has_null (string (w.accounts.getpwuid st.st_uid) ∷ []) ≡ false
        → has_null (string (w.accounts.getgrgid st.st_uid) ∷ []) ≡ false
        → Displays stat (cons (stat_node decode w.accounts w.program_name real_path st) nil)
    of_rusage :
        (usage : Bytes → ℕ)
        → w.rusage ≡ some usage
        → Displays rusage (
            cons
              (section (codes "rusage") (
                map_nodes
                  (λ name. field decode name (codes "%lu") (uint (usage name) ∷ []))
                  rusage_fields))
              nil)
    of_version : Displays version (cons (version_node decode w.build) nil)
    of_capabilities :
        {xs : Nodes}
        → OpEmits decode iswprint w.ops.show_capabilities xs
        → Displays capabilities (cons (section (codes "capabilities") xs) nil)
    of_pathconf :
        {xs : Nodes}
        → OpEmits decode iswprint (mounts_op w.ops.show_mounts pathconf) xs
        → Displays pathconf_of (cons (section (codes "pathconf") xs) nil)
    of_sysconf : Displays sysconf (
        cons
          (section (codes "sysconf") (map_nodes (sysconf_node decode w.sysconf) w.sysconf_map))
          nil)
    of_memory :
        {m numa : Nodes}
        → OpEmits decode iswprint w.ops.handle_memory m
        → OpEmits decode iswprint w.ops.handle_numa_memory numa
        → Displays memory (
            cons
              (section (codes "memory") (
                cons
                  (field decode (codes "page size") (codes "%d bytes") (int w.pagesize ∷ []))
                  (append_nodes m numa)))
              nil)
    of_timezone :
        {xs : Nodes}
        → OpEmits decode iswprint w.ops.show_timezone xs
        → Displays timezone (cons (section (codes "timezone") xs) nil)
