-- ===== src/Program/Main/Runs.antt =====
-- Every display option writes its document.
use procenv.Program.{or_unknown}
use procenv.Prelude.{
  [], none, ℕ, suc, ◌≡◌, ◌<◌, refl, ap, sym, subst, some, List, ◌∷◌, length, Bool, ok, codes, All,
}
use procenv.Pstring.{Decode, then_do}
use procenv.Output.{State}
use procenv.Output.Elements.{lift}
use procenv.Document.{Nodes, nil, cons}
use procenv.Program.Emits.{Emits-pure, Emits, Emits-entryf, Emits-after}
use procenv.Program.Show.{
  show_capabilities, show_cgroups, show_clocks, show_confstrs, show_fds, show_libs, show_msg_queues,
  show_namespaces, show_oom, show_rlimits, show_semaphores, show_shared_mem, show_timezone,
  show_mounts,
}
use procenv.Program.Show.Runs.{
  call_op-Emits, show_in_section-Emits, show_in_container-Emits, show_cpu-Emits, show_memory-Emits,
}
use procenv.Program.Show.Meta.Runs.{
  string_field, show_arguments-Emits, show_version-Emits, show_uname-Emits, show_env-Emits,
}
use procenv.Program.Show.Tables.{show_rusage}
use procenv.Program.Show.Tables.Runs.{
  show_sysconf-Emits, show_rusage-Emits, show_sizeof-Emits, show_locale-Emits, show_threads-Emits,
}
use procenv.Program.Show.Machine.{show_time}
use procenv.Program.Show.Machine.Runs.{show_platform-Emits, show_time-Emits}
use procenv.Program.Show.Process.{query_groups, groups_value, show_all_groups}
use procenv.Program.Show.Process.Runs.{show_proc-Emits}
use procenv.Program.Show.Process.Groups.{
  query_groups_alone, alone_value, groups_value_alone, IsNamed, answer, groups_value_lem,
}
use procenv.Program.Show.Signals.{show_signals}
use procenv.Program.Show.Signals.Runs.{show_signals-Emits}
use procenv.Program.Show.Stat.Runs.{show_stat-Emits}
use procenv.Program.Show.Network.{show_network}
use procenv.Program.Show.Network.Whole.{show_network-Emits}
use procenv.Program.Show.Misc.Runs.{show_misc-Emits}
use procenv.Program.Main.{sort_of, Display, World, show_display}
use procenv.Program.Main.Displays.{
  groups_text, Displays, of_arguments, of_libs, of_cgroups, of_cpu, of_env, of_semaphores, of_fds,
  of_namespaces, of_sizeof, of_misc, of_uname, of_clocks, of_rlimits, of_locale, of_mounts,
  of_msg_queues, of_confstrs, of_network, of_oom, of_proc, of_proc_alone, of_no_time, of_platform,
  of_time, of_signals, of_shared_mem, of_threads, of_stat, of_rusage, of_version, of_capabilities,
  of_pathconf, of_sysconf, of_memory, of_timezone,
}

module _ (decode : Decode) (iswprint : ℕ → Bool) (w : World) where
  groups-Emits :
      (g : ℕ) (gs : List ℕ) (fuel : ℕ)
      → All (IsNamed w.accounts) (g ∷ gs)
      → length (g ∷ gs) < fuel
      → Emits decode iswprint
          (show_all_groups decode iswprint
            (suc fuel)
            w.accounts
            (sort_of w)
            (answer (g ∷ gs))
            w.user)
          (cons (string_field decode (codes "groups") (groups_text w (g ∷ gs))) nil)
  unfolding show_all_groups
  groups-Emits g gs fuel h le =
      let value =
        then_do (query_groups (suc fuel) (answer (g ∷ gs)) 32)
          (groups_value w.accounts (sort_of w) w.user.passwd.pw_gid) in
      let told : (s : State) → lift value s ≡ ok (some (groups_text w (g ∷ gs)), s) = λ s.
        ap (λ o. lift o s)
          (groups_value_lem w.accounts (sort_of w) w.user.passwd.pw_gid g gs fuel h le) in
      Emits-after (lift value) (some (groups_text w (g ∷ gs))) _ told
        (Emits-entryf decode iswprint _ _ _ refl)

  -- A process without supplementary groups.
  alone-Emits :
      (fuel : ℕ)
      → w.getgroups 32 ≡ some []
      → Emits decode iswprint
          (show_all_groups decode iswprint (suc fuel) w.accounts (sort_of w) w.getgroups w.user)
          (cons
            (string_field decode
              (codes "groups")
              (or_unknown (alone_value w.accounts w.user.passwd.pw_gid)))
            nil)
  unfolding show_all_groups
  alone-Emits fuel h =
      let value =
        then_do (query_groups (suc fuel) w.getgroups 32)
          (groups_value w.accounts (sort_of w) w.user.passwd.pw_gid) in
      let told : (s : State) → lift value s ≡ ok (alone_value w.accounts w.user.passwd.pw_gid, s) =
        λ s.
          rw
            (
              query_groups_alone w.getgroups fuel h,
              groups_value_alone w.accounts (sort_of w) w.user.passwd.pw_gid,
            )
            refl in
      Emits-after (lift value) (alone_value w.accounts w.user.passwd.pw_gid) _ told
        (Emits-entryf decode iswprint _ _ _ refl)

  no_time-Emits : Emits decode iswprint (show_time decode iswprint none) nil
  unfolding show_time
  no_time-Emits = Emits-pure decode iswprint

  -- Every display option but `meta` and the ones whose functions are not modelled writes the calls of
  -- one tree, or none: sections, containers and objects that are all closed again, with the entries
  -- that `Displays` lists for the option. Conditions, each for the options that it concerns: the
  -- platform's operations display trees; the queries of the system succeed; getgroups fails only
  -- while there is no room for the groups, and there are rounds enough for them; each variable of the
  -- environment has a '='; the users and groups that are printed with no test for NULL have names;
  -- the scheduling policy is in the map; and a pointer has at most 8 bytes.
  pub show_display-Emits :
      {d : Display} {xs : Nodes}
      → Displays decode iswprint w d xs
      → Emits decode iswprint (show_display decode iswprint w d) xs
  unfolding show_display show_capabilities show_cgroups show_clocks show_confstrs show_fds show_libs
      show_msg_queues show_namespaces show_oom show_rlimits show_semaphores show_shared_mem
      show_timezone show_mounts
  show_display-Emits of_arguments = show_arguments-Emits decode iswprint w.argv
  show_display-Emits (of_libs h) = show_in_container-Emits decode iswprint _ h
  show_display-Emits (of_cgroups h) = show_in_section-Emits decode iswprint _ h
  show_display-Emits (of_cpu hc ha ht hi) =
      show_cpu-Emits decode iswprint w.ops w.priority hc ha ht hi
  show_display-Emits (of_env h) = show_env-Emits decode iswprint (sort_of w) w.environ h
  show_display-Emits (of_semaphores h) = show_in_section-Emits decode iswprint _ h
  show_display-Emits (of_fds h) = show_in_container-Emits decode iswprint _ h
  show_display-Emits (of_namespaces h) = show_in_container-Emits decode iswprint _ h
  show_display-Emits of_sizeof = show_sizeof-Emits decode iswprint w.char_bit w.types
  show_display-Emits (of_misc chroot h hp hs) =
      show_misc-Emits decode iswprint w.ops w.misc chroot h hp hs
  show_display-Emits of_uname = show_uname-Emits decode iswprint w.uts
  show_display-Emits (of_clocks h) = show_in_section-Emits decode iswprint _ h
  show_display-Emits (of_rlimits h) = show_in_section-Emits decode iswprint _ h
  show_display-Emits of_locale = show_locale-Emits decode iswprint w.getenv w.locale_map w.setlocale
  show_display-Emits (of_mounts h) = show_in_section-Emits decode iswprint _ h
  show_display-Emits (of_msg_queues h) = show_in_section-Emits decode iswprint _ h
  show_display-Emits (of_confstrs h) = show_in_section-Emits decode iswprint _ h
  show_display-Emits {xs = xs} (of_network ifs ext h he) =
      subst (λ i. Emits decode iswprint (show_network decode iswprint w.ops w.families i) xs)
        (sym h) (show_network-Emits decode iswprint w.ops w.families ext he ifs)
  show_display-Emits (of_oom h) = show_in_section-Emits decode iswprint _ h
  show_display-Emits (of_proc g gs fuel hb hn ha hg hf le) =
      let asked = groups-Emits g gs fuel hg le in
      let groups : Emits decode iswprint
          (show_all_groups decode iswprint w.group_rounds w.accounts (sort_of w) w.getgroups w.user)
          (cons (string_field decode (codes "groups") (groups_text w (g ∷ gs))) nil) =
        subst
          (λ r.
            Emits decode iswprint
              (show_all_groups decode iswprint r w.accounts (sort_of w) w.getgroups w.user)
              (cons (string_field decode (codes "groups") (groups_text w (g ∷ gs))) nil))
          (sym hf)
          (subst
            (λ q.
              Emits decode iswprint
                (show_all_groups decode iswprint (suc fuel) w.accounts (sort_of w) q w.user)
                (cons (string_field decode (codes "groups") (groups_text w (g ∷ gs))) nil))
            (sym ha) asked) in
      show_proc-Emits decode iswprint w.ops w.accounts w.user (call_op-Emits decode iswprint hb) hn
        groups
  show_display-Emits (of_proc_alone fuel hb hn ha hf) =
      show_proc-Emits decode iswprint w.ops w.accounts w.user (call_op-Emits decode iswprint hb) hn
        (subst
          (λ r.
            Emits decode iswprint
              (show_all_groups decode iswprint r w.accounts (sort_of w) w.getgroups w.user)
              (cons
                (string_field decode (codes "groups")
                  (or_unknown (alone_value w.accounts w.user.passwd.pw_gid)))
                nil))
          (sym hf) (alone-Emits fuel ha))
  show_display-Emits (of_platform h) = show_platform-Emits decode iswprint w.ops w.target h
  show_display-Emits (of_no_time h) =
      subst (λ t. Emits decode iswprint (show_time decode iswprint t) nil) (sym h) no_time-Emits
  show_display-Emits {xs = xs} (of_time c h) =
      subst (λ t. Emits decode iswprint (show_time decode iswprint t) xs) (sym h)
        (show_time-Emits decode iswprint c)
  show_display-Emits {xs = xs} (of_signals h) =
      subst (λ b. Emits decode iswprint (show_signals decode iswprint w.ops b w.signals) xs) (sym h)
        (show_signals-Emits decode iswprint w.ops w.signals)
  show_display-Emits (of_shared_mem h) = show_in_section-Emits decode iswprint _ h
  show_display-Emits (of_threads sched priority name h e) =
      show_threads-Emits decode iswprint w.policies w.threads sched priority name h e
  show_display-Emits (of_stat p real_path st found queried user group) =
      show_stat-Emits decode iswprint w.files w.query w.accounts w.program_name p real_path st found
        queried user group
  show_display-Emits {xs = xs} (of_rusage usage h) =
      subst (λ u. Emits decode iswprint (show_rusage decode iswprint u) xs) (sym h)
        (show_rusage-Emits decode iswprint usage)
  show_display-Emits of_version = show_version-Emits decode iswprint w.build
  show_display-Emits (of_capabilities h) = show_in_section-Emits decode iswprint _ h
  show_display-Emits (of_pathconf h) = show_in_section-Emits decode iswprint _ h
  show_display-Emits of_sysconf = show_sysconf-Emits decode iswprint w.sysconf_map w.sysconf
  show_display-Emits (of_memory hm hn) = show_memory-Emits decode iswprint w.ops w.pagesize hm hn
  show_display-Emits (of_timezone h) = show_in_section-Emits decode iswprint _ h
