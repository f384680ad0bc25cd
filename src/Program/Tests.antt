-- ===== src/Program/Tests.antt =====
-- Small runs of the program.
use procenv.Program.Show.Process.Runs.{proc_node, AreNamed}
use mathlib.Core.List.Perm
use procenv.Prelude.{
  Option, Bytes, if◌then◌else◌, ◌≡◌, ◌↔◌, refl, none, some, [], ◌∷◌, false, pos, ok, halt,
  undefined, codes, arith,
}
use procenv.Pstring.{then_do, char_to_pstring, char_to_wchar, pstring_create}
use procenv.Printf.{vsnprintf, vswprintf}
use procenv.StringUtil.{wmappendva, wappendva, wappendva_loop, wappendva_finish, pstring_of_buffer}
use procenv.Output.{State, initial, same, json, ElementType}
use procenv.Output.Elements.{name_to_wide_name, name_text, value_text}
use procenv.Output.Elements.Steps.{on, indentation, IsReady}
use procenv.Output.Encode.{
  encode_string, output_translate, extra_of, extra_for, encode_non_printables, non_printables,
}
use procenv.Document.{Nodes, nil, cons, end, section, EncodesNodes, room}
use procenv.Document.Json.Whole.{json_document}
use procenv.Program.Emits.{Emits}
use procenv.Program.Fails.{Fails}
use procenv.Program.Environment.{exec_args_of}
use procenv.Program.Environment.Exec.{Splits, exec_args_of-Splits}
use procenv.Program.Tokens.{fields}
use procenv.Program.Show.Runs.{missing}
use procenv.Program.Show.Meta.Runs.{string_field, version_node}
use procenv.Program.Show.Tables.{thread_sched_policy_map, show_thread_scheduler}
use procenv.Program.Show.Tables.Runs.{show_thread_scheduler_overrun}
use procenv.Program.Show.Process.{qsort_compar, sort_strings, query_groups, groups_value}
use procenv.Program.Show.Process.Groups.{group_line, Sorts, IsList, groups_value_sorted, answer}
use procenv.Program.Show.Stat.{Files, has_slash, get_path, format_perms}
use procenv.Program.Show.Stat.Path.{with_slash, no_slash, get_path-first, get_path-empty_element}
use procenv.Program.Show.Stat.Perms.{mode_of, o4, o5, o7, format_perms-octal}
use procenv.Program.Show.Network.{show_network}
use procenv.Program.Show.Network.Plan.{plan, Shows, HasEntry}
use procenv.Program.Show.Network.Whole.{plan_nodes, show_network-exact}
use procenv.Program.Show.Misc.{get_personality_flags}
use procenv.Program.Show.Misc.Personality.{get_personality_flags_lem}
use procenv.Program.Main.{World, proc, version, find_display, show_display}
use procenv.Program.Main.Displays.{of_proc, groups_text, of_version}
use procenv.Program.Main.Runs.{show_display-Emits}
use procenv.Program.Options.{letter, long, flags_of, options_loop, run_main, main}
use procenv.Program.Options.Single.{run_main-json}
use procenv.Program.Options.Whole.{json_start, command_of, main-json}
use procenv.Program.Options.Order.{late_option-Fails}
use procenv.Program.TestData.{
  insertion_sort, strcmp, ascii, printable, no_ops, root_account, test_files, test_families,
  loopback, test_world,
}

-- A process with two supplementary groups.
abbrev grouped_world : World
grouped_world = record test_world { getgroups = answer (5 ∷ 0 ∷ []); group_rounds = 4 }

root-AreNamed : AreNamed root_account grouped_world.user
root-AreNamed = record { uid = refl; euid = refl; gid = refl; egid = refl }

show_display_example : Emits ascii printable (show_display ascii printable grouped_world proc) (
    cons
      (proc_node ascii nil root_account grouped_world.user
        (cons (string_field ascii (codes "groups") (groups_text grouped_world (5 ∷ 0 ∷ []))) nil))
      nil)
show_display_example = show_display-Emits ascii printable grouped_world (
    of_proc 5 (0 ∷ []) 3 missing root-AreNamed refl
      ((codes "wheel", refl), ((codes "wheel", refl), tt)) refl (omega arith))

-- procenv -U -A --format=json
late_option_example : Fails (
    options_loop ascii printable test_world
      (letter b'U' ∷ letter b'A' ∷ long (codes "format") (codes "json") ∷ [])
      (record { done = false; reexec = false; exec_args = none }))
late_option_example =
    late_option-Fails ascii printable test_world b'U' (letter b'A' ∷ []) (codes "format")
      (codes "json") [] (record { done = false; reexec = false; exec_args = none })
      (unfold same in refl)

exec_args_of_example : Splits (codes "ls -l  /") (exec_args_of (codes "ls -l  /"))
exec_args_of_example = exec_args_of-Splits (codes "ls -l  /")

-- A slash at the end of one element only.
abbrev files_with_slash : Files
files_with_slash = record test_files { path = codes "/opt:/bin/:/usr" }

get_path-first_example : get_path files_with_slash (codes "ls") ≡ ok (some (codes "/bin/ls"))
unfolding has_slash fields same
get_path-first_example =
    get_path-first files_with_slash (codes "ls") (codes "/opt" ∷ []) (codes "/usr" ∷ [])
      (codes "/bin/") (codes "/bin/ls") refl refl
      ((codes "/opt/ls", no_slash (codes "/op") b't' (omega arith), omega arith, refl), tt)
      (with_slash (codes "/bin"), omega arith, refl)

abbrev files_with_empty : Files
files_with_empty = record test_files { path = codes "/opt::/bin" }

get_path-empty_element_example : get_path files_with_empty (codes "ls") ≡ halt undefined
unfolding has_slash fields same
get_path-empty_element_example =
    get_path-empty_element files_with_empty (codes "ls") (codes "/opt" ∷ []) (codes "/bin" ∷ [])
      refl refl
      ((codes "/opt/ls", no_slash (codes "/op") b't' (omega arith), omega arith, refl), tt)

-- 4755 and a regular file
format_perms_example : format_perms (mode_of 8 o4 o7 o5 o5) ≡ codes "-rwsr-xr-x"
format_perms_example = format_perms-octal 8 o4 o7 o5 o5 (omega arith)

-- The names of the groups 5 and 0.
abbrev wheel_5 : Bytes
wheel_5 = group_line root_account 5

abbrev wheel_0 : Bytes
wheel_0 = group_line root_account 0

wheels-Sorts : Sorts insertion_sort (qsort_compar strcmp) (wheel_5 ∷ wheel_0 ∷ [])
unfolding vsnprintf qsort_compar
wheels-Sorts = record { rearranges = Perm.swap wheel_0 wheel_5 []; orders = (tt, tt) }

groups_value_example : IsList root_account insertion_sort strcmp 0 (5 ∷ 0 ∷ []) (
    then_do
      (query_groups 4 (answer (5 ∷ 0 ∷ [])) 32)
      (groups_value root_account (sort_strings insertion_sort strcmp) 0))
groups_value_example =
    groups_value_sorted root_account insertion_sort strcmp 0 5 (0 ∷ []) 3
      ((codes "wheel", refl), ((codes "wheel", refl), tt)) wheels-Sorts (omega arith)

get_personality_flags_example :
    get_personality_flags ((codes "A", 1) ∷ (codes "B", 2) ∷ (codes "C", 4) ∷ []) 5
    ≡ ok (some (codes "A, C"))
get_personality_flags_example =
    get_personality_flags_lem ((codes "A", 1) ∷ (codes "B", 2) ∷ (codes "C", 4) ∷ []) 5

abbrev json_state : State
json_state = record initial { output_format = json; wide_indent_char = b' ' }

-- SCHED_BATCH
show_thread_scheduler_example :
    show_thread_scheduler ascii printable
      (thread_sched_policy_map 0 1 2)
      (some (3, pos 0))
      json_state
    ≡ halt undefined
show_thread_scheduler_example =
    show_thread_scheduler_overrun ascii printable (thread_sched_policy_map 0 1 2) 3 (pos 0)
      json_state ((λ e. omega arith), ((λ e. omega arith), ((λ e. omega arith), tt)))

show_network_example :
    Emits ascii printable
      (show_network ascii printable no_ops test_families (some (loopback 17 ∷ loopback 2 ∷ [])))
      (cons
        (section (codes "network") (
          plan_nodes ascii no_ops test_families
            (λ n. end)
            (plan test_families (loopback 17 ∷ loopback 2 ∷ []) [])))
        nil)
    × (Shows (codes "lo") (plan test_families (loopback 17 ∷ loopback 2 ∷ []) [])
        ↔ HasEntry (codes "lo") (loopback 17 ∷ loopback 2 ∷ []))
show_network_example =
    show_network-exact ascii printable no_ops test_families (λ n. end) (λ n. missing)
      (loopback 17 ∷ loopback 2 ∷ []) (codes "lo")

json_state-IsReady : IsReady json_state 2
json_state-IsReady = record { amount = refl; wide = omega arith }

abbrev version_tree : Nodes
version_tree = cons (version_node ascii test_world.build) nil

version-EncodesNodes : EncodesNodes ascii printable json version_tree
unfolding EncodesNodes name_text value_text name_to_wide_name char_to_pstring char_to_wchar
    pstring_create encode_string output_translate extra_of extra_for encode_non_printables
    non_printables wmappendva wappendva wappendva_loop wappendva_finish pstring_of_buffer vswprintf
version-EncodesNodes = ((refl, ((refl, refl), ((refl, refl), ((refl, refl), tt)))), tt)

-- procenv -v
run_main_example :
    (l : ElementType) × (run_main ascii printable test_world
        (letter b'v' ∷ [])
        []
        (flags_of none)
        (on json_state [] 0 ElementType.no_element ElementType.no_element)
      ≡ ok (
        none,
        on json_state
            (json_document ascii printable (indentation json_state) 2 version_tree)
            0
            l
            ElementType.object_close,
      ))
unfolding find_display room
run_main_example =
    run_main-json ascii printable test_world json_state 2 json_state-IsReady refl
      (λ e. omega (arith, e)) b'v' version version_tree [] none refl of_version version-EncodesNodes
      (omega arith)

-- PROCENV_FORMAT=json PROCENV_EXEC="ls -l" procenv -v
abbrev two_settings : Bytes → Option Bytes
two_settings name =
    if same name (codes "PROCENV_FORMAT")
    then some (codes "json")
    else if same name (codes "PROCENV_EXEC")
    then some (codes "ls -l")
    else none

main_example :
    (l : ElementType) × (main ascii printable test_world two_settings (letter b'v' ∷ []) [] initial
      ≡ ok (
        some (command_of (codes "ls -l")),
        on json_start
            (json_document ascii printable (indentation json_start) 2 version_tree)
            0
            l
            ElementType.object_close,
      ))
unfolding find_display room same
main_example =
    main-json ascii printable test_world two_settings (codes "ls -l") b'v' version version_tree []
      refl refl (refl, (refl, (refl, (refl, (refl, (refl, (refl, tt))))))) refl refl of_version
      version-EncodesNodes (omega arith)
