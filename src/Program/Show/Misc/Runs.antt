-- ===== src/Program/Show/Misc/Runs.antt =====
-- The document that `show_misc` displays.
use Prim.Native.Nat.{bit_and}
use procenv.Prelude.{
  ℕ, ◌/◌, ◌%◌, ◌^◌, ◌-◌, ◌≡◌, refl, ap, Option, none, some, [], ◌∷◌, Bool, ok, codes,
}
use procenv.Pstring.{Decode}
use procenv.Printf.{str, uint}
use procenv.Output.{State}
use procenv.Output.Elements.{lift}
use procenv.Document.{Node, Nodes, section, nil, cons}
use procenv.Util.{in_chroot, container_type}
use procenv.Program.{yes_or_no, or_unknown, or_empty}
use procenv.Program.Emits.{
  Emits, nodes, append_nodes, ◌then◌, Emits-pure, Emits-entryf, Emits-section, Emits-header,
  Emits-after,
}
use procenv.Program.Show.{Ops}
use procenv.Program.Show.Runs.{OpEmits, op_section_nodes, op_section-Emits}
use procenv.Program.Show.Misc.{
  MiscFacts, per_mask, get_personality_name, get_personality_flags, root_quote, vm_name,
  show_headers_version, show_personality, show_misc,
}
use procenv.Program.Show.Misc.Personality.{set_names, list_of, get_personality_flags_lem}
use procenv.Program.Show.Meta.Runs.{field, string_field}

module _ (decode : Decode) where
  abbrev pub headers_nodes : Option ℕ → Nodes
  headers_nodes none = nil
  headers_nodes (some v) =
      cons
        (field decode (codes "kernel headers version") (codes "%u.%u.%u")
          (uint (v / 2 ^ 16) ∷ uint ((v / 2 ^ 8) % 2 ^ 8) ∷ uint (v % 2 ^ 8) ∷ []))
        nil

  -- The name of the domain, and the names of the flags above it.
  abbrev pub personality_node : Ops → ℕ → Node
  personality_node ops domain = section (codes "personality") (
      nodes (
        string_field decode (codes "type")
          (or_unknown (get_personality_name ops.personality_map (bit_and domain per_mask)))
        ∷ string_field decode (codes "flags") (
            or_empty
              (list_of (set_names ops.personality_flag_map (domain - bit_and domain per_mask))))
        ∷ []))

  abbrev pub misc_node : Ops → MiscFacts → Bool → Nodes → Nodes → Node
  misc_node ops m chroot prctl security = section (codes "misc") (
      append_nodes
        (nodes (
          field decode (codes "umask") (codes "%4.4o") (uint m.umask_value ∷ [])
          ∷ field decode (codes "current directory (cwd)") (codes "'%s'") (str m.cwd ∷ [])
          ∷ field decode (codes "root") (codes "%s%s%s")
              (str (root_quote m.root) ∷ str m.root ∷ str (root_quote m.root) ∷ [])
          ∷ string_field decode (codes "chroot") (yes_or_no chroot)
          ∷ string_field decode (codes "container") (container_type m.container)
          ∷ string_field decode (codes "vm") (vm_name ops.in_vm)
          ∷ []))
        (append_nodes prctl (
          append_nodes security (
            append_nodes (headers_nodes m.linux_version_code)
              (cons (personality_node ops m.personality) nil)))))

module _ (decode : Decode) (iswprint : ℕ → Bool) where
  headers-Emits :
      (v : Option ℕ)
      → Emits decode iswprint (show_headers_version decode iswprint v) (headers_nodes decode v)
  unfolding show_headers_version
  headers-Emits none = Emits-pure decode iswprint
  headers-Emits (some v) = Emits-entryf decode iswprint _ _ _ refl

  personality-Emits :
      (ops : Ops) (domain : ℕ)
      → Emits decode iswprint
          (show_personality decode iswprint ops domain)
          (cons (personality_node decode ops domain) nil)
  unfolding show_personality
  personality-Emits ops domain =
      let flags = domain - bit_and domain per_mask in
      let list = get_personality_flags ops.personality_flag_map flags in
      let listed : (s : State)
          → lift list s ≡ ok (list_of (set_names ops.personality_flag_map flags), s) =
        λ s. ap (λ o. lift o s) (get_personality_flags_lem ops.personality_flag_map flags) in
      Emits-section decode iswprint (codes "personality") (
        Emits-entryf decode iswprint _ _ _ refl
        then Emits-after (lift list) (list_of (set_names ops.personality_flag_map flags)) _ listed
            (Emits-entryf decode iswprint _ _ _ refl))

  -- `show_misc` displays the umask, the directories, whether the process is in a chroot, a container
  -- or a virtual machine, and the personality, with the names of all of its flags. Conditions: the
  -- root directory can be queried, and the platform displays nodes.
  pub show_misc-Emits :
      (ops : Ops) (m : MiscFacts) (chroot : Bool) {prctl security : Nodes}
      → in_chroot m.roots ≡ ok chroot
      → OpEmits decode iswprint ops.show_prctl prctl
      → OpEmits decode iswprint ops.show_security_module security
      → Emits decode iswprint (show_misc decode iswprint ops m) (
          cons
            (misc_node decode ops m chroot
              (op_section_nodes decode iswprint (codes "prctl") ops.show_prctl prctl)
              (op_section_nodes decode iswprint
                (codes "security module")
                ops.show_security_module
                security))
            nil)
  unfolding show_misc
  show_misc-Emits ops m chroot h hp hs =
      let entry = Emits-entryf decode iswprint in
      let asked : (s : State) → lift (in_chroot m.roots) s ≡ ok (chroot, s) =
        λ s. ap (λ o. lift o s) h in
      Emits-header decode iswprint (codes "misc") (
        entry _ _ _ refl
        then entry _ _ _ refl
        then entry _ _ _ refl
        then Emits-after (lift (in_chroot m.roots)) chroot _ asked (entry _ _ _ refl)
        then entry _ _ _ refl
        then entry _ _ _ refl
        then op_section-Emits decode iswprint (codes "prctl") hp
        then op_section-Emits decode iswprint (codes "security module") hs
        then headers-Emits m.linux_version_code
        then personality-Emits ops m.personality)
