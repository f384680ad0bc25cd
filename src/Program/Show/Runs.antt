-- ===== src/Program/Show/Runs.antt =====
-- The documents that the functions with a heading and an operation of the platform display.
use procenv.Prelude.{ℕ, refl, Option, none, some, [], ◌∷◌, Bool, Bytes, ℤ, codes, Cmd, ◌>>◌}
use procenv.Pstring.{Decode}
use procenv.Printf.{int}
use procenv.Output.{State}
use procenv.Document.{Node, Nodes, Objects, section, container, nil, cons, end}
use procenv.Output.Elements.{section_open, section_close}
use procenv.Program.{call_op, entryf}
use procenv.Program.Emits.{
  Emits, EmitsObjects, nodes, append_nodes, ◌then◌, Emits-pure, EmitsObjects-pure, Emits-entryf,
  Emits-section, Emits-header, Emits-container,
}
use procenv.Program.Show.{
  Ops, Priority, show_in_section, show_in_container, op_section, show_priorities, show_cpu,
  show_memory,
}
use procenv.Program.Show.Meta.Runs.{field}

module _ (decode : Decode) (iswprint : ℕ → Bool) where
  -- What an operation displays: nothing if it is missing.
  pub data OpEmits : Option (Cmd State (Unit {0})) → Nodes → Type 0 where
    missing : OpEmits none nil
    present :
        {f : Cmd State (Unit {0})} {xs : Nodes} → Emits decode iswprint f xs → OpEmits (some f) xs

  pub data OpEmitsObjects : Option (Cmd State (Unit {0})) → Objects → Type 0 where
    missing : OpEmitsObjects none end
    present :
        {f : Cmd State (Unit {0})} {os : Objects}
        → EmitsObjects decode iswprint f os
        → OpEmitsObjects (some f) os

  pub call_op-Emits :
      {op : Option (Cmd State (Unit {0}))} {xs : Nodes}
      → OpEmits op xs
      → Emits decode iswprint (call_op op) xs
  call_op-Emits missing = Emits-pure decode iswprint
  call_op-Emits (present h) = h

  pub call_op-EmitsObjects :
      {op : Option (Cmd State (Unit {0}))} {os : Objects}
      → OpEmitsObjects op os
      → EmitsObjects decode iswprint (call_op op) os
  call_op-EmitsObjects missing = EmitsObjects-pure decode iswprint
  call_op-EmitsObjects (present h) = h

  -- A section around an operation that is provided.
  abbrev pub op_section_nodes : Bytes → Option (Cmd State (Unit {0})) → Nodes → Nodes
  op_section_nodes name none xs = nil
  op_section_nodes name (some f) xs = cons (section name xs) nil

  pub op_section-Emits :
      (name : Bytes) {op : Option (Cmd State (Unit {0}))} {xs : Nodes}
      → OpEmits op xs
      → Emits decode iswprint (op_section decode iswprint name op) (op_section_nodes name op xs)
  op_section-Emits name missing = Emits-pure decode iswprint
  op_section-Emits name (present h) = Emits-section decode iswprint name h

  pub show_in_section-Emits :
      (name : Bytes) {op : Option (Cmd State (Unit {0}))} {xs : Nodes}
      → OpEmits op xs
      → Emits decode iswprint (show_in_section decode iswprint name op) (cons (section name xs) nil)
  show_in_section-Emits name h = Emits-header decode iswprint name (call_op-Emits h)

  pub show_in_container-Emits :
      (name : Bytes) {op : Option (Cmd State (Unit {0}))} {os : Objects}
      → OpEmitsObjects op os
      → Emits decode iswprint
          (show_in_container decode iswprint name op)
          (cons (container name os) nil)
  show_in_container-Emits name h = Emits-container decode iswprint name (call_op-EmitsObjects h)

  abbrev pub priority_node : Priority → Node
  priority_node p = section (codes "priority") (
      nodes (
        field decode (codes "process") (codes "%d") (int p.process ∷ [])
        ∷ field decode (codes "process group") (codes "%d") (int p.pgrp ∷ [])
        ∷ field decode (codes "user") (codes "%d") (int p.user ∷ [])
        ∷ []))

  abbrev pub scheduler_node : Ops → Priority → Nodes → Nodes → Node
  scheduler_node ops p type io = section (codes "scheduler") (
      append_nodes type (
        cons (priority_node p) (op_section_nodes (codes "I/O priority") ops.show_io_priorities io)))

  pub show_cpu-Emits :
      (ops : Ops) (p : Priority) {cpu affinities type io : Nodes}
      → OpEmits ops.show_cpu cpu
      → OpEmits ops.show_cpu_affinities affinities
      → OpEmits ops.handle_scheduler_type type
      → OpEmits ops.show_io_priorities io
      → Emits decode iswprint (show_cpu decode iswprint ops p) (
          cons
            (section (codes "cpu") (
              append_nodes cpu (append_nodes affinities (cons (scheduler_node ops p type io) nil))))
            nil)
  unfolding show_cpu show_priorities
  show_cpu-Emits ops p hc ha ht hi =
      let entry = Emits-entryf decode iswprint in
      let priority : Emits decode iswprint
          (section_open decode iswprint (codes "priority")
            >> (do
              entryf decode iswprint (codes "process") (codes "%d") (int p.process ∷ [])
              entryf decode iswprint (codes "process group") (codes "%d") (int p.pgrp ∷ [])
              entryf decode iswprint (codes "user") (codes "%d") (int p.user ∷ []))
            >> section_close)
          (cons (priority_node p) nil) =
        Emits-section decode iswprint (codes "priority")
          (entry _ _ _ refl then entry _ _ _ refl then entry _ _ _ refl) in
      let scheduler =
        Emits-section decode iswprint (codes "scheduler")
          (call_op-Emits ht then priority then op_section-Emits (codes "I/O priority") hi) in
      Emits-header decode iswprint (codes "cpu")
        (call_op-Emits hc then call_op-Emits ha then scheduler)

  pub show_memory-Emits :
      (ops : Ops) (pagesize : ℤ) {memory numa : Nodes}
      → OpEmits ops.handle_memory memory
      → OpEmits ops.handle_numa_memory numa
      → Emits decode iswprint (show_memory decode iswprint ops pagesize) (
          cons
            (section (codes "memory") (
              cons
                (field decode (codes "page size") (codes "%d bytes") (int pagesize ∷ []))
                (append_nodes memory numa)))
            nil)
  unfolding show_memory
  show_memory-Emits ops pagesize hm hn =
      Emits-header decode iswprint (codes "memory")
        (Emits-entryf decode iswprint _ _ _ refl then call_op-Emits hm then call_op-Emits hn)
