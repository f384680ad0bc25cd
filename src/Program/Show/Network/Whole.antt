-- ===== src/Program/Show/Network/Whole.antt =====
-- `show_network` as a whole: its loops display the plan.
use procenv.Prelude.{
  ℕ, ◌≢◌, refl, Option, none, some, List, [], ◌∷◌, Bool, Bytes, codes, All, Bool-cases, inl, inr,
  ◌↔◌,
}
use procenv.Pstring.{Decode}
use procenv.Output.{same}
use procenv.Document.{Nodes, Objects, section, nil, cons}
use procenv.Program.{each}
use procenv.Program.Emits.{Emits, append_nodes, ◌then◌, Emits-pure, Emits-header}
use procenv.Program.Show.{Ops}
use procenv.Program.Show.Runs.{OpEmitsObjects}
use procenv.Program.Show.Network.{
  Sockaddr, Ifaddr, Families, Cache, get_mac_address, take_cached, extended_op, role_of,
  show_if_addr, show_network_if, show_interfaces, show_network,
}
use procenv.Program.Show.Network.Plan.{
  Plan, plan, Role-cases, not_passed, Shows, HasEntry, plan-exact,
}
use procenv.Program.Show.Network.Runs.{if_node, show_if_at-Emits}

abbrev HasAddress : Ifaddr × Option Bytes → Type 0
HasAddress p = p.0.ifa_addr ≢ none

abbrev pub addr_nodes :
    Decode → Ops → Families → (Bytes → Objects) → Option Sockaddr → Ifaddr → Option Bytes → Nodes
addr_nodes decode ops k ext none i mac = nil
addr_nodes decode ops k ext (some a) i mac = cons (if_node decode ops k ext a i mac) nil

-- A node for each entry of a plan that has an address.
abbrev pub plan_nodes : Decode → Ops → Families → (Bytes → Objects) → Plan → Nodes
plan_nodes decode ops k ext [] = nil
plan_nodes decode ops k ext ((i, mac) ∷ p) =
    append_nodes (addr_nodes decode ops k ext i.ifa_addr i mac) (plan_nodes decode ops k ext p)

take-All :
    (name : Bytes) (cache : Cache)
    → All HasAddress cache
    → All HasAddress (take_cached name cache).1
unfolding take_cached
take-All name [] h = tt
take-All name ((i, mac) ∷ cache) h = elim (Bool-cases (same i.ifa_name name)) [
  | inl e ↦ rw e h.1
  | inr e ↦ rw e (h.0, take-All name cache h.1)
]

module _ (decode : Decode) (iswprint : ℕ → Bool) (ops : Ops) (k : Families) (ext : Bytes → Objects)
    (extended : (name : Bytes)
      → OpEmitsObjects decode iswprint
          (extended_op ops.show_extended_if_flags name)
          (ext name)) where
  addr-Emits :
      (o : Option Sockaddr) (i : Ifaddr) (mac : Option Bytes)
      → o ≢ none
      → Emits decode iswprint
          (show_if_addr decode iswprint ops k o i mac)
          (addr_nodes decode ops k ext o i mac)
  unfolding show_if_addr
  addr-Emits none i mac h = absurd (h refl)
  addr-Emits (some a) i mac h = show_if_at-Emits decode iswprint ops k ext extended a i mac

  each-Emits :
      (p : Plan)
      → All HasAddress p
      → Emits decode iswprint
          (each (show_network_if decode iswprint ops k) p)
          (plan_nodes decode ops k ext p)
  unfolding each show_network_if
  each-Emits [] h = Emits-pure decode iswprint
  each-Emits ((i, mac) ∷ p) h = addr-Emits i.ifa_addr i mac h.0 then each-Emits p h.1

  interfaces-Emits :
      (is : List Ifaddr) (cache : Cache)
      → All HasAddress cache
      → Emits decode iswprint
          (show_interfaces decode iswprint ops k is cache)
          (plan_nodes decode ops k ext (plan k is cache))
  unfolding show_interfaces plan show_network_if
  interfaces-Emits [] cache h = each-Emits cache h
  interfaces-Emits (i ∷ is) cache h = elim (Role-cases (role_of k i.ifa_addr)) [
    | inl e ↦ rw (show_interfaces, plan, e) (interfaces-Emits is cache h)
    | inr f ↦ elim f [
      | inl e ↦
          rw (show_interfaces, plan, e)
            (interfaces-Emits is ((i, get_mac_address i) ∷ cache)
              (not_passed k i.ifa_addr (rw e (λ q. cc)), h))
      | inr e ↦
          rw (show_interfaces, plan, e)
            (addr-Emits i.ifa_addr i (take_cached i.ifa_name cache).0
                (not_passed k i.ifa_addr (rw e (λ q. cc)))
              then interfaces-Emits is (take_cached i.ifa_name cache).1
                  (take-All i.ifa_name cache h))
    ]
  ]

  -- `show_network` displays a section with the plan of the interfaces.
  pub show_network-Emits :
      (is : List Ifaddr)
      → Emits decode iswprint
          (show_network decode iswprint ops k (some is))
          (cons (section (codes "network") (plan_nodes decode ops k ext (plan k is []))) nil)
  unfolding show_network
  show_network-Emits is = Emits-header decode iswprint (codes "network") (interfaces-Emits is [] tt)

  -- `show_network` displays, in one section, a section for each entry of a list of interfaces, and
  -- these are exactly the interfaces with an address: a name is displayed if and only if an entry of
  -- what `getifaddrs` gives has that name and an address, whether the entry is one of the link level
  -- or not, and wherever it stands. Condition: what the platform displays as extended flags is a run
  -- of objects.
  pub show_network-exact :
      (is : List Ifaddr) (n : Bytes)
      → Emits decode iswprint
          (show_network decode iswprint ops k (some is))
          (cons (section (codes "network") (plan_nodes decode ops k ext (plan k is []))) nil)
        × (Shows n (plan k is []) ↔ HasEntry n is)
  show_network-exact is n = (show_network-Emits is, plan-exact k is n)
