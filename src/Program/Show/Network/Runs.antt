-- ===== src/Program/Show/Network/Runs.antt =====
-- The document that `show_network` displays.
use procenv.Prelude.{
  ℕ, zero, suc, refl, Option, none, some, [], ◌∷◌, Bool, true, false, ◌==◌, Bytes, ℤ, pos, negsuc,
  codes, Bool-cases, inl, inr,
}
use procenv.Pstring.{Decode}
use procenv.Printf.{str, int, uint}
use procenv.Document.{Node, Nodes, Objects, section, container, nil, cons, end, object}
use procenv.Program.Emits.{
  Emits, EmitsObjects, nodes, append_nodes, ◌then◌, Emits-pure, EmitsObjects-pure, Emits-entryf,
  Emits-section, Emits-container, EmitsObjects-object,
}
use procenv.Program.Show.{Map, Ops}
use procenv.Program.Show.Runs.{OpEmitsObjects, call_op-EmitsObjects}
use procenv.Program.Show.Network.{
  Sockaddr, Ifaddr, Families, has_flag, get_network_address, get_net_family_name, or_na,
  address_or_na, extended_op, show_flag, decode_if_flags, show_flags, show_extended_flags, show_mtu,
  show_if_flag, show_broadcast, show_if_at,
}
use procenv.Program.Show.Meta.Runs.{field, string_field}

module _ (decode : Decode) where
  -- An object for each flag that is set.
  abbrev pub flag_objects : Map → ℕ → Objects
  flag_objects [] flags = end
  flag_objects ((name, num) ∷ m) flags = elim (has_flag flags num) [
    | false ↦ flag_objects m flags
    | true ↦
        object (cons (field decode name (codes "0x%x") (uint num ∷ [])) nil) (flag_objects m flags)
  ]

  abbrev pub fields_node : Bytes → ℕ → Objects → Node
  fields_node name value os = section name (
      nodes (
        field decode (codes "value") (codes "0x%x") (uint value ∷ [])
        ∷ container (codes "fields") os
        ∷ []))

  abbrev pub mtu_node : ℤ → Node
  mtu_node (pos (suc n)) = field decode (codes "mtu") (codes "%d") (int (pos (suc n)) ∷ [])
  mtu_node _ = string_field decode (codes "mtu") (codes "unknown")

  -- An entry for an address that is there and whose flag is set.
  abbrev pub if_flag_nodes : Families → Bytes → ℕ → ℕ → ℕ → Option Sockaddr → Nodes
  if_flag_nodes k name family flags num none = nil
  if_flag_nodes k name family flags num (some a) = elim (has_flag flags num) [
    | false ↦ nil
    | true ↦ cons (string_field decode name (get_network_address k a family)) nil
  ]

  abbrev pub broadcast_nodes : Families → ℕ → Ifaddr → Nodes
  broadcast_nodes k family i = elim (family == k.link_level) [
    | true ↦ cons (string_field decode (codes "broadcast") (codes "n/a")) nil
    | false ↦ if_flag_nodes k (codes "broadcast") family i.ifa_flags k.iff_broadcast i.ifa_broadaddr
  ]

  -- An interface with its address; `ext` is what the platform displays of its extended flags.
  abbrev pub if_node : Ops → Families → (Bytes → Objects) → Sockaddr → Ifaddr → Option Bytes → Node
  if_node ops k ext a i mac = section i.ifa_name (
      append_nodes
        (nodes (
          field decode (codes "family") (codes "%s (0x%x)")
            (str (get_net_family_name k a.family) ∷ uint a.family ∷ [])
          ∷ fields_node (codes "flags") i.ifa_flags (flag_objects ops.if_flag_map i.ifa_flags)
          ∷ fields_node (codes "extended flags") 0 (ext i.ifa_name)
          ∷ string_field decode (codes "mac") (or_na mac)
          ∷ mtu_node i.mtu
          ∷ string_field decode (codes "address") (get_network_address k a a.family)
          ∷ string_field decode (codes "netmask") (address_or_na k a.family i.ifa_netmask)
          ∷ []))
        (append_nodes (broadcast_nodes k a.family i) (
          if_flag_nodes k (codes "point-to-point") a.family i.ifa_flags k.iff_pointopoint
            i.ifa_dstaddr)))

module _ (decode : Decode) (iswprint : ℕ → Bool) (ops : Ops) (k : Families) where
  flags-EmitsObjects :
      (m : Map) (flags : ℕ)
      → EmitsObjects decode iswprint
          (decode_if_flags decode iswprint ops k m flags)
          (flag_objects decode m flags)
  unfolding decode_if_flags show_flag
  flags-EmitsObjects [] flags = EmitsObjects-pure decode iswprint
  flags-EmitsObjects ((name, num) ∷ m) flags = elim (Bool-cases (has_flag flags num)) [
    | inl e ↦
        rw (decode_if_flags, flag_objects, e)
          (EmitsObjects-object decode iswprint (Emits-entryf decode iswprint _ _ _ refl)
            (flags-EmitsObjects m flags))
    | inr e ↦ rw (decode_if_flags, flag_objects, e) (flags-EmitsObjects m flags)
  ]

  show_flags-Emits :
      (i : Ifaddr)
      → Emits decode iswprint (show_flags decode iswprint ops k i) (
          cons
            (fields_node decode
              (codes "flags")
              i.ifa_flags
              (flag_objects decode ops.if_flag_map i.ifa_flags))
            nil)
  unfolding show_flags
  show_flags-Emits i = Emits-section decode iswprint (codes "flags") (
      Emits-entryf decode iswprint _ _ _ refl
      then Emits-container decode iswprint (codes "fields")
          (flags-EmitsObjects ops.if_flag_map i.ifa_flags))

  mtu-Emits :
      (n : ℤ)
      → Emits decode iswprint (show_mtu decode iswprint ops k n) (cons (mtu_node decode n) nil)
  unfolding show_mtu
  mtu-Emits (pos zero) = Emits-entryf decode iswprint _ _ _ refl
  mtu-Emits (pos (suc n)) = Emits-entryf decode iswprint _ _ _ refl
  mtu-Emits (negsuc n) = Emits-entryf decode iswprint _ _ _ refl

  if_flag-Emits :
      (name : Bytes) (family flags num : ℕ) (o : Option Sockaddr)
      → Emits decode iswprint
          (show_if_flag decode iswprint ops k name family flags num o)
          (if_flag_nodes decode k name family flags num o)
  unfolding show_if_flag
  if_flag-Emits name family flags num none = Emits-pure decode iswprint
  if_flag-Emits name family flags num (some a) = elim (Bool-cases (has_flag flags num)) [
    | inl e ↦ rw (show_if_flag, if_flag_nodes, e) (Emits-entryf decode iswprint _ _ _ refl)
    | inr e ↦ rw (show_if_flag, if_flag_nodes, e) (Emits-pure decode iswprint)
  ]

  broadcast-Emits :
      (family : ℕ) (i : Ifaddr)
      → Emits decode iswprint
          (show_broadcast decode iswprint ops k family i)
          (broadcast_nodes decode k family i)
  unfolding show_broadcast
  broadcast-Emits family i = elim (Bool-cases (family == k.link_level)) [
    | inl e ↦ rw (show_broadcast, broadcast_nodes, e) (Emits-entryf decode iswprint _ _ _ refl)
    | inr e ↦
        rw (show_broadcast, broadcast_nodes, e)
          (if_flag-Emits (codes "broadcast") family i.ifa_flags k.iff_broadcast i.ifa_broadaddr)
  ]

  module _ (ext : Bytes → Objects)
      (extended : (name : Bytes)
        → OpEmitsObjects decode iswprint
            (extended_op ops.show_extended_if_flags name)
            (ext name)) where
    extended-Emits :
        (i : Ifaddr)
        → Emits decode iswprint
            (show_extended_flags decode iswprint ops k i)
            (cons (fields_node decode (codes "extended flags") 0 (ext i.ifa_name)) nil)
    unfolding show_extended_flags
    extended-Emits i = Emits-section decode iswprint (codes "extended flags") (
        Emits-entryf decode iswprint _ _ _ refl
        then Emits-container decode iswprint (codes "fields")
            (call_op-EmitsObjects decode iswprint (extended i.ifa_name)))

    pub show_if_at-Emits :
        (a : Sockaddr) (i : Ifaddr) (mac : Option Bytes)
        → Emits decode iswprint
            (show_if_at decode iswprint ops k a i mac)
            (cons (if_node decode ops k ext a i mac) nil)
    unfolding show_if_at
    show_if_at-Emits a i mac =
        let entry = Emits-entryf decode iswprint in
        Emits-section decode iswprint i.ifa_name (
          entry _ _ _ refl
          then show_flags-Emits i
          then extended-Emits i
          then entry _ _ _ refl
          then mtu-Emits i.mtu
          then entry _ _ _ refl
          then entry _ _ _ refl
          then broadcast-Emits a.family i
          then if_flag-Emits (codes "point-to-point") a.family i.ifa_flags k.iff_pointopoint
              i.ifa_dstaddr)
