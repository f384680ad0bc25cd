-- ===== src/Program/Show/Network.antt =====
-- `show_network`, `show_network_if`, `decode_if_flags`, `get_network_address`, `get_mac_address`
-- and `get_net_family_name` of src/procenv.c.
pub mod Plan
pub mod Runs
pub mod Whole
use Prim.Native.Nat.{bit_and}
use procenv.Prelude.{
  ℕ, zero, suc, Option, none, some, List, [], ◌∷◌, ◌++◌, Bool, true, false, not, ◌&&◌, ◌||◌, ◌==◌,
  map, if◌then◌else◌, Bytes, ℤ, pos, negsuc, Cmd, pure, stop, undefined, ◌>>◌, codes,
}
use procenv.Pstring.{Decode}
use procenv.Printf.{Arg, str, int, uint, vsnprintf}
use procenv.Output.{State, same}
use procenv.Output.Elements.{
  header, footer, section_open, section_close, container_open, container_close, object_open,
  object_close,
}
use procenv.Program.{entryf, each, call_op, or_empty}
use procenv.Program.Show.{Map, Ops}

-- What `getnameinfo` says: the address as numbers, that there is none, or another failure.
pub data NameInfo : Type 0 where
  host : Bytes → NameInfo
  no_name : NameInfo
  failed : NameInfo

-- `struct sockaddr`: its family, and what `getnameinfo` says of it.
pub record Sockaddr : Type 0 where
  pub family : ℕ
  pub nameinfo : NameInfo

-- `struct ifaddrs`, with the six bytes of the hardware address that the system gives for it.
pub record Ifaddr : Type 0 where
  pub ifa_name : Bytes
  pub ifa_flags : ℕ
  pub ifa_addr : Option Sockaddr
  pub ifa_netmask : Option Sockaddr
  pub ifa_broadaddr : Option Sockaddr
  pub ifa_dstaddr : Option Sockaddr
  pub hwaddr : Option (List ℕ)
  pub mtu : ℤ

-- The numbers that the system's headers define.
pub record Families : Type 0 where
  pub af_inet : ℕ
  pub af_inet6 : ℕ
  pub link_level : ℕ
  pub iff_broadcast : ℕ
  pub iff_pointopoint : ℕ

-- `flags & num`
abbrev pub has_flag : ℕ → ℕ → Bool
has_flag flags num = not (bit_and flags num == 0)

unfoldable pub get_network_address : Families → Sockaddr → ℕ → Bytes
get_network_address k address family =
    if family == k.af_inet || family == k.af_inet6
    then elim address.nameinfo [ host h ↦ h | no_name ↦ codes "n/a" | failed ↦ codes "unknown" ]
    else codes "n/a"

unfoldable pub get_net_family_name : Families → ℕ → Bytes
get_net_family_name k family =
    if family == k.link_level
    then codes "AF_PACKET"
    else if family == k.af_inet
    then codes "AF_INET"
    else if family == k.af_inet6
    then codes "AF_INET6"
    else codes "unknown"

unfoldable pub any_set : List ℕ → Bool
any_set [] = false
any_set (b ∷ bs) = not (b == 0) || any_set bs

-- NULL for an address that the system does not give, or that is all zeros.
unfoldable pub get_mac_address : Ifaddr → Option Bytes
get_mac_address i = elim i.hwaddr [
  | none ↦ none
  | some bytes ↦
      if any_set bytes
      then vsnprintf (map uint bytes) (codes "%.2x:%.2x:%.2x:%.2x:%.2x:%.2x")
      else none
]

-- What the loop over the interfaces does with an entry: it passes over one without an address, keeps one
-- of the link level for later, and displays any other.
pub data Role : Type 0 where
  no_address link_level address : Role

unfoldable pub role_of : Families → Option Sockaddr → Role
role_of k none = no_address
role_of k (some a) = if a.family == k.link_level then link_level else address

-- The entries of the link level that wait for an address of their interface, latest first, each with
-- its MAC address.
abbrev pub Cache : Type 0
Cache = List (Ifaddr × Option Bytes)

-- The search of the cache by name: the MAC address of the first entry found, and the cache without
-- that entry.
unfoldable pub take_cached : Bytes → Cache → Option Bytes × Cache
take_cached name [] = (none, [])
take_cached name ((i, mac) ∷ cache) =
    let rest = take_cached name cache in
    if same i.ifa_name name then (mac, cache) else (rest.0, (i, mac) ∷ rest.1)

abbrev pub extended_op :
    Option (Bytes → Cmd State (Unit {0})) → Bytes → Option (Cmd State (Unit {0}))
extended_op none name = none
extended_op (some f) name = some (f name)

abbrev pub or_na : Option Bytes → Bytes
or_na none = codes "n/a"
or_na (some s) = s

abbrev pub address_or_na : Families → ℕ → Option Sockaddr → Bytes
address_or_na k family none = codes "n/a"
address_or_na k family (some a) = get_network_address k a family

module _ (decode : Decode) (iswprint : ℕ → Bool) (ops : Ops) (k : Families) where
  unfoldable pub show_flag : ℕ → Bytes × ℕ → Cmd State (Unit {0})
  show_flag flags (name, num) = entryf decode iswprint name (codes "0x%x") (uint num ∷ [])

  -- An object for each flag of the map that is set.
  unfoldable pub decode_if_flags : Map → ℕ → Cmd State (Unit {0})
  decode_if_flags [] flags = pure tt
  decode_if_flags ((name, num) ∷ m) flags = elim (has_flag flags num) [
    | false ↦ decode_if_flags m flags
    | true ↦
        object_open false
        >> show_flag flags (name, num)
        >> object_close false
        >> decode_if_flags m flags
  ]

  -- Two sections with a value and a container of fields.
  unfoldable pub show_flags : Ifaddr → Cmd State (Unit {0})
  show_flags i =
      section_open decode iswprint (codes "flags")
      >> (do
        entryf decode iswprint (codes "value") (codes "0x%x") (uint i.ifa_flags ∷ [])
        container_open decode iswprint (codes "fields")
            >> decode_if_flags ops.if_flag_map i.ifa_flags
            >> container_close)
      >> section_close

  unfoldable pub show_extended_flags : Ifaddr → Cmd State (Unit {0})
  show_extended_flags i =
      section_open decode iswprint (codes "extended flags")
      >> (do
        entryf decode iswprint (codes "value") (codes "0x%x") (uint 0 ∷ [])
        container_open decode iswprint (codes "fields")
            >> call_op (extended_op ops.show_extended_if_flags i.ifa_name)
            >> container_close)
      >> section_close

  unfoldable pub show_mtu : ℤ → Cmd State (Unit {0})
  show_mtu (pos (suc n)) =
      entryf decode iswprint (codes "mtu") (codes "%d") (int (pos (suc n)) ∷ [])
  show_mtu _ = entryf decode iswprint (codes "mtu") (codes "%s") (str (codes "unknown") ∷ [])

  -- `if ((flags & num) && address) entry (name, "%s", address);`
  unfoldable pub show_if_flag : Bytes → ℕ → ℕ → ℕ → Option Sockaddr → Cmd State (Unit {0})
  show_if_flag name family flags num none = pure tt
  show_if_flag name family flags num (some a) = elim (has_flag flags num) [
    | false ↦ pure tt
    | true ↦ entryf decode iswprint name (codes "%s") (str (get_network_address k a family) ∷ [])
  ]

  unfoldable pub show_broadcast : ℕ → Ifaddr → Cmd State (Unit {0})
  show_broadcast family i = elim (family == k.link_level) [
    | true ↦ entryf decode iswprint (codes "broadcast") (codes "%s") (str (codes "n/a") ∷ [])
    | false ↦ show_if_flag (codes "broadcast") family i.ifa_flags k.iff_broadcast i.ifa_broadaddr
  ]

  -- An interface with the address `a`.
  unfoldable pub show_if_at : Sockaddr → Ifaddr → Option Bytes → Cmd State (Unit {0})
  show_if_at a i mac =
      section_open decode iswprint i.ifa_name
      >> (do
        entryf decode iswprint (codes "family") (codes "%s (0x%x)")
            (str (get_net_family_name k a.family) ∷ uint a.family ∷ [])
        show_flags i
        show_extended_flags i
        entryf decode iswprint (codes "mac") (codes "%s") (str (or_na mac) ∷ [])
        show_mtu i.mtu
        entryf decode iswprint (codes "address") (codes "%s")
            (str (get_network_address k a a.family) ∷ [])
        entryf decode iswprint (codes "netmask") (codes "%s")
            (str (address_or_na k a.family i.ifa_netmask) ∷ [])
        show_broadcast a.family i
        show_if_flag (codes "point-to-point") a.family i.ifa_flags k.iff_pointopoint i.ifa_dstaddr)
      >> section_close

  -- The address is read at once.
  unfoldable pub show_if_addr : Option Sockaddr → Ifaddr → Option Bytes → Cmd State (Unit {0})
  show_if_addr none i mac = stop undefined
  show_if_addr (some a) i mac = show_if_at a i mac

  unfoldable pub show_network_if : Ifaddr × Option Bytes → Cmd State (Unit {0})
  show_network_if (i, mac) = show_if_addr i.ifa_addr i mac

  -- The loop over the interfaces, and the loop that displays what is left in the cache.
  unfoldable pub show_interfaces : List Ifaddr → Cache → Cmd State (Unit {0})
  show_interfaces [] cache = each show_network_if cache
  show_interfaces (i ∷ is) cache = elim (role_of k i.ifa_addr) [
    | no_address ↦ show_interfaces is cache
    | link_level ↦ show_interfaces is ((i, get_mac_address i) ∷ cache)
    | address ↦
        show_network_if (i, (take_cached i.ifa_name cache).0)
        >> show_interfaces is (take_cached i.ifa_name cache).1
  ]

  -- `getifaddrs` that fails is none: the function returns behind its header.
  unfoldable pub show_network : Option (List Ifaddr) → Cmd State (Unit {0})
  show_network none = header decode iswprint (codes "network")
  show_network (some ifs) =
      header decode iswprint (codes "network") >> show_interfaces ifs [] >> footer
