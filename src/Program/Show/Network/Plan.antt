-- ===== src/Program/Show/Network/Plan.antt =====
-- Which interfaces `show_network` of src/procenv.c displays, with which MAC addresses.
use procenv.Prelude.{
  ◌≡◌, ◌≢◌, refl, sym, ◌∙◌, Option, none, some, List, [], ◌∷◌, Bytes, Bool-cases, inl, inr, ◌⊎◌,
  ◌↔◌, arith,
}
use procenv.Output.{same}
use procenv.Output.Settings.{same-eq, same_refl}
use procenv.Program.Show.Network.{
  Ifaddr, Sockaddr, Families, Cache, take_cached, get_mac_address, Role, no_address, link_level,
  address, role_of,
}

-- The interfaces in the order in which they are displayed.
abbrev pub Plan : Type 0
Plan = List (Ifaddr × Option Bytes)

unfoldable pub plan : Families → List Ifaddr → Cache → Plan
plan k [] cache = cache
plan k (i ∷ is) cache = elim (role_of k i.ifa_addr) [
  | no_address ↦ plan k is cache
  | link_level ↦ plan k is ((i, get_mac_address i) ∷ cache)
  | address ↦ (i, (take_cached i.ifa_name cache).0) ∷ plan k is (take_cached i.ifa_name cache).1
]

-- An entry of a list meets a predicate.
abbrev pub Any {ℓ} : {A : Type ℓ} → (A → Type 0) → List A → Type 0
Any P [] = ⊥
Any P (x ∷ xs) = P x ⊎ Any P xs

-- An interface with this name is displayed.
abbrev pub Shows : Bytes → Plan → Type 0
Shows name = Any (λ p. p.0.ifa_name ≡ name)

-- There is an entry with this name and with an address.
abbrev pub HasEntry : Bytes → List Ifaddr → Type 0
HasEntry name = Any (λ i. (i.ifa_name ≡ name) × (i.ifa_addr ≢ none))

-- What leaves the cache has the name that was asked for.
take-Shows :
    (name n : Bytes) (cache : Cache)
    → Shows n cache
    → (name ≡ n) ⊎ Shows n (take_cached name cache).1
unfolding take_cached
take-Shows name n [] h = absurd h
take-Shows name n ((i, mac) ∷ cache) h = elim (Bool-cases (same i.ifa_name name)) [
  | inl e ↦ elim h [ inl x ↦ inl (sym (same-eq i.ifa_name name e) ∙ x) | inr x ↦ inr (rw e x) ]
  | inr e ↦ elim h [
    | inl x ↦ inr (rw e (inl x))
    | inr x ↦ elim (take-Shows name n cache x) [ inl y ↦ inl y | inr y ↦ inr (rw e (inr y)) ]
  ]
]

pub Role-cases : (r : Role) → (r ≡ no_address) ⊎ (r ≡ link_level) ⊎ (r ≡ address)
Role-cases no_address = inl refl
Role-cases link_level = inr (inl refl)
Role-cases address = inr (inr refl)

-- An entry that is passed over has no address.
passed_over : (k : Families) (o : Option Sockaddr) → role_of k o ≡ no_address → o ≡ none
unfolding role_of
passed_over k none h = refl
passed_over k (some a) h = absurd (ground arith)

-- Every name of the cache, and of an entry with an address, is displayed.
plan-Shows :
    (k : Families) (is : List Ifaddr) (cache : Cache) (n : Bytes)
    → Shows n cache ⊎ HasEntry n is
    → Shows n (plan k is cache)
unfolding plan
plan-Shows k [] cache n (inl h) = h
plan-Shows k [] cache n (inr h) = absurd h
plan-Shows k (i ∷ is) cache n h = elim (Role-cases (role_of k i.ifa_addr)) [
  | inl e ↦
      rw (plan, e)
        (plan-Shows k is cache n (elim h [
          | inl x ↦ inl x
          | inr y ↦ elim y [ inl x ↦ absurd (x.1 (passed_over k i.ifa_addr e)) | inr x ↦ inr x ]
        ]))
  | inr f ↦ elim f [
    | inl e ↦
        rw (plan, e)
          (plan-Shows k is ((i, get_mac_address i) ∷ cache) n (elim h [
            | inl x ↦ inl (inr x)
            | inr y ↦ elim y [ inl x ↦ inl (inl x.0) | inr x ↦ inr x ]
          ]))
    | inr e ↦
        rw (plan, e)
          (elim h [
            | inl x ↦ elim (take-Shows i.ifa_name n cache x) [
              | inl y ↦ inl y
              | inr y ↦ inr (plan-Shows k is (take_cached i.ifa_name cache).1 n (inl y))
            ]
            | inr y ↦ elim y [
              | inl x ↦ inl x.0
              | inr x ↦ inr (plan-Shows k is (take_cached i.ifa_name cache).1 n (inr x))
            ]
          ])
  ]
]

-- What the search leaves in the cache was there.
take-from : (name n : Bytes) (cache : Cache) → Shows n (take_cached name cache).1 → Shows n cache
unfolding take_cached
take-from name n [] h = h
take-from name n ((i, mac) ∷ cache) h = elim (Bool-cases (same i.ifa_name name)) [
  | inl e ↦ inr (rw e at h)
  | inr e ↦
      let h' : (i.ifa_name ≡ n) ⊎ Shows n (take_cached name cache).1 = rw e at h in
      elim h' [ inl x ↦ inl x | inr x ↦ inr (take-from name n cache x) ]
]

-- An entry that is not passed over has an address.
pub not_passed : (k : Families) (o : Option Sockaddr) → role_of k o ≢ no_address → o ≢ none
unfolding role_of
not_passed k none h e = h refl
not_passed k (some a) h e = absurd (ground arith)

-- Only names of the cache and of entries with an address are displayed.
plan-from :
    (k : Families) (is : List Ifaddr) (cache : Cache) (n : Bytes)
    → Shows n (plan k is cache)
    → Shows n cache ⊎ HasEntry n is
unfolding plan
plan-from k [] cache n h = inl h
plan-from k (i ∷ is) cache n h = elim (Role-cases (role_of k i.ifa_addr)) [
  | inl e ↦ elim (plan-from k is cache n (rw (plan, e) at h)) [
    | inl x ↦ inl x
    | inr x ↦ inr (inr x)
  ]
  | inr f ↦ elim f [
    | inl e ↦ elim (plan-from k is ((i, get_mac_address i) ∷ cache) n (rw (plan, e) at h)) [
      | inl y ↦ elim y [
        | inl x ↦ inr (inl (x, not_passed k i.ifa_addr (rw e (λ q. cc))))
        | inr x ↦ inl x
      ]
      | inr x ↦ inr (inr x)
    ]
    | inr e ↦
        let h' : (i.ifa_name ≡ n) ⊎ Shows n (plan k is (take_cached i.ifa_name cache).1) =
          rw (plan, e) at h in
        elim h' [
          | inl x ↦ inr (inl (x, not_passed k i.ifa_addr (rw e (λ q. cc))))
          | inr y ↦ elim (plan-from k is (take_cached i.ifa_name cache).1 n y) [
            | inl x ↦ inl (take-from i.ifa_name n cache x)
            | inr x ↦ inr (inr x)
          ]
        ]
  ]
]

-- `show_network` displays exactly the interfaces that have an entry with an address: a name is
-- displayed if and only if an entry of the list that `getifaddrs` gives has that name and an
-- address, whether the entry is one of the link level or not, and wherever it stands in the list.
pub plan-exact :
    (k : Families) (is : List Ifaddr) (n : Bytes) → Shows n (plan k is []) ↔ HasEntry n is
plan-exact k is n = (
  λ h. elim (plan-from k is [] n h) [ inl x ↦ absurd x | inr x ↦ x ],
  λ h. plan-Shows k is [] n (inr h),
)

take-found :
    (i : Ifaddr) (mac : Option Bytes) (name : Bytes)
    → i.ifa_name ≡ name
    → take_cached name ((i, mac) ∷ []) ≡ (mac, [])
unfolding take_cached
take-found i mac name h = rw (← h, same_refl i.ifa_name) refl

-- An interface with two addresses is displayed twice, and the second time without its MAC address:
-- the first address takes the entry of the link level out of the cache.
pub plan-second_address :
    (k : Families) (link first second : Ifaddr)
    → role_of k link.ifa_addr ≡ link_level
    → role_of k first.ifa_addr ≡ address
    → role_of k second.ifa_addr ≡ address
    → link.ifa_name ≡ first.ifa_name
    → plan k (link ∷ first ∷ second ∷ []) [] ≡ (first, get_mac_address link) ∷ (second, none) ∷ []
unfolding plan
plan-second_address k link first second l a b n =
    let none_left : take_cached second.ifa_name [] ≡ (none, []) = unfold take_cached in refl in
    rw (plan, l, a, b, take-found link (get_mac_address link) first.ifa_name n, none_left) refl
