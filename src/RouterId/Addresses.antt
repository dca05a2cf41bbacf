-- ===== src/RouterId/Addresses.antt =====
-- controllers/router_id_resolution.go: the address checks, and the address of a node that firstIPv4 picks.
use k8gobgp.Prelude.{
  ℕ, ◌≡◌, refl, ◌⊎◌, inl, inr, true, false, Option, none, some, List, [], ◌∷◌, string_eq, nat_eq,
  Bool-cases, arith, and_split,
}
use mathlib.Core.Path.{subst}
use k8gobgp.Net.{Ip, to4, parse_ip}
use k8gobgp.RouterId
use k8gobgp.RouterId.{
  NodeAddress, AddressType, IpNet, RouterIdError, validate_router_id_format, validate_ipv4_address,
  first_ipv4, internal_ip, external_ip, other_address, generate_router_id, Generated, generated,
  refused, max_router_id_length,
}

same_type_lem : (s t : AddressType) → RouterId.same_type s t ≡ true → s ≡ t
same_type_lem internal_ip internal_ip h = refl
same_type_lem internal_ip external_ip h = absurd (cc)
same_type_lem internal_ip other_address h = absurd (cc)
same_type_lem external_ip internal_ip h = absurd (cc)
same_type_lem external_ip external_ip h = refl
same_type_lem external_ip other_address h = absurd (cc)
same_type_lem other_address internal_ip h = absurd (cc)
same_type_lem other_address external_ip h = absurd (cc)
same_type_lem other_address other_address h = refl

module _ (parse_ipv6 : List ℕ → Option (List ℕ)) where
  parsed_format-none :
      (o : Option Ip) (rest : Option RouterIdError)
      → RouterId.parsed_format parse_ipv6 o rest ≡ none
      → rest ≡ none
  unfolding RouterId.parsed_format
  parsed_format-none none rest h = absurd (cc)
  parsed_format-none (some ip) rest h = ground arith

  pub format-ipv4 :
      (id : List ℕ)
      → validate_router_id_format parse_ipv6 id ≡ none
      → validate_ipv4_address parse_ipv6 id ≡ none
  unfolding validate_router_id_format
  format-ipv4 id h =
      parsed_format-none (parse_ip parse_ipv6 id) (validate_ipv4_address parse_ipv6 id)
        (ground arith)

  -- The text is the address of one of the node's addresses of the type.
  abbrev pub HasAddress : AddressType → List NodeAddress → List ℕ → Type 0
  HasAddress t [] id = ⊥
  HasAddress t (a ∷ rest) id = ((a.address_type ≡ t) × (a.address ≡ id)) ⊎ HasAddress t rest id

  usable_lem :
      (t : AddressType) (a : NodeAddress)
      → RouterId.usable parse_ipv6 t a ≡ true
      → (a.address_type ≡ t) × (validate_ipv4_address parse_ipv6 a.address ≡ none)
  unfolding RouterId.usable
  usable_lem t a h =
      let (same, rest) = and_split _ _ h in
      (same_type_lem a.address_type t same, accepted_lem (parse_ip parse_ipv6 a.address) rest)
    where
      accepted_lem :
          (o : Option Ip)
          → (elim o [
            | none ↦ false
            | some ip ↦ elim (to4 ip) [
              | none ↦ false
              | some q ↦ elim (validate_ipv4_address parse_ipv6 a.address) [
                | none ↦ true
                | some e ↦ false
              ]
            ]
          ])
            ≡ true
          → validate_ipv4_address parse_ipv6 a.address ≡ none
      accepted_lem none e = absurd (cc)
      accepted_lem (some ip) e = ground arith

  pub first_ipv4_lem :
      (t : AddressType) (as' : List NodeAddress) (id : List ℕ)
      → first_ipv4 parse_ipv6 t as' ≡ some id
      → HasAddress t as' id × (validate_ipv4_address parse_ipv6 id ≡ none)
  unfolding first_ipv4
  first_ipv4_lem t [] id h = absurd (cc)
  first_ipv4_lem t (a ∷ rest) id h = elim (Bool-cases (RouterId.usable parse_ipv6 t a)) [
    | inl fit ↦
        let (type, accepted) = usable_lem t a fit in
        let here : a.address ≡ id = ground arith in
        (inl (type, here), subst (λ x. validate_ipv4_address parse_ipv6 x ≡ none) here accepted)
    | inr unfit ↦ let later = first_ipv4_lem t rest id (ground arith) in (inr later.0, later.1)
  ]
