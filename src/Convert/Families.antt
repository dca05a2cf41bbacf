-- ===== src/Convert/Families.antt =====
-- The table bgpFamilies and the conversions that read it: crdToAPIFamily, crdToAPIGlobalFamilies and
-- crdToAPIFamilies.
use k8gobgp.Prelude.{
  ℕ, String, Bool, true, false, Option, none, some, List, [], ◌∷◌, map, ◌==◌, nat_eq, list_eq,
  if◌then◌else◌,
}
use k8gobgp.Prelude.Text.{codes, lower}
use k8gobgp.Api.{
  Afi, afi_unspecified, afi_ip, afi_ip6, afi_l2vpn, Safi, safi_unspecified, safi_unicast,
  safi_mpls_label, safi_mpls_vpn, safi_vpls, safi_evpn, safi_flow_spec_unicast,
  safi_route_target_constraints, Family,
}

pub record BgpFamily : Type 0 where
  pub afi : Afi
  pub safi : Safi
  pub global_ordinal : ℕ
  pub has_global_ordinal : Bool

abbrev family_entry : Afi → Safi → ℕ → Bool → BgpFamily
family_entry a s o g = record { afi = a; safi = s; global_ordinal = o; has_global_ordinal = g }

abbrev pub bgp_families : List (String × BgpFamily)
bgp_families =
    ("ipv4-unicast", family_entry afi_ip safi_unicast 0 true)
    ∷ ("ipv6-unicast", family_entry afi_ip6 safi_unicast 1 true)
    ∷ ("ipv4-labeled", family_entry afi_ip safi_mpls_label 2 true)
    ∷ ("ipv6-labeled", family_entry afi_ip6 safi_mpls_label 3 true)
    ∷ ("ipv4-vpn", family_entry afi_ip safi_mpls_vpn 4 true)
    ∷ ("ipv6-vpn", family_entry afi_ip6 safi_mpls_vpn 5 true)
    ∷ ("l2vpn-vpls", family_entry afi_l2vpn safi_vpls 8 true)
    ∷ ("l2vpn-evpn", family_entry afi_l2vpn safi_evpn 9 true)
    ∷ ("ipv4-flowspec", family_entry afi_ip safi_flow_spec_unicast 0 false)
    ∷ ("ipv6-flowspec", family_entry afi_ip6 safi_flow_spec_unicast 0 false)
    ∷ ("rtc", family_entry afi_ip safi_route_target_constraints 0 false)
    ∷ []

-- The look-up of a lowered name in the table.
unfoldable pub find_family : List ℕ → List (String × BgpFamily) → Option BgpFamily
find_family k [] = none
find_family k ((name, f) ∷ fs) = if codes name == k then some f else find_family k fs

unspecified_family : Option BgpFamily → Family
unspecified_family none = record { afi = afi_unspecified; safi = safi_unspecified }
unspecified_family (some f) = record { afi = f.afi; safi = f.safi }

unfoldable pub crd_to_api_family : String → Family
unfolding find_family unspecified_family
crd_to_api_family s = unspecified_family (find_family (lower s) bgp_families)

unfoldable pub crd_to_api_families : List String → List Family
unfolding crd_to_api_family
crd_to_api_families names = map crd_to_api_family names

-- The two errors of crdToAPIGlobalFamilies, with the name that each quotes.
pub data FamilyError : Type 0 where
  unknown_family : String → FamilyError
  not_global : String → FamilyError

pub data FamilyResult : Type 0 where
  ordinals : List ℕ → FamilyResult
  failed : FamilyError → FamilyResult

abbrev push_ordinal : ℕ → FamilyResult → FamilyResult
push_ordinal n (ordinals ns) = ordinals (n ∷ ns)
push_ordinal n (failed e) = failed e

-- One name. The rest of the loop matters only if this name is good.
family_ordinal : String → Option BgpFamily → FamilyResult → FamilyResult
family_ordinal n none rest = failed (unknown_family n)
family_ordinal n (some f) rest =
    if f.has_global_ordinal then push_ordinal f.global_ordinal rest else failed (not_global n)

unfoldable pub crd_to_api_global_families : List String → FamilyResult
unfolding find_family family_ordinal
crd_to_api_global_families [] = ordinals []
crd_to_api_global_families (n ∷ ns) =
    family_ordinal n (find_family (lower n) bgp_families) (crd_to_api_global_families ns)
