-- ===== src/Sync/Policies.antt =====
-- controllers/bgpconfiguration_controller.go: reconcileDefinedSets, reconcilePolicies with
-- reconcileGlobalPolicyAssignment, and reconcileVrfs. A listing is what the stream gave before it ended.
use k8gobgp.Prelude.{
  String, Bool, true, false, ◌&&◌, ◌||◌, not, Option, none, some, List, [], ◌∷◌, ◌==◌, ◌!=◌, nat_eq,
  string_eq, list_eq, if◌then◌else◌, length,
}
use k8gobgp.Prelude.GoMap.{GoMap, insert}
use k8gobgp.Crd
use k8gobgp.Api.{
  PolicyAssignment, PolicyDirection, policy_direction_import, policy_direction_export,
}
use k8gobgp.Api.Policies.{
  DefinedType, type_prefix, type_neighbor, type_as_path, type_community, DefinedSet, Prefix, Policy,
  Vrf, defined_type_eq,
}
use k8gobgp.Convert.{crd_to_api_policy_assignment}
use k8gobgp.Convert.Policies.{crd_to_api_defined_set, crd_to_api_policy}
use k8gobgp.Convert.Vrfs.{crd_to_api_vrf}
use k8gobgp.Sync.{RangeOrder, sync}

unfoldable pub prefix_equal : Prefix → Prefix → Bool
prefix_equal d c =
    d.ip_prefix == c.ip_prefix
    && d.rtc_prefix == c.rtc_prefix
    && d.mask_length_min == c.mask_length_min
    && d.mask_length_max == c.mask_length_max

-- The loop over the prefixes; the lengths were compared before it.
unfoldable pub prefixes_loop : List Prefix → List Prefix → Bool
unfolding prefix_equal
prefixes_loop (d ∷ ds) (c ∷ cs) = if not (prefix_equal d c) then false else prefixes_loop ds cs
prefixes_loop _ _ = true

unfoldable pub defined_set_equal : DefinedSet → DefinedSet → Bool
unfolding prefixes_loop
defined_set_equal d c =
    if d.defined_type != c.defined_type || d.name != c.name
    then false
    else if d.list != c.list
    then false
    else if length d.prefixes != length c.prefixes
    then false
    else prefixes_loop d.prefixes c.prefixes

pub data DefinedSetCall : Type 0 where
  delete_defined_set : String → DefinedSetCall
  add_defined_set : DefinedSet → DefinedSetCall
  replace_defined_set : DefinedSet → DefinedSetCall

-- A response without a set is passed over.
unfoldable pub received_sets : GoMap DefinedSet → List (Option DefinedSet) → GoMap DefinedSet
received_sets m [] = m
received_sets m (none ∷ rest) = received_sets m rest
received_sets m (some s ∷ rest) = received_sets (insert s.name s m) rest

-- What ListDefinedSet gives for a type, `none` for an error.
abbrev pub SetListing : Type 0
SetListing = DefinedType → Option (List (Option DefinedSet))

-- The types that are listed, in their order.
abbrev pub defined_types : List DefinedType
defined_types = type_prefix ∷ type_neighbor ∷ type_as_path ∷ type_community ∷ []

unfoldable pub current_sets :
    SetListing → GoMap DefinedSet → List DefinedType → Option (GoMap DefinedSet)
unfolding received_sets
current_sets listing m [] = some m
current_sets listing m (t ∷ rest) = elim (listing t) [
  | none ↦ none
  | some received ↦ current_sets listing (received_sets m received) rest
]

unfoldable pub desired_sets : GoMap DefinedSet → List Crd.DefinedSet → GoMap DefinedSet
unfolding crd_to_api_defined_set
desired_sets m [] = m
desired_sets m (s ∷ rest) = desired_sets (insert s.name (crd_to_api_defined_set s) m) rest

unfoldable pub set_calls : RangeOrder → GoMap DefinedSet → GoMap DefinedSet → List DefinedSetCall
unfolding sync
set_calls visit current desired =
    sync visit (λ name c. delete_defined_set name ∷ []) (λ name d. add_defined_set d ∷ [])
      (λ name d c. if not (defined_set_equal d c) then replace_defined_set d ∷ [] else []) current
      desired

-- The calls, or `none` if a listing failed.
unfoldable pub reconcile_defined_sets :
    RangeOrder → SetListing → Crd.BgpConfiguration → Option (List DefinedSetCall)
unfolding current_sets desired_sets set_calls
reconcile_defined_sets visit listing config = elim (current_sets listing [] defined_types) [
  | none ↦ none
  | some current ↦ some (set_calls visit current (desired_sets [] config.spec.defined_sets))
]

pub data PolicyCall : Type 0 where
  delete_policy : String → PolicyCall
  add_policy : Policy → PolicyCall

unfoldable pub received_policies : GoMap Policy → List Policy → GoMap Policy
received_policies m [] = m
received_policies m (p ∷ rest) = received_policies (insert p.name p m) rest

unfoldable pub desired_policies : GoMap Policy → List Crd.PolicyDefinition → GoMap Policy
unfolding crd_to_api_policy
desired_policies m [] = m
desired_policies m (p ∷ rest) = desired_policies (insert p.name (crd_to_api_policy p) m) rest

unfoldable pub policy_calls : RangeOrder → GoMap Policy → GoMap Policy → List PolicyCall
unfolding sync
policy_calls visit current desired =
    sync visit (λ name c. delete_policy name ∷ []) (λ name d. add_policy d ∷ [])
      (λ name d c. add_policy d ∷ []) current desired

-- The SetPolicyAssignment calls, and whether they all succeeded.
pub record Assigned : Type 0 where
  pub assignments : List PolicyAssignment
  pub ok : Bool

-- One round for a direction, before the rest of the rounds.
unfoldable pub assign :
    (PolicyAssignment → Bool) → PolicyDirection → Option PolicyAssignment → Assigned → Assigned
assign succeeds direction none rest = rest
assign succeeds direction (some a) rest =
    let global = record a { name = "global"; direction = direction } in
    if succeeds global
    then record { assignments = global ∷ rest.assignments; ok = rest.ok }
    else record { assignments = global ∷ []; ok = false }

unfoldable pub reconcile_global_policy_assignment :
    (PolicyAssignment → Bool) → Option Crd.ApplyPolicy → Assigned
unfolding assign crd_to_api_policy_assignment
reconcile_global_policy_assignment succeeds none = record { assignments = []; ok = true }
reconcile_global_policy_assignment succeeds (some policy) =
    assign succeeds policy_direction_import (crd_to_api_policy_assignment policy.import_policy) (
      assign succeeds policy_direction_export (crd_to_api_policy_assignment policy.export_policy)
        (record { assignments = []; ok = true }))

-- `none` for the listing is an error of ListPolicy.
unfoldable pub reconcile_policies :
    RangeOrder
    → (PolicyAssignment → Bool)
    → Option (List Policy)
    → Crd.BgpConfiguration
    → Option (List PolicyCall × Assigned)
unfolding received_policies desired_policies policy_calls reconcile_global_policy_assignment
reconcile_policies visit succeeds none config = none
reconcile_policies visit succeeds (some listing) config = some (
  policy_calls visit (received_policies [] listing)
      (desired_policies [] config.spec.policy_definitions),
  reconcile_global_policy_assignment succeeds config.spec.global.apply_policy,
)

pub data VrfCall : Type 0 where
  delete_vrf : String → VrfCall
  add_vrf : Vrf → VrfCall

unfoldable pub received_vrfs : GoMap Vrf → List Vrf → GoMap Vrf
received_vrfs m [] = m
received_vrfs m (v ∷ rest) = received_vrfs (insert v.name v m) rest

unfoldable pub desired_vrfs : GoMap Vrf → List Crd.Vrf → GoMap Vrf
unfolding crd_to_api_vrf
desired_vrfs m [] = m
desired_vrfs m (v ∷ rest) = desired_vrfs (insert v.name (crd_to_api_vrf v) m) rest

unfoldable pub vrf_calls : RangeOrder → GoMap Vrf → GoMap Vrf → List VrfCall
unfolding sync
vrf_calls visit current desired =
    sync visit (λ name c. delete_vrf name ∷ []) (λ name d. add_vrf d ∷ []) (λ name d c. []) current
      desired

-- `none` for the listing is an error of ListVrf.
unfoldable pub reconcile_vrfs :
    RangeOrder → Option (List Vrf) → Crd.BgpConfiguration → Option (List VrfCall)
unfolding received_vrfs desired_vrfs vrf_calls
reconcile_vrfs visit none config = none
reconcile_vrfs visit (some listing) config =
    some (vrf_calls visit (received_vrfs [] listing) (desired_vrfs [] config.spec.vrfs))
