-- ===== src/Sync/PoliciesConverge.antt =====
-- controllers/bgpconfiguration_controller.go: what reconcilePolicies and reconcileVrfs make of gobgpd's tables.
use k8gobgp.Prelude.{
  String, ◌≡◌, refl, sym, ap, ◌∙◌, Bool, Option, none, some, List, [], ◌∷◌, nat_eq, string_eq,
  list_eq,
}
use mathlib.Core.Path.{subst}
use k8gobgp.Prelude.GoMap.{GoMap, lookup, insert}
use k8gobgp.Crd
use k8gobgp.Api.{PolicyAssignment}
use k8gobgp.Api.Policies.{Policy, Vrf, defined_type_eq}
use k8gobgp.Convert.Policies.{crd_to_api_policy}
use k8gobgp.Convert.Vrfs.{crd_to_api_vrf}
use k8gobgp.Sync.{RangeOrder, VisitsAll, wanted, unwanted, wanted_of, unwanted_of}
use k8gobgp.Sync.Table.{Table, run, settle}
use k8gobgp.Sync.Settled.{view-sync, unwanted-OnKey, wanted-OnKey}
use k8gobgp.Sync.Keyed.{Keyed, nil-Keyed, insert-Keyed}
use k8gobgp.Sync.Policies
use k8gobgp.Sync.Policies.{
  defined_set_equal, DefinedSetCall, set_calls, PolicyCall, delete_policy, add_policy, policy_calls,
  desired_policies, reconcile_policies, Assigned, VrfCall, delete_vrf, add_vrf, vrf_calls,
  desired_vrfs, reconcile_vrfs,
}

unfoldable pub policy_key : PolicyCall → String
policy_key (delete_policy name) = name
policy_key (add_policy p) = p.name

unfoldable pub policy_value : PolicyCall → Option Policy
policy_value (delete_policy name) = none
policy_value (add_policy p) = some p

abbrev policy_name : Policy → String
policy_name p = p.name

policy_name-crd : (p : Crd.PolicyDefinition) → policy_name (crd_to_api_policy p) ≡ p.name
unfolding crd_to_api_policy
policy_name-crd p = refl

desired_policies-Keyed :
    (m : GoMap Policy) (ps : List Crd.PolicyDefinition)
    → Keyed policy_name m
    → Keyed policy_name (desired_policies m ps)
unfolding desired_policies
desired_policies-Keyed m [] keyed = keyed
desired_policies-Keyed m (p ∷ rest) keyed =
    desired_policies-Keyed (insert p.name (crd_to_api_policy p) m) rest
      (insert-Keyed policy_name p.name (crd_to_api_policy p) m keyed (policy_name-crd p))

delete_of : String → Policy → List PolicyCall
delete_of name c = delete_policy name ∷ []

add_of : String → Policy → List PolicyCall
add_of name d = add_policy d ∷ []

put_of : String → Policy → Policy → List PolicyCall
put_of name d c = add_policy d ∷ []

policy_settled_of :
    (k : String) (d c : Option Policy)
    → settle policy_value
        (wanted_of (add_of k) (put_of k) d c)
        (settle policy_value (unwanted_of (delete_of k) d c) c)
      ≡ d
unfolding settle policy_value unwanted_of wanted_of delete_of add_of put_of
policy_settled_of k none none = refl
policy_settled_of k none (some c) = refl
policy_settled_of k (some d) none = refl
policy_settled_of k (some d) (some c) = refl

-- Where gobgpd's policies are those of the listing, the calls of reconcilePolicies, all of them succeeding and
-- in any order of the walks, leave at each name exactly the policy that the resource defines there, converted,
-- and none at a name that it does not define.
pub reconcile_policies_settles :
    {S : Type 0} (table : Table policy_key policy_value S) (s : S) (visit : RangeOrder)
    (succeeds : PolicyAssignment → Bool) (listing : List Policy) (config : Crd.BgpConfiguration)
    (calls : List PolicyCall) (assigned : Assigned)
    → VisitsAll visit
    → ((k : String) → table.view s k ≡ lookup k (Policies.received_policies [] listing))
    → reconcile_policies visit succeeds (some listing) config ≡ some (calls, assigned)
    → (k : String)
    → table.view (run table s calls) k
      ≡ lookup k (desired_policies [] config.spec.policy_definitions)
unfolding reconcile_policies policy_calls policy_key wanted unwanted delete_of add_of put_of
reconcile_policies_settles table s visit succeeds listing config calls assigned visits held h k =
    let current = Policies.received_policies [] listing in
    let built = desired_policies [] config.spec.policy_definitions in
    let keyed = desired_policies-Keyed [] config.spec.policy_definitions (nil-Keyed policy_name) in
    let moved =
      view-sync table visit visits delete_of add_of put_of current built
        (unwanted-OnKey table delete_of current built (λ j c there. (refl, tt)))
        (wanted-OnKey table add_of put_of current built (λ j d there. (keyed j d there, tt))
          (λ j d c there. (keyed j d there, tt)))
        s k in
    let settled =
      moved
      ∙ ap
          (λ x.
            settle policy_value (wanted add_of put_of current built k)
              (settle policy_value (unwanted delete_of current built k) x))
          (held k)
      ∙ policy_settled_of k (lookup k built) (lookup k current) in
    let same : policy_calls visit current built ≡ calls = cc in
    subst (λ cs. table.view (run table s cs) k ≡ lookup k built) same settled

unfoldable pub vrf_key : VrfCall → String
vrf_key (delete_vrf name) = name
vrf_key (add_vrf v) = v.name

unfoldable pub vrf_value : VrfCall → Option Vrf
vrf_value (delete_vrf name) = none
vrf_value (add_vrf v) = some v

abbrev vrf_name : Vrf → String
vrf_name v = v.name

vrf_name-crd : (v : Crd.Vrf) → vrf_name (crd_to_api_vrf v) ≡ v.name
unfolding crd_to_api_vrf
vrf_name-crd v = refl

desired_vrfs-Keyed :
    (m : GoMap Vrf) (vs : List Crd.Vrf) → Keyed vrf_name m → Keyed vrf_name (desired_vrfs m vs)
unfolding desired_vrfs
desired_vrfs-Keyed m [] keyed = keyed
desired_vrfs-Keyed m (v ∷ rest) keyed =
    desired_vrfs-Keyed (insert v.name (crd_to_api_vrf v) m) rest
      (insert-Keyed vrf_name v.name (crd_to_api_vrf v) m keyed (vrf_name-crd v))

delete_vrf_of : String → Vrf → List VrfCall
delete_vrf_of name c = delete_vrf name ∷ []

add_vrf_of : String → Vrf → List VrfCall
add_vrf_of name d = add_vrf d ∷ []

keep_vrf_of : String → Vrf → Vrf → List VrfCall
keep_vrf_of name d c = []

-- The VRF at a name in the end: none that is not desired, the current one where there is one, else the desired.
abbrev pub vrf_left : Option Vrf → Option Vrf → Option Vrf
vrf_left none current = none
vrf_left (some d) none = some d
vrf_left (some d) (some c) = some c

vrf_settled_of :
    (k : String) (d c : Option Vrf)
    → settle vrf_value
        (wanted_of (add_vrf_of k) (keep_vrf_of k) d c)
        (settle vrf_value (unwanted_of (delete_vrf_of k) d c) c)
      ≡ vrf_left d c
unfolding settle vrf_value unwanted_of wanted_of delete_vrf_of add_vrf_of keep_vrf_of
vrf_settled_of k none none = refl
vrf_settled_of k none (some c) = refl
vrf_settled_of k (some d) none = refl
vrf_settled_of k (some d) (some c) = refl

-- Where gobgpd's VRFs are those of the listing, the calls of reconcileVrfs, all of them succeeding and in any
-- order of the walks, leave none that the resource does not name, keep as it is each one that it names and
-- gobgpd has, also with another route distinguisher or other targets, and add the others, converted.
pub reconcile_vrfs_settles :
    {S : Type 0} (table : Table vrf_key vrf_value S) (s : S) (visit : RangeOrder)
    (listing : List Vrf) (config : Crd.BgpConfiguration) (calls : List VrfCall)
    → VisitsAll visit
    → ((k : String) → table.view s k ≡ lookup k (Policies.received_vrfs [] listing))
    → reconcile_vrfs visit (some listing) config ≡ some calls
    → (k : String)
    → table.view (run table s calls) k
      ≡ vrf_left (lookup k (desired_vrfs [] config.spec.vrfs)) (table.view s k)
unfolding reconcile_vrfs vrf_calls vrf_key wanted unwanted delete_vrf_of add_vrf_of keep_vrf_of
reconcile_vrfs_settles table s visit listing config calls visits held h k =
    let current = Policies.received_vrfs [] listing in
    let built = desired_vrfs [] config.spec.vrfs in
    let keyed = desired_vrfs-Keyed [] config.spec.vrfs (nil-Keyed vrf_name) in
    let moved =
      view-sync table visit visits delete_vrf_of add_vrf_of keep_vrf_of current built
        (unwanted-OnKey table delete_vrf_of current built (λ j c there. (refl, tt)))
        (wanted-OnKey table add_vrf_of keep_vrf_of current built
          (λ j d there. (keyed j d there, tt)) (λ j d c there. tt))
        s k in
    let settled =
      moved
      ∙ ap
          (λ x.
            settle vrf_value (wanted add_vrf_of keep_vrf_of current built k)
              (settle vrf_value (unwanted delete_vrf_of current built k) x))
          (held k)
      ∙ vrf_settled_of k (lookup k built) (lookup k current)
      ∙ ap (vrf_left (lookup k built)) (sym (held k)) in
    let same : vrf_calls visit current built ≡ calls = cc in
    subst (λ cs. table.view (run table s cs) k ≡ vrf_left (lookup k built) (table.view s k)) same
      settled
