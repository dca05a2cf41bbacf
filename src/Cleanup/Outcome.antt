-- ===== src/Cleanup/Outcome.antt =====
-- controllers/bgpconfiguration_controller.go: reconcileDelete, which of the cleanup calls decide on the
-- finalizer.
use k8gobgp.Prelude.{
  sym, All, Option, none, ◌↔◌, ◌⊎◌, String, ◌≡◌, refl, Bool, true, false, some, List, [], ◌∷◌, ◌++◌,
  string_eq, Bool-cases, inl, inr,
}
use mathlib.Core.Path.{subst}
use mathlib.Core.List.{append_assoc}
use k8gobgp.Crd
use k8gobgp.Cleanup.{
  CleanupCall, clean_peer, clean_neighbors, skip_neighbor, other_calls, counted_calls,
  cleanup_calls, export_disabled, import_disabled, disable_netlink_export, disable_netlink_import,
  clean_dynamic_neighbor, clean_peer_group, clean_vrf, clean_policy, clean_defined_set, some_fails,
}
use k8gobgp.Cleanup.Finalizer.{All-append, All-map}

-- The calls whose failure is only logged.
unfoldable pub is_netlink : CleanupCall → Bool
is_netlink (clean_peer c) = false
is_netlink (clean_dynamic_neighbor prefix) = false
is_netlink (clean_peer_group name) = false
is_netlink (clean_vrf name) = false
is_netlink (clean_policy name) = false
is_netlink (clean_defined_set name) = false
is_netlink (disable_netlink_export keep) = true
is_netlink (disable_netlink_import keep) = true

-- Every call of the run succeeds, those for netlink left aside.
abbrev pub Succeeds :
    (List CleanupCall → CleanupCall → Bool) → List CleanupCall → List CleanupCall → Type 0
Succeeds fails before [] = Unit
Succeeds fails before (c ∷ cs) =
    ((is_netlink c ≡ true) ⊎ (fails before c ≡ false)) × Succeeds fails (c ∷ before) cs

clean_neighbors-is_netlink :
    (present : Option (List String)) (ns : List Crd.Neighbor)
    → All (λ c. is_netlink c ≡ false) (clean_neighbors present ns)
unfolding clean_neighbors is_netlink
clean_neighbors-is_netlink present [] = tt
clean_neighbors-is_netlink present (n ∷ rest) =
    let later = clean_neighbors-is_netlink present rest in
    elim (Bool-cases (skip_neighbor present n)) [
      | inl skipped ↦ rw skipped later
      | inr kept ↦ rw kept (refl, later)
    ]

other_calls-is_netlink :
    (spec : Crd.BgpConfigurationSpec) → All (λ c. is_netlink c ≡ false) (other_calls spec)
unfolding other_calls is_netlink
other_calls-is_netlink spec =
    let plain : CleanupCall → Type 0 = λ c. is_netlink c ≡ false in
    let sets =
      All-map plain (λ (set : Crd.DefinedSet). clean_defined_set set.name) (λ set. refl)
        spec.defined_sets in
    let policies =
      All-map plain (λ (policy : Crd.PolicyDefinition). clean_policy policy.name) (λ policy. refl)
        spec.policy_definitions in
    let vrfs = All-map plain (λ (vrf : Crd.Vrf). clean_vrf vrf.name) (λ vrf. refl) spec.vrfs in
    let groups =
      All-map plain (λ (pg : Crd.PeerGroup). clean_peer_group pg.config.peer_group_name)
        (λ pg. refl) spec.peer_groups in
    let ranges =
      All-map plain (λ (dn : Crd.DynamicNeighbor). clean_dynamic_neighbor dn.prefix) (λ dn. refl)
        spec.dynamic_neighbors in
    All-append plain _ _
      (All-append plain _ _ (All-append plain _ _ (All-append plain _ _ ranges groups) vrfs)
        policies)
      sets

export_disabled-is_netlink :
    (n : Option Crd.NetlinkExport) → All (λ c. is_netlink c ≡ true) (export_disabled n)
unfolding export_disabled is_netlink
export_disabled-is_netlink none = tt
export_disabled-is_netlink (some n) = elim (Bool-cases n.enabled) [
  | inl on ↦ rw on (refl, tt)
  | inr off ↦ rw off tt
]

import_disabled-is_netlink :
    (n : Option Crd.NetlinkImport) → All (λ c. is_netlink c ≡ true) (import_disabled n)
unfolding import_disabled is_netlink
import_disabled-is_netlink none = tt
import_disabled-is_netlink (some n) = elim (Bool-cases n.enabled) [
  | inl on ↦ rw on (refl, tt)
  | inr off ↦ rw off tt
]

netlink_calls : Crd.BgpConfigurationSpec → List CleanupCall
netlink_calls spec = export_disabled spec.netlink_export ++ import_disabled spec.netlink_import

netlink_calls-is_netlink :
    (spec : Crd.BgpConfigurationSpec) → All (λ c. is_netlink c ≡ true) (netlink_calls spec)
unfolding netlink_calls is_netlink
netlink_calls-is_netlink spec =
    All-append (λ c. is_netlink c ≡ true) _ _ (export_disabled-is_netlink spec.netlink_export)
      (import_disabled-is_netlink spec.netlink_import)

netlink-Succeeds :
    (fails : List CleanupCall → CleanupCall → Bool) (before ds : List CleanupCall)
    → All (λ c. is_netlink c ≡ true) ds
    → Succeeds fails before ds
netlink-Succeeds fails before [] h = tt
netlink-Succeeds fails before (d ∷ ds) h = (inl h.0, netlink-Succeeds fails (d ∷ before) ds h.1)

Succeeds-iff :
    (fails : List CleanupCall → CleanupCall → Bool) (before cs ds : List CleanupCall)
    → All (λ c. is_netlink c ≡ false) cs
    → All (λ c. is_netlink c ≡ true) ds
    → (some_fails fails before cs ≡ false) ↔ Succeeds fails before (cs ++ ds)
unfolding some_fails
Succeeds-iff fails before [] ds plain netlink =
    (λ h. netlink-Succeeds fails before ds netlink, λ h. refl)
Succeeds-iff fails before (c ∷ cs) ds plain netlink =
    let later = Succeeds-iff fails (c ∷ before) cs ds plain.1 netlink in
    elim (Bool-cases (fails before c)) [
      | inl failed ↦ rw failed (
        λ h. absurd (cc),
        λ h. elim h.0 [
          | inl for_netlink ↦ let p = plain.0 in absurd (cc)
          | inr worked ↦ absurd (cc)
        ],
      )
      | inr worked ↦ rw worked (λ h. (inr refl, later.0 h), λ h. later.1 h.1)
    ]

-- No counted call fails exactly if all calls of the cleanup but those for netlink succeed.
pub counted_calls-Succeeds :
    (fails : List CleanupCall → CleanupCall → Bool) (present : Option (List String))
    (spec : Crd.BgpConfigurationSpec)
    → (some_fails fails [] (counted_calls present spec) ≡ false)
      ↔ Succeeds fails [] (cleanup_calls present spec)
unfolding cleanup_calls counted_calls netlink_calls export_disabled import_disabled
counted_calls-Succeeds fails present spec =
    subst (λ cs. (some_fails fails [] (counted_calls present spec) ≡ false) ↔ Succeeds fails [] cs)
      (sym (append_assoc (counted_calls present spec) (export_disabled spec.netlink_export) _))
      (Succeeds-iff fails [] (counted_calls present spec) (netlink_calls spec)
        (All-append (λ c. is_netlink c ≡ false) (clean_neighbors present spec.neighbors)
          (other_calls spec) (clean_neighbors-is_netlink present spec.neighbors)
          (other_calls-is_netlink spec))
        (netlink_calls-is_netlink spec))
