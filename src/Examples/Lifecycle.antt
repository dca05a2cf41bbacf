-- ===== src/Examples/Lifecycle.antt =====
-- The election, the reconciliation and the deletion at the sample resources.
use mathlib.Core.List.{Mem, mem-cons, not-mem-nil}
use mathlib.Core.List.Perm
use text.Mathlib.TextEquality.{IsScalar-prop}
use mathlib.Core.Logic.Or
use k8gobgp.Prelude.{
  Bool, String, ◌≡◌, refl, sym, ap, ◌∙◌, true, false, none, some, [], ◌∷◌, arith, ◌==◌, string_eq,
}
use k8gobgp.Crd.{BgpConfiguration, condition_false, Condition}
use k8gobgp.Prelude.Text.{text_ltb}
use k8gobgp.Sync.{listed}
use k8gobgp.Sync.Key.{neighbor_key_from_crd}
use k8gobgp.Owner.{config_precedes, elect_owning_config}
use k8gobgp.Owner.Election.{
  Elected, KeysDistinct, elect_owning_config-Elected, elect_owning_config-perm,
  elect_owning_config_stable,
}
use k8gobgp.Status.{update_status_condition}
use k8gobgp.Status.Transition.{find_condition, HasSetting, update_status_condition_lem}
use k8gobgp.Cleanup.{CleanupCall, other_calls, counted_calls, contains_finalizer}
use k8gobgp.Cleanup.Finalizer.{HasObjects, DistinctCalls}
use k8gobgp.Cleanup.Made.{CleansAll}
use k8gobgp.Reconcile.{
  World, found, reconcile, reconcile_get, reconcile_found, handle, owns, handle_own,
  add_finalizer_or_apply, validate_and_apply, apply_config, reconcile_delete, clean_up,
}
use k8gobgp.Reconcile.Ownership.{
  reaches_gobgpd, some_reach, reconcile_reaches_as_owner, one_config_reaches,
}
use k8gobgp.Reconcile.Deletion.{
  updates, cleaned, Ends, updates-reconcile_delete, reconcile_delete_finishes,
}
use k8gobgp.Examples.Samples.{config, sibling, later_config}

elect_owning_config-Elected_example :
    (w : BgpConfiguration) × (elect_owning_config (sibling ∷ config ∷ []) ≡ some w)
    × Elected (sibling ∷ config ∷ []) w
elect_owning_config-Elected_example = elect_owning_config-Elected sibling (config ∷ [])

-- The world at `config`, with one stage that succeeds.
abbrev world : World
world = record {
  now = 500;
  node_name = "node-1";
  get = found config;
  configs = some (config ∷ sibling ∷ []);
  update_succeeds = true;
  status_update_succeeds = true;
  dial_error = none;
  invalid = λ c. none;
  stages = record { label = "neighbors"; run = λ c. (c, none) } ∷ [];
  peer_keys = some ("2001:470:b8f3:251::1" ∷ []);
  fails = λ before call. false;
}

-- The same resource, being deleted.
abbrev deleting : World
deleting = record world { get = found (record config { deletion_timestamp = some 490 }) }

world_reaches : some_reach (reconcile world "lab" "bgp").0 ≡ true
unfolding reconcile some_reach reconcile_get reconcile_found handle elect_owning_config
    config_precedes owns handle_own add_finalizer_or_apply contains_finalizer listed
    validate_and_apply apply_config reaches_gobgpd text_ltb
world_reaches = refl

deleting_reaches : some_reach (reconcile deleting "lab" "bgp").0 ≡ true
unfolding reconcile some_reach reconcile_get reconcile_found handle elect_owning_config
    config_precedes owns handle_own reconcile_delete contains_finalizer listed clean_up
    reaches_gobgpd text_ltb
deleting_reaches = refl

reconcile_reaches_as_owner_example :
    (owner : BgpConfiguration) × (elect_owning_config (config ∷ sibling ∷ []) ≡ some owner)
    × (owner.namespace ≡ "lab")
    × (owner.name ≡ "bgp")
reconcile_reaches_as_owner_example =
    reconcile_reaches_as_owner world "lab" "bgp" config config (sibling ∷ []) refl refl
      world_reaches

one_config_reaches_example : (config.namespace ≡ "lab") × (config.name ≡ "bgp")
one_config_reaches_example =
    one_config_reaches world deleting "lab" "bgp" "lab" "bgp" config
      (record config { deletion_timestamp = some 490 }) config (sibling ∷ []) refl refl refl refl
      world_reaches deleting_reaches

has_finalizer : contains_finalizer config.finalizers ≡ true
unfolding contains_finalizer listed
has_finalizer = refl

has : CleanupCall → Bool
has call = true

sample-HasObjects : HasObjects has ("2001:470:b8f3:251::1" ∷ []) config.spec
unfolding other_calls has
sample-HasObjects = record { peers = λ cfg h. refl; others = (refl, tt) }

sample-DistinctCalls :
    DistinctCalls (counted_calls (some ("2001:470:b8f3:251::1" ∷ [])) config.spec)
unfolding counted_calls neighbor_key_from_crd listed other_calls
sample-DistinctCalls = ((λ e. cc, tt), (tt, tt))

reconcile_delete_finishes_example :
    (d : BgpConfiguration) × (updates (reconcile_delete world config).0 ≡ d ∷ [])
    × (contains_finalizer d.finalizers ≡ false)
reconcile_delete_finishes_example =
    reconcile_delete_finishes world config ("2001:470:b8f3:251::1" ∷ []) has has_finalizer refl refl
      (λ before c there first. refl) sample-HasObjects sample-DistinctCalls

updates-reconcile_delete_example :
    CleansAll world.peer_keys config.spec (cleaned (reconcile_delete world config).0)
    × Ends world.fails config (reconcile_delete world config).0
updates-reconcile_delete_example = updates-reconcile_delete world config has_finalizer refl

update_status_condition_lem_example :
    ((c : Condition) × (find_condition "Ready"
          (update_status_condition 500 config "Ready" condition_false "ReconcileFailed"
            "global").status.conditions
        ≡ some c)
      × HasSetting 500 3 condition_false "ReconcileFailed" "global"
          (find_condition "Ready" config.status.conditions)
          c)
    × ((t : String)
        → ("Ready" == t) ≡ false
        → find_condition t
            (update_status_condition 500 config "Ready" condition_false "ReconcileFailed"
              "global").status.conditions
          ≡ find_condition t config.status.conditions)
update_status_condition_lem_example =
    update_status_condition_lem 500 config "Ready" condition_false "ReconcileFailed" "global"

sample_elected : elect_owning_config (config ∷ []) ≡ some config
unfolding elect_owning_config
sample_elected = refl

elect_owning_config_stable_example : elect_owning_config (config ∷ later_config ∷ []) ≡ some config
elect_owning_config_stable_example =
    elect_owning_config_stable (config ∷ []) later_config config sample_elected (omega arith)

BgpConfiguration-set : IsSet BgpConfiguration
BgpConfiguration-set = hlevel (IsScalar-prop)

names_differ : sibling.name ≡ config.name → ⊥
names_differ h = cc

only : {x : BgpConfiguration} → Mem x (sibling ∷ []) → x ≡ sibling
only m = Or.elim (BgpConfiguration-set _ _) (mem-cons.0 m) (λ p. p) (λ n. absurd (not-mem-nil n))

sample_distinct : KeysDistinct (config ∷ sibling ∷ [])
sample_distinct a b in_a in_b namespaces names =
    Or.elim (BgpConfiguration-set _ _) (mem-cons.0 in_a)
      (λ p.
        Or.elim (BgpConfiguration-set _ _) (mem-cons.0 in_b) (λ q. p ∙ sym q)
          (λ in_b'. absurd (
            names_differ (
              sym (ap (λ (x : BgpConfiguration). x.name) (only in_b'))
              ∙ sym names
              ∙ ap (λ (x : BgpConfiguration). x.name) p))))
      (λ in_a'.
        Or.elim (BgpConfiguration-set _ _) (mem-cons.0 in_b)
          (λ q. absurd (
            names_differ (
              sym (ap (λ (x : BgpConfiguration). x.name) (only in_a'))
              ∙ names
              ∙ ap (λ (x : BgpConfiguration). x.name) q)))
          (λ in_b'. only in_a' ∙ sym (only in_b')))

elect_owning_config-perm_example :
    elect_owning_config (sibling ∷ config ∷ []) ≡ elect_owning_config (config ∷ sibling ∷ [])
elect_owning_config-perm_example =
    elect_owning_config-perm (sibling ∷ config ∷ []) (config ∷ sibling ∷ [])
      (Perm.swap config sibling []) sample_distinct
