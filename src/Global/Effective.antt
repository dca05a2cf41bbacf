-- ===== src/Global/Effective.antt =====
-- controllers/bgpconfiguration_controller.go: resolveEffectiveRouterID and the removal from its cache, the cache that fixes a resource's
-- router ID for the life of the pod. Metrics, events and the annotation of the pod are left out.
use Prim.Native.String.{◌++◌}
use k8gobgp.Prelude.{ℕ, String, Option, none, some, List}
use k8gobgp.Prelude.GoMap.{GoMap, lookup, insert, erase}
use k8gobgp.Crd
use k8gobgp.Status.{update_status_condition}
use k8gobgp.RouterId.{IpNet}
use k8gobgp.RouterId.NodeCache.{NodeCache}
use k8gobgp.RouterId.Backoff.{Surroundings}
use k8gobgp.RouterId.Resolve.{
  Source, source_text, ResolveError, Resolved, resolved, unresolved, resolve_router_id,
}

pub record LocalRouterIdEntry : Type 0 where
  pub router_id : List ℕ
  pub source : Source

-- The fields of BGPConfigurationReconciler that the resolution reads and writes.
pub record Reconciler : Type 0 where
  pub node_name : String
  pub node_cache : Option NodeCache
  pub local_router_id_cache : GoMap LocalRouterIdEntry

-- One call: its surroundings, the time at which it starts, the time at which it ends, and the texts of the
-- errors.
pub record Call : Type 0 where
  pub surroundings : Surroundings
  pub started : ℕ
  pub ended : ℕ
  pub error_text : ResolveError → String

pub data EffectiveId : Type 0 where
  effective : List ℕ → EffectiveId
  resolution_failed : ResolveError → EffectiveId

pub record EffectiveRun : Type 0 where
  pub id : EffectiveId
  pub reconciler : Reconciler
  pub config : Crd.BgpConfiguration

unfoldable pub cache_key : Crd.BgpConfiguration → String
cache_key config = config.namespace ++ "/" ++ config.name

-- reconcileDelete's removal of the entry, at the end of a cleanup.
unfoldable pub drop_router_id : Crd.BgpConfiguration → Reconciler → Reconciler
unfolding cache_key
drop_router_id config r = record r {
  local_router_id_cache = erase (cache_key config) r.local_router_id_cache;
}

-- The status field and the condition that say how the ID was found.
unfoldable pub mark_resolved : ℕ → Source → Crd.BgpConfiguration → Crd.BgpConfiguration
unfolding source_text update_status_condition
mark_resolved now source config =
    update_status_condition now
      (record config { status = record config.status { router_id_source = source_text source } })
      "RouterIDResolved" Crd.condition_true "Resolved"
      ("Router ID resolved via " ++ source_text source)

-- The first resolution for a resource.
unfoldable pub keep_resolution :
    Call → Reconciler → Crd.BgpConfiguration → Resolved × Option NodeCache → EffectiveRun
unfolding cache_key mark_resolved
keep_resolution call r config (unresolved e, nodes) = record {
  id = resolution_failed e;
  reconciler = record r { node_cache = nodes };
  config = config;
}
keep_resolution call r config (resolved x, nodes) = record {
  id = effective x.router_id;
  reconciler = record r {
    node_cache = nodes;
    local_router_id_cache =
        insert (cache_key config) (record { router_id = x.router_id; source = x.source })
          r.local_router_id_cache;
  };
  config = mark_resolved call.ended x.source (record config {
    status = record config.status { router_id_resolution_time = some call.ended };
  });
}

unfoldable pub on_result : {A B : Type 0} → (A → B) → Option A → Option B
on_result f none = none
on_result f (some a) = some (f a)

module _ (parse_ipv6 : List ℕ → Option (List ℕ)) (parse_cidr : String → Option IpNet) where
  -- `none` means that the fuel of the retry loop ran out.
  unfoldable pub effective_from :
      Call → Reconciler → Crd.BgpConfiguration → Option LocalRouterIdEntry → Option EffectiveRun
  unfolding mark_resolved keep_resolution on_result
  effective_from call r config (some entry) = some (record {
    id = effective entry.router_id;
    reconciler = r;
    config = mark_resolved call.ended entry.source config;
  })
  effective_from call r config none = on_result (keep_resolution call r config) (
      resolve_router_id parse_ipv6 parse_cidr call.surroundings call.started r.node_name
        config.spec.global r.node_cache)

  unfoldable pub resolve_effective_router_id :
      Call → Reconciler → Crd.BgpConfiguration → Option EffectiveRun
  unfolding effective_from cache_key
  resolve_effective_router_id call r config =
      effective_from call r config (lookup (cache_key config) r.local_router_id_cache)
