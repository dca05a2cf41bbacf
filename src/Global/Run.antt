-- ===== src/Global/Run.antt =====
-- controllers/bgpconfiguration_controller.go: reconcileGlobal, as the calls that it makes, the fields that it
-- reports as waiting for a restart, and its error. Events, metrics and logs are left out.
use Prim.Native.String.{◌++◌}
use k8gobgp.Prelude.{
  ℕ, String, Bool, ◌||◌, Option, none, some, List, [], ◌∷◌, ◌==◌, ◌!=◌, nat_eq, list_eq,
  if◌then◌else◌,
}
use k8gobgp.Crd
use k8gobgp.Api.Global.{Global}
use k8gobgp.Convert.{FamilyError, FamilyResult, ordinals, failed, crd_to_api_global_families}
use k8gobgp.Status.{update_status_condition}
use k8gobgp.RouterId.{IpNet}
use k8gobgp.RouterId.Resolve.{ResolveError}
use k8gobgp.Global.{
  ListenError, MultipathError, desired_global, validate_listen_addresses, validate_multipath,
  drifted, update_global_restart_required,
}
use k8gobgp.Global.Effective.{
  Reconciler, Call, EffectiveId, effective, resolution_failed, EffectiveRun,
  resolve_effective_router_id,
}

pub data GlobalError : Type 0 where
  unresolved_id : ResolveError → GlobalError
  bad_families : FamilyError → GlobalError
  bad_listen : ListenError → GlobalError
  bad_multipath : MultipathError → GlobalError
  start_failed : GlobalError
  identity_changed : GlobalError
  nil_global_panic : GlobalError

pub data GlobalCall : Type 0 where
  get_bgp : GlobalCall
  start_bgp : Global → GlobalCall

-- What gobgpd answers to GetBgp, the Global of the response being a pointer, and whether StartBgp succeeds;
-- and netip.ParseAddr, as a test.
pub record Daemon : Type 0 where
  pub get_bgp_answer : Option (Option Global)
  pub starts : Bool
  pub parses_address : String → Bool

pub record GlobalOutcome : Type 0 where
  pub calls : List GlobalCall
  pub restart_required : List String
  pub error : Option GlobalError

abbrev stopped : List GlobalCall → Option GlobalError → GlobalOutcome
stopped calls error = record { calls = calls; restart_required = []; error = error }

unfoldable pub start : Daemon → Global → GlobalOutcome
start daemon desired =
    stopped (get_bgp ∷ start_bgp desired ∷ []) (if daemon.starts then none else some start_failed)

-- A server that runs.
unfoldable pub compare_running : Global → Global → GlobalOutcome
unfolding drifted update_global_restart_required
compare_running desired current =
    if current.asn != desired.asn || current.router_id != desired.router_id
    then stopped (get_bgp ∷ []) (some identity_changed)
    else record {
      calls = get_bgp ∷ [];
      restart_required = update_global_restart_required (drifted desired current);
      error = none;
    }

-- From GetBgp on.
unfoldable pub bring_up : Daemon → Global → Option (Option Global) → GlobalOutcome
unfolding start compare_running
bring_up daemon desired none = start daemon desired
bring_up daemon desired (some none) = stopped (get_bgp ∷ []) (some nil_global_panic)
bring_up daemon desired (some (some current)) =
    if current.asn == 0 then start daemon desired else compare_running desired current

unfoldable pub after_multipath : Daemon → Global → Option MultipathError → GlobalOutcome
unfolding bring_up
after_multipath daemon desired (some e) = stopped [] (some (bad_multipath e))
after_multipath daemon desired none = bring_up daemon desired daemon.get_bgp_answer

unfoldable pub after_listen : Daemon → Crd.GlobalSpec → Global → Option ListenError → GlobalOutcome
unfolding after_multipath validate_multipath
after_listen daemon spec desired (some e) = stopped [] (some (bad_listen e))
after_listen daemon spec desired none = after_multipath daemon desired (validate_multipath spec)

unfoldable pub after_families : Daemon → Crd.GlobalSpec → List ℕ → FamilyResult → GlobalOutcome
unfolding after_listen desired_global validate_listen_addresses
after_families daemon spec id (failed e) = stopped [] (some (bad_families e))
after_families daemon spec id (ordinals families) =
    after_listen daemon spec (desired_global spec id families)
      (validate_listen_addresses daemon.parses_address spec.listen_addresses)

-- reconcileGlobal, once the router ID is resolved.
unfoldable pub apply_global : Daemon → Crd.GlobalSpec → List ℕ → GlobalOutcome
unfolding after_families crd_to_api_global_families
apply_global daemon spec id =
    after_families daemon spec id (crd_to_api_global_families spec.families)

pub record GlobalRun : Type 0 where
  pub outcome : GlobalOutcome
  pub reconciler : Reconciler
  pub config : Crd.BgpConfiguration

with_id : Daemon → Call → Reconciler → Crd.BgpConfiguration → EffectiveId → GlobalRun
unfolding apply_global update_status_condition
with_id daemon call r config (resolution_failed e) = record {
  outcome = stopped [] (some (unresolved_id e));
  reconciler = r;
  config =
      update_status_condition call.ended config "RouterIDResolved" Crd.condition_false
        "ResolutionFailed" ("Router ID resolution failed: " ++ call.error_text e);
}
with_id daemon call r config (effective id) = record {
  outcome = apply_global daemon config.spec.global id;
  reconciler = r;
  config = config;
}

module _ (parse_ipv6 : List ℕ → Option (List ℕ)) (parse_cidr : String → Option IpNet) where
  with_run : Daemon → Call → Option EffectiveRun → Option GlobalRun
  unfolding with_id
  with_run daemon call none = none
  with_run daemon call (some run) = some (with_id daemon call run.reconciler run.config run.id)

  unfoldable pub reconcile_global :
      Daemon → Call → Reconciler → Crd.BgpConfiguration → Option GlobalRun
  unfolding with_run resolve_effective_router_id
  reconcile_global daemon call r config =
      with_run daemon call (resolve_effective_router_id parse_ipv6 parse_cidr call r config)
