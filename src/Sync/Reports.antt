-- ===== src/Sync/Reports.antt =====
-- controllers/bgpconfiguration_controller.go: inheritedBlocks, which the reporter shows for a neighbor, and the
-- settings that reportInertFields names.
use k8gobgp.Prelude.{
  String, Bool, true, false, Option, none, some, List, [], ◌∷◌, ◌==◌, ◌!=◌, string_eq, nat_eq,
  if◌then◌else◌, length, is_none, is_some, ◌≡◌, refl,
}
use k8gobgp.Crd
use k8gobgp.Api.{Peer, PeerConf}
use k8gobgp.Global.{sort}

-- A name that is appended if a test passes.
unfoldable pub named_if : Bool → String → List String → List String
named_if b name rest = if b then name ∷ rest else rest

peer_group_of : Option PeerConf → String
peer_group_of none = ""
peer_group_of (some conf) = conf.peer_group

unfoldable pub inherited_blocks : Peer → List String
unfolding peer_group_of named_if sort
inherited_blocks desired =
    if peer_group_of desired.conf == ""
    then []
    else sort (
        named_if (length desired.afi_safis == 0) "afiSafis" (
          named_if (is_none desired.apply_policy) "applyPolicy" (
            named_if (is_none desired.timers) "timers" (
              named_if (is_none desired.transport) "transport" (
                named_if (is_none desired.graceful_restart) "gracefulRestart"
                  (named_if (is_none desired.bfd) "bfd" []))))))

-- The loops that stop at the first element for which a test passes.
some_has : {A : Type 0} → (A → Bool) → List A → Bool
some_has test [] = false
some_has test (a ∷ rest) = let later = some_has test rest in if test a then true else later

states_advertisement_interval : Option Crd.Timers → Bool
states_advertisement_interval none = false
states_advertisement_interval (some t) = t.config.minimum_advertisement_interval != 0

inert_options : Option Crd.RouteSelectionOptions → List String → List String
unfolding named_if
inert_options none rest = rest
inert_options (some options) rest =
    named_if options.advertise_inactive_routes
      "global.routeSelectionOptions.advertiseInactiveRoutes"
      (named_if options.enable_aigp "global.routeSelectionOptions.enableAigp" (
        named_if options.ignore_next_hop_igp_metric
          "global.routeSelectionOptions.ignoreNextHopIgpMetric" rest))

unfoldable pub inert_fields : Crd.BgpConfigurationSpec → List String
unfolding named_if inert_options some_has states_advertisement_interval
inert_fields spec =
    named_if (is_some spec.global.default_route_distance) "global.defaultRouteDistance" (
      inert_options spec.global.route_selection_options (
        named_if (some_has (λ n. n.config.route_flap_damping) spec.neighbors)
          "neighbors[].config.routeFlapDamping"
          (named_if (some_has (λ g. g.config.route_flap_damping) spec.peer_groups)
            "peerGroups[].config.routeFlapDamping"
            (named_if (some_has (λ n. states_advertisement_interval n.timers) spec.neighbors)
              "neighbors[].timers.config.minimumAdvertisementInterval"
              (named_if (some_has (λ g. states_advertisement_interval g.timers) spec.peer_groups)
                "peerGroups[].timers.config.minimumAdvertisementInterval" [])))))

-- A neighbor without a peer group inherits nothing.
pub inherited_blocks-ungrouped :
    (peer : Peer) (conf : PeerConf)
    → peer.conf ≡ some conf
    → conf.peer_group ≡ ""
    → inherited_blocks peer ≡ []
unfolding inherited_blocks
inherited_blocks-ungrouped peer conf given free = rw (given, free) refl
