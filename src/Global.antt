-- ===== src/Global.antt =====
-- controllers/bgpconfiguration_controller.go: the global settings. Here are the desired Global, the checks that
-- precede StartBgp, and the comparison with what gobgpd reports; the children have the resolved router ID
-- (Effective), reconcileGlobal (Run) and what holds of them.
pub mod Effective
pub mod Run
pub mod Locked
pub mod Multipath
pub mod Start
pub mod ReadBack
use k8gobgp.Prelude.{
  ℕ, String, Bool, true, false, ◌&&◌, ◌||◌, not, Option, none, some, List, [], ◌∷◌, ◌==◌, ◌!=◌,
  nat_eq, bool_eq, string_eq, list_eq, if◌then◌else◌, is_some, value_or, length, ltb,
}
use k8gobgp.Prelude.Text.{text_ltb}
use k8gobgp.Prelude.GoMap.{GoMap, lookup}
use k8gobgp.Crd
use k8gobgp.Api.{GracefulRestart, zero_graceful_restart}
use k8gobgp.Api.Global
use k8gobgp.Api.Global.{
  RouteSelectionOptionsConfig, Confederation, Global, zero_route_selection_options,
  zero_confederation,
}
use k8gobgp.Convert.{crd_to_api_graceful_restart}

unfoldable pub crd_to_api_route_selection_options :
    Option Crd.RouteSelectionOptions → Option RouteSelectionOptionsConfig
crd_to_api_route_selection_options none = none
crd_to_api_route_selection_options (some crd) = some (record {
  always_compare_med = crd.always_compare_med;
  ignore_as_path_length = crd.ignore_as_path_length;
  external_compare_router_id = crd.external_compare_router_id;
  disable_best_path_selection = crd.disable_best_path_selection;
})

unfoldable pub crd_to_api_confederation : Option Crd.Confederation → Option Confederation
crd_to_api_confederation none = none
crd_to_api_confederation (some crd) = some (record {
  enabled = crd.enabled;
  identifier = crd.identifier;
  member_as_list = crd.member_as_list;
})

-- The Global that reconcileGlobal sends, from the resolved router ID and the converted families.
unfoldable pub desired_global : Crd.GlobalSpec → List ℕ → List ℕ → Global
unfolding crd_to_api_route_selection_options crd_to_api_confederation crd_to_api_graceful_restart
desired_global spec router_id families = record {
  asn = spec.asn;
  router_id = router_id;
  listen_port = spec.listen_port;
  listen_addresses = spec.listen_addresses;
  families = families;
  use_multiple_paths = spec.use_multiple_paths;
  ebgp_maximum_paths = spec.ebgp_maximum_paths;
  ibgp_maximum_paths = spec.ibgp_maximum_paths;
  route_selection_options = crd_to_api_route_selection_options spec.route_selection_options;
  confederation = crd_to_api_confederation spec.confederation;
  graceful_restart = crd_to_api_graceful_restart spec.graceful_restart;
  bind_to_device = spec.bind_to_device;
}

pub data ListenError : Type 0 where
  empty_address : ListenError
  not_an_address : String → ListenError

-- validateListenAddresses, for a test that stands for netip.ParseAddr without an error.
unfoldable pub validate_listen_addresses : (String → Bool) → List String → Option ListenError
validate_listen_addresses parses [] = none
validate_listen_addresses parses (a ∷ rest) =
    let later = validate_listen_addresses parses rest in
    if a == ""
    then some empty_address
    else if not (parses a)
    then some (not_an_address a)
    else later

pub data MultipathError : Type 0 where
  no_limit limit_without_multipath : MultipathError

unfoldable pub validate_multipath : Crd.GlobalSpec → Option MultipathError
validate_multipath g =
    let has_limit = g.ebgp_maximum_paths != 0 || g.ibgp_maximum_paths != 0 in
    if g.use_multiple_paths && not has_limit
    then some no_limit
    else if not g.use_multiple_paths && has_limit
    then some limit_without_multipath
    else none

unfoldable pub route_selection_options_equal :
    Option RouteSelectionOptionsConfig → Option RouteSelectionOptionsConfig → Bool
route_selection_options_equal desired current =
    let d = value_or zero_route_selection_options desired in
    let c = value_or zero_route_selection_options current in
    d.always_compare_med == c.always_compare_med
    && d.ignore_as_path_length == c.ignore_as_path_length
    && d.external_compare_router_id == c.external_compare_router_id
    && d.disable_best_path_selection == c.disable_best_path_selection

unfoldable pub confederation_equal : Option Confederation → Option Confederation → Bool
confederation_equal desired current =
    let d = value_or zero_confederation desired in
    let c = value_or zero_confederation current in
    d.enabled == c.enabled && d.identifier == c.identifier && d.member_as_list == c.member_as_list

unfoldable pub global_graceful_restart_equal :
    Option GracefulRestart → Option GracefulRestart → Bool
global_graceful_restart_equal desired current =
    let d = value_or zero_graceful_restart desired in
    let c = value_or zero_graceful_restart current in
    d.enabled == c.enabled
    && d.restart_time == c.restart_time
    && d.stale_routes_time == c.stale_routes_time
    && d.deferral_time == c.deferral_time

-- The map `drifted`.
unfoldable pub drifted : Global → Global → GoMap Bool
unfolding route_selection_options_equal confederation_equal global_graceful_restart_equal
drifted d c =
    ("useMultiplePaths", c.use_multiple_paths != d.use_multiple_paths)
    ∷ ("ebgpMaximumPaths", c.ebgp_maximum_paths != d.ebgp_maximum_paths)
    ∷ ("ibgpMaximumPaths", c.ibgp_maximum_paths != d.ibgp_maximum_paths)
    ∷ ("bindToDevice", c.bind_to_device != d.bind_to_device)
    ∷ (
      "routeSelectionOptions",
      not (route_selection_options_equal d.route_selection_options c.route_selection_options),
    )
    ∷ ("confederation", not (confederation_equal d.confederation c.confederation))
    ∷ ("gracefulRestart", not (global_graceful_restart_equal d.graceful_restart c.graceful_restart))
    ∷ ("listenPort", d.listen_port != 0 && c.listen_port != d.listen_port)
    ∷ (
      "listenAddresses",
      ltb 0 (length d.listen_addresses) && c.listen_addresses != d.listen_addresses,
    )
    ∷ ("families", ltb 0 (length d.families) && c.families != d.families)
    ∷ []

abbrev pub global_drift_fields : List String
global_drift_fields =
    "useMultiplePaths" ∷ "ebgpMaximumPaths" ∷ "ibgpMaximumPaths" ∷ "bindToDevice"
    ∷ "routeSelectionOptions" ∷ "confederation" ∷ "gracefulRestart" ∷ "listenPort"
    ∷ "listenAddresses" ∷ "families" ∷ []

-- The loop of UpdateGlobalRestartRequired that collects the fields.
unfoldable pub drifted_fields : GoMap Bool → List String → List String
drifted_fields m [] = []
drifted_fields m (f ∷ fs) =
    let rest = drifted_fields m fs in if value_or false (lookup f m) then f ∷ rest else rest

put_in_order : String → List String → List String
put_in_order s [] = s ∷ []
put_in_order s (t ∷ ts) =
    let rest = put_in_order s ts in if text_ltb t s then t ∷ rest else s ∷ t ∷ ts

-- slices.Sort on strings.
unfoldable pub sort : List String → List String
unfolding put_in_order
sort [] = []
sort (s ∷ ss) = put_in_order s (sort ss)

-- The fields that UpdateGlobalRestartRequired names in its event; none if it emits none.
unfoldable pub update_global_restart_required : GoMap Bool → List String
unfolding drifted_fields sort
update_global_restart_required m = sort (drifted_fields m global_drift_fields)
