-- ===== src/Api/Global.antt =====
-- gobgp's Global message and the blocks in it. `listen_port` is an int32, by its bit pattern; the router ID is
-- the bytes of its text.
use k8gobgp.Prelude.{ℕ, String, Bool, false, Option, List, []}
use k8gobgp.Api.Peers.{GracefulRestart}

pub record RouteSelectionOptionsConfig : Type 0 where
  pub always_compare_med : Bool
  pub ignore_as_path_length : Bool
  pub external_compare_router_id : Bool
  pub disable_best_path_selection : Bool

pub record Confederation : Type 0 where
  pub enabled : Bool
  pub identifier : ℕ
  pub member_as_list : List ℕ

pub record Global : Type 0 where
  pub asn : ℕ
  pub router_id : List ℕ
  pub listen_port : ℕ
  pub listen_addresses : List String
  pub families : List ℕ
  pub use_multiple_paths : Bool
  pub ebgp_maximum_paths : ℕ
  pub ibgp_maximum_paths : ℕ
  pub route_selection_options : Option RouteSelectionOptionsConfig
  pub confederation : Option Confederation
  pub graceful_restart : Option GracefulRestart
  pub bind_to_device : String

abbrev pub zero_route_selection_options : RouteSelectionOptionsConfig
zero_route_selection_options = record {
  always_compare_med = false;
  ignore_as_path_length = false;
  external_compare_router_id = false;
  disable_best_path_selection = false;
}

abbrev pub zero_confederation : Confederation
zero_confederation = record { enabled = false; identifier = 0; member_as_list = [] }
