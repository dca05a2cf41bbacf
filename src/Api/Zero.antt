-- ===== src/Api/Zero.antt =====
-- The zero values that the generated getters return on a nil message.
use k8gobgp.Prelude.{false, Option, none, some, [], value_or}
use k8gobgp.Api.Peers.{
  TimersConfig, Timers, Transport, GracefulRestart, RouteReflector, EbgpMultihop, BfdPeerConfig,
  PolicyAssignment, ApplyPolicy, route_action_unspecified, policy_direction_unspecified,
}

abbrev pub zero_timers : TimersConfig
zero_timers = record { connect_retry = 0; hold_time = 0; keepalive_interval = 0 }

abbrev pub zero_transport : Transport
zero_transport = record {
  local_address = "";
  passive_mode = false;
  bind_interface = "";
  ip_tos = 0;
}

abbrev pub zero_graceful_restart : GracefulRestart
zero_graceful_restart = record {
  enabled = false;
  restart_time = 0;
  stale_routes_time = 0;
  helper_only = false;
  deferral_time = 0;
}

abbrev pub zero_route_reflector : RouteReflector
zero_route_reflector = record { route_reflector_client = false; route_reflector_cluster_id = "" }

abbrev pub zero_ebgp_multihop : EbgpMultihop
zero_ebgp_multihop = record { enabled = false; multihop_ttl = 0 }

abbrev pub zero_bfd : BfdPeerConfig
zero_bfd = record {
  enabled = false;
  port = 0;
  desired_minimum_tx_interval = 0;
  required_minimum_receive = 0;
  detection_multiplier = 0;
}

abbrev pub zero_assignment : PolicyAssignment
zero_assignment = record {
  name = "";
  direction = policy_direction_unspecified;
  policies = [];
  default_action = route_action_unspecified;
}

abbrev pub zero_apply_policy : ApplyPolicy
zero_apply_policy = record { export_policy = none; import_policy = none }

-- Timers.GetConfig, on a pointer that may be nil.
abbrev pub timers_config : Option Timers → TimersConfig
timers_config none = zero_timers
timers_config (some t) = value_or zero_timers t.config

-- ApplyPolicy.GetImportPolicy and GetExportPolicy, on a pointer that may be nil.
abbrev pub import_policy_of : Option ApplyPolicy → PolicyAssignment
import_policy_of none = zero_assignment
import_policy_of (some p) = value_or zero_assignment p.import_policy

abbrev pub export_policy_of : Option ApplyPolicy → PolicyAssignment
export_policy_of none = zero_assignment
export_policy_of (some p) = value_or zero_assignment p.export_policy
