-- ===== src/Examples/Samples.antt =====
-- Sample data: a neighbor, a resource that has it, and what gobgpd reports of it.
use k8gobgp.Prelude.{true, false, none, some, [], ◌∷◌}
use k8gobgp.Crd
use k8gobgp.Api.{PeerConf, Peer, afi_ip, afi_ip6, safi_unicast}

abbrev pub neighbor_config : Crd.NeighborConfig
neighbor_config = record {
  auth_password = none;
  auth_password_secret_ref = none;
  description = some "Gateway router on subnet-251 (IPv6)";
  local_asn = 0;
  neighbor_address = "2001:470:b8f3:251::1";
  peer_asn = 64514;
  peer_group = "";
  admin_down = false;
  neighbor_interface = "";
  vrf = "";
  allow_own_asn = none;
  replace_peer_asn = none;
  allow_aspath_loop_local = none;
  send_community = "";
  remove_private = "";
  route_flap_damping = false;
  send_software_version = none;
}

abbrev pub neighbor : Crd.Neighbor
neighbor = record {
  config = neighbor_config;
  node_selector = none;
  afi_safis =
      record { family = "ipv4-unicast"; enabled = true; prefix_limit = none; add_paths = none }
      ∷ record { family = "ipv6-unicast"; enabled = true; prefix_limit = none; add_paths = none }
      ∷ [];
  apply_policy = none;
  timers = some (record {
    config = record {
      connect_retry = 0;
      hold_time = 90;
      keepalive_interval = 30;
      minimum_advertisement_interval = 0;
    };
  });
  transport = none;
  graceful_restart = none;
  route_reflector = none;
  ebgp_multihop = none;
  bfd = none;
}

abbrev pub sent_conf : PeerConf
sent_conf = record {
  neighbor_address = "2001:470:b8f3:251::1";
  peer_asn = 64514;
  peer_group = "";
  admin_down = false;
  neighbor_interface = "";
  vrf = "";
  local_asn = none;
  description = some "Gateway router on subnet-251 (IPv6)";
  auth_password = none;
  allow_own_asn = none;
  replace_peer_asn = none;
  allow_aspath_loop_local = none;
  remove_private = none;
  send_software_version = none;
  send_community = none;
}

abbrev pub reported_conf : PeerConf
reported_conf = record sent_conf { local_asn = some 64515 }

-- gobgpd's report of the neighbor, from the capture in controllers/reconcile_idempotency_test.go
-- (TestPeerConfigEqual_AgainstProductionPayload), in the fields that are modelled.
abbrev pub reported : Peer
reported = record {
  conf = some reported_conf;
  state = some (record { auth_password_set = false });
  afi_safis =
      record {
        config = some (record {
          family = some (record { afi = afi_ip; safi = safi_unicast });
          enabled = true;
        });
        prefix_limits = none;
        add_paths = none;
      }
      ∷ record {
        config = some (record {
          family = some (record { afi = afi_ip6; safi = safi_unicast });
          enabled = true;
        });
        prefix_limits = none;
        add_paths = none;
      }
      ∷ [];
  apply_policy = none;
  timers = some (record {
    config = some (record { connect_retry = 120; hold_time = 90; keepalive_interval = 30 });
  });
  transport = some (record {
    local_address = "2001:470:b8f3:251:be24:11ff:fe9b:a72b";
    passive_mode = false;
    bind_interface = "";
    ip_tos = 0;
  });
  graceful_restart = some (record {
    enabled = false;
    restart_time = 0;
    stale_routes_time = 0;
    helper_only = false;
    deferral_time = 0;
  });
  route_reflector =
      some (record { route_reflector_client = false; route_reflector_cluster_id = "invalid IP" });
  ebgp_multihop = some (record { enabled = false; multihop_ttl = 0 });
  bfd = some (record {
    enabled = false;
    port = 3784;
    desired_minimum_tx_interval = 1000000;
    required_minimum_receive = 1000000;
    detection_multiplier = 3;
  });
}

abbrev pub global : Crd.GlobalSpec
global = record {
  asn = 64515;
  router_id = "";
  router_id_pool = "";
  listen_port = 0;
  use_multiple_paths = false;
  ebgp_maximum_paths = 0;
  ibgp_maximum_paths = 0;
  listen_addresses = [];
  families = [];
  route_selection_options = none;
  default_route_distance = none;
  confederation = none;
  graceful_restart = none;
  apply_policy = none;
  bind_to_device = "";
}

-- A resource with that neighbor, in namespace `lab`.
abbrev pub config : Crd.BgpConfiguration
config = record {
  namespace = "lab";
  name = "bgp";
  creation_timestamp = 100;
  deletion_timestamp = none;
  generation = 3;
  finalizers = "bgp.purelb.io/finalizer" ∷ [];
  spec = record {
    global = global;
    neighbors = neighbor ∷ [];
    peer_groups = [];
    dynamic_neighbors = record { prefix = "10.0.0.9"; peer_group = "spines" } ∷ [];
    vrfs = [];
    policy_definitions = [];
    defined_sets = [];
    netlink_import = none;
    netlink_export = none;
  };
  status = record {
    observed_generation = 2;
    conditions =
        record {
          condition_type = "Ready";
          status = Crd.condition_true;
          observed_generation = 2;
          last_transition_time = 110;
          reason = "ReconcileSuccess";
          message = "";
        }
        ∷ [];
    last_reconcile_time = none;
    neighbor_count = 0;
    message = "";
    router_id_source = "";
    router_id_resolution_time = none;
  };
}

-- One created in the same second, and one created later.
abbrev pub sibling : Crd.BgpConfiguration
sibling = record config { name = "other" }

abbrev pub later_config : Crd.BgpConfiguration
later_config = record config { name = "later"; creation_timestamp = 101 }
