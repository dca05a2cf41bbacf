-- ===== src/Examples/Reporting.antt =====
-- The node status reporter: a node with a peer that is down, and a write
-- after one that was skipped.
use k8gobgp.Prelude.{◌≡◌, refl, true, false, none, some, List, [], ◌∷◌}
use k8gobgp.NodeStatus.{NodeStatusData, NeighborStatus, empty_status}
use k8gobgp.NodeStatus.Texts.{active, bfd_other, diagnostic_other}
use k8gobgp.NodeStatus.Neighbors.{ReportedPeer, BfdReport, not_listed, stream, received_neighbors}
use k8gobgp.NodeStatus.Health.{Messages}
use k8gobgp.NodeStatus.Collect.{ReporterConfig, Answers, collect_status}
use k8gobgp.NodeStatus.Caps.{IsCapped, collect_status-IsCapped, peers_with_state}
use k8gobgp.NodeStatus.Write.{
  World, Reporter, Attempt, update_accepted, update_refused, Event, initial_collection, tick,
  write_status, handle_events,
}
use k8gobgp.NodeStatus.Latest.{Shows, Made, write_status-Shows}

abbrev texts : Messages
texts = record { established = λ n. "neighbor(s) established"; bfd = λ b. "BFD" }

abbrev settings : ReporterConfig
settings = record {
  enabled = true;
  heartbeat_seconds = 60;
  router_id = some "192.0.2.9";
  router_id_source = some "explicit";
  asn = 65000;
  inherited_blocks = none;
}

abbrev no_answers : Answers
no_answers = record {
  peers = not_listed;
  netlink_import = none;
  rib = none;
  netlink_export = none;
  vrfs = none;
  bfd_server = none;
  now = 100;
}

abbrev no_bfd : BfdReport
no_bfd = record {
  session_state = bfd_other;
  remote_session_state = bfd_other;
  local_diagnostic_code = diagnostic_other;
  remote_diagnostic_code = diagnostic_other;
  failure_transitions = 0;
}

abbrev peer : ReportedPeer
peer = record {
  conf = none;
  state = some (record {
    neighbor_address = "192.0.2.1";
    session_state = active;
    disconnect_message = "";
    disconnect_reason = none;
    bfd_state = no_bfd;
  });
  bfd = none;
  uptime = none;
  afi_safis = [];
}

abbrev answers : Answers
answers = record no_answers {
  peers = stream (some peer ∷ []) true;
  netlink_import = some none;
  netlink_export = some none;
  vrfs = some [];
  bfd_server = some none;
}

down_peer : (collect_status texts "node-1" settings answers).healthy ≡ false
unfolding collect_status
down_peer = refl

abbrev attempt : Attempt
attempt = record {
  now = 100;
  stamped = 105;
  finished = 106;
  get_works = true;
  update = update_accepted;
}

abbrev later : Attempt
later = record {
  now = 130;
  stamped = 130;
  finished = 131;
  get_works = true;
  update = update_refused;
}

abbrev reporter : Reporter
reporter = record {
  node_name = "node-1";
  config = settings;
  last_written_status = none;
  last_write_time = 0;
  consecutive_failures = 0;
}

abbrev start : World
start = record { reporter = reporter; object = some empty_status }

abbrev ticks : List Event
ticks = initial_collection attempt (some answers) ∷ tick later none ∷ []

abbrev collected : NodeStatusData
collected = collect_status texts "node-1" settings answers

later_write : (write_status later collected (handle_events texts ticks start)).1 ≡ true
unfolding write_status handle_events collect_status
later_write = refl

abbrev listed_neighbors : List NeighborStatus
listed_neighbors = received_neighbors none (some peer ∷ [])

collect_status-IsCapped_example :
    IsCapped collected listed_neighbors (peers_with_state (some peer ∷ [])) []
collect_status-IsCapped_example =
    collect_status-IsCapped texts "node-1" settings answers (some peer ∷ []) [] refl refl

write_status-Shows_example :
    Shows
      (λ earlier. Made earlier ticks)
      later
      (handle_events texts ticks start)
      collected
      (write_status later collected (handle_events texts ticks start)).0
write_status-Shows_example =
    write_status-Shows texts ticks start later collected refl ((λ e. cc), ((λ e. cc), tt))
      later_write
