-- ===== src/NodeStatus/Write.antt =====
-- controllers/bgpnodestatus_reporter.go: writeStatus, collectAndWrite, ensureBGPNodeStatus, markShutdown and
-- the loop of Start, over the reporter's fields and the status of the node's BGPNodeStatus object.
use k8gobgp.Prelude.{
  ℕ, suc, ◌-◌, String, Bool, true, false, not, ◌&&◌, Option, none, some, List, [], ◌∷◌, ltb,
  if◌then◌else◌, is_some,
}
use k8gobgp.Crd.{condition_false}
use k8gobgp.NodeStatus.{NodeStatusData, empty_status}
use k8gobgp.NodeStatus.Health.{Messages, set_node_condition}
use k8gobgp.NodeStatus.Equal.{status_equal}
use k8gobgp.NodeStatus.Collect.{ReporterConfig, Answers, collect_status}

pub record Reporter : Type 0 where
  pub node_name : String
  pub config : ReporterConfig
  pub last_written_status : Option NodeStatusData
  pub last_write_time : ℕ
  pub consecutive_failures : ℕ

-- The object is none where it does not exist.
pub record World : Type 0 where
  pub reporter : Reporter
  pub object : Option NodeStatusData

-- How the API server answers an update: it accepts it; it refuses it, which leaves the object as it is; or it
-- applies it and the answer is lost, so that the reporter sees an error.
pub data UpdateAnswer : Type 0 where
  update_accepted update_refused answer_lost : UpdateAnswer

-- One write: the time of the comparison, the time after the jitter, the time after the update, whether the
-- API server answers the Get, and how it answers the update.
pub record Attempt : Type 0 where
  pub now : ℕ
  pub stamped : ℕ
  pub finished : ℕ
  pub get_works : Bool
  pub update : UpdateAnswer

unfoldable pub stamp : Attempt → Reporter → NodeStatusData → NodeStatusData
stamp a r status = record status {
  last_updated = some a.stamped;
  heartbeat_seconds = r.config.heartbeat_seconds;
}

unfoldable pub skips : Attempt → Reporter → NodeStatusData → Bool
unfolding status_equal
skips a r status =
    status_equal r.last_written_status (some status)
    && ltb (a.now - r.last_write_time) r.config.heartbeat_seconds

-- The end of a write, with whether it succeeds.
unfoldable pub end_write : UpdateAnswer → Attempt → NodeStatusData → World → World × Bool
end_write update_accepted a status w = (
  record {
    reporter = record w.reporter {
      last_written_status = some status;
      last_write_time = a.finished;
    };
    object = some status;
  },
  true,
)
end_write update_refused a status w = (w, false)
end_write answer_lost a status w = (record w { object = some status }, false)

unfoldable pub store : Attempt → NodeStatusData → World → World × Bool
unfolding end_write
store a status w =
    if not (a.get_works && is_some w.object) then (w, false) else end_write a.update a status w

unfoldable pub write_status : Attempt → NodeStatusData → World → World × Bool
unfolding skips store stamp
write_status a status w =
    if skips a w.reporter status then (w, true) else store a (stamp a w.reporter status) w

count_failure : World → World
count_failure w = record w {
  reporter = record w.reporter { consecutive_failures = suc w.reporter.consecutive_failures };
}

unfoldable pub counted : World × Bool → World
unfolding count_failure
counted (w, true) = record w { reporter = record w.reporter { consecutive_failures = 0 } }
counted (w, false) = count_failure w

-- One collection, none where no client can be made, and its write.
unfoldable pub collect_and_write : Messages → Attempt → Option Answers → World → World
unfolding counted write_status collect_status count_failure
collect_and_write texts a none w = count_failure w
collect_and_write texts a (some answers) w =
    counted (write_status a (collect_status texts w.reporter.node_name w.reporter.config answers) w)

-- What happens to the reporter between its start and its end: the initial collection of Start, which is made
-- also where reporting is disabled, a tick, and a call of UpdateConfig or UpdateInheritedBlocks, as what
-- it makes of the settings.
pub data Event : Type 0 where
  initial_collection : Attempt → Option Answers → Event
  tick : Attempt → Option Answers → Event
  configure : (ReporterConfig → ReporterConfig) → Event

unfoldable pub handle_event : Messages → Event → World → World
unfolding collect_and_write
handle_event texts (initial_collection a answers) w = collect_and_write texts a answers w
handle_event texts (tick a answers) w =
    let next = collect_and_write texts a answers w in if w.reporter.config.enabled then next else w
handle_event texts (configure change) w = record w {
  reporter = record w.reporter { config = change w.reporter.config };
}

unfoldable pub handle_events : Messages → List Event → World → World
unfolding handle_event
handle_events texts [] w = w
handle_events texts (e ∷ es) w = handle_events texts es (handle_event texts e w)

-- The answers for ensureBGPNodeStatus: whether the Get of the object, the Get of the node and the Create
-- work. The new object has an empty status.
unfoldable pub ensure_bgp_node_status : Bool → Bool → Bool → World → World × Bool
ensure_bgp_node_status get_works node_found create_works w =
    if not get_works
    then (w, false)
    else if is_some w.object
    then (w, true)
    else if not (node_found && create_works)
    then (w, false)
    else (record w { object = some empty_status }, true)

-- markShutdown, on the object that is there; `update_applied` says whether the update takes effect.
mark : ℕ → NodeStatusData → NodeStatusData
unfolding set_node_condition
mark now status = record status {
  healthy = false;
  last_updated = some now;
  conditions =
      set_node_condition now "Ready" condition_false "AgentShutdown"
        "k8gobgp agent is shutting down" status.conditions;
}

unfoldable pub mark_shutdown : ℕ → Bool → Bool → Option NodeStatusData → Option NodeStatusData
unfolding mark
mark_shutdown now get_works update_applied none = none
mark_shutdown now get_works update_applied (some status) =
    if get_works && update_applied then some (mark now status) else some status
