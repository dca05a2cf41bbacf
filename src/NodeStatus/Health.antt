-- ===== src/NodeStatus/Health.antt =====
-- controllers/bgpnodestatus_reporter.go: bfdDegraded, deriveHealth, setCondition, setReadyCondition.
use Prim.Native.String.{◌++◌}
use k8gobgp.Prelude.{
  ℕ, suc, String, Bool, true, false, not, ◌&&◌, Option, none, some, List, [], ◌∷◌, ◌==◌, ◌!=◌,
  string_eq, if◌then◌else◌, ltb, nat_eq,
}
use k8gobgp.Crd.{ConditionStatus, condition_true, condition_false}
use k8gobgp.Status.{same_status}
use k8gobgp.NodeStatus.{
  BfdStatus, BfdServerStatus, NeighborStatus, NetlinkImportStatus, NetlinkExportStatus,
  NodeCondition, NodeStatusData,
}

-- What bfdDegraded returns: the flag with the reason and the message, whose counts stay numbers.
pub data BfdHealth : Type 0 where
  bfd_unused : BfdHealth
  server_not_listening : ℕ → BfdHealth
  sessions_down : ℕ → ℕ → BfdHealth
  bfd_healthy : ℕ → BfdHealth

unfoldable pub degraded : BfdHealth → Bool
degraded bfd_unused = false
degraded (server_not_listening configured) = true
degraded (sessions_down down configured) = true
degraded (bfd_healthy configured) = false

unfoldable pub bfd_reason : BfdHealth → String
bfd_reason bfd_unused = ""
bfd_reason (server_not_listening configured) = "ServerNotListening"
bfd_reason (sessions_down down configured) = "SessionsDown"
bfd_reason (bfd_healthy configured) = "Healthy"

-- The loop of bfdDegraded: the sessions that are configured, and those of them that are not Up.
unfoldable pub configured_sessions : List NeighborStatus → ℕ
configured_sessions [] = 0
configured_sessions (n ∷ ns) =
    let rest = configured_sessions ns in elim n.bfd [ none ↦ rest | some b ↦ suc rest ]

unfoldable pub session_down : Option BfdStatus → Bool
session_down none = false
session_down (some b) = b.session_state != "Up"

unfoldable pub down_sessions : List NeighborStatus → ℕ
unfolding session_down
down_sessions [] = 0
down_sessions (n ∷ ns) =
    let rest = down_sessions ns in if session_down n.bfd then suc rest else rest

unfoldable pub is_listening : Option BfdServerStatus → Bool
is_listening none = false
is_listening (some server) = server.listening

unfoldable pub bfd_degraded : NodeStatusData → BfdHealth
unfolding configured_sessions down_sessions is_listening
bfd_degraded status =
    let configured = configured_sessions status.neighbors in
    let down = down_sessions status.neighbors in
    if configured == 0
    then bfd_unused
    else if not (is_listening status.bfd_server)
    then server_not_listening configured
    else if ltb 0 down
    then sessions_down down configured
    else bfd_healthy configured

-- A loop that returns false at the first element for which a test fails.
unfoldable pub every : {A : Type 0} → (A → Bool) → List A → Bool
every test [] = true
every test (a ∷ rest) = let later = every test rest in if not (test a) then false else later

unfoldable pub import_works : Option NetlinkImportStatus → Bool
unfolding every
import_works none = true
import_works (some i) = every (λ a. a.in_rib) i.imported_addresses

unfoldable pub export_works : Option NetlinkExportStatus → Bool
unfolding every
export_works none = true
export_works (some e) = every (λ r. r.installed) e.exported_routes

unfoldable pub derive_health : NodeStatusData → Bool
unfolding every bfd_degraded degraded import_works export_works
derive_health status =
    every (λ n. n.state == "Established") status.neighbors
    && not (degraded (bfd_degraded status))
    && import_works status.netlink_import
    && export_works status.netlink_export

-- The loop of setCondition, which returns at the first condition of the type, and the append after it.
unfoldable pub set_node_condition :
    ℕ → String → ConditionStatus → String → String → List NodeCondition → List NodeCondition
unfolding same_status
set_node_condition now type status reason message [] =
    (record {
      condition_type = type;
      status = status;
      reason = reason;
      message = message;
      last_transition_time = now;
    })
    ∷ []
set_node_condition now type status reason message (c ∷ cs) =
    let rest = set_node_condition now type status reason message cs in
    if c.condition_type == type
    then (record c {
      status = status;
      reason = reason;
      message = message;
      last_transition_time = if same_status c.status status then c.last_transition_time else now;
    })
      ∷ cs
    else c ∷ rest

-- The texts that fmt.Sprintf makes of the counts.
pub record Messages : Type 0 where
  pub established : ℕ → String
  pub bfd : BfdHealth → String

unfoldable pub established_count : List NeighborStatus → ℕ
established_count [] = 0
established_count (n ∷ ns) =
    let rest = established_count ns in if n.state == "Established" then suc rest else rest

import_active : Option NetlinkImportStatus → Bool
import_active none = false
import_active (some i) = i.enabled

healthy_message : Messages → NodeStatusData → String
unfolding established_count import_active
healthy_message texts status =
    texts.established (established_count status.neighbors)
    ++ (if import_active status.netlink_import then ", netlinkImport active" else "")

-- The Ready condition.
unfoldable pub set_ready : Messages → ℕ → NodeStatusData → List NodeCondition
unfolding set_node_condition healthy_message
set_ready texts now status =
    if status.healthy
    then set_node_condition now "Ready" condition_true "AllHealthy" (healthy_message texts status)
        status.conditions
    else set_node_condition now "Ready" condition_false "Degraded"
        "one or more components unhealthy" status.conditions

-- The BFDDegraded condition, left out where no neighbor uses BFD.
unfoldable pub set_bfd_degraded : Messages → ℕ → BfdHealth → List NodeCondition → List NodeCondition
unfolding set_node_condition bfd_reason degraded
set_bfd_degraded texts now bfd conditions =
    if bfd_reason bfd != ""
    then set_node_condition now "BFDDegraded"
        (if degraded bfd then condition_true else condition_false) (bfd_reason bfd) (texts.bfd bfd)
        conditions
    else conditions

unfoldable pub set_ready_condition : Messages → ℕ → NodeStatusData → NodeStatusData
unfolding set_ready set_bfd_degraded
set_ready_condition texts now status = record status {
  conditions = set_bfd_degraded texts now (bfd_degraded status) (set_ready texts now status);
}
