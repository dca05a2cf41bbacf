-- ===== src/NodeStatus/Texts.antt =====
-- controllers/bgpnodestatus_reporter.go: the texts of session states and diagnostic codes.
-- The enumerations are the ones of gobgp's API; `other` stands for a number that the switch has no case for.
use k8gobgp.Prelude.{String, Bool, true, false}

pub data SessionState : Type 0 where
  idle connect active opensent openconfirm established other_state : SessionState

unfoldable pub peer_state_to_string : SessionState → String
peer_state_to_string idle = "Idle"
peer_state_to_string connect = "Connect"
peer_state_to_string active = "Active"
peer_state_to_string opensent = "OpenSent"
peer_state_to_string openconfirm = "OpenConfirm"
peer_state_to_string established = "Established"
peer_state_to_string other_state = "Unknown"

unfoldable pub is_established : SessionState → Bool
is_established idle = false
is_established connect = false
is_established active = false
is_established opensent = false
is_established openconfirm = false
is_established established = true
is_established other_state = false

pub data BfdState : Type 0 where
  bfd_up bfd_down bfd_admin_down bfd_init bfd_other : BfdState

unfoldable pub bfd_state_to_string : BfdState → String
bfd_state_to_string bfd_up = "Up"
bfd_state_to_string bfd_down = "Down"
bfd_state_to_string bfd_admin_down = "AdminDown"
bfd_state_to_string bfd_init = "Init"
bfd_state_to_string bfd_other = "Unspecified"

pub data BfdDiagnostic : Type 0 where
  no_diagnostic detection_timeout echo_failed neighbor_signaled_session_down : BfdDiagnostic
  forwarding_plane_reset path_down concatenated_path_down administratively_down : BfdDiagnostic
  reverse_concatenated_path_down diagnostic_other : BfdDiagnostic

unfoldable pub bfd_diag_to_string : BfdDiagnostic → String
bfd_diag_to_string no_diagnostic = "NoDiagnostic"
bfd_diag_to_string detection_timeout = "DetectionTimeout"
bfd_diag_to_string echo_failed = "EchoFailed"
bfd_diag_to_string neighbor_signaled_session_down = "NeighborSignaledSessionDown"
bfd_diag_to_string forwarding_plane_reset = "ForwardingPlaneReset"
bfd_diag_to_string path_down = "PathDown"
bfd_diag_to_string concatenated_path_down = "ConcatenatedPathDown"
bfd_diag_to_string administratively_down = "AdministrativelyDown"
bfd_diag_to_string reverse_concatenated_path_down = "ReverseConcatenatedPathDown"
bfd_diag_to_string diagnostic_other = "Unknown"
