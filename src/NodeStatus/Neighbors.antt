-- ===== src/NodeStatus/Neighbors.antt =====
-- controllers/bgpnodestatus_reporter.go: collectNeighborStatus.
use k8gobgp.Prelude.{
  ℕ, String, ◌+◌, ◌%◌, ◌^◌, Bool, Option, none, some, List, [], ◌∷◌, ◌++◌, ◌!=◌, string_eq,
  if◌then◌else◌, value_or,
}
use k8gobgp.Prelude.GoMap.{GoMap, lookup}
use k8gobgp.Api.{PeerConf, BfdPeerConfig}
use k8gobgp.Sync.Key.{neighbor_key}
use k8gobgp.NodeStatus.{BfdStatus, NeighborStatus}
use k8gobgp.NodeStatus.Texts.{
  SessionState, peer_state_to_string, is_established, BfdState, bfd_state_to_string, BfdDiagnostic,
  bfd_diag_to_string,
}

pub record BfdReport : Type 0 where
  pub session_state : BfdState
  pub remote_session_state : BfdState
  pub local_diagnostic_code : BfdDiagnostic
  pub remote_diagnostic_code : BfdDiagnostic
  pub failure_transitions : ℕ

-- The State of a peer, as far as it is read. The disconnect reason is its enumerator's text, none for
-- the unspecified one; a nil BfdState reads as one of unspecified states and the code 0.
pub record StateReport : Type 0 where
  pub neighbor_address : String
  pub session_state : SessionState
  pub disconnect_message : String
  pub disconnect_reason : Option String
  pub bfd_state : BfdReport

pub record PrefixCounts : Type 0 where
  pub advertised : ℕ
  pub received : ℕ

-- A peer of ListPeer with its state; `uptime` is Timers.State.Uptime, none where a pointer on the way is
-- nil.
pub record ReportedPeer : Type 0 where
  pub conf : Option PeerConf
  pub state : Option StateReport
  pub bfd : Option BfdPeerConfig
  pub uptime : Option ℕ
  pub afi_safis : List (Option PrefixCounts)

conf_local_asn : Option PeerConf → ℕ
conf_local_asn none = 0
conf_local_asn (some conf) = value_or 0 conf.local_asn

conf_peer_asn : Option PeerConf → ℕ
conf_peer_asn none = 0
conf_peer_asn (some conf) = conf.peer_asn

conf_description : Option PeerConf → String
conf_description none = ""
conf_description (some conf) = value_or "" conf.description

unfoldable pub inherited_for : Option (GoMap (List String)) → String → List String
inherited_for none key = []
inherited_for (some m) key = value_or [] (lookup key m)

unfoldable pub reported_bfd : Option BfdPeerConfig → BfdReport → Option BfdStatus
unfolding bfd_state_to_string bfd_diag_to_string
reported_bfd none report = none
reported_bfd (some config) report =
    if config.enabled
    then some (record {
      session_state = bfd_state_to_string report.session_state;
      remote_session_state = bfd_state_to_string report.remote_session_state;
      local_diagnostic_code = bfd_diag_to_string report.local_diagnostic_code;
      remote_diagnostic_code = bfd_diag_to_string report.remote_diagnostic_code;
      failure_transitions = report.failure_transitions;
    })
    else none

last_error : StateReport → String
unfolding is_established
last_error state =
    if is_established state.session_state
    then ""
    else if state.disconnect_message != ""
    then state.disconnect_message
    else value_or "" state.disconnect_reason

-- The sums over the address families, in uint64.
unfoldable pub sum_of : (PrefixCounts → ℕ) → ℕ → List (Option PrefixCounts) → ℕ
sum_of count total [] = total
sum_of count total (none ∷ rest) = sum_of count total rest
sum_of count total (some c ∷ rest) = sum_of count ((total + count c) % 2 ^ 64) rest

unfoldable pub neighbor_status :
    Option (GoMap (List String)) → ReportedPeer → StateReport → NeighborStatus
unfolding inherited_for reported_bfd conf_local_asn conf_peer_asn conf_description last_error sum_of
    neighbor_key peer_state_to_string is_established
neighbor_status inherited peer state = record {
  address = state.neighbor_address;
  peer_asn = conf_peer_asn peer.conf;
  local_asn = conf_local_asn peer.conf;
  state = peer_state_to_string state.session_state;
  session_up_since = if is_established state.session_state then peer.uptime else none;
  prefixes_sent = sum_of (λ c. c.advertised) 0 peer.afi_safis;
  prefixes_received = sum_of (λ c. c.received) 0 peer.afi_safis;
  description = conf_description peer.conf;
  last_error = last_error state;
  inherited_blocks = inherited_for inherited (neighbor_key peer.conf);
  bfd = reported_bfd peer.bfd state.bfd_state;
}

-- What ListPeer gives: no stream, or messages, each with a peer or without, and then the end or an error.
pub data PeerListing : Type 0 where
  not_listed : PeerListing
  stream : List (Option ReportedPeer) → Bool → PeerListing

unfoldable pub reported_neighbor :
    Option (GoMap (List String)) → ReportedPeer → Option StateReport → List NeighborStatus
unfolding neighbor_status
reported_neighbor inherited peer none = []
reported_neighbor inherited peer (some state) = neighbor_status inherited peer state ∷ []

-- The loop over the messages.
unfoldable pub received_neighbors :
    Option (GoMap (List String)) → List (Option ReportedPeer) → List NeighborStatus
unfolding reported_neighbor
received_neighbors inherited [] = []
received_neighbors inherited (none ∷ rest) = received_neighbors inherited rest
received_neighbors inherited (some peer ∷ rest) =
    reported_neighbor inherited peer peer.state ++ received_neighbors inherited rest

-- The neighbors, or none with an error.
unfoldable pub collect_neighbor_status :
    Option (GoMap (List String)) → PeerListing → Option (List NeighborStatus)
unfolding received_neighbors
collect_neighbor_status inherited not_listed = none
collect_neighbor_status inherited (stream messages ends) =
    if ends then some (received_neighbors inherited messages) else none
