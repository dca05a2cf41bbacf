-- ===== src/Sync/Neighbors.antt =====
-- controllers/bgpconfiguration_controller.go: reconcileNeighbors with its helpers. Events, metrics and
-- logs are left out. The cluster's answers and the address types of net/netip are parameters.
use k8gobgp.Prelude.{
  String, Bool, true, false, ◌||◌, not, Option, none, some, List, [], ◌∷◌, ◌==◌, ◌!=◌, string_eq,
  bool_eq, if◌then◌else◌, is_some,
}
use k8gobgp.Prelude.GoMap.{GoMap, lookup, insert}
use k8gobgp.Crd
use k8gobgp.Api.{PeerConf, PeerState, Peer, PeerGroup}
use k8gobgp.Convert.{crd_to_api_neighbor}
use k8gobgp.Compare.{peer_config_equal}
use k8gobgp.Sync.{RangeOrder, sync}
use k8gobgp.Sync.Key.{neighbor_key, neighbor_key_from_crd}
use k8gobgp.Sync.Groups.{
  Cluster, Outcome, failed, done, list_failed, selector_failed, password_failed, for_this_node,
  resolve_auth_password, by_key, rounds, and_then,
}

-- The requests, a DeletePeerRequest by the field that is set.
pub data PeerCall : Type 0 where
  add_peer : Peer → PeerCall
  update_peer : Peer → PeerCall
  delete_peer_interface : String → PeerCall
  delete_peer_address : String → PeerCall

unfoldable pub peer_key : Peer → String
peer_key p = neighbor_key p.conf

unfoldable pub delete_peer : Option PeerConf → PeerCall
delete_peer none = delete_peer_address ""
delete_peer (some conf) =
    if conf.neighbor_interface != ""
    then delete_peer_interface conf.neighbor_interface
    else delete_peer_address conf.neighbor_address

-- Is the group that the neighbor names, if it names one, configured on this node?
unfoldable pub group_configured : GoMap PeerGroup → String → Bool
group_configured groups name = name == "" || is_some (lookup name groups)

-- The end of a round, from whether the neighbor is for this node, whether its group is configured, and
-- its password.
unfoldable pub choose_neighbor :
    Crd.Neighbor → Option Bool → Bool → Option (Option String) → GoMap Peer → Outcome (GoMap Peer)
choose_neighbor n none grouped password m =
    failed (selector_failed (neighbor_key_from_crd n.config))
choose_neighbor n (some false) grouped password m = done m
choose_neighbor n (some true) false password m = done m
choose_neighbor n (some true) true none m =
    failed (password_failed (neighbor_key_from_crd n.config))
choose_neighbor n (some true) true (some password) m =
    done (insert (neighbor_key_from_crd n.config) (crd_to_api_neighbor n password) m)

-- One round of the loop that builds the desired neighbors, on the map so far.
unfoldable pub add_desired_neighbor :
    Cluster → String → GoMap PeerGroup → Crd.Neighbor → GoMap Peer → Outcome (GoMap Peer)
unfolding choose_neighbor group_configured
add_desired_neighbor cluster namespace groups n m =
    choose_neighbor n (for_this_node cluster n.node_selector)
      (group_configured groups n.config.peer_group)
      (resolve_auth_password cluster namespace n.config.auth_password
        n.config.auth_password_secret_ref)
      m

unfoldable pub desired_neighbors :
    Cluster → Crd.BgpConfiguration → GoMap PeerGroup → Outcome (GoMap Peer)
unfolding add_desired_neighbor
desired_neighbors cluster config groups =
    rounds (add_desired_neighbor cluster config.namespace groups) config.spec.neighbors []

-- netip.ParsePrefix, ParseAddr with the zone dropped, and Contains.
pub record Netip (Prefix Addr : Type 0) : Type 0 where
  pub parse_prefix : String → Option Prefix
  pub parse_addr : String → Option Addr
  pub contains : Prefix → Addr → Bool

-- authPasswordDrifted
password_drifted : Option String → Option PeerState → Bool
password_drifted none state = false
password_drifted (some password) state =
    (password != "") != elim state [ none ↦ false | some s ↦ s.auth_password_set ]

unfoldable pub auth_password_drifted : Peer → Peer → Bool
unfolding password_drifted
auth_password_drifted desired current = elim desired.conf [
  | none ↦ false
  | some conf ↦ password_drifted conf.auth_password current.state
]

unfoldable pub update_neighbor : String → Peer → Peer → List PeerCall
unfolding auth_password_drifted
update_neighbor key desired current =
    if not (peer_config_equal desired current) || auth_password_drifted desired current
    then update_peer desired ∷ []
    else []

module _ {Prefix Addr : Type 0} (netip : Netip Prefix Addr) where
  -- A malformed range is skipped.
  unfoldable pub dynamic_neighbor_prefixes : List Crd.DynamicNeighbor → List Prefix
  dynamic_neighbor_prefixes [] = []
  dynamic_neighbor_prefixes (dn ∷ rest) = elim (netip.parse_prefix dn.prefix) [
    | none ↦ dynamic_neighbor_prefixes rest
    | some p ↦ p ∷ dynamic_neighbor_prefixes rest
  ]

  some_contains : List Prefix → Addr → Bool
  some_contains [] addr = false
  some_contains (p ∷ ps) addr = netip.contains p addr || some_contains ps addr

  unfoldable pub is_dynamically_accepted_peer : Peer → List Prefix → Bool
  unfolding some_contains
  is_dynamically_accepted_peer peer [] = false
  is_dynamically_accepted_peer peer (p ∷ ps) = elim peer.conf [
    | none ↦ false
    | some conf ↦ elim (netip.parse_addr conf.neighbor_address) [
      | none ↦ false
      | some addr ↦ some_contains (p ∷ ps) addr
    ]
  ]

  -- The body of the walk over the peers that are not desired.
  unfoldable pub delete_neighbor : List Prefix → String → Peer → List PeerCall
  unfolding is_dynamically_accepted_peer
  delete_neighbor ranges key peer =
      if is_dynamically_accepted_peer peer ranges then [] else delete_peer peer.conf ∷ []

  unfoldable pub neighbor_calls : RangeOrder → List Prefix → GoMap Peer → GoMap Peer → List PeerCall
  unfolding delete_neighbor update_neighbor
  neighbor_calls visit ranges current desired =
      sync visit (delete_neighbor ranges) (λ key d. add_peer d ∷ []) update_neighbor current desired

  -- reconcileNeighbors: the calls made, and the desired map, whose size is the NeighborCount that it
  -- sets in the status.
  unfoldable pub reconcile_neighbors :
      Cluster
      → RangeOrder
      → Option (List Peer)
      → Crd.BgpConfiguration
      → GoMap PeerGroup
      → Outcome (List PeerCall × GoMap Peer)
  unfolding dynamic_neighbor_prefixes neighbor_calls peer_key desired_neighbors
  reconcile_neighbors cluster visit none config groups = failed list_failed
  reconcile_neighbors cluster visit (some received) config groups =
      let ranges = dynamic_neighbor_prefixes config.spec.dynamic_neighbors in
      and_then (desired_neighbors cluster config groups) (λ desired.
        done (neighbor_calls visit ranges (by_key peer_key [] received) desired, desired))
