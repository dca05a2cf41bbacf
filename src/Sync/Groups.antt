-- ===== src/Sync/Groups.antt =====
-- controllers/bgpconfiguration_controller.go: reconcilePeerGroups and reconcileDynamicNeighbors, with
-- the node selector and the password that the neighbors share. Events, metrics and logs are left out.
-- The Secrets, the node's labels and the label matching of Kubernetes are parameters.
use k8gobgp.Prelude.{
  String, Bool, true, false, Option, none, some, List, [], ◌∷◌, ◌!=◌, string_eq, if◌then◌else◌,
  value_or,
}
use k8gobgp.Prelude.GoMap.{GoMap, lookup, insert}
use k8gobgp.Crd
use k8gobgp.Api.{PeerGroup}
use k8gobgp.Convert.{crd_to_api_peer_group}
use k8gobgp.Compare.{peer_group_config_equal}
use k8gobgp.Sync.{RangeOrder, sync}

pub data SyncError : Type 0 where
  list_failed : SyncError
  selector_failed : String → SyncError
  password_failed : String → SyncError

pub data Outcome (A : Type 0) : Type 0 where
  failed : SyncError → Outcome A
  done : A → Outcome A

-- What the calls read of the cluster: the node's labels, or none where it cannot be read; the match of
-- a selector, or none where it is malformed; the data of a Secret by namespace and name.
pub record Cluster : Type 0 where
  pub node_labels : Option (GoMap String)
  pub selector_matches : Crd.LabelSelector → GoMap String → Option Bool
  pub get_secret : String → String → Option (GoMap String)

unfoldable pub node_matches_selector : Cluster → Crd.LabelSelector → Option Bool
node_matches_selector cluster selector = elim cluster.node_labels [
  | none ↦ none
  | some labels ↦ cluster.selector_matches selector labels
]

-- Is an object with that selector for this node? One without a selector is for every node.
unfoldable pub for_this_node : Cluster → Option Crd.LabelSelector → Option Bool
unfolding node_matches_selector
for_this_node cluster none = some true
for_this_node cluster (some selector) = node_matches_selector cluster selector

-- resolveAuthPassword: `none` is an error, `some none` the nil result.
password_from : Option (GoMap String) → String → Option (Option String)
password_from none key = none
password_from (some data_map) key = elim (lookup key data_map) [
  | none ↦ none
  | some password ↦ some (some password)
]

unfoldable pub resolve_auth_password :
    Cluster → String → Option String → Option Crd.SecretKeySelector → Option (Option String)
unfolding password_from
resolve_auth_password cluster namespace auth_password none = some auth_password
resolve_auth_password cluster namespace auth_password (some ref) =
    if ref.name != ""
    then password_from (cluster.get_secret namespace ref.name) ref.key
    else some auth_password

-- The map that a listing fills, object by object, up to the end of the stream or an error in it.
unfoldable pub by_key : {V : Type 0} → (V → String) → GoMap V → List V → GoMap V
by_key key m [] = m
by_key key m (v ∷ vs) = by_key key (insert (key v) v m) vs

-- `Conf.PeerGroupName` of a group reported, which always has a Conf.
unfoldable pub group_name : PeerGroup → String
group_name g = elim g.conf [ none ↦ "" | some conf ↦ conf.peer_group_name ]

pub data GroupCall : Type 0 where
  add_peer_group : PeerGroup → GroupCall
  update_peer_group : PeerGroup → GroupCall
  delete_peer_group : String → GroupCall

-- The end of a round, from whether the group is for this node and its password.
unfoldable pub choose_group :
    Crd.PeerGroup
    → Option Bool
    → Option (Option String)
    → GoMap PeerGroup
    → Outcome (GoMap PeerGroup)
choose_group pg none password m = failed (selector_failed pg.config.peer_group_name)
choose_group pg (some false) password m = done m
choose_group pg (some true) none m = failed (password_failed pg.config.peer_group_name)
choose_group pg (some true) (some password) m =
    done (insert pg.config.peer_group_name (crd_to_api_peer_group pg (value_or "" password)) m)

-- One round of the loop that builds the desired groups, on the map so far.
unfoldable pub add_desired_group :
    Cluster → String → Crd.PeerGroup → GoMap PeerGroup → Outcome (GoMap PeerGroup)
unfolding for_this_node resolve_auth_password choose_group
add_desired_group cluster namespace pg m =
    choose_group pg (for_this_node cluster pg.node_selector)
      (resolve_auth_password cluster namespace (some pg.config.auth_password)
        pg.config.auth_password_secret_ref)
      m

-- `if err != nil { return err }`
unfoldable pub and_then : {A B : Type 0} → Outcome A → (A → Outcome B) → Outcome B
and_then (failed e) f = failed e
and_then (done a) f = f a

-- Rounds one after the other; the first that fails ends the function.
unfoldable pub rounds : {A M : Type 0} → (A → M → Outcome M) → List A → M → Outcome M
unfolding and_then
rounds round [] m = done m
rounds round (a ∷ rest) m = and_then (round a m) (rounds round rest)

unfoldable pub desired_peer_groups : Cluster → Crd.BgpConfiguration → Outcome (GoMap PeerGroup)
unfolding rounds add_desired_group
desired_peer_groups cluster config =
    rounds (add_desired_group cluster config.namespace) config.spec.peer_groups []

unfoldable pub group_calls : RangeOrder → GoMap PeerGroup → GoMap PeerGroup → List GroupCall
group_calls visit current desired =
    sync visit (λ name c. delete_peer_group name ∷ []) (λ name d. add_peer_group d ∷ [])
      (λ name d c. if peer_group_config_equal d c then [] else update_peer_group d ∷ []) current
      desired

-- reconcilePeerGroups: the calls made, and the map that it returns.
unfoldable pub reconcile_peer_groups :
    Cluster
    → RangeOrder
    → Option (List PeerGroup)
    → Crd.BgpConfiguration
    → Outcome (List GroupCall × GoMap PeerGroup)
unfolding by_key desired_peer_groups group_calls group_name
reconcile_peer_groups cluster visit none config = failed list_failed
reconcile_peer_groups cluster visit (some received) config =
    and_then (desired_peer_groups cluster config)
      (λ desired. done (group_calls visit (by_key group_name [] received) desired, desired))

pub data DynamicCall : Type 0 where
  add_dynamic_neighbor : Crd.DynamicNeighbor → DynamicCall
  delete_dynamic_neighbor : String → DynamicCall

-- The desired ranges: those whose group is configured on this node. The message has the same two
-- fields as the entry of the resource.
unfoldable pub desired_dynamic_neighbors :
    GoMap PeerGroup
    → GoMap Crd.DynamicNeighbor
    → List Crd.DynamicNeighbor
    → GoMap Crd.DynamicNeighbor
desired_dynamic_neighbors groups m [] = m
desired_dynamic_neighbors groups m (dn ∷ rest) = elim (lookup dn.peer_group groups) [
  | none ↦ desired_dynamic_neighbors groups m rest
  | some g ↦ desired_dynamic_neighbors groups (insert dn.prefix dn m) rest
]

unfoldable pub dynamic_calls :
    RangeOrder → GoMap Crd.DynamicNeighbor → GoMap Crd.DynamicNeighbor → List DynamicCall
dynamic_calls visit current desired =
    sync visit (λ prefix c. delete_dynamic_neighbor prefix ∷ [])
      (λ prefix d. add_dynamic_neighbor d ∷ [])
      (λ prefix d c.
        if c.peer_group != d.peer_group
        then delete_dynamic_neighbor prefix ∷ add_dynamic_neighbor d ∷ []
        else [])
      current desired

unfoldable pub reconcile_dynamic_neighbors :
    RangeOrder
    → Option (List Crd.DynamicNeighbor)
    → Crd.BgpConfiguration
    → GoMap PeerGroup
    → Outcome (List DynamicCall × GoMap Crd.DynamicNeighbor)
unfolding by_key desired_dynamic_neighbors dynamic_calls
reconcile_dynamic_neighbors visit none config groups = failed list_failed
reconcile_dynamic_neighbors visit (some received) config groups =
    let current = by_key (λ (d : Crd.DynamicNeighbor). d.prefix) [] received in
    let desired = desired_dynamic_neighbors groups [] config.spec.dynamic_neighbors in
    done (dynamic_calls visit current desired, desired)
