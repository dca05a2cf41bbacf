-- ===== src/Examples/Convergence.antt =====
-- reconcileNeighbors at the sample resource: gobgpd holds a peer that is not desired, and one that it
-- accepted from a dynamic range.
use k8gobgp.Prelude.{
  String, ◌≡◌, refl, sym, ◌∙◌, true, false, none, some, List, [], ◌∷◌, ◌==◌, string_eq,
  if◌then◌else◌, is_some, Bool-cases, inl, inr,
}
use k8gobgp.Prelude.GoMap.{GoMap, lookup, insert}
use k8gobgp.Api.{Peer}
use k8gobgp.Sync.Key.{neighbor_key, neighbor_key_from_crd}
use k8gobgp.Sync.Table.{Table, run}
use k8gobgp.Sync.Groups.{
  Cluster, done, failed, by_key, and_then, rounds, for_this_node, resolve_auth_password,
}
use k8gobgp.Sync.Neighbors.{
  PeerCall, Netip, desired_neighbors, peer_key, neighbor_calls, reconcile_neighbors,
  dynamic_neighbor_prefixes, auth_password_drifted, is_dynamically_accepted_peer, group_configured,
}
use k8gobgp.Sync.Desired.{IsWanted, IsEntry, desired_neighbors-IsEntry, desired_neighbors_complete}
use k8gobgp.Sync.Idle.{IsReported, reconcile_neighbors_idle}
use k8gobgp.Convert.{crd_to_api_neighbor}
use k8gobgp.Compare.ReadBack.{ReadBack}
use k8gobgp.Examples.Peers.{sample-ReadBack}
use mathlib.Core.List.{mem-cons_self}
use mathlib.Core.Path.{subst}
use mathlib.Core.Option.{some-injective}
use k8gobgp.Sync.Converges.{call_key, call_value, PeerSettled, reconcile_neighbors_settles}
use k8gobgp.Examples.Tables.{map_table, in_order, in_order-VisitsAll}
use k8gobgp.Examples.Samples.{neighbor, config, reported, reported_conf}

-- A range is one address.
netip : Netip String String
netip = record { parse_prefix = λ p. some p; parse_addr = λ a. some a; contains = λ p a. p == a }

table : Table call_key call_value (GoMap Peer)
unfolding map_table
table = map_table call_key call_value

cluster : Cluster
cluster = record {
  node_labels = some [];
  selector_matches = λ selector labels. some true;
  get_secret = λ namespace name. none;
}

abbrev stale : Peer
stale = record reported { conf = some (record reported_conf { neighbor_address = "192.0.2.200" }) }

abbrev dynamic : Peer
dynamic = record reported { conf = some (record reported_conf { neighbor_address = "10.0.0.9" }) }

abbrev received : List Peer
received = stale ∷ dynamic ∷ []

abbrev desired : GoMap Peer
desired = elim (desired_neighbors cluster config []) [ failed e ↦ [] | done m ↦ m ]

abbrev calls : List PeerCall
calls =
    neighbor_calls netip in_order (dynamic_neighbor_prefixes netip config.spec.dynamic_neighbors)
      (by_key peer_key [] received) desired

sample_run :
    reconcile_neighbors netip cluster in_order (some received) config [] ≡ done (calls, desired)
unfolding reconcile_neighbors desired_neighbors and_then rounds for_this_node resolve_auth_password
sample_run = refl

sample_desired : desired_neighbors cluster config [] ≡ done desired
unfolding desired_neighbors rounds for_this_node resolve_auth_password
sample_desired = refl

abbrev sent : Peer
sent = crd_to_api_neighbor neighbor none

sample_entry : lookup "2001:470:b8f3:251::1" desired ≡ some sent
unfolding desired_neighbors rounds for_this_node resolve_auth_password lookup insert
    neighbor_key_from_crd
sample_entry = refl

desired_neighbors-IsEntry_example : IsEntry cluster config [] "2001:470:b8f3:251::1" sent
desired_neighbors-IsEntry_example =
    desired_neighbors-IsEntry cluster config [] desired sample_desired "2001:470:b8f3:251::1" sent
      sample_entry

sample-IsWanted : IsWanted cluster config [] neighbor
unfolding for_this_node group_configured
sample-IsWanted = record { here = refl; grouped = refl }

desired_neighbors_complete_example : is_some (lookup "2001:470:b8f3:251::1" desired) ≡ true
unfolding neighbor_key_from_crd
desired_neighbors_complete_example =
    desired_neighbors_complete cluster config [] desired sample_desired neighbor mem-cons_self
      sample-IsWanted

reconcile_neighbors_settles_example :
    PeerSettled netip
      (dynamic_neighbor_prefixes netip config.spec.dynamic_neighbors)
      (lookup "10.0.0.9" desired)
      (lookup "10.0.0.9" (by_key peer_key [] received))
      (table.view (run table (by_key peer_key [] received) calls) "10.0.0.9")
unfolding table
reconcile_neighbors_settles_example =
    reconcile_neighbors_settles netip table (by_key peer_key [] received) cluster in_order received
      config [] calls desired in_order-VisitsAll (λ k. refl) sample_run "10.0.0.9"

-- gobgpd reports the neighbor, and has a peer from a dynamic range.
abbrev in_place : List Peer
in_place = reported ∷ dynamic ∷ []

idle_run :
    reconcile_neighbors netip cluster in_order (some in_place) config []
    ≡ done (
      neighbor_calls netip in_order
          (dynamic_neighbor_prefixes netip config.spec.dynamic_neighbors)
          (by_key peer_key [] in_place)
          desired,
      desired,
    )
unfolding reconcile_neighbors desired_neighbors and_then rounds for_this_node resolve_auth_password
idle_run = refl

desired_at :
    (k : String) → lookup k desired ≡ (if "2001:470:b8f3:251::1" == k then some sent else none)
unfolding desired_neighbors rounds for_this_node resolve_auth_password lookup insert
    neighbor_key_from_crd
desired_at k = refl

in_place_at :
    (k : String)
    → lookup k (by_key peer_key [] in_place) ≡ (
        if "2001:470:b8f3:251::1" == k
        then some reported
        else if "10.0.0.9" == k
        then some dynamic
        else none)
unfolding by_key lookup insert peer_key neighbor_key
in_place_at k = refl

sample_not_drifted : auth_password_drifted sent reported ≡ false
unfolding auth_password_drifted crd_to_api_neighbor
sample_not_drifted = refl

sample-IsReported :
    (k : String) (d : Peer)
    → lookup k desired ≡ some d
    → IsReported 64515 (lookup k (by_key peer_key [] in_place)) d
sample-IsReported k d there = elim (Bool-cases ("2001:470:b8f3:251::1" == k)) [
  | inl same ↦
      let is_sent : sent ≡ d =
        some-injective sent d (
          subst (λ b. (if b then some sent else none) ≡ some d) same
            (sym (desired_at k) ∙ there)) in
      (
        reported,
        in_place_at k ∙ rw same refl,
        subst (λ x. ReadBack 64515 x reported) is_sent sample-ReadBack,
        subst (λ x. auth_password_drifted x reported ≡ false) is_sent sample_not_drifted,
      )
  | inr other ↦
      let e : none ≡ some d =
        subst (λ b. (if b then some sent else none) ≡ some d) other (sym (desired_at k) ∙ there) in
      absurd (cc)
]

dynamic_accepted :
    is_dynamically_accepted_peer netip dynamic
      (dynamic_neighbor_prefixes netip config.spec.dynamic_neighbors)
    ≡ true
unfolding is_dynamically_accepted_peer dynamic_neighbor_prefixes netip
dynamic_accepted = refl

sample_dynamic :
    (k : String) (c : Peer)
    → lookup k desired ≡ none
    → lookup k (by_key peer_key [] in_place) ≡ some c
    → is_dynamically_accepted_peer netip c
        (dynamic_neighbor_prefixes netip config.spec.dynamic_neighbors)
      ≡ true
sample_dynamic k c absent held = elim (Bool-cases ("2001:470:b8f3:251::1" == k)) [
  | inl same ↦
      let e : some sent ≡ none =
        subst (λ b. (if b then some sent else none) ≡ none) same (sym (desired_at k) ∙ absent) in
      absurd (cc)
  | inr other ↦
      let second : (if "10.0.0.9" == k then some dynamic else none) ≡ some c =
        subst
          (λ b.
            (if b then some reported else if "10.0.0.9" == k then some dynamic else none) ≡ some c)
          other (sym (in_place_at k) ∙ held) in
      elim (Bool-cases ("10.0.0.9" == k)) [
        | inl same ↦
            subst
              (λ x.
                is_dynamically_accepted_peer netip x
                  (dynamic_neighbor_prefixes netip config.spec.dynamic_neighbors)
                ≡ true)
              (some-injective dynamic c
                (subst (λ b. (if b then some dynamic else none) ≡ some c) same second))
              dynamic_accepted
        | inr neither ↦
            let e : none ≡ some c =
              subst (λ b. (if b then some dynamic else none) ≡ some c) neither second in
            absurd (cc)
      ]
]

reconcile_neighbors_idle_example :
    neighbor_calls netip in_order
      (dynamic_neighbor_prefixes netip config.spec.dynamic_neighbors)
      (by_key peer_key [] in_place)
      desired
    ≡ []
reconcile_neighbors_idle_example =
    reconcile_neighbors_idle netip 64515 cluster in_order in_place config []
      (neighbor_calls netip in_order (dynamic_neighbor_prefixes netip config.spec.dynamic_neighbors)
        (by_key peer_key [] in_place) desired)
      desired idle_run sample-IsReported sample_dynamic
