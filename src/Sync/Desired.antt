-- ===== src/Sync/Desired.antt =====
-- The map of the desired neighbors, as reconcileNeighbors builds it.
use mathlib.Core.Path.{subst}
use mathlib.Core.Option.{some-injective}
use mathlib.Core.List.{Mem}
use k8gobgp.Prelude.{
  String, ◌≡◌, refl, sym, ap, ◌∙◌, Bool, true, false, Option, none, some, [], ◌==◌, string_eq,
  if◌then◌else◌, Bool-cases, inl, inr, ◌⊎◌, is_some, eq_of_==, ==_refl,
}
use k8gobgp.Prelude.GoMap.{GoMap, lookup, insert, lookup-insert}
use k8gobgp.Crd
use k8gobgp.Api.{Peer, PeerGroup}
use k8gobgp.Convert.{crd_to_api_neighbor}
use k8gobgp.Sync.Keyed.{Keyed, rounds-invariant, rounds-reach, done-injective}
use k8gobgp.Sync.Key.{neighbor_key, neighbor_key_from_crd}
use k8gobgp.Sync.Groups.{Cluster, done, for_this_node, resolve_auth_password}
use k8gobgp.Sync.Neighbors.{
  peer_key, desired_neighbors, add_desired_neighbor, group_configured, choose_neighbor,
}

peer_key-crd_to_api_neighbor :
    (n : Crd.Neighbor) (password : Option String)
    → peer_key (crd_to_api_neighbor n password) ≡ neighbor_key_from_crd n.config
unfolding peer_key neighbor_key neighbor_key_from_crd crd_to_api_neighbor
peer_key-crd_to_api_neighbor n password = refl

-- A round that succeeds puts the neighbor's peer in the map, at its key, if the neighbor is for this
-- node and its group is configured there; else it leaves the map.
choose_neighbor_lem :
    (n : Crd.Neighbor) (here : Option Bool) (grouped : Bool) (password : Option (Option String))
    (m m' : GoMap Peer)
    → choose_neighbor n here grouped password m ≡ done m'
    → ((m' ≡ m) × ((here ≡ some true) × (grouped ≡ true) → ⊥))
      ⊎ ((p : Option String) × (here ≡ some true)
          × (grouped ≡ true)
          × (password ≡ some p)
          × (m' ≡ insert (neighbor_key_from_crd n.config) (crd_to_api_neighbor n p) m))
unfolding choose_neighbor
choose_neighbor_lem n none grouped password m m' h = absurd (cc)
choose_neighbor_lem n (some false) grouped password m m' h =
    inl (sym (done-injective h), λ q. let e = q.0 in cc)
choose_neighbor_lem n (some true) false password m m' h =
    inl (sym (done-injective h), λ q. let e = q.1 in cc)
choose_neighbor_lem n (some true) true none m m' h = absurd (cc)
choose_neighbor_lem n (some true) true (some p) m m' h =
    inr (p, refl, refl, refl, sym (done-injective h))

module _ (cluster : Cluster) (config : Crd.BgpConfiguration) (groups : GoMap PeerGroup) where
  -- The neighbor is for this node, and its group is configured there.
  pub record IsWanted (n : Crd.Neighbor) : Type 0 where
    pub here : for_this_node cluster n.node_selector ≡ some true
    pub grouped : group_configured groups n.config.peer_group ≡ true

  -- The peer is the one to send for a wanted neighbor of the resource, at the neighbor's key.
  pub record IsEntry (k : String) (p : Peer) : Type 0 where
    pub neighbor : Crd.Neighbor
    pub listed : Mem neighbor config.spec.neighbors
    pub is_wanted : IsWanted neighbor
    pub at_key : neighbor_key_from_crd neighbor.config ≡ k
    pub password : Option String
    pub resolved :
        resolve_auth_password cluster config.namespace neighbor.config.auth_password
          neighbor.config.auth_password_secret_ref
        ≡ some password
    pub sent : p ≡ crd_to_api_neighbor neighbor password

  abbrev pub AllEntries : GoMap Peer → Type 0
  AllEntries m = (k : String) (p : Peer) → lookup k m ≡ some p → IsEntry k p

  insert-AllEntries :
      (k : String) (peer : Peer) (m : GoMap Peer)
      → AllEntries m
      → IsEntry k peer
      → AllEntries (insert k peer m)
  insert-AllEntries k peer m all entry j q there =
      let found = sym (lookup-insert k j peer m) ∙ there in
      elim (Bool-cases (k == j)) [
        | inl same ↦
            let is_peer =
              some-injective peer q
                (subst (λ b. (if b then some peer else lookup j m) ≡ some q) same found) in
            subst (λ x. IsEntry x q) (eq_of_== {A = String} same) (subst (IsEntry k) is_peer entry)
        | inr other ↦
            all j q (subst (λ b. (if b then some peer else lookup j m) ≡ some q) other found)
      ]

  -- Every entry of the map is the peer of a neighbor of the resource, for this node and of no group or a
  -- configured one, with the neighbor's password, at the neighbor's key.
  pub desired_neighbors-IsEntry :
      (desired : GoMap Peer)
      → desired_neighbors cluster config groups ≡ done desired
      → (k : String) (p : Peer) → lookup k desired ≡ some p
      → IsEntry k p
  unfolding desired_neighbors add_desired_neighbor
  desired_neighbors-IsEntry desired h =
      rounds-invariant (add_desired_neighbor cluster config.namespace groups) AllEntries
        config.spec.neighbors
        (λ n m m' listed all round.
          elim (choose_neighbor_lem n (for_this_node cluster n.node_selector)
            (group_configured groups n.config.peer_group)
            (resolve_auth_password cluster config.namespace n.config.auth_password
              n.config.auth_password_secret_ref)
            m m' round) [
              | inl (same, _) ↦ subst AllEntries (sym same) all
              | inr (p, here, grouped, resolved, put) ↦ subst AllEntries (sym put) (
                  insert-AllEntries (neighbor_key_from_crd n.config) (crd_to_api_neighbor n p) m all
                    (record {
                      neighbor = n;
                      listed = listed;
                      is_wanted = record { here = here; grouped = grouped };
                      at_key = refl;
                      password = p;
                      resolved = resolved;
                      sent = refl;
                    }))
            ])
        [] desired (λ k p there. absurd (unfold lookup in cc)) h

  insert-keeps :
      (k j : String) (peer : Peer) (m : GoMap Peer)
      → is_some (lookup j m) ≡ true
      → is_some (lookup j (insert k peer m)) ≡ true
  insert-keeps k j peer m held = elim (Bool-cases (k == j)) [
    | inl same ↦ rw (lookup-insert k j peer m, same) refl
    | inr other ↦ rw (lookup-insert k j peer m, other) held
  ]

  -- No neighbor is left out: one of the resource's that is for this node, and of no group or a
  -- configured one, has an entry at its key.
  pub desired_neighbors_complete :
      (desired : GoMap Peer)
      → desired_neighbors cluster config groups ≡ done desired
      → (n : Crd.Neighbor) → Mem n config.spec.neighbors
      → IsWanted n
      → is_some (lookup (neighbor_key_from_crd n.config) desired) ≡ true
  unfolding desired_neighbors add_desired_neighbor
  desired_neighbors_complete desired h n listed w =
      let key = neighbor_key_from_crd n.config in
      let choose = λ (a : Crd.Neighbor) (m m' : GoMap Peer).
        choose_neighbor_lem a (for_this_node cluster a.node_selector)
          (group_configured groups a.config.peer_group)
          (resolve_auth_password cluster config.namespace a.config.auth_password
            a.config.auth_password_secret_ref)
          m m' in
      rounds-reach (add_desired_neighbor cluster config.namespace groups)
        (λ m. is_some (lookup key m)) n
        (λ a m m' held round. elim (choose a m m' round) [
          | inl (same, _) ↦ subst (λ x. is_some (lookup key x) ≡ true) (sym same) held
          | inr (p, _, _, _, put) ↦
              subst (λ x. is_some (lookup key x) ≡ true) (sym put)
                (insert-keeps (neighbor_key_from_crd a.config) key (crd_to_api_neighbor a p) m held)
        ])
        (λ m m' round. elim (choose n m m' round) [
          | inl (_, unwanted) ↦ absurd (unwanted (w.here, w.grouped))
          | inr (p, _, _, _, put) ↦
              subst (λ x. is_some (lookup key x) ≡ true) (sym put)
                (rw (lookup-insert key key (crd_to_api_neighbor n p) m, ==_refl key) refl)
        ])
        config.spec.neighbors [] desired listed h

-- The entries stand at the keys of their peers.
pub IsEntry-Keyed :
    (cluster : Cluster) (config : Crd.BgpConfiguration) (groups : GoMap PeerGroup) (m : GoMap Peer)
    → AllEntries cluster config groups m
    → Keyed peer_key m
IsEntry-Keyed cluster config groups m all k p there =
    let e = all k p there in
    ap peer_key e.sent ∙ peer_key-crd_to_api_neighbor e.neighbor e.password ∙ e.at_key
