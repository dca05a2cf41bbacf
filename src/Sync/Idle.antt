-- ===== src/Sync/Idle.antt =====
-- controllers/bgpconfiguration_controller.go: reconcileNeighbors where gobgpd has what is desired.
use mathlib.Core.Path.{subst}
use k8gobgp.Prelude.{
  ℕ, String, ◌≡◌, refl, sym, ap, ◌∙◌, true, false, Option, none, some, List, [], ◌∷◌, Option-cases,
  inl, inr,
}
use k8gobgp.Prelude.GoMap.{GoMap, lookup, keys}
use k8gobgp.Crd
use k8gobgp.Api.{Peer, PeerGroup}
use k8gobgp.Compare.{peer_config_equal}
use k8gobgp.Compare.ReadBack.{ReadBack, no_update_on_ReadBack}
use k8gobgp.Sync.{each, RangeOrder, wanted, unwanted, sync}
use k8gobgp.Sync.Keyed.{and_then_done, done-injective}
use k8gobgp.Sync.Desired.{desired_neighbors-IsEntry}
use k8gobgp.Sync.Groups.{Cluster, done, by_key}
use k8gobgp.Sync.Neighbors.{
  PeerCall, add_peer, peer_key, desired_neighbors, delete_neighbor, update_neighbor, Netip,
  dynamic_neighbor_prefixes, is_dynamically_accepted_peer, auth_password_drifted, neighbor_calls,
  reconcile_neighbors,
}

each-idle :
    {C : Type 0} (body : String → List C) (ks : List String)
    → ((k : String) → body k ≡ [])
    → each body ks ≡ []
unfolding each
each-idle body [] idle = refl
each-idle body (k ∷ ks) idle = rw (idle k) (each-idle body ks idle)

-- gobgpd has the desired peer, reports it as the comments say, and has its password as it was sent.
abbrev pub IsReported : ℕ → Option Peer → Peer → Type 0
IsReported asn held d =
    (c : Peer) × (held ≡ some c) × ReadBack asn d c × (auth_password_drifted d c ≡ false)

-- No update of a peer that compares equal and whose password is in place.
update_neighbor_idle :
    (k : String) (d c : Peer)
    → peer_config_equal d c ≡ true
    → auth_password_drifted d c ≡ false
    → update_neighbor k d c ≡ []
unfolding update_neighbor
update_neighbor_idle k d c same kept = rw (same, kept) refl

neighbor_calls_idle :
    {Prefix Addr : Type 0} (netip : Netip Prefix Addr) (ranges : List Prefix) (visit : RangeOrder)
    (current desired : GoMap Peer)
    → ((k : String) (d : Peer)
        → lookup k desired ≡ some d
        → (c : Peer) × (lookup k current ≡ some c)
          × (peer_config_equal d c ≡ true)
          × (auth_password_drifted d c ≡ false))
    → ((k : String) (c : Peer)
        → lookup k desired ≡ none
        → lookup k current ≡ some c
        → is_dynamically_accepted_peer netip c ranges ≡ true)
    → neighbor_calls netip visit ranges current desired ≡ []
unfolding neighbor_calls sync wanted unwanted delete_neighbor
neighbor_calls_idle netip ranges visit current desired in_place dynamic =
    let no_delete =
      each-idle (unwanted (delete_neighbor netip ranges) current desired) (visit 0 (keys current))
        (λ k. elim (Option-cases (lookup k desired)) [
          | inr (d, there) ↦ rw (unwanted, there) refl
          | inl absent ↦ elim (Option-cases (lookup k current)) [
            | inl none_there ↦ rw (unwanted, absent, none_there) refl
            | inr (c, held) ↦
                rw (unwanted, absent, held) (rw (delete_neighbor, dynamic k c absent held) refl)
          ]
        ]) in
    let no_update =
      each-idle (wanted (λ key d. add_peer d ∷ []) update_neighbor current desired)
        (visit 1 (keys desired))
        (λ k. elim (Option-cases (lookup k desired)) [
          | inl absent ↦ rw (wanted, absent) refl
          | inr (d, there) ↦
              let (c, held, same, kept) = in_place k d there in
              rw (wanted, there, held) (update_neighbor_idle k d c same kept)
        ]) in
    rw (no_delete, no_update) refl

-- Where gobgpd has every desired neighbor of this node, with its password in place, and reports it so that
-- what was sent comes back and what was not sent has a default, an inherited value or one that the daemon
-- derived (`ReadBack`), and has no other peers but ones accepted from a dynamic range, a reconcileNeighbors
-- that ends without an error makes no call at all, whatever the order of the walks.
pub reconcile_neighbors_idle :
    {Prefix Addr : Type 0} (netip : Netip Prefix Addr) (asn : ℕ) (cluster : Cluster)
    (visit : RangeOrder) (received : List Peer) (config : Crd.BgpConfiguration)
    (groups : GoMap PeerGroup) (calls : List PeerCall) (desired : GoMap Peer)
    → reconcile_neighbors netip cluster visit (some received) config groups ≡ done (calls, desired)
    → ((k : String) (d : Peer)
        → lookup k desired ≡ some d
        → IsReported asn (lookup k (by_key peer_key [] received)) d)
    → ((k : String) (c : Peer)
        → lookup k desired ≡ none
        → lookup k (by_key peer_key [] received) ≡ some c
        → is_dynamically_accepted_peer netip c
            (dynamic_neighbor_prefixes netip config.spec.dynamic_neighbors)
          ≡ true)
    → calls ≡ []
unfolding reconcile_neighbors
reconcile_neighbors_idle netip asn cluster visit received config groups calls desired h reported
      dynamic =
    let ranges = dynamic_neighbor_prefixes netip config.spec.dynamic_neighbors in
    let current = by_key peer_key [] received in
    let (built, built_by, result) =
      and_then_done (desired_neighbors cluster config groups)
        (λ d. done (neighbor_calls netip visit ranges current d, d)) h in
    let pair = done-injective result in
    let is_desired : built ≡ desired = ap (λ (r : List PeerCall × GoMap Peer). r.1) pair in
    let entries = desired_neighbors-IsEntry cluster config groups built built_by in
    sym (ap (λ (r : List PeerCall × GoMap Peer). r.0) pair)
    ∙ neighbor_calls_idle netip ranges visit current built
        (λ k d there.
          let (c, held, report, kept) =
            reported k d (subst (λ m. lookup k m ≡ some d) is_desired there) in
          let e = entries k d there in
          (
            c,
            held,
            subst (λ x. peer_config_equal x c ≡ true) (sym e.sent)
                (no_update_on_ReadBack e.neighbor e.password asn c
                  (subst (λ x. ReadBack asn x c) e.sent report)),
            kept,
          ))
        (λ k c absent held. dynamic k c (subst (λ m. lookup k m ≡ none) is_desired absent) held)
