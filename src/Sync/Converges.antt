-- ===== src/Sync/Converges.antt =====
-- What reconcileNeighbors makes of gobgpd's peers.
use mathlib.Core.Path.{subst}
use k8gobgp.Prelude.{
  String, ◌≡◌, refl, sym, ap, ◌∙◌, true, false, ◌||◌, not, Option, none, some, List, [], ◌∷◌, ◌!=◌,
  string_eq, if◌then◌else◌, Bool-cases, inl, inr, ◌⊎◌, arith,
}
use k8gobgp.Prelude.GoMap.{GoMap, lookup}
use k8gobgp.Crd
use k8gobgp.Api.{Peer, PeerConf, PeerGroup}
use k8gobgp.Compare.{peer_config_equal}
use k8gobgp.Sync.{RangeOrder, wanted, unwanted, VisitsAll, wanted_of, unwanted_of}
use k8gobgp.Sync.Table.{Table, run, settle, OnKey}
use k8gobgp.Sync.Settled.{view-sync, unwanted-OnKey, wanted-OnKey}
use k8gobgp.Sync.Keyed.{Keyed, nil-Keyed, by_key-Keyed, and_then_done, done-injective}
use k8gobgp.Sync.Desired.{desired_neighbors-IsEntry, IsEntry-Keyed}
use k8gobgp.Sync.Key.{key_for, neighbor_key}
use k8gobgp.Sync.Groups.{Cluster, done, by_key}
use k8gobgp.Sync.Neighbors.{
  PeerCall, add_peer, update_peer, delete_peer_interface, delete_peer_address, delete_peer,
  peer_key, delete_neighbor, update_neighbor, desired_neighbors, Netip, dynamic_neighbor_prefixes,
  is_dynamically_accepted_peer, auth_password_drifted, neighbor_calls, reconcile_neighbors,
}

-- Which entry of gobgpd's table a call is for, and what it leaves there: gobgpd knows an unnumbered
-- peer by its interface and any other by its address.
unfoldable pub call_key : PeerCall → String
call_key (add_peer p) = peer_key p
call_key (update_peer p) = peer_key p
call_key (delete_peer_interface i) = key_for i ""
call_key (delete_peer_address a) = key_for "" a

unfoldable pub call_value : PeerCall → Option Peer
call_value (add_peer p) = some p
call_value (update_peer p) = some p
call_value (delete_peer_interface i) = none
call_value (delete_peer_address a) = none

call_key-delete_peer : (conf : Option PeerConf) → call_key (delete_peer conf) ≡ neighbor_key conf
unfolding call_key delete_peer neighbor_key
call_key-delete_peer none = refl
call_key-delete_peer (some conf) = elim (Bool-cases (conf.neighbor_interface != "")) [
  | inl set ↦ rw (set, set) refl
  | inr unset ↦ rw unset refl
]

call_value-delete_peer : (conf : Option PeerConf) → call_value (delete_peer conf) ≡ none
unfolding call_value delete_peer
call_value-delete_peer none = refl
call_value-delete_peer (some conf) = elim (Bool-cases (conf.neighbor_interface != "")) [
  | inl set ↦ rw set refl
  | inr unset ↦ rw unset refl
]

-- The walks make every call for the key that they are at.
delete_neighbor-OnKey :
    {Prefix Addr : Type 0} (netip : Netip Prefix Addr) (ranges : List Prefix) (k : String)
    (c : Peer)
    → peer_key c ≡ k
    → OnKey call_key k (delete_neighbor netip ranges k c)
unfolding delete_neighbor peer_key
delete_neighbor-OnKey netip ranges k c keyed =
    elim (Bool-cases (is_dynamically_accepted_peer netip c ranges)) [
      | inl dynamic ↦ rw dynamic tt
      | inr static ↦ rw static (call_key-delete_peer c.conf ∙ keyed, tt)
    ]

update_neighbor-OnKey :
    (k : String) (d c : Peer) → peer_key d ≡ k → OnKey call_key k (update_neighbor k d c)
unfolding update_neighbor call_key
update_neighbor-OnKey k d c keyed =
    elim (Bool-cases (not (peer_config_equal d c) || auth_password_drifted d c)) [
      | inl differs ↦ rw differs (keyed, tt)
      | inr same ↦ rw same tt
    ]

-- The peer is the one sent, or the comparison has nothing to update in it.
abbrev pub UpToDate : Peer → Peer → Type 0
UpToDate d p = (p ≡ d) ⊎ ((peer_config_equal d p ≡ true) × (auth_password_drifted d p ≡ false))

module _ {Prefix Addr : Type 0} (netip : Netip Prefix Addr) (ranges : List Prefix) where
  -- What is right at a key after the calls, from what was desired and held there before: a desired peer
  -- is there and up to date, a peer accepted from a dynamic range is untouched, any other is gone.
  abbrev pub PeerSettled : Option Peer → Option Peer → Option Peer → Type 0
  PeerSettled (some d) held after = (p : Peer) × (after ≡ some p) × UpToDate d p
  PeerSettled none none after = after ≡ none
  PeerSettled none (some c) after =
      after ≡ (if is_dynamically_accepted_peer netip c ranges then some c else none)

  -- One key, from what the two maps have there.
  settled_of :
      (k : String) (d c : Option Peer)
      → PeerSettled d c (
          settle call_value
            (wanted_of (λ d. add_peer d ∷ []) (update_neighbor k) d c)
            (settle call_value (unwanted_of (delete_neighbor netip ranges k) d c) c))
  unfolding settle call_value unwanted_of wanted_of delete_neighbor update_neighbor
  settled_of k none none = refl
  settled_of k none (some c) = elim (Bool-cases (is_dynamically_accepted_peer netip c ranges)) [
    | inl dynamic ↦ rw dynamic refl
    | inr static ↦ rw static (call_value-delete_peer c.conf)
  ]
  settled_of k (some d) none = (d, refl, inl refl)
  settled_of k (some d) (some c) =
      elim (Bool-cases (not (peer_config_equal d c) || auth_password_drifted d c)) [
        | inl differs ↦ rw differs (d, refl, inl refl)
        | inr same ↦ rw same (c, refl, inr (ground arith))
      ]

  neighbor_calls_settle :
      {S : Type 0} (table : Table call_key call_value S) (s : S) (visit : RangeOrder)
      (current desired : GoMap Peer)
      → VisitsAll visit
      → Keyed peer_key current
      → Keyed peer_key desired
      → ((k : String) → table.view s k ≡ lookup k current)
      → (k : String)
      → PeerSettled
          (lookup k desired)
          (lookup k current)
          (table.view (run table s (neighbor_calls netip visit ranges current desired)) k)
  unfolding neighbor_calls call_key wanted unwanted
  neighbor_calls_settle table s visit current desired visits current_keyed desired_keyed listing k =
      let moved =
        view-sync table visit visits (delete_neighbor netip ranges) (λ key d. add_peer d ∷ [])
          update_neighbor current desired
          (unwanted-OnKey table (delete_neighbor netip ranges) current desired
            (λ j c held. delete_neighbor-OnKey netip ranges j c (current_keyed j c held)))
          (wanted-OnKey table (λ key d. add_peer d ∷ []) update_neighbor current desired
            (λ j d there. (desired_keyed j d there, tt))
            (λ j d c there. update_neighbor-OnKey j d c (desired_keyed j d there)))
          s k in
      subst (PeerSettled (lookup k desired) (lookup k current))
        (sym (
          moved
          ∙ ap
              (λ x.
                settle call_value
                  (wanted (λ key d. add_peer d ∷ []) update_neighbor current desired k)
                  (settle call_value (unwanted (delete_neighbor netip ranges) current desired k) x))
              (listing k)))
        (settled_of k (lookup k desired) (lookup k current))

-- Where gobgpd's peers are those of the listing, the calls of a reconcileNeighbors that ends without
-- an error, all of them succeeding and in any order of the walks, settle every key: a neighbor desired
-- on this node is there and up to date, a peer that gobgpd accepted from a dynamic range is as it was,
-- and any other peer is gone.
pub reconcile_neighbors_settles :
    {Prefix Addr S : Type 0} (netip : Netip Prefix Addr) (table : Table call_key call_value S)
    (s : S) (cluster : Cluster) (visit : RangeOrder) (received : List Peer)
    (config : Crd.BgpConfiguration) (groups : GoMap PeerGroup) (calls : List PeerCall)
    (desired : GoMap Peer)
    → VisitsAll visit
    → ((k : String) → table.view s k ≡ lookup k (by_key peer_key [] received))
    → reconcile_neighbors netip cluster visit (some received) config groups ≡ done (calls, desired)
    → (k : String)
    → PeerSettled netip
        (dynamic_neighbor_prefixes netip config.spec.dynamic_neighbors)
        (lookup k desired)
        (lookup k (by_key peer_key [] received))
        (table.view (run table s calls) k)
unfolding reconcile_neighbors
reconcile_neighbors_settles netip table s cluster visit received config groups calls desired visits
      listing h k =
    let ranges = dynamic_neighbor_prefixes netip config.spec.dynamic_neighbors in
    let current = by_key peer_key [] received in
    let (built, built_by, result) =
      and_then_done (desired_neighbors cluster config groups)
        (λ d. done (neighbor_calls netip visit ranges current d, d)) h in
    let pair = done-injective result in
    let entries = desired_neighbors-IsEntry cluster config groups built built_by in
    let current_keyed = by_key-Keyed peer_key received [] (nil-Keyed peer_key) in
    let settled =
      neighbor_calls_settle netip ranges table s visit current built visits current_keyed
        (IsEntry-Keyed cluster config groups built entries) listing k in
    subst
      (λ (r : List PeerCall × GoMap Peer).
        PeerSettled netip ranges (lookup k r.1) (lookup k current) (table.view (run table s r.0) k))
      pair settled
