-- ===== src/Sync/RangesConverge.antt =====
-- controllers/bgpconfiguration_controller.go: what reconcileDynamicNeighbors makes of gobgpd's ranges.
use mathlib.Core.Path.{subst}
use k8gobgp.Prelude.{
  String, ◌≡◌, refl, sym, ap, ◌∙◌, Option, none, some, List, [], ◌∷◌, ◌!=◌, string_eq,
  if◌then◌else◌, Bool-cases, Option-cases, inl, inr, eq_of_!=,
}
use k8gobgp.Prelude.GoMap.{GoMap, lookup, insert}
use k8gobgp.Crd.{DynamicNeighbor, BgpConfiguration}
use k8gobgp.Api.{PeerGroup}
use k8gobgp.Sync.{RangeOrder, VisitsAll, wanted, unwanted, wanted_of, unwanted_of}
use k8gobgp.Sync.Table.{Table, run, settle, OnKey}
use k8gobgp.Sync.Settled.{view-sync, unwanted-OnKey, wanted-OnKey}
use k8gobgp.Sync.Keyed.{Keyed, nil-Keyed, insert-Keyed, by_key-Keyed, done-injective}
use k8gobgp.Sync.Groups.{
  done, by_key, DynamicCall, add_dynamic_neighbor, delete_dynamic_neighbor,
  desired_dynamic_neighbors, dynamic_calls, reconcile_dynamic_neighbors,
}

-- The entry of gobgpd's table that a call is for, and what it leaves there.
unfoldable pub range_call_key : DynamicCall → String
range_call_key (add_dynamic_neighbor d) = d.prefix
range_call_key (delete_dynamic_neighbor prefix) = prefix

unfoldable pub range_call_value : DynamicCall → Option DynamicNeighbor
range_call_value (add_dynamic_neighbor d) = some d
range_call_value (delete_dynamic_neighbor prefix) = none

abbrev pub prefix_of : DynamicNeighbor → String
prefix_of d = d.prefix

delete_range : String → DynamicNeighbor → List DynamicCall
delete_range prefix c = delete_dynamic_neighbor prefix ∷ []

add_range : String → DynamicNeighbor → List DynamicCall
add_range prefix d = add_dynamic_neighbor d ∷ []

replace_range : String → DynamicNeighbor → DynamicNeighbor → List DynamicCall
replace_range prefix d c =
    if c.peer_group != d.peer_group
    then delete_dynamic_neighbor prefix ∷ add_dynamic_neighbor d ∷ []
    else []

same_range : (c d : DynamicNeighbor) → c.prefix ≡ d.prefix → c.peer_group ≡ d.peer_group → c ≡ d
same_range c d p q = cc

range_settled_of :
    (k : String) (d c : Option DynamicNeighbor)
    → ((x : DynamicNeighbor) → d ≡ some x → x.prefix ≡ k)
    → ((x : DynamicNeighbor) → c ≡ some x → x.prefix ≡ k)
    → settle range_call_value
        (wanted_of (add_range k) (replace_range k) d c)
        (settle range_call_value (unwanted_of (delete_range k) d c) c)
      ≡ d
unfolding settle range_call_value unwanted_of wanted_of delete_range replace_range add_range
range_settled_of k none none d_at c_at = refl
range_settled_of k none (some c) d_at c_at = refl
range_settled_of k (some d) none d_at c_at = refl
range_settled_of k (some d) (some c) d_at c_at = elim (Bool-cases (c.peer_group != d.peer_group)) [
  | inl differs ↦ rw differs refl
  | inr same ↦
      rw same
        (ap some (same_range c d (c_at c refl ∙ sym (d_at d refl)) (eq_of_!= {A = String} same)))
]

replace_range-OnKey :
    (k : String) (d c : DynamicNeighbor)
    → d.prefix ≡ k
    → OnKey range_call_key k (replace_range k d c)
unfolding replace_range range_call_key
replace_range-OnKey k d c keyed = elim (Bool-cases (c.peer_group != d.peer_group)) [
  | inl differs ↦ rw differs (refl, (keyed, tt))
  | inr same ↦ rw same tt
]

desired_dynamic_neighbors-Keyed :
    (groups : GoMap PeerGroup) (m : GoMap DynamicNeighbor) (dns : List DynamicNeighbor)
    → Keyed prefix_of m
    → Keyed prefix_of (desired_dynamic_neighbors groups m dns)
unfolding desired_dynamic_neighbors
desired_dynamic_neighbors-Keyed groups m [] keyed = keyed
desired_dynamic_neighbors-Keyed groups m (dn ∷ rest) keyed =
    elim (Option-cases (lookup dn.peer_group groups)) [
      | inl absent ↦
          rw (desired_dynamic_neighbors, absent)
            (desired_dynamic_neighbors-Keyed groups m rest keyed)
      | inr (g, there) ↦
          rw (desired_dynamic_neighbors, there)
            (desired_dynamic_neighbors-Keyed groups (insert dn.prefix dn m) rest
              (insert-Keyed prefix_of dn.prefix dn m keyed refl))
    ]

-- Where gobgpd's ranges are those of the listing, the calls of reconcileDynamicNeighbors, all of them
-- succeeding and in any order of the walks, leave exactly the desired ranges with their peer groups, a
-- range whose group changed included.
pub reconcile_dynamic_neighbors_settles :
    {S : Type 0} (table : Table range_call_key range_call_value S) (s : S) (visit : RangeOrder)
    (received : List DynamicNeighbor) (config : BgpConfiguration) (groups : GoMap PeerGroup)
    (calls : List DynamicCall) (desired : GoMap DynamicNeighbor)
    → VisitsAll visit
    → ((k : String) → table.view s k ≡ lookup k (by_key prefix_of [] received))
    → reconcile_dynamic_neighbors visit (some received) config groups ≡ done (calls, desired)
    → (k : String) → table.view (run table s calls) k ≡ lookup k desired
unfolding reconcile_dynamic_neighbors dynamic_calls range_call_key wanted unwanted delete_range
    replace_range add_range
reconcile_dynamic_neighbors_settles table s visit received config groups calls desired visits
      listing h k =
    let current = by_key prefix_of [] received in
    let built = desired_dynamic_neighbors groups [] config.spec.dynamic_neighbors in
    let keyed =
      desired_dynamic_neighbors-Keyed groups [] config.spec.dynamic_neighbors
        (nil-Keyed prefix_of) in
    let moved =
      view-sync table visit visits delete_range add_range replace_range current built
        (unwanted-OnKey table delete_range current built (λ j c held. (refl, tt)))
        (wanted-OnKey table add_range replace_range current built
          (λ j d there. (keyed j d there, tt))
          (λ j d c there. replace_range-OnKey j d c (keyed j d there)))
        s k in
    let settled =
      moved
      ∙ ap
          (λ x.
            settle range_call_value (wanted add_range replace_range current built k)
              (settle range_call_value (unwanted delete_range current built k) x))
          (listing k)
      ∙ range_settled_of k (lookup k built) (lookup k current) (keyed k)
          (by_key-Keyed prefix_of received [] (nil-Keyed prefix_of) k) in
    subst
      (λ (r : List DynamicCall × GoMap DynamicNeighbor).
        table.view (run table s r.0) k ≡ lookup k r.1)
      (done-injective h) settled
