-- ===== src/Cleanup/Made.antt =====
-- controllers/bgpconfiguration_controller.go: reconcileDelete, the calls that it makes for the objects of the
-- resource.
use k8gobgp.Prelude.{
  map, Option, none, ◌⊎◌, String, ◌≡◌, refl, true, false, some, List, [], ◌∷◌, ◌++◌, string_eq,
  arith, Bool-cases, inl, inr,
}
use k8gobgp.Crd
use k8gobgp.Sync.{listed}
use k8gobgp.Sync.Key.{neighbor_key_from_crd}
use k8gobgp.Cleanup.{
  CleanupCall, clean_peer, delete_peer_by_key, clean_neighbors, skip_neighbor, other_calls,
  counted_calls, cleanup_calls, clean_dynamic_neighbor, clean_peer_group, clean_vrf, clean_policy,
  clean_defined_set,
}

-- A call is among the calls made.
abbrev pub IsMade : CleanupCall → List CleanupCall → Type 0
IsMade c [] = ⊥
IsMade c (d ∷ ds) = (d ≡ c) ⊎ IsMade c ds

IsMade-left : (c : CleanupCall) (cs ds : List CleanupCall) → IsMade c cs → IsMade c (cs ++ ds)
IsMade-left c [] ds made = absurd made
IsMade-left c (d ∷ cs) ds (inl here) = inl here
IsMade-left c (d ∷ cs) ds (inr later) = inr (IsMade-left c cs ds later)

IsMade-right : (c : CleanupCall) (cs ds : List CleanupCall) → IsMade c ds → IsMade c (cs ++ ds)
IsMade-right c [] ds made = made
IsMade-right c (d ∷ cs) ds made = inr (IsMade-right c cs ds made)

module _ {A : Type 0} (f : A → CleanupCall) where
  -- The call for each of the objects is made.
  abbrev pub AllMade : List A → List CleanupCall → Type 0
  AllMade [] calls = Unit
  AllMade (a ∷ rest) calls = IsMade (f a) calls × AllMade rest calls

  AllMade-widen :
      (as' : List A) (cs ds : List CleanupCall)
      → ((c : CleanupCall) → IsMade c cs → IsMade c ds)
      → AllMade as' cs
      → AllMade as' ds
  AllMade-widen [] cs ds wide made = tt
  AllMade-widen (a ∷ rest) cs ds wide made =
      (wide (f a) made.0, AllMade-widen rest cs ds wide made.1)

  AllMade-map : (as' : List A) → AllMade as' (map f as')
  AllMade-map [] = tt
  AllMade-map (a ∷ rest) = (
    inl refl,
    AllMade-widen rest (map f rest) (f a ∷ map f rest) (λ c made. inr made) (AllMade-map rest),
  )

  AllMade-left : (as' : List A) (cs ds : List CleanupCall) → AllMade as' cs → AllMade as' (cs ++ ds)
  AllMade-left as' cs ds = AllMade-widen as' cs (cs ++ ds) (λ c. IsMade-left c cs ds)

  AllMade-right :
      (as' : List A) (cs ds : List CleanupCall) → AllMade as' ds → AllMade as' (cs ++ ds)
  AllMade-right as' cs ds = AllMade-widen as' ds (cs ++ ds) (λ c. IsMade-right c cs ds)

-- The listing of the peers, where there is one, lacks the neighbor.
abbrev pub IsAbsent : Option (List String) → Crd.Neighbor → Type 0
IsAbsent none n = ⊥
IsAbsent (some keys) n = listed (neighbor_key_from_crd n.config) keys ≡ false

abbrev pub AllPeersMade : Option (List String) → List Crd.Neighbor → List CleanupCall → Type 0
AllPeersMade present [] calls = Unit
AllPeersMade present (n ∷ rest) calls =
    (IsAbsent present n ⊎ IsMade (clean_peer (delete_peer_by_key n.config)) calls)
    × AllPeersMade present rest calls

-- Every object of the resource is deleted, but for the neighbors that a listing lacks.
pub record CleansAll (present : Option (List String)) (spec : Crd.BgpConfigurationSpec)
    (calls : List CleanupCall) : Type 0 where
  pub peers : AllPeersMade present spec.neighbors calls
  pub ranges :
      AllMade
        (λ (dn : Crd.DynamicNeighbor). clean_dynamic_neighbor dn.prefix)
        spec.dynamic_neighbors
        calls
  pub groups :
      AllMade
        (λ (pg : Crd.PeerGroup). clean_peer_group pg.config.peer_group_name)
        spec.peer_groups
        calls
  pub vrfs : AllMade (λ (vrf : Crd.Vrf). clean_vrf vrf.name) spec.vrfs calls
  pub policies :
      AllMade
        (λ (policy : Crd.PolicyDefinition). clean_policy policy.name)
        spec.policy_definitions
        calls
  pub sets : AllMade (λ (set : Crd.DefinedSet). clean_defined_set set.name) spec.defined_sets calls

AllPeersMade-widen :
    (present : Option (List String)) (ns : List Crd.Neighbor) (cs ds : List CleanupCall)
    → ((c : CleanupCall) → IsMade c cs → IsMade c ds)
    → AllPeersMade present ns cs
    → AllPeersMade present ns ds
AllPeersMade-widen present [] cs ds wide made = tt
AllPeersMade-widen present (n ∷ rest) cs ds wide made = (
  elim made.0 [ inl absent ↦ inl absent | inr here ↦ inr (wide _ here) ],
  AllPeersMade-widen present rest cs ds wide made.1,
)

skipped-IsAbsent :
    (present : Option (List String)) (n : Crd.Neighbor)
    → skip_neighbor present n ≡ true
    → IsAbsent present n
unfolding skip_neighbor
skipped-IsAbsent none n skipped = absurd (cc)
skipped-IsAbsent (some keys) n skipped = ground arith

clean_neighbors-AllPeersMade :
    (present : Option (List String)) (ns : List Crd.Neighbor)
    → AllPeersMade present ns (clean_neighbors present ns)
unfolding clean_neighbors
clean_neighbors-AllPeersMade present [] = tt
clean_neighbors-AllPeersMade present (n ∷ rest) =
    let later = clean_neighbors-AllPeersMade present rest in
    elim (Bool-cases (skip_neighbor present n)) [
      | inl skipped ↦
          rw (skipped, clean_neighbors) (inl (skipped-IsAbsent present n skipped), later)
      | inr kept ↦
          rw (kept, clean_neighbors)
            (
              inr (inl refl),
              AllPeersMade-widen present rest (clean_neighbors present rest) _ (λ c made. inr made)
                  later,
            )
    ]

-- The five kinds of objects beside the peers.
other_calls-wide :
    (present : Option (List String)) (spec : Crd.BgpConfigurationSpec) (c : CleanupCall)
    → IsMade c (other_calls spec)
    → IsMade c (cleanup_calls present spec)
unfolding cleanup_calls counted_calls
other_calls-wide present spec c made = IsMade-left c _ _ (
    IsMade-left c _ _
      (IsMade-right c (clean_neighbors present spec.neighbors) (other_calls spec) made))

clean_neighbors-wide :
    (present : Option (List String)) (spec : Crd.BgpConfigurationSpec) (c : CleanupCall)
    → IsMade c (clean_neighbors present spec.neighbors)
    → IsMade c (cleanup_calls present spec)
unfolding cleanup_calls counted_calls
clean_neighbors-wide present spec c made = IsMade-left c _ _ (
    IsMade-left c _ _
      (IsMade-left c (clean_neighbors present spec.neighbors) (other_calls spec) made))

dynamic : Crd.DynamicNeighbor → CleanupCall
dynamic dn = clean_dynamic_neighbor dn.prefix

group : Crd.PeerGroup → CleanupCall
group pg = clean_peer_group pg.config.peer_group_name

vrf_of : Crd.Vrf → CleanupCall
vrf_of vrf = clean_vrf vrf.name

policy_of : Crd.PolicyDefinition → CleanupCall
policy_of policy = clean_policy policy.name

set_of : Crd.DefinedSet → CleanupCall
set_of set = clean_defined_set set.name

abbrev OthersMade : Crd.BgpConfigurationSpec → Type 0
OthersMade spec =
    AllMade dynamic spec.dynamic_neighbors (other_calls spec)
    × AllMade group spec.peer_groups (other_calls spec)
    × AllMade vrf_of spec.vrfs (other_calls spec)
    × AllMade policy_of spec.policy_definitions (other_calls spec)
    × AllMade set_of spec.defined_sets (other_calls spec)

others_made : (spec : Crd.BgpConfigurationSpec) → OthersMade spec
unfolding other_calls dynamic group vrf_of policy_of set_of
others_made spec =
    let ds = map dynamic spec.dynamic_neighbors in
    let gs = map group spec.peer_groups in
    let vs = map vrf_of spec.vrfs in
    let ps = map policy_of spec.policy_definitions in
    let ss = map set_of spec.defined_sets in
    (
      AllMade-left dynamic spec.dynamic_neighbors (ds ++ gs ++ vs ++ ps) ss (
          AllMade-left dynamic spec.dynamic_neighbors (ds ++ gs ++ vs) ps (
            AllMade-left dynamic spec.dynamic_neighbors (ds ++ gs) vs (
              AllMade-left dynamic spec.dynamic_neighbors ds gs
                (AllMade-map dynamic spec.dynamic_neighbors)))),
      AllMade-left group spec.peer_groups (ds ++ gs ++ vs ++ ps) ss (
          AllMade-left group spec.peer_groups (ds ++ gs ++ vs) ps (
            AllMade-left group spec.peer_groups (ds ++ gs) vs
              (AllMade-right group spec.peer_groups ds gs (AllMade-map group spec.peer_groups)))),
      AllMade-left vrf_of spec.vrfs (ds ++ gs ++ vs ++ ps) ss (
          AllMade-left vrf_of spec.vrfs (ds ++ gs ++ vs) ps
            (AllMade-right vrf_of spec.vrfs (ds ++ gs) vs (AllMade-map vrf_of spec.vrfs))),
      AllMade-left policy_of spec.policy_definitions (ds ++ gs ++ vs ++ ps) ss (
          AllMade-right policy_of spec.policy_definitions (ds ++ gs ++ vs) ps
            (AllMade-map policy_of spec.policy_definitions)),
      AllMade-right set_of spec.defined_sets (ds ++ gs ++ vs ++ ps) ss
          (AllMade-map set_of spec.defined_sets),
    )

pub cleanup_calls-CleansAll :
    (present : Option (List String)) (spec : Crd.BgpConfigurationSpec)
    → CleansAll present spec (cleanup_calls present spec)
unfolding dynamic group vrf_of policy_of set_of
cleanup_calls-CleansAll present spec =
    let (ranges, groups, vrfs, policies, sets) = others_made spec in
    let wide = other_calls-wide present spec in
    record {
      peers =
          AllPeersMade-widen present spec.neighbors (clean_neighbors present spec.neighbors) _
            (clean_neighbors-wide present spec)
            (clean_neighbors-AllPeersMade present spec.neighbors);
      ranges = AllMade-widen dynamic spec.dynamic_neighbors (other_calls spec) _ wide ranges;
      groups = AllMade-widen group spec.peer_groups (other_calls spec) _ wide groups;
      vrfs = AllMade-widen vrf_of spec.vrfs (other_calls spec) _ wide vrfs;
      policies = AllMade-widen policy_of spec.policy_definitions (other_calls spec) _ wide policies;
      sets = AllMade-widen set_of spec.defined_sets (other_calls spec) _ wide sets;
    }
