-- ===== src/Cleanup/Finalizer.antt =====
-- controllers/bgpconfiguration_controller.go: which cleanup calls fail, and the finalizer's removal.
use k8gobgp.Prelude.{
  All, map, ◌≢◌, String, ◌≡◌, refl, Bool, true, false, some, List, [], ◌∷◌, ◌++◌, string_eq, arith,
  Bool-cases, inl, inr,
}
use k8gobgp.Crd
use k8gobgp.Sync.{listed}
use k8gobgp.Sync.Key.{neighbor_key_from_crd}
use k8gobgp.Cleanup.{
  CleanupCall, clean_peer, delete_peer_by_key, clean_neighbors, skip_neighbor, other_calls,
  counted_calls, some_fails, contains_finalizer, remove_finalizer,
}

-- The finalizer is gone after it was removed, however often it stood there.
pub contains_finalizer-remove_finalizer :
    (fs : List String) → contains_finalizer (remove_finalizer fs) ≡ false
unfolding contains_finalizer remove_finalizer listed
contains_finalizer-remove_finalizer [] = refl
contains_finalizer-remove_finalizer (f ∷ fs) =
    ground (arith, contains_finalizer-remove_finalizer fs)

pub All-append :
    (P : CleanupCall → Type 0) (cs ds : List CleanupCall) → All P cs → All P ds → All P (cs ++ ds)
All-append P [] ds h k = k
All-append P (c ∷ cs) ds h k = (h.0, All-append P cs ds h.1 k)

pub All-map :
    {A : Type 0} (P : CleanupCall → Type 0) (f : A → CleanupCall)
    → ((a : A) → P (f a))
    → (as' : List A) → All P (map f as')
All-map P f h [] = tt
All-map P f h (a ∷ rest) = (h a, All-map P f h rest)

All-both :
    (P Q : CleanupCall → Type 0) (cs : List CleanupCall)
    → All P cs
    → All Q cs
    → All (λ c. P c × Q c) cs
All-both P Q [] h k = tt
All-both P Q (c ∷ cs) h k = ((h.0, k.0), All-both P Q cs h.1 k.1)

abbrev pub DistinctCalls : List CleanupCall → Type 0
DistinctCalls [] = Unit
DistinctCalls (c ∷ cs) = All (λ d. c ≢ d) cs × DistinctCalls cs

-- gobgpd deletes what it has: the deletion of an object that it had at the start succeeds, if the same
-- call was not made before.
abbrev pub Deletes : (List CleanupCall → CleanupCall → Bool) → (CleanupCall → Bool) → Type 0
Deletes fails has =
    (before : List CleanupCall) (c : CleanupCall)
    → has c ≡ true
    → All (λ d. d ≢ c) before
    → fails before c ≡ false

-- gobgpd has the peers of its listing, and every dynamic neighbor, peer group, VRF, policy and defined set
-- of the resource.
pub record HasObjects (has : CleanupCall → Bool) (present : List String)
    (spec : Crd.BgpConfigurationSpec) : Type 0 where
  pub peers :
      (cfg : Crd.NeighborConfig)
      → listed (neighbor_key_from_crd cfg) present ≡ true
      → has (clean_peer (delete_peer_by_key cfg)) ≡ true
  pub others : All (λ c. has c ≡ true) (other_calls spec)

none_fails :
    (fails : List CleanupCall → CleanupCall → Bool) (has : CleanupCall → Bool)
    (before cs : List CleanupCall)
    → Deletes fails has
    → All (λ c. has c ≡ true) cs
    → DistinctCalls cs
    → All (λ c. All (λ d. d ≢ c) before) cs
    → some_fails fails before cs ≡ false
unfolding some_fails
none_fails fails has before [] deletes there distinct fresh = refl
none_fails fails has before (c ∷ cs) deletes there distinct fresh =
    rw (deletes before c there.0 fresh.0) (
      none_fails fails has (c ∷ before) cs deletes there.1 distinct.1
        (All-both (λ d. c ≢ d) (λ d. All (λ e. e ≢ d) before) cs distinct.0 fresh.1))

All-any :
    (P : CleanupCall → Type 0) → ((c : CleanupCall) → P c) → (cs : List CleanupCall) → All P cs
All-any P h [] = tt
All-any P h (c ∷ cs) = (h c, All-any P h cs)

-- The loop over the neighbors deletes only what is listed.
clean_neighbors-All :
    (P : CleanupCall → Type 0) (present : List String)
    → ((cfg : Crd.NeighborConfig)
        → listed (neighbor_key_from_crd cfg) present ≡ true
        → P (clean_peer (delete_peer_by_key cfg)))
    → (ns : List Crd.Neighbor) → All P (clean_neighbors (some present) ns)
unfolding clean_neighbors skip_neighbor
clean_neighbors-All P present h [] = tt
clean_neighbors-All P present h (n ∷ rest) =
    let later = clean_neighbors-All P present h rest in
    elim (Bool-cases (listed (neighbor_key_from_crd n.config) present)) [
      | inl there ↦ rw there (h n.config there, later)
      | inr absent ↦ rw absent later
    ]

-- With a listing of the peers no counted call fails, whatever neighbors of other nodes the resource
-- has: they are not deleted.
pub counted_calls-some_fails :
    (fails : List CleanupCall → CleanupCall → Bool) (has : CleanupCall → Bool)
    (present : List String) (spec : Crd.BgpConfigurationSpec)
    → Deletes fails has
    → HasObjects has present spec
    → DistinctCalls (counted_calls (some present) spec)
    → some_fails fails [] (counted_calls (some present) spec) ≡ false
unfolding counted_calls
counted_calls-some_fails fails has present spec deletes objects distinct =
    let calls = clean_neighbors (some present) spec.neighbors ++ other_calls spec in
    none_fails fails has [] calls deletes
      (All-append (λ c. has c ≡ true) (clean_neighbors (some present) spec.neighbors)
        (other_calls spec)
        (clean_neighbors-All (λ c. has c ≡ true) present objects.peers spec.neighbors)
        objects.others)
      distinct (All-any (λ c. All (λ d. d ≢ c) []) (λ c. tt) calls)
