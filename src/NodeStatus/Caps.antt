-- ===== src/NodeStatus/Caps.antt =====
-- controllers/bgpnodestatus_reporter.go: the bounds and the conditions of what collectStatus makes.
use k8gobgp.Prelude.{
  sym, ◌++◌, is_some, ℕ, zero, suc, ◌≤◌, ◌<◌, String, ◌≡◌, ◌↔◌, ◌⊎◌, refl, ap, ◌∙◌, Bool, true,
  false, ◌||◌, Option, none, some, List, [], ◌∷◌, ◌==◌, string_eq, arith, Bool-cases, inl, inr, ltb,
  ltb_iff, length, if◌then◌else◌, value_or,
}
use k8gobgp.Crd.{ConditionStatus, condition_true, condition_false}
use k8gobgp.Prelude.GoMap.{GoMap}
use k8gobgp.NodeStatus.{NodeStatusData, NodeCondition, NeighborStatus, VrfStatus}
use k8gobgp.NodeStatus.Neighbors.{
  collect_neighbor_status, received_neighbors, reported_neighbor, ReportedPeer, StateReport, stream,
}
use k8gobgp.NodeStatus.Health.{Messages, set_ready_condition}
use k8gobgp.NodeStatus.Collect.{
  Answers, ReporterConfig, take, capped, snapshot, collect_status, max_neighbors, max_vrfs,
}

take_fits : {A : Type 0} (n : ℕ) (as' : List A) → length as' ≤ n → take n as' ≡ as'
unfolding take
take_fits zero [] fits = refl
take_fits zero (a ∷ as') fits = absurd (omega arith)
take_fits (suc n) [] fits = refl
take_fits (suc n) (a ∷ as') fits = ap (λ rest. a ∷ rest) (take_fits n as' (omega arith))

capped-take : {A : Type 0} (n : ℕ) (as' : List A) → capped n as' ≡ take n as'
unfolding capped
capped-take n as' = elim (Bool-cases (ltb n (length as'))) [
  | inl long ↦ rw long refl
  | inr fits ↦ rw fits (sym (take_fits n as' (ground arith)))
]

capped_fits : {A : Type 0} (n : ℕ) (as' : List A) → ltb n (length as') ≡ false → capped n as' ≡ as'
unfolding capped
capped_fits n as' fits = rw fits refl

either_over : (m n p q : ℕ) → ((ltb m n || ltb p q) ≡ true) ↔ ((m < n) ⊎ (p < q))
either_over m n p q = elim (Bool-cases (ltb m n)) [
  | inl over ↦ rw over (λ h. inl ((ltb_iff m n).0 over), λ h. refl)
  | inr under ↦ rw under (
    λ h. inr ((ltb_iff p q).0 h),
    λ h. elim h [ inl over ↦ absurd (cc ((ltb_iff m n).1 over)) | inr over ↦ (ltb_iff p q).1 over ],
  )
]

neither_over : (a b : Bool) → (a || b) ≡ false → (a ≡ false) × (b ≡ false)
neither_over a b h = (ground arith, ground arith)

-- The messages of a stream whose peer has a state, which are the peers that a status is about.
pub peers_with_state : List (Option ReportedPeer) → ℕ
peers_with_state [] = 0
peers_with_state (none ∷ rest) = peers_with_state rest
peers_with_state (some peer ∷ rest) =
    let later = peers_with_state rest in if is_some peer.state then suc later else later

length-reported_neighbor :
    (inherited : Option (GoMap (List String))) (peer : ReportedPeer) (state : Option StateReport)
    (rest : List NeighborStatus)
    → length (reported_neighbor inherited peer state ++ rest)
      ≡ (if is_some state then suc (length rest) else length rest)
unfolding reported_neighbor
length-reported_neighbor inherited peer none rest = refl
length-reported_neighbor inherited peer (some state) rest = refl

length-received_neighbors :
    (inherited : Option (GoMap (List String))) (messages : List (Option ReportedPeer))
    → length (received_neighbors inherited messages) ≡ peers_with_state messages
unfolding received_neighbors peers_with_state
length-received_neighbors inherited [] = refl
length-received_neighbors inherited (none ∷ rest) = length-received_neighbors inherited rest
length-received_neighbors inherited (some peer ∷ rest) =
    length-reported_neighbor inherited peer peer.state (received_neighbors inherited rest)
    ∙ rw (length-received_neighbors inherited rest) refl

-- A status beside all that was collected: the neighbors, the number of peers, and the VRFs.
pub record IsCapped (s : NodeStatusData) (all : List NeighborStatus) (count : ℕ)
    (vrfs : List VrfStatus) : Type 0 where
  pub counted : s.neighbor_count ≡ count
  pub first_neighbors : s.neighbors ≡ take max_neighbors all
  pub first_vrfs : s.vrfs ≡ take max_vrfs vrfs
  pub flagged : (s.truncated ≡ true) ↔ ((max_neighbors < count) ⊎ (max_vrfs < length vrfs))
  pub complete : s.truncated ≡ false → (s.neighbors ≡ all) × (s.vrfs ≡ vrfs)

snapshot-IsCapped :
    (node_name : String) (config : ReporterConfig) (answers : Answers) (all : List NeighborStatus)
    (vrfs : List VrfStatus)
    → value_or [] (collect_neighbor_status config.inherited_blocks answers.peers) ≡ all
    → value_or [] answers.vrfs ≡ vrfs
    → IsCapped (snapshot node_name config answers) all (length all) vrfs
unfolding snapshot
snapshot-IsCapped node_name config answers all vrfs same_neighbors same_vrfs =
    rw (← same_neighbors, ← same_vrfs)
      (let ns = value_or [] (collect_neighbor_status config.inherited_blocks answers.peers) in
        let vs = value_or [] answers.vrfs in
        record {
          counted = refl;
          first_neighbors = capped-take max_neighbors ns;
          first_vrfs = capped-take max_vrfs vs;
          flagged = either_over max_neighbors (length ns) max_vrfs (length vs);
          complete = λ whole.
              let fits =
                neither_over (ltb max_neighbors (length ns)) (ltb max_vrfs (length vs)) whole in
              (capped_fits max_neighbors ns fits.0, capped_fits max_vrfs vs fits.1);
        })

-- Where ListPeer's stream ends well and the VRFs are given, a collected status counts every message whose
-- peer has a state, lists the first 128 of their neighbors and the first 64 VRFs, and is marked as
-- truncated exactly if there are more of one of them; one that is not marked lists all.
pub collect_status-IsCapped :
    (texts : Messages) (node_name : String) (config : ReporterConfig) (answers : Answers)
    (messages : List (Option ReportedPeer)) (vrfs : List VrfStatus)
    → answers.peers ≡ stream messages true
    → answers.vrfs ≡ some vrfs
    → IsCapped
        (collect_status texts node_name config answers)
        (received_neighbors config.inherited_blocks messages)
        (peers_with_state messages)
        vrfs
unfolding collect_status set_ready_condition collect_neighbor_status
collect_status-IsCapped texts node_name config answers messages vrfs listing given =
    let all = received_neighbors config.inherited_blocks messages in
    let shown =
      snapshot-IsCapped node_name config answers all vrfs
        (ap (λ l. value_or [] (collect_neighbor_status config.inherited_blocks l)) listing)
        (ap (value_or []) given) in
    let same = length-received_neighbors config.inherited_blocks messages in
    record {
      counted = shown.counted ∙ same;
      first_neighbors = shown.first_neighbors;
      first_vrfs = shown.first_vrfs;
      flagged = rw (← same) shown.flagged;
      complete = shown.complete;
    }

-- The status of the Ready condition.
unfoldable pub ready_of : List NodeCondition → Option ConditionStatus
ready_of [] = none
ready_of (c ∷ cs) =
    let rest = ready_of cs in if c.condition_type == "Ready" then some c.status else rest

abbrev pub ready_status : Bool → ConditionStatus
ready_status healthy = if healthy then condition_true else condition_false
