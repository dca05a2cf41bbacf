-- ===== src/NodeStatus/Healthy.antt =====
-- controllers/bgpnodestatus_reporter.go: what deriveHealth's answer means.
use k8gobgp.Prelude.{
  All, ℕ, suc, String, ◌≡◌, ◌↔◌, ◌⊎◌, refl, Bool, true, not, Option, none, some, List, [], ◌∷◌,
  ◌==◌, string_eq, nat_eq, arith, Bool-cases, inl, inr, eq_of_==, ==_of_eq, ne_of_==, ltb,
  if◌then◌else◌, and_split, and_join,
}
use k8gobgp.NodeStatus.{
  BfdStatus, BfdServerStatus, NeighborStatus, NetlinkImportStatus, NetlinkExportStatus,
  NodeStatusData,
}
use k8gobgp.NodeStatus.Health.{
  every, configured_sessions, down_sessions, session_down, is_listening, bfd_degraded, degraded,
  import_works, export_works, derive_health,
}

abbrev pub IsUp : Option BfdStatus → Type 0
IsUp none = Unit
IsUp (some b) = b.session_state ≡ "Up"

abbrev pub IsListening : Option BfdServerStatus → Type 0
IsListening none = ⊥
IsListening (some server) = server.listening ≡ true

-- BFD is unused, or its socket is bound and every session is Up.
abbrev pub BfdWorks : List NeighborStatus → Option BfdServerStatus → Type 0
BfdWorks ns server = All (λ n. n.bfd ≡ none) ns ⊎ (IsListening server × All (λ n. IsUp n.bfd) ns)

abbrev pub AllImported : Option NetlinkImportStatus → Type 0
AllImported none = Unit
AllImported (some i) = All (λ a. a.in_rib ≡ true) i.imported_addresses

abbrev pub AllInstalled : Option NetlinkExportStatus → Type 0
AllInstalled none = Unit
AllInstalled (some e) = All (λ r. r.installed ≡ true) e.exported_routes

pub record IsHealthy (ns : List NeighborStatus) (server : Option BfdServerStatus)
    (netlink_import : Option NetlinkImportStatus) (netlink_export : Option NetlinkExportStatus)
    : Type 0 where
  pub established : All (λ n. n.state ≡ "Established") ns
  pub bfd : BfdWorks ns server
  pub imported : AllImported netlink_import
  pub installed : AllInstalled netlink_export

-- The same over the parts of a status.
abbrev pub StatusHealthy : NodeStatusData → Type 0
StatusHealthy s = IsHealthy s.neighbors s.bfd_server s.netlink_import s.netlink_export

every_iff :
    {A : Type 0} {P : A → Type 0} (test : A → Bool)
    → ((a : A) → (test a ≡ true) ↔ P a)
    → (as' : List A) → (every test as' ≡ true) ↔ All P as'
unfolding every
every_iff test same [] = (λ h. tt, λ h. refl)
every_iff test same (a ∷ rest) = elim (Bool-cases (test a)) [
  | inl holds ↦ rw holds (
    λ h. ((same a).0 holds, (every_iff test same rest).0 h),
    λ h. (every_iff test same rest).1 h.1,
  )
  | inr fails ↦ rw fails (λ h. absurd (cc), λ h. absurd (cc ((same a).1 h.0)))
]

imported_iff : (i : Option NetlinkImportStatus) → (import_works i ≡ true) ↔ AllImported i
unfolding import_works
imported_iff none = (λ h. tt, λ h. refl)
imported_iff (some i) = every_iff (λ a. a.in_rib) (λ a. (λ h. h, λ h. h)) i.imported_addresses

installed_iff : (e : Option NetlinkExportStatus) → (export_works e ≡ true) ↔ AllInstalled e
unfolding export_works
installed_iff none = (λ h. tt, λ h. refl)
installed_iff (some e) = every_iff (λ r. r.installed) (λ r. (λ h. h, λ h. h)) e.exported_routes

configured_step :
    (b : Option BfdStatus) (rest : ℕ)
    → (elim b [ none ↦ rest | some session ↦ suc rest ] ≡ 0) ↔ ((b ≡ none) × (rest ≡ 0))
configured_step none rest = (λ h. (refl, h), λ h. h.1)
configured_step (some b) rest = (λ h. absurd (omega arith), λ h. absurd (cc (h.0)))

unused_iff : (ns : List NeighborStatus) → (configured_sessions ns ≡ 0) ↔ All (λ n. n.bfd ≡ none) ns
unfolding configured_sessions
unused_iff [] = (λ h. tt, λ h. refl)
unused_iff (n ∷ ns) =
    let step = configured_step n.bfd (configured_sessions ns) in
    let later = unused_iff ns in
    (λ h. let p = step.0 h in (p.0, later.0 p.1), λ h. step.1 (h.0, later.1 h.1))

down_step :
    (b : Option BfdStatus) (rest : ℕ)
    → ((if session_down b then suc rest else rest) ≡ 0) ↔ (IsUp b × (rest ≡ 0))
unfolding session_down
down_step none rest = (λ h. (tt, h), λ h. h.1)
down_step (some b) rest = elim (Bool-cases (b.session_state == "Up")) [
  | inl up ↦ rw up (λ h. (eq_of_== {A = String} up, h), λ h. h.1)
  | inr down ↦ rw down (λ h. absurd (omega arith), λ h. absurd (ne_of_== {A = String} down h.0))
]

IsUp-iff : (ns : List NeighborStatus) → (down_sessions ns ≡ 0) ↔ All (λ n. IsUp n.bfd) ns
unfolding down_sessions
IsUp-iff [] = (λ h. tt, λ h. refl)
IsUp-iff (n ∷ ns) =
    let step = down_step n.bfd (down_sessions ns) in
    let later = IsUp-iff ns in
    (λ h. let p = step.0 h in (p.0, later.0 p.1), λ h. step.1 (h.0, later.1 h.1))

IsListening-iff :
    (server : Option BfdServerStatus) → (is_listening server ≡ true) ↔ IsListening server
unfolding is_listening
IsListening-iff none = (λ h. absurd (cc), λ h. absurd h)
IsListening-iff (some server) = (λ h. h, λ h. h)

BfdWorks-iff :
    (s : NodeStatusData)
    → (not (degraded (bfd_degraded s)) ≡ true) ↔ BfdWorks s.neighbors s.bfd_server
unfolding bfd_degraded degraded
BfdWorks-iff s =
    let unused = unused_iff s.neighbors in
    let up = IsUp-iff s.neighbors in
    let bound = IsListening-iff s.bfd_server in
    elim (Bool-cases (configured_sessions s.neighbors == 0)) [
      | inl none_configured ↦
          rw none_configured (λ h. inl (unused.0 (eq_of_== {A = ℕ} none_configured)), λ h. refl)
      | inr configured ↦ elim (Bool-cases (is_listening s.bfd_server)) [
        | inr unbound ↦
            rw (configured, unbound)
              (
                λ h. absurd (cc),
                λ h. elim h [
                  | inl none_used ↦ absurd (ne_of_== {A = ℕ} configured (unused.1 none_used))
                  | inr works ↦ absurd (cc (bound.1 works.0))
                ],
              )
        | inl listening ↦ elim (Bool-cases (ltb 0 (down_sessions s.neighbors))) [
          | inl down ↦
              rw (configured, listening, down)
                (
                  λ h. absurd (cc),
                  λ h. elim h [
                    | inl none_used ↦ absurd (ne_of_== {A = ℕ} configured (unused.1 none_used))
                    | inr works ↦ let no_down = up.1 works.1 in absurd (ground arith)
                  ],
                )
          | inr all_up ↦
              rw (configured, listening, all_up)
                (λ h. inr (bound.0 listening, up.0 (ground arith)), λ h. refl)
        ]
      ]
    ]

-- A status counts as healthy exactly if every neighbor that it lists is Established, BFD is unused or
-- its socket is bound with every session Up, every imported address that it lists is in the RIB, and
-- every exported route that it lists is installed.
pub derive_health_iff : (s : NodeStatusData) → (derive_health s ≡ true) ↔ StatusHealthy s
unfolding derive_health
derive_health_iff s =
    let established =
      every_iff {P = λ n. n.state ≡ "Established"} (λ n. n.state == "Established")
        (λ n. (eq_of_== {A = String}, ==_of_eq {A = String})) s.neighbors in
    let bfd = BfdWorks-iff s in
    let imports = imported_iff s.netlink_import in
    let exports = installed_iff s.netlink_export in
    (
      λ h.
          let (abc, d) = and_split _ _ h in
          let (ab, c) = and_split _ _ abc in
          let (a, b) = and_split _ _ ab in
          record {
            established = established.0 a;
            bfd = bfd.0 b;
            imported = imports.0 c;
            installed = exports.0 d;
          },
      λ h.
          and_join
            (and_join (and_join (established.1 h.established) (bfd.1 h.bfd)) (imports.1 h.imported))
            (exports.1 h.installed),
    )
