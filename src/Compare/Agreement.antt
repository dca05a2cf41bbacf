-- ===== src/Compare/Agreement.antt =====
-- What it means that a reported peer agrees with a desired one, said without the comparators: a value
-- that is compared and that the resource states is the one in force, and a block that a peer group supplies is not held
-- to anything. Passwords, and the prefix limits and add-paths settings of a family, are not compared.
use mathlib.Core.Path.{subst}
use mathlib.Core.Option.{some-injective}
use text.Mathlib.TextEquality.{eq_iff}
use k8gobgp.Prelude.{
  ℕ, ◌≡◌, refl, ◌≢◌, ◌↔◌, sym, ap, ◌∙◌, Bool, true, false, ◌&&◌, Option, none, some, List, [], ◌∷◌,
  arith, ◌==◌, nat_eq, bool_eq, string_eq, list_eq, list_beq_iff, value_or, length, and_split,
  and_join,
}
use k8gobgp.Api.{
  Family, AfiSafiConfig, AfiSafi, TimersConfig, Timers, Transport, GracefulRestart, RouteReflector,
  EbgpMultihop, BfdPeerConfig, PolicyAssignment, ApplyPolicy, afi_eq, safi_eq, route_action_eq,
  timers_config, import_policy_of, export_policy_of, zero_transport, zero_graceful_restart,
  zero_route_reflector, zero_ebgp_multihop,
}
use k8gobgp.Compare.Blocks.{
  family_differs, afi_safi_differs, afi_safis_loop, afi_safis_config_equal, timers_config_equal,
  transport_config_equal, policy_assignment_equal, apply_policy_equal, graceful_restart_equal,
  route_reflector_equal, ebgp_multihop_equal, send_community_equal, bfd_with_defaults, bfd_equal,
}

pub record TimersAgree (d c : TimersConfig) : Type 0 where
  pub connect_retry : d.connect_retry ≢ 0 → d.connect_retry ≡ c.connect_retry
  pub hold_time : d.hold_time ≢ 0 → d.hold_time ≡ c.hold_time
  pub keepalive_interval : d.keepalive_interval ≢ 0 → d.keepalive_interval ≡ c.keepalive_interval

pub record TransportAgrees (d c : Transport) : Type 0 where
  pub local_address : d.local_address ≢ "" → d.local_address ≡ c.local_address
  pub passive_mode : d.passive_mode ≡ c.passive_mode
  pub bind_interface : d.bind_interface ≡ c.bind_interface
  pub ip_tos : d.ip_tos ≡ c.ip_tos

pub record AssignmentAgrees (d c : PolicyAssignment) : Type 0 where
  pub default_action : d.default_action ≡ c.default_action
  pub policies : d.policies ≡ c.policies

pub record GracefulRestartAgrees (d c : GracefulRestart) : Type 0 where
  pub enabled : d.enabled ≡ c.enabled
  pub helper_only : d.helper_only ≡ c.helper_only
  pub restart_time : d.restart_time ≢ 0 → d.restart_time ≡ c.restart_time
  pub stale_routes_time : d.stale_routes_time ≡ c.stale_routes_time

pub record RouteReflectorAgrees (d c : RouteReflector) : Type 0 where
  pub cluster_id :
      d.route_reflector_cluster_id ≢ ""
      → d.route_reflector_cluster_id ≡ c.route_reflector_cluster_id
  pub client : d.route_reflector_client ≡ c.route_reflector_client

pub record MultihopAgrees (d c : EbgpMultihop) : Type 0 where
  pub enabled : d.enabled ≡ c.enabled
  pub multihop_ttl : d.multihop_ttl ≡ c.multihop_ttl

pub record ApplyPolicyAgrees (d c : Option ApplyPolicy) : Type 0 where
  pub import_policy : AssignmentAgrees (import_policy_of d) (import_policy_of c)
  pub export_policy : AssignmentAgrees (export_policy_of d) (export_policy_of c)

pub timers_config_equal_iff :
    (d c : Option Timers)
    → (timers_config_equal d c ≡ true) ↔ TimersAgree (timers_config d) (timers_config c)
unfolding timers_config_equal
timers_config_equal_iff d c = (λ h. ground arith, λ h. ground arith)

pub transport_config_equal_iff :
    (d c : Option Transport)
    → (transport_config_equal d c ≡ true)
      ↔ TransportAgrees (value_or zero_transport d) (value_or zero_transport c)
unfolding transport_config_equal
transport_config_equal_iff d c =
    let d' = value_or zero_transport d in
    let c' = value_or zero_transport c in
    (
      λ h. ground (
        arith,
        eq_iff d'.local_address "",
        eq_iff d'.local_address c'.local_address,
        eq_iff d'.bind_interface c'.bind_interface,
      ),
      λ h. ground (
        arith,
        eq_iff d'.local_address "",
        eq_iff d'.local_address c'.local_address,
        eq_iff d'.bind_interface c'.bind_interface,
      ),
    )

-- An address family entry, by family and state. A nil configuration agrees only with nil, and so
-- does a nil family, whatever the states beside it.
abbrev pub FamilyAgrees : AfiSafiConfig → AfiSafiConfig → Option Family → Type 0
FamilyAgrees d c none = c.family ≡ none
FamilyAgrees d c (some f) =
    (g : Family) × (c.family ≡ some g)
    × (f.afi ≡ g.afi)
    × (f.safi ≡ g.safi)
    × (d.enabled ≡ c.enabled)

abbrev pub ConfigAgrees : Option AfiSafiConfig → Option AfiSafiConfig → Type 0
ConfigAgrees none c = c ≡ none
ConfigAgrees (some d) c = (e : AfiSafiConfig) × (c ≡ some e) × FamilyAgrees d e d.family

abbrev pub FamiliesAgree : List AfiSafi → List AfiSafi → Type 0
FamiliesAgree [] [] = Unit
FamiliesAgree (d ∷ ds) (c ∷ cs) = ConfigAgrees d.config c.config × FamiliesAgree ds cs
FamiliesAgree _ _ = ⊥

-- A peer that states no family takes the daemon's, or its group's.
abbrev pub AfiSafisAgree : List AfiSafi → List AfiSafi → Type 0
AfiSafisAgree [] c = Unit
AfiSafisAgree (d ∷ ds) c = FamiliesAgree (d ∷ ds) c

family_differs_iff :
    (d c : AfiSafiConfig) (f g : Option Family)
    → f ≡ d.family
    → g ≡ c.family
    → (family_differs f g d.enabled c.enabled ≡ false) ↔ FamilyAgrees d c f
unfolding family_differs
family_differs_iff d c none none p q = (λ h. sym q, λ h. refl)
family_differs_iff d c none (some g) p q = (λ h. absurd (cc), λ h. absurd (cc))
family_differs_iff d c (some f) none p q = (λ h. absurd (cc), λ h. absurd (cc (h.1)))
family_differs_iff d c (some f) (some g) p q = (
  λ h. (
    g,
    sym q,
    (afi_eq.same_iff f.afi g.afi).0 (ground arith),
    (safi_eq.same_iff f.safi g.safi).0 (ground arith),
    ground arith,
  ),
  λ h. ground (
    arith,
    some-injective _ _ (q ∙ h.1),
    (afi_eq.same_iff f.afi g.afi),
    (safi_eq.same_iff f.safi g.safi),
    h.2,
    h.3,
    h.4,
  ),
)

config_differs_iff :
    (d c : Option AfiSafiConfig) → (afi_safi_differs d c ≡ false) ↔ ConfigAgrees d c
unfolding afi_safi_differs
config_differs_iff none none = (λ h. refl, λ h. refl)
config_differs_iff none (some c) = (λ h. absurd (cc), λ h. absurd (cc))
config_differs_iff (some d) none = (λ h. absurd (cc), λ h. absurd (cc (h.1)))
config_differs_iff (some d) (some c) =
    let family = family_differs_iff d c d.family c.family refl refl in
    (
      λ h. (c, refl, family.0 h),
      λ h. family.1 (subst (λ e. FamilyAgrees d e d.family) (sym (some-injective _ _ (h.1))) h.2),
    )

afi_safis_loop_iff :
    (ds cs : List AfiSafi)
    → ((length ds ≡ length cs) × (afi_safis_loop ds cs ≡ true)) ↔ FamiliesAgree ds cs
unfolding afi_safis_loop
afi_safis_loop_iff [] [] = (λ h. tt, λ h. (refl, refl))
afi_safis_loop_iff [] (c ∷ cs) = (λ h. absurd (omega (arith, h.0)), λ h. absurd h)
afi_safis_loop_iff (d ∷ ds) [] = (λ h. absurd (omega (arith, h.0)), λ h. absurd h)
afi_safis_loop_iff (d ∷ ds) (c ∷ cs) = (
  λ h. (
    (config_differs_iff d.config c.config).0 (ground (arith, h.1)),
    (afi_safis_loop_iff ds cs).0 (omega (arith, h.0), ground (arith, h.1)),
  ),
  λ h.
      let same = (config_differs_iff d.config c.config).1 h.0 in
      let rest = (afi_safis_loop_iff ds cs).1 h.1 in (omega (arith, rest.0), rw same rest.1),
)

pub afi_safis_config_equal_iff :
    (ds cs : List AfiSafi) → (afi_safis_config_equal ds cs ≡ true) ↔ AfiSafisAgree ds cs
unfolding afi_safis_config_equal
afi_safis_config_equal_iff [] cs = (λ h. tt, λ h. refl)
afi_safis_config_equal_iff (d ∷ ds) cs =
    let loop = afi_safis_loop_iff (d ∷ ds) cs in
    (
      λ h. loop.0 (ground arith, ground arith),
      λ h. let both = loop.1 h in ground (arith, both.0, both.1),
    )

policy_assignment_equal_iff :
    (d c : PolicyAssignment) → (policy_assignment_equal d c ≡ true) ↔ AssignmentAgrees d c
unfolding policy_assignment_equal
policy_assignment_equal_iff d c =
    let names = list_beq_iff d.policies c.policies in
    let action = route_action_eq.same_iff d.default_action c.default_action in
    (λ h. ground (arith, names, action), λ h. ground (arith, names, action, ap length h.policies))

pub apply_policy_equal_iff :
    (d c : Option ApplyPolicy) → (apply_policy_equal d c ≡ true) ↔ ApplyPolicyAgrees d c
unfolding apply_policy_equal
apply_policy_equal_iff d c =
    let imports = policy_assignment_equal_iff (import_policy_of d) (import_policy_of c) in
    let exports = policy_assignment_equal_iff (export_policy_of d) (export_policy_of c) in
    (
      λ h.
          let (i, e) = and_split _ _ h in
          record { import_policy = imports.0 i; export_policy = exports.0 e },
      λ h. and_join (imports.1 h.import_policy) (exports.1 h.export_policy),
    )

pub graceful_restart_equal_iff :
    (d c : Option GracefulRestart)
    → (graceful_restart_equal d c ≡ true)
      ↔ GracefulRestartAgrees (value_or zero_graceful_restart d) (value_or zero_graceful_restart c)
unfolding graceful_restart_equal
graceful_restart_equal_iff d c = (λ h. ground arith, λ h. ground arith)

pub route_reflector_equal_iff :
    (d c : Option RouteReflector)
    → (route_reflector_equal d c ≡ true)
      ↔ RouteReflectorAgrees (value_or zero_route_reflector d) (value_or zero_route_reflector c)
unfolding route_reflector_equal
route_reflector_equal_iff d c =
    let d' = (value_or zero_route_reflector d).route_reflector_cluster_id in
    let c' = (value_or zero_route_reflector c).route_reflector_cluster_id in
    (
      λ h. ground (arith, eq_iff d' "", eq_iff d' c'),
      λ h. ground (arith, eq_iff d' "", eq_iff d' c'),
    )

pub ebgp_multihop_equal_iff :
    (d c : Option EbgpMultihop)
    → (ebgp_multihop_equal d c ≡ true)
      ↔ MultihopAgrees (value_or zero_ebgp_multihop d) (value_or zero_ebgp_multihop c)
unfolding ebgp_multihop_equal
ebgp_multihop_equal_iff d c = (λ h. ground arith, λ h. ground arith)

pub send_community_equal_iff :
    (d c : Option ℕ) → (send_community_equal d c ≡ true) ↔ ((x : ℕ) → d ≡ some x → c ≡ some x)
unfolding send_community_equal
send_community_equal_iff none c = (λ h x p. absurd (cc), λ h. refl)
send_community_equal_iff (some d) none = (λ h x p. absurd (cc), λ h. absurd (cc (h d refl)))
send_community_equal_iff (some d) (some c) =
    (λ h x p. ground (arith, some-injective _ _ p), λ h. ground (arith, h d refl))

bfd_beq : BfdPeerConfig → BfdPeerConfig → Bool
bfd_beq d c =
    d.enabled == c.enabled
    && d.port == c.port
    && d.desired_minimum_tx_interval == c.desired_minimum_tx_interval
    && d.required_minimum_receive == c.required_minimum_receive
    && d.detection_multiplier == c.detection_multiplier

bfd_beq_iff : (d c : BfdPeerConfig) → (bfd_beq d c ≡ true) ↔ (d ≡ c)
unfolding bfd_beq
bfd_beq_iff d c = (λ h. ground arith, λ h. ground arith)

-- With the daemon's defaults filled in on both sides.
pub bfd_equal_iff :
    (d c : Option BfdPeerConfig)
    → (bfd_equal d c true ≡ true) ↔ (bfd_with_defaults d ≡ bfd_with_defaults c)
unfolding bfd_equal bfd_beq
bfd_equal_iff d c = bfd_beq_iff (bfd_with_defaults d) (bfd_with_defaults c)
