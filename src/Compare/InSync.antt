-- ===== src/Compare/InSync.antt =====
-- controllers/bgpconfiguration_controller.go: what peerConfigEqual decides.
use mathlib.Core.Option.{some-injective}
use k8gobgp.Prelude.{
  ℕ, ◌≡◌, refl, sym, ◌∙◌, ◌≢◌, ◌↔◌, inl, inr, Bool, true, false, not, ◌&&◌, Option, none, some,
  arith, Eq, ◌==◌, ◌!=◌, nat_eq, bool_eq, string_eq, eq_of_==, eq_of_!=, !=_of_eq, ne_of_==,
  ==_of_eq, ==_of_ne, eq_of_guarded, guarded_of_eq, NoneOf, none_of→NoneOf, NoneOf→none_of, is_some,
  is_none, value_or, Bool-cases, and_split, and_join,
}
use k8gobgp.Api.{
  PeerConf, Peer, remove_private_unspecified, remove_private_eq, timers_config, zero_transport,
  zero_graceful_restart, zero_route_reflector, zero_ebgp_multihop,
}
use k8gobgp.Compare.Blocks.{bfd_with_defaults}
use k8gobgp.Compare.Peers.{conf_mismatches, block_mismatches, confs_equal, peer_config_equal}
use k8gobgp.Compare.Agreement.{
  AfiSafisAgree, ApplyPolicyAgrees, TimersAgree, TransportAgrees, GracefulRestartAgrees,
  RouteReflectorAgrees, MultihopAgrees, afi_safis_config_equal_iff, apply_policy_equal_iff,
  timers_config_equal_iff, transport_config_equal_iff, graceful_restart_equal_iff,
  route_reflector_equal_iff, ebgp_multihop_equal_iff, send_community_equal_iff, bfd_equal_iff,
}

-- A value that is stated is the reported one; an absent report reads as `z`.
abbrev pub Kept {ℓ} : {A : Type ℓ} → A → Option A → Option A → Type ℓ
Kept {A} z d c = (x : A) → d ≡ some x → value_or z c ≡ x

pub record ConfAgrees (dc rc : PeerConf) : Type 0 where
  pub address : dc.neighbor_interface ≡ "" → dc.neighbor_address ≡ rc.neighbor_address
  pub local_asn : value_or 0 dc.local_asn ≢ 0 → value_or 0 dc.local_asn ≡ value_or 0 rc.local_asn
  pub peer_asn : dc.peer_group ≡ "" → dc.peer_asn ≡ rc.peer_asn
  pub description : Kept "" dc.description rc.description
  pub peer_group : dc.peer_group ≡ rc.peer_group
  pub admin_down : dc.admin_down ≡ rc.admin_down
  pub neighbor_interface : dc.neighbor_interface ≡ rc.neighbor_interface
  pub vrf : dc.vrf ≡ rc.vrf
  pub allow_own_asn : Kept 0 dc.allow_own_asn rc.allow_own_asn
  pub replace_peer_asn : Kept false dc.replace_peer_asn rc.replace_peer_asn
  pub allow_aspath_loop_local : Kept false dc.allow_aspath_loop_local rc.allow_aspath_loop_local
  pub send_software_version : Kept false dc.send_software_version rc.send_software_version
  pub remove_private : Kept remove_private_unspecified dc.remove_private rc.remove_private
  pub send_community : (x : ℕ) → dc.send_community ≡ some x → rc.send_community ≡ some x

-- The block is this peer's own: it is in no group, or it states the block.
abbrev pub Owned {ℓ} : {A : Type ℓ} → PeerConf → Option A → Type ℓ
Owned dc block = (dc.peer_group ≢ "" → block ≢ none)

pub record BlocksAgree (dc : PeerConf) (d c : Peer) : Type 0 where
  pub afi_safis : AfiSafisAgree d.afi_safis c.afi_safis
  pub apply_policy : Owned dc d.apply_policy → ApplyPolicyAgrees d.apply_policy c.apply_policy
  pub timers : TimersAgree (timers_config d.timers) (timers_config c.timers)
  pub transport :
      Owned dc d.transport
      → TransportAgrees (value_or zero_transport d.transport) (value_or zero_transport c.transport)
  pub graceful_restart :
      Owned dc d.graceful_restart
      → GracefulRestartAgrees
          (value_or zero_graceful_restart d.graceful_restart)
          (value_or zero_graceful_restart c.graceful_restart)
  pub route_reflector :
      Owned dc d.route_reflector
      → RouteReflectorAgrees
          (value_or zero_route_reflector d.route_reflector)
          (value_or zero_route_reflector c.route_reflector)
  pub ebgp_multihop :
      Owned dc d.ebgp_multihop
      → MultihopAgrees
          (value_or zero_ebgp_multihop d.ebgp_multihop)
          (value_or zero_ebgp_multihop c.ebgp_multihop)
  pub bfd : Owned dc d.bfd → bfd_with_defaults d.bfd ≡ bfd_with_defaults c.bfd

module _ {ℓ} {A : Type ℓ} ⦃e : Eq A⦄ where
  Kept-of_guard :
      (z : A) (d c : Option A) → (is_some d && (value_or z d != value_or z c)) ≡ false → Kept z d c
  Kept-of_guard z none c h x p = absurd (cc)
  Kept-of_guard z (some y) c h x p = sym (eq_of_!= h) ∙ some-injective y x p

  guard_of_Kept :
      (z : A) (d c : Option A) → Kept z d c → (is_some d && (value_or z d != value_or z c)) ≡ false
  guard_of_Kept z none c h = refl
  guard_of_Kept z (some y) c h = !=_of_eq (sym (h y refl))

  guard_of_ne : (a b z : A) → (a ≢ z → a ≡ b) → (a != z && a != b) ≡ false
  guard_of_ne a b z h = elim (Bool-cases (a == z)) [
    | inl same ↦ rw same
    | inr other ↦ rw other (!=_of_eq (h (ne_of_== other)))
  ]

  eq_of_guard : (a b z : A) → (a != z && a != b) ≡ false → a ≢ z → a ≡ b
  eq_of_guard a b z h n = eq_of_!= (let p = ==_of_ne n in ground arith)

-- A test that is skipped under a condition, and what it stands for.
skip_iff :
    {Agrees : Type 0} (skip equal : Bool)
    → (equal ≡ true) ↔ Agrees
    → ((not skip && not equal) ≡ false) ↔ (skip ≡ false → Agrees)
skip_iff true equal same = (λ h p. absurd (cc), λ h. refl)
skip_iff false true same = (λ h p. same.0 refl, λ h. refl)
skip_iff false false same = (λ h. absurd (cc), λ h. absurd (cc (same.1 (h refl))))

Owned-iff {ℓ} :
    {A : Type ℓ} (dc : PeerConf) (block : Option A)
    → (((dc.peer_group != "") && is_none block) ≡ false) ↔ Owned dc block
Owned-iff dc none = (
  λ h grouped. absurd (grouped (eq_of_!= (ground arith))),
  λ h. elim (Bool-cases (dc.peer_group == "")) [
    | inl free ↦ rw free
    | inr grouped ↦ absurd (h (ne_of_== grouped) refl)
  ],
)
Owned-iff dc (some b) = (λ h grouped p. absurd (cc), λ h. ground arith)

block_iff {ℓ} :
    {A : Type ℓ} {Agrees : Type 0} (dc : PeerConf) (block : Option A) (equal : Bool)
    → (equal ≡ true) ↔ Agrees
    → ((not ((dc.peer_group != "") && is_none block) && not equal) ≡ false)
      ↔ (Owned dc block → Agrees)
block_iff dc block equal same =
    let owned = Owned-iff dc block in
    let test = skip_iff ((dc.peer_group != "") && is_none block) equal same in
    (λ h own. test.0 h (owned.1 own), λ h. test.1 (λ free. h (owned.0 free)))

plain_iff :
    {Agrees : Type 0} (equal : Bool) → (equal ≡ true) ↔ Agrees → (not equal ≡ false) ↔ Agrees
plain_iff true same = (λ h. same.0 refl, λ h. refl)
plain_iff false same = (λ h. absurd (cc), λ h. absurd (cc (same.1 h)))

conf_iff : (dc rc : PeerConf) → NoneOf (conf_mismatches dc rc) ↔ ConfAgrees dc rc
unfolding conf_mismatches
conf_iff dc rc = (
  λ h. record {
    address = λ p. eq_of_guarded h.0 (==_of_eq p);
    local_asn = eq_of_guard (value_or 0 dc.local_asn) (value_or 0 rc.local_asn) 0 h.1.0;
    peer_asn = λ p. eq_of_guarded h.1.1.0 (==_of_eq p);
    description = Kept-of_guard "" dc.description rc.description h.1.1.1.0;
    peer_group = eq_of_!= h.1.1.1.1.0;
    admin_down = eq_of_!= h.1.1.1.1.1.0;
    neighbor_interface = eq_of_!= h.1.1.1.1.1.1.0;
    vrf = eq_of_!= h.1.1.1.1.1.1.1.0;
    allow_own_asn = Kept-of_guard 0 dc.allow_own_asn rc.allow_own_asn h.1.1.1.1.1.1.1.1.0;
    replace_peer_asn =
        Kept-of_guard false dc.replace_peer_asn rc.replace_peer_asn h.1.1.1.1.1.1.1.1.1.0;
    allow_aspath_loop_local =
        Kept-of_guard false dc.allow_aspath_loop_local rc.allow_aspath_loop_local
          h.1.1.1.1.1.1.1.1.1.1.0;
    send_software_version =
        Kept-of_guard false dc.send_software_version rc.send_software_version
          h.1.1.1.1.1.1.1.1.1.1.1.0;
    remove_private =
        Kept-of_guard remove_private_unspecified dc.remove_private rc.remove_private
          h.1.1.1.1.1.1.1.1.1.1.1.1.0;
    send_community =
        (plain_iff _ (send_community_equal_iff dc.send_community rc.send_community)).0
          h.1.1.1.1.1.1.1.1.1.1.1.1.1.0;
  },
  λ h. (
    guarded_of_eq (λ p. h.address (eq_of_== p)),
    (
      guard_of_ne (value_or 0 dc.local_asn) (value_or 0 rc.local_asn) 0 h.local_asn,
      (
        guarded_of_eq (λ p. h.peer_asn (eq_of_== p)),
        (
          guard_of_Kept "" dc.description rc.description h.description,
          (
            !=_of_eq h.peer_group,
            (
              !=_of_eq h.admin_down,
              (
                !=_of_eq h.neighbor_interface,
                (
                  !=_of_eq h.vrf,
                  (
                    guard_of_Kept 0 dc.allow_own_asn rc.allow_own_asn h.allow_own_asn,
                    (
                      guard_of_Kept false dc.replace_peer_asn rc.replace_peer_asn
                          h.replace_peer_asn,
                      (
                        guard_of_Kept false dc.allow_aspath_loop_local rc.allow_aspath_loop_local
                            h.allow_aspath_loop_local,
                        (
                          guard_of_Kept false dc.send_software_version rc.send_software_version
                              h.send_software_version,
                          (
                            guard_of_Kept remove_private_unspecified dc.remove_private
                                rc.remove_private h.remove_private,
                            (
                              (plain_iff _ (
                                    send_community_equal_iff dc.send_community rc.send_community)).1
                                  h.send_community,
                              tt,
                            ),
                          ),
                        ),
                      ),
                    ),
                  ),
                ),
              ),
            ),
          ),
        ),
      ),
    ),
  ),
)

blocks_iff :
    (dc : PeerConf) (d c : Peer)
    → NoneOf (block_mismatches (dc.peer_group != "") d c) ↔ BlocksAgree dc d c
unfolding block_mismatches
blocks_iff dc d c =
    let families = plain_iff _ (afi_safis_config_equal_iff d.afi_safis c.afi_safis) in
    let policy =
      block_iff dc d.apply_policy _ (apply_policy_equal_iff d.apply_policy c.apply_policy) in
    let timers = plain_iff _ (timers_config_equal_iff d.timers c.timers) in
    let transport =
      block_iff dc d.transport _ (transport_config_equal_iff d.transport c.transport) in
    let restart =
      block_iff dc d.graceful_restart _
        (graceful_restart_equal_iff d.graceful_restart c.graceful_restart) in
    let reflector =
      block_iff dc d.route_reflector _
        (route_reflector_equal_iff d.route_reflector c.route_reflector) in
    let multihop =
      block_iff dc d.ebgp_multihop _ (ebgp_multihop_equal_iff d.ebgp_multihop c.ebgp_multihop) in
    let bfd = block_iff dc d.bfd _ (bfd_equal_iff d.bfd c.bfd) in
    (
      λ h. record {
        afi_safis = families.0 h.0;
        apply_policy = policy.0 h.1.0;
        timers = timers.0 h.1.1.0;
        transport = transport.0 h.1.1.1.0;
        graceful_restart = restart.0 h.1.1.1.1.0;
        route_reflector = reflector.0 h.1.1.1.1.1.0;
        ebgp_multihop = multihop.0 h.1.1.1.1.1.1.0;
        bfd = bfd.0 h.1.1.1.1.1.1.1.0;
      },
      λ h. (
        families.1 h.afi_safis,
        (
          policy.1 h.apply_policy,
          (
            timers.1 h.timers,
            (
              transport.1 h.transport,
              (
                restart.1 h.graceful_restart,
                (reflector.1 h.route_reflector, (multihop.1 h.ebgp_multihop, (bfd.1 h.bfd, tt))),
              ),
            ),
          ),
        ),
      ),
    )

-- What a reported peer has to satisfy for the desired one to be in force: on the identity and policy
-- fields, and block by block.
abbrev pub PeerAgrees : Peer → PeerConf → Peer → PeerConf → Type 0
PeerAgrees desired dc current rc = ConfAgrees dc rc × BlocksAgree dc desired current

confs_equal_iff :
    (desired current : Peer) {dc rc : PeerConf} (p q : Option PeerConf)
    → p ≡ some dc
    → q ≡ some rc
    → (confs_equal p q desired current ≡ true) ↔ PeerAgrees desired dc current rc
unfolding confs_equal
confs_equal_iff desired current {dc} {rc} p q ep eq =
    let confs = conf_iff dc rc in
    let blocks = blocks_iff dc desired current in
    let ms = conf_mismatches dc rc in
    let bs = block_mismatches (dc.peer_group != "") desired current in
    rw (ep, eq)
      (
        λ h.
            let (a, b) = and_split _ _ h in
            (confs.0 (none_of→NoneOf ms a), blocks.0 (none_of→NoneOf bs b)),
        λ h. and_join (NoneOf→none_of ms (confs.1 h.0)) (NoneOf→none_of bs (blocks.1 h.1)),
      )

-- For two peers that carry a configuration, `peer_config_equal` is true exactly when `PeerAgrees` holds:
-- the current peer has every value that is compared and that the desired one states, in `Conf` and in
-- every block that it does not leave to its peer group. The password and, of an address family, the
-- prefix limits and the add-paths settings are not compared.
pub peer_config_equal_iff :
    (desired current : Peer) {dc rc : PeerConf}
    → desired.conf ≡ some dc
    → current.conf ≡ some rc
    → (peer_config_equal desired current ≡ true) ↔ PeerAgrees desired dc current rc
unfolding peer_config_equal
peer_config_equal_iff desired current p q =
    confs_equal_iff desired current desired.conf current.conf p q
