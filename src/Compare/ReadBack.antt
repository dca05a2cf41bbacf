-- ===== src/Compare/ReadBack.antt =====
-- controllers/bgpconfiguration_controller.go: gobgpd's report of a peer that was sent, as the comments
-- on the comparators and the capture in controllers/reconcile_idempotency_test.go
-- (TestPeerConfigEqual_AgainstProductionPayload) describe it, with defaults and inherited values.
use mathlib.Core.Option.{some-injective}
use k8gobgp.Prelude.{
  ◌⊎◌, inl, inr, ℕ, String, ◌≡◌, refl, sym, ◌∙◌, ◌≢◌, Bool, true, false, Option, none, some, List,
  [], ◌∷◌, map, arith, nat_eq, string_eq, value_or,
}
use k8gobgp.Crd
use k8gobgp.Api.{
  AfiSafi, PeerConf, Peer, TimersConfig, Timers, BfdPeerConfig, remove_private_unspecified,
  timers_config, import_policy_of, export_policy_of, zero_transport, zero_graceful_restart,
  zero_route_reflector, zero_ebgp_multihop,
}
use k8gobgp.Convert.{
  crd_to_api_neighbor, crd_to_api_family, crd_to_api_afi_safis, crd_to_api_timers, crd_to_api_bfd,
}
use k8gobgp.Compare.Blocks.{default_if_zero, bfd_with_defaults}
use k8gobgp.Compare.Peers.{peer_config_equal}
use k8gobgp.Compare.Agreement.{FamiliesAgree, AfiSafisAgree, TimersAgree}
use k8gobgp.Compare.InSync.{Kept, ConfAgrees, Owned, BlocksAgree, peer_config_equal_iff}

-- The daemon's default timers.
abbrev daemon_timers : TimersConfig → TimersConfig
daemon_timers t = record {
  connect_retry = default_if_zero t.connect_retry 120;
  hold_time = default_if_zero t.hold_time 90;
  keepalive_interval = default_if_zero t.keepalive_interval 30;
}

-- An address that was sent comes back. Where none was, the report is the text "invalid IP", or what the
-- daemon took instead: the local address of an established session, or a cluster ID of its router ID.
abbrev pub AddressReadBack : String → String → Type 0
AddressReadBack sent reported = (sent ≡ "") ⊎ (reported ≡ sent)

-- A restart time that was sent comes back. Where none was, the report is 0 or the hold time.
abbrev pub RestartReadBack : ℕ → ℕ → ℕ → Type 0
RestartReadBack sent hold_time reported = (reported ≡ sent) ⊎ ((sent ≡ 0) × (reported ≡ hold_time))

-- The report of `Conf`. A field with explicit presence is reported in every case; one that was sent
-- absent may carry the peer group's value.
pub record ConfReadBack (global_asn : ℕ) (sent rc : PeerConf) : Type 0 where
  pub address : sent.neighbor_interface ≡ "" → rc.neighbor_address ≡ sent.neighbor_address
  pub local_asn :
      (x : ℕ) → sent.local_asn ≡ some x → rc.local_asn ≡ some (default_if_zero x global_asn)
  pub peer_asn : sent.peer_group ≡ "" → rc.peer_asn ≡ sent.peer_asn
  pub description : (x : String) → sent.description ≡ some x → rc.description ≡ some x
  pub peer_group : rc.peer_group ≡ sent.peer_group
  pub admin_down : rc.admin_down ≡ sent.admin_down
  pub neighbor_interface : rc.neighbor_interface ≡ sent.neighbor_interface
  pub vrf : rc.vrf ≡ sent.vrf
  pub allow_own_asn : (x : ℕ) → sent.allow_own_asn ≡ some x → rc.allow_own_asn ≡ some x
  pub replace_peer_asn : (x : Bool) → sent.replace_peer_asn ≡ some x → rc.replace_peer_asn ≡ some x
  pub allow_aspath_loop_local :
      (x : Bool) → sent.allow_aspath_loop_local ≡ some x → rc.allow_aspath_loop_local ≡ some x
  pub send_software_version :
      (x : Bool) → sent.send_software_version ≡ some x → rc.send_software_version ≡ some x
  pub remove_private : sent.remove_private ≢ none → rc.remove_private ≡ sent.remove_private
  pub send_community : sent.send_community ≢ none → rc.send_community ≡ sent.send_community

-- The report of the blocks, each that the peer owns with the daemon's defaults.
pub record BlocksReadBack (sc : PeerConf) (sent current : Peer) : Type 0 where
  -- The entries that were sent come back; where none were, the default families do.
  pub afi_safis :
      sent.afi_safis ≢ []
      → map (λ (a : AfiSafi). a.config) current.afi_safis
        ≡ map (λ (a : AfiSafi). a.config) sent.afi_safis
  pub import_policy :
      Owned sc sent.apply_policy
      → ((import_policy_of current.apply_policy).policies
          ≡ (import_policy_of sent.apply_policy).policies)
        × ((import_policy_of current.apply_policy).default_action
            ≡ (import_policy_of sent.apply_policy).default_action)
  pub export_policy :
      Owned sc sent.apply_policy
      → ((export_policy_of current.apply_policy).policies
          ≡ (export_policy_of sent.apply_policy).policies)
        × ((export_policy_of current.apply_policy).default_action
            ≡ (export_policy_of sent.apply_policy).default_action)
  -- A peer group supplies timers that the peer leaves at zero; else the daemon's defaults hold.
  pub timers :
      Owned sc sent.timers
      → timers_config current.timers ≡ daemon_timers (timers_config sent.timers)
  pub transport :
      Owned sc sent.transport
      → (address : String) × AddressReadBack
          (value_or zero_transport sent.transport).local_address
          address
        × (value_or zero_transport current.transport
            ≡ record (value_or zero_transport sent.transport) { local_address = address })
  -- The deferral time is the daemon's own.
  pub graceful_restart :
      Owned sc sent.graceful_restart
      → (restart : ℕ) × (deferral : ℕ) × RestartReadBack
          (value_or zero_graceful_restart sent.graceful_restart).restart_time
          (timers_config current.timers).hold_time
          restart
        × (value_or zero_graceful_restart current.graceful_restart
            ≡ record (value_or zero_graceful_restart sent.graceful_restart) {
              restart_time = restart;
              deferral_time = deferral;
            })
  pub route_reflector :
      Owned sc sent.route_reflector
      → (cluster_id : String) × AddressReadBack
          (value_or zero_route_reflector sent.route_reflector).route_reflector_cluster_id
          cluster_id
        × (value_or zero_route_reflector current.route_reflector
            ≡ record (value_or zero_route_reflector sent.route_reflector) {
              route_reflector_cluster_id = cluster_id;
            })
  pub ebgp_multihop :
      Owned sc sent.ebgp_multihop
      → value_or zero_ebgp_multihop current.ebgp_multihop
        ≡ value_or zero_ebgp_multihop sent.ebgp_multihop
  pub bfd : Owned sc sent.bfd → current.bfd ≡ some (bfd_with_defaults sent.bfd)

-- What ListPeer reports of a peer that was sent.
pub record ReadBack (global_asn : ℕ) (sent current : Peer) : Type 0 where
  pub sent_conf : PeerConf
  pub reported_conf : PeerConf
  pub was_sent : sent.conf ≡ some sent_conf
  pub is_reported : current.conf ≡ some reported_conf
  pub conf : ConfReadBack global_asn sent_conf reported_conf
  pub blocks : BlocksReadBack sent_conf sent current

Kept-of_some {ℓ} :
    {A : Type ℓ} (z : A) (d c : Option A) → ((x : A) → d ≡ some x → c ≡ some x) → Kept z d c
Kept-of_some z d c h x p = rw (h x p)

Kept-of_same {ℓ} : {A : Type ℓ} (z : A) (d c : Option A) → (d ≢ none → c ≡ d) → Kept z d c
Kept-of_same z none c h x p = absurd (cc)
Kept-of_same z (some y) c h x p = rw (h (λ e. cc)) (some-injective y x p)

asn_kept :
    (g : ℕ) (d c : Option ℕ)
    → ((x : ℕ) → d ≡ some x → c ≡ some (default_if_zero x g))
    → value_or 0 d ≢ 0
    → value_or 0 d ≡ value_or 0 c
asn_kept g none c h n = absurd (n refl)
asn_kept g (some x) c h n = rw (h x refl) (ground arith)

conf_agrees : (g : ℕ) (sent rc : PeerConf) → ConfReadBack g sent rc → ConfAgrees sent rc
conf_agrees g sent rc b = record {
  address = λ p. sym (b.address p);
  local_asn = asn_kept g sent.local_asn rc.local_asn b.local_asn;
  peer_asn = λ p. sym (b.peer_asn p);
  description = Kept-of_some "" sent.description rc.description b.description;
  peer_group = sym b.peer_group;
  admin_down = sym b.admin_down;
  neighbor_interface = sym b.neighbor_interface;
  vrf = sym b.vrf;
  allow_own_asn = Kept-of_some 0 sent.allow_own_asn rc.allow_own_asn b.allow_own_asn;
  replace_peer_asn =
      Kept-of_some false sent.replace_peer_asn rc.replace_peer_asn b.replace_peer_asn;
  allow_aspath_loop_local =
      Kept-of_some false sent.allow_aspath_loop_local rc.allow_aspath_loop_local
        b.allow_aspath_loop_local;
  send_software_version =
      Kept-of_some false sent.send_software_version rc.send_software_version
        b.send_software_version;
  remove_private =
      Kept-of_same remove_private_unspecified sent.remove_private rc.remove_private
        b.remove_private;
  send_community = λ x p. b.send_community (λ e. cc) ∙ p;
}

families_agree :
    (ds : List Crd.AfiSafi) (cs : List AfiSafi)
    → map (λ (a : AfiSafi). a.config) cs ≡ map (λ (a : AfiSafi). a.config) (crd_to_api_afi_safis ds)
    → FamiliesAgree (crd_to_api_afi_safis ds) cs
unfolding crd_to_api_afi_safis
families_agree [] [] h = tt
families_agree [] (c ∷ cs) h = absurd (cc)
families_agree (d ∷ ds) [] h = absurd (cc)
families_agree (d ∷ ds) (c ∷ cs) h = (
  (
    record { family = some (crd_to_api_family d.family); enabled = d.enabled },
    (cc),
    (crd_to_api_family d.family, refl, refl, refl, refl),
  ),
  families_agree ds cs (cc),
)

bfd_defaults_idem :
    (b : Option BfdPeerConfig)
    → bfd_with_defaults (some (bfd_with_defaults b)) ≡ bfd_with_defaults b
unfolding bfd_with_defaults
bfd_defaults_idem b = ground arith

-- A stated block is the peer's own.
Owned-some {ℓ} : {A : Type ℓ} (sc : PeerConf) (a : A) → Owned sc (some a)
Owned-some sc a grouped e = cc

timers_agree :
    (sc : PeerConf) (d c : Option Timers)
    → (Owned sc d → timers_config c ≡ daemon_timers (timers_config d))
    → TimersAgree (timers_config d) (timers_config c)
timers_agree sc none c h = record {
  connect_retry = λ n. absurd (n refl);
  hold_time = λ n. absurd (n refl);
  keepalive_interval = λ n. absurd (n refl);
}
timers_agree sc (some t) c h = rw (h (Owned-some sc t)) (ground arith)

stated_address :
    {sent reported : String} → AddressReadBack sent reported → sent ≢ "" → sent ≡ reported
stated_address (inl unset) stated = absurd (stated unset)
stated_address (inr same) stated = sym same

stated_restart :
    {sent hold_time reported : ℕ}
    → RestartReadBack sent hold_time reported
    → sent ≢ 0
    → sent ≡ reported
stated_restart (inl same) stated = sym same
stated_restart (inr (unset, defaulted)) stated = absurd (stated unset)

families_of_neighbor :
    (ds : List Crd.AfiSafi) (cs : List AfiSafi)
    → (crd_to_api_afi_safis ds ≢ []
        → map (λ (a : AfiSafi). a.config) cs
          ≡ map (λ (a : AfiSafi). a.config) (crd_to_api_afi_safis ds))
    → AfiSafisAgree (crd_to_api_afi_safis ds) cs
unfolding crd_to_api_afi_safis
families_of_neighbor [] cs h = tt
families_of_neighbor (d ∷ ds) cs h = families_agree (d ∷ ds) cs (h (λ e. cc))

blocks_agree :
    (n : Crd.Neighbor) (password : Option String) (sc : PeerConf) (current : Peer)
    → BlocksReadBack sc (crd_to_api_neighbor n password) current
    → BlocksAgree sc (crd_to_api_neighbor n password) current
unfolding crd_to_api_neighbor
blocks_agree n password sc current b = record {
  afi_safis = families_of_neighbor n.afi_safis current.afi_safis b.afi_safis;
  apply_policy = λ own. record {
    import_policy = record {
      default_action = sym (b.import_policy own).1;
      policies = sym (b.import_policy own).0;
    };
    export_policy = record {
      default_action = sym (b.export_policy own).1;
      policies = sym (b.export_policy own).0;
    };
  };
  timers = timers_agree sc (crd_to_api_timers n.timers) current.timers b.timers;
  transport = λ own.
      let (address, comes_back, same) = b.transport own in
      rw same (record {
        local_address = stated_address comes_back;
        passive_mode = refl;
        bind_interface = refl;
        ip_tos = refl;
      });
  graceful_restart = λ own.
      let (restart, deferral, comes_back, same) = b.graceful_restart own in
      rw same (record {
        enabled = refl;
        helper_only = refl;
        restart_time = stated_restart comes_back;
        stale_routes_time = refl;
      });
  route_reflector = λ own.
      let (cluster_id, comes_back, same) = b.route_reflector own in
      rw same (record { cluster_id = stated_address comes_back; client = refl });
  ebgp_multihop = λ own. rw (b.ebgp_multihop own) (record { enabled = refl; multihop_ttl = refl });
  bfd = λ own. rw (b.bfd own) (sym (bfd_defaults_idem (crd_to_api_bfd n.bfd)));
}

-- The peer that the controller sends for a neighbor, whatever the neighbor states, compares equal to
-- every report of it in which what was sent comes back and what was not has a default, an inherited
-- value or one that the daemon derived, as `ReadBack` lists them: no UpdatePeer is sent.
pub no_update_on_ReadBack :
    (n : Crd.Neighbor) (password : Option String) (global_asn : ℕ) (current : Peer)
    → ReadBack global_asn (crd_to_api_neighbor n password) current
    → peer_config_equal (crd_to_api_neighbor n password) current ≡ true
no_update_on_ReadBack n password g current b =
    (peer_config_equal_iff (crd_to_api_neighbor n password) current b.was_sent b.is_reported).1 (
      conf_agrees g b.sent_conf b.reported_conf b.conf,
      blocks_agree n password b.sent_conf current b.blocks,
    )
