-- ===== src/Examples/GlobalSettings.antt =====
-- reconcileGlobal at a gobgpd that has not been started, and at one that runs what was sent.
use k8gobgp.Prelude.{ℕ, ◌≡◌, ◌≢◌, ◌↔◌, ◌⊎◌, inl, refl, arith, true, none, some, List, [], ◌∷◌}
use k8gobgp.Prelude.Text.{codes}
use k8gobgp.Api.{zero_graceful_restart}
use k8gobgp.Api.Global.{Global, zero_route_selection_options, zero_confederation}
use k8gobgp.Convert.{crd_to_api_global_families}
use k8gobgp.Global.{desired_global, validate_multipath, validate_listen_addresses}
use k8gobgp.Global.Run.{Daemon, get_bgp, apply_global}
use k8gobgp.Global.Start.{
  IsValid, NotRunning, SameIdentity, Starts, apply_global-none_iff, start_bgp_only,
}
use k8gobgp.Global.Multipath.{validate_multipath_iff}
use k8gobgp.Global.ReadBack.{ReadBack, apply_global_idle}
use k8gobgp.Examples.Samples.{global}

abbrev id : List ℕ
id = codes "192.0.2.9"

abbrev stopped_daemon : Daemon
stopped_daemon = record { get_bgp_answer = none; starts = true; parses_address = λ a. true }

abbrev current : Global
current = record (desired_global global id []) {
  listen_port = 179;
  listen_addresses = "0.0.0.0" ∷ "::" ∷ [];
  route_selection_options = some zero_route_selection_options;
  confederation = some zero_confederation;
  graceful_restart = some zero_graceful_restart;
}

abbrev running_daemon : Daemon
running_daemon = record stopped_daemon { get_bgp_answer = some (some current) }

validate_multipath_iff_example : (validate_multipath global ≡ none) ↔ (
    (global.use_multiple_paths ≡ true)
    ↔ ((global.ebgp_maximum_paths ≢ 0) ⊎ (global.ibgp_maximum_paths ≢ 0)))
validate_multipath_iff_example = validate_multipath_iff global

apply_global-none_iff_example : ((apply_global stopped_daemon global id).error ≡ none) ↔ (
    ((families : List ℕ) × IsValid stopped_daemon global families)
    × ((NotRunning stopped_daemon global id none × (true ≡ true))
        ⊎ SameIdentity stopped_daemon global id none))
apply_global-none_iff_example = apply_global-none_iff stopped_daemon global id

sample-Starts : Starts (desired_global global id []) (apply_global stopped_daemon global id).calls
unfolding apply_global
sample-Starts = inl refl

start_bgp_only_example :
    NotRunning stopped_daemon global id none
    × ((families : List ℕ) × IsValid stopped_daemon global families
        × (desired_global global id [] ≡ desired_global global id families))
start_bgp_only_example =
    start_bgp_only stopped_daemon global id (desired_global global id []) sample-Starts

sample-IsValid : IsValid running_daemon global []
unfolding crd_to_api_global_families validate_listen_addresses validate_multipath
sample-IsValid = record { known_families = refl; addresses = refl; multipath = refl }

sample-ReadBack : ReadBack (desired_global global id []) current
unfolding desired_global
sample-ReadBack = record {
  asn = refl;
  router_id = refl;
  use_multiple_paths = refl;
  ebgp_maximum_paths = refl;
  ibgp_maximum_paths = refl;
  bind_to_device = refl;
  route_selection_options = refl;
  confederation = refl;
  graceful_restart = refl;
  listen_port = λ h. absurd (cc);
  listen_addresses = λ h. absurd (cc);
  families = λ h. absurd (cc);
}

apply_global_idle_example :
    apply_global running_daemon global id
    ≡ record { calls = get_bgp ∷ []; restart_required = []; error = none }
apply_global_idle_example =
    apply_global_idle running_daemon global id [] current sample-IsValid (λ h. absurd (omega arith))
      refl sample-ReadBack
