-- ===== src/Global/ReadBack.antt =====
-- controllers/bgpconfiguration_controller.go: reconcileGlobal over gobgpd's report of the Global that it
-- started.
use k8gobgp.Prelude.{
  ℕ, String, ◌≡◌, ◌≢◌, refl, Bool, true, false, not, Option, none, some, List, [], ◌∷◌, ◌==◌, ◌!=◌,
  nat_eq, bool_eq, string_eq, list_eq, arith, value_or, length, ltb, !=_of_eq, ==_of_ne,
  guarded_of_eq, and_join, ==_refl, Bool-cases, inl, inr, sym, ◌∙◌,
}
use k8gobgp.Prelude.GoMap.{GoMap, lookup}
use k8gobgp.Crd
use k8gobgp.Api.{GracefulRestart, zero_graceful_restart}
use k8gobgp.Api.Global.{
  RouteSelectionOptionsConfig, Confederation, Global, zero_route_selection_options,
  zero_confederation,
}
use k8gobgp.Global.{
  desired_global, route_selection_options_equal, confederation_equal, global_graceful_restart_equal,
  drifted, drifted_fields, update_global_restart_required, global_drift_fields, sort,
}
use k8gobgp.Global.Run
use k8gobgp.Global.Run.{GlobalCall, get_bgp, Daemon, GlobalOutcome, bring_up, apply_global}
use k8gobgp.Global.Start.{IsValid, apply_global-valid}

-- gobgpd's report of the Global that it was started with, as the comment in reconcileGlobal documents it:
-- every field as sent, a block left out as an empty one, and the listen port, the listen addresses and the
-- families filled in where they were left out.
pub record ReadBack (d c : Global) : Type 0 where
  pub asn : c.asn ≡ d.asn
  pub router_id : c.router_id ≡ d.router_id
  pub use_multiple_paths : c.use_multiple_paths ≡ d.use_multiple_paths
  pub ebgp_maximum_paths : c.ebgp_maximum_paths ≡ d.ebgp_maximum_paths
  pub ibgp_maximum_paths : c.ibgp_maximum_paths ≡ d.ibgp_maximum_paths
  pub bind_to_device : c.bind_to_device ≡ d.bind_to_device
  pub route_selection_options :
      c.route_selection_options
      ≡ some (value_or zero_route_selection_options d.route_selection_options)
  pub confederation : c.confederation ≡ some (value_or zero_confederation d.confederation)
  pub graceful_restart :
      c.graceful_restart ≡ some (value_or zero_graceful_restart d.graceful_restart)
  pub listen_port : (d.listen_port != 0) ≡ true → c.listen_port ≡ d.listen_port
  pub listen_addresses :
      ltb 0 (length d.listen_addresses) ≡ true → c.listen_addresses ≡ d.listen_addresses
  pub families : ltb 0 (length d.families) ≡ true → c.families ≡ d.families

route_selection_options_same :
    (o : Option RouteSelectionOptionsConfig)
    → route_selection_options_equal o (some (value_or zero_route_selection_options o)) ≡ true
unfolding route_selection_options_equal
route_selection_options_same none = refl
route_selection_options_same (some o) = ground arith

confederation_same :
    (o : Option Confederation) → confederation_equal o (some (value_or zero_confederation o)) ≡ true
unfolding confederation_equal
confederation_same none = refl
confederation_same (some o) =
    and_join (and_join (==_refl {A = Bool} o.enabled) (==_refl {A = ℕ} o.identifier))
      (==_refl {A = List ℕ} o.member_as_list)

graceful_restart_same :
    (o : Option GracefulRestart)
    → global_graceful_restart_equal o (some (value_or zero_graceful_restart o)) ≡ true
unfolding global_graceful_restart_equal
graceful_restart_same none = refl
graceful_restart_same (some o) = ground arith

-- No field of the map is set.
abbrev AllFalse : GoMap Bool → Type 0
AllFalse [] = Unit
AllFalse ((key, b) ∷ rest) = (b ≡ false) × AllFalse rest

lookup-AllFalse : (m : GoMap Bool) (f : String) → AllFalse m → value_or false (lookup f m) ≡ false
unfolding lookup
lookup-AllFalse [] f h = refl
lookup-AllFalse ((key, b) ∷ rest) f h = elim (Bool-cases (key == f)) [
  | inl same ↦ rw same h.0
  | inr other ↦ rw other (lookup-AllFalse rest f h.1)
]

drifted_fields-AllFalse :
    (m : GoMap Bool) (fs : List String) → AllFalse m → drifted_fields m fs ≡ []
unfolding drifted_fields
drifted_fields-AllFalse m [] h = refl
drifted_fields-AllFalse m (f ∷ fs) h = rw (lookup-AllFalse m f h) (drifted_fields-AllFalse m fs h)

not_equal : {b : Bool} → b ≡ true → not b ≡ false
not_equal h = ground arith

drifted-AllFalse : (d c : Global) → ReadBack d c → AllFalse (drifted d c)
unfolding drifted
drifted-AllFalse d c b = (
  !=_of_eq {A = Bool} b.use_multiple_paths,
  (
    !=_of_eq {A = ℕ} b.ebgp_maximum_paths,
    (
      !=_of_eq {A = ℕ} b.ibgp_maximum_paths,
      (
        !=_of_eq {A = String} b.bind_to_device,
        (
          not_equal (
              rw b.route_selection_options
                (route_selection_options_same d.route_selection_options)),
          (
            not_equal (rw b.confederation (confederation_same d.confederation)),
            (
              not_equal (rw b.graceful_restart (graceful_restart_same d.graceful_restart)),
              (
                guarded_of_eq {A = ℕ} b.listen_port,
                (
                  guarded_of_eq {A = List String} b.listen_addresses,
                  (guarded_of_eq {A = List ℕ} b.families, tt),
                ),
              ),
            ),
          ),
        ),
      ),
    ),
  ),
)

nothing_to_report : (m : GoMap Bool) → AllFalse m → update_global_restart_required m ≡ []
unfolding update_global_restart_required sort
nothing_to_report m h = rw (drifted_fields-AllFalse m global_drift_fields h) refl

running_in_sync :
    (d c : Global)
    → ReadBack d c
    → Run.compare_running d c ≡ record { calls = get_bgp ∷ []; restart_required = []; error = none }
unfolding Run.compare_running
running_in_sync d c b =
    rw
      (
        !=_of_eq {A = ℕ} b.asn,
        !=_of_eq {A = List ℕ} b.router_id,
        nothing_to_report (drifted d c) (drifted-AllFalse d c b),
      )
      refl

-- Where gobgpd reports the Global that valid settings with an ASN other than 0 send, under the documented
-- read-back, reconcileGlobal asks for it and does no more: no StartBgp, no setting reported as waiting for a
-- restart, and no error.
pub apply_global_idle :
    (daemon : Daemon) (spec : Crd.GlobalSpec) (id families : List ℕ) (current : Global)
    → IsValid daemon spec families
    → spec.asn ≢ 0
    → daemon.get_bgp_answer ≡ some (some current)
    → ReadBack (desired_global spec id families) current
    → apply_global daemon spec id
      ≡ record { calls = get_bgp ∷ []; restart_required = []; error = none }
unfolding bring_up
apply_global_idle daemon spec id families current valid set answer back =
    let asn : current.asn ≡ spec.asn = unfold desired_global in back.asn in
    let up : (current.asn == 0) ≡ false = ==_of_ne {A = ℕ} (λ z. set (sym asn ∙ z)) in
    apply_global-valid daemon spec id families valid
    ∙ rw (answer, bring_up) (rw up (running_in_sync (desired_global spec id families) current back))
