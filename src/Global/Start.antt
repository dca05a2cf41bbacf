-- ===== src/Global/Start.antt =====
-- controllers/bgpconfiguration_controller.go: which calls reconcileGlobal makes, and when it fails.
use mathlib.Core.Path.{subst}
use k8gobgp.Prelude.{
  ℕ, ◌≡◌, ◌≢◌, ◌↔◌, ◌⊎◌, refl, sym, ◌∙◌, inl, inr, Bool, true, false, Option, none, some, List, [],
  ◌∷◌, ◌==◌, ◌!=◌, nat_eq, list_eq, if◌then◌else◌, Bool-cases, Option-cases, eq_of_==, eq_of_!=,
  !=_of_eq, ne_of_==,
}
use k8gobgp.Crd
use k8gobgp.Api.Global.{Global}
use k8gobgp.Convert.{FamilyError, FamilyResult, ordinals, failed, crd_to_api_global_families}
use k8gobgp.Global.{desired_global, validate_listen_addresses, validate_multipath}
use k8gobgp.Global.Run
use k8gobgp.Global.Run.{
  GlobalError, identity_changed, start_failed, GlobalCall, get_bgp, start_bgp, Daemon,
  GlobalOutcome, bring_up, apply_global,
}

-- The calls have a StartBgp of the Global.
abbrev pub Starts : Global → List GlobalCall → Type 0
Starts g [] = ⊥
Starts g (get_bgp ∷ rest) = Starts g rest
Starts g (start_bgp h ∷ rest) = (g ≡ h) ⊎ Starts g rest

-- The settings that reconcileGlobal lets through to gobgpd, with the ordinals of the families.
pub record IsValid (daemon : Daemon) (spec : Crd.GlobalSpec) (families : List ℕ) : Type 0 where
  pub known_families : crd_to_api_global_families spec.families ≡ ordinals families
  pub addresses : validate_listen_addresses daemon.parses_address spec.listen_addresses ≡ none
  pub multipath : validate_multipath spec ≡ none

FamilyResult-cases :
    (r : FamilyResult) → ((ns : List ℕ) × (r ≡ ordinals ns)) ⊎ ((e : FamilyError) × (r ≡ failed e))
FamilyResult-cases (ordinals ns) = inl (ns, refl)
FamilyResult-cases (failed e) = inr (e, refl)

module _ (daemon : Daemon) (spec : Crd.GlobalSpec) (id : List ℕ) where
  pub apply_global-valid :
      (families : List ℕ)
      → IsValid daemon spec families
      → apply_global daemon spec id
        ≡ bring_up daemon (desired_global spec id families) daemon.get_bgp_answer
  unfolding apply_global Run.after_families Run.after_listen Run.after_multipath
  apply_global-valid families v = rw (v.known_families, v.addresses, v.multipath) refl

  -- No call was made, and there is an error.
  abbrev Refused : GlobalOutcome → Type 0
  Refused o = (o.calls ≡ []) × ((e : GlobalError) × (o.error ≡ some e))

  validity :
      ((families : List ℕ) × IsValid daemon spec families) ⊎ Refused (apply_global daemon spec id)
  unfolding apply_global Run.after_families Run.after_listen Run.after_multipath
  validity = elim (FamilyResult-cases (crd_to_api_global_families spec.families)) [
    | inr (e, h) ↦ inr (rw h (refl, (_, refl)))
    | inl (families, h) ↦
        elim (Option-cases
          (validate_listen_addresses daemon.parses_address spec.listen_addresses)) [
            | inr (e, bad) ↦ inr (rw (h, bad) (refl, (_, refl)))
            | inl good ↦ elim (Option-cases (validate_multipath spec)) [
              | inr (e, bad) ↦ inr (rw (h, good, bad) (refl, (_, refl)))
              | inl fits ↦
                  inl (families, record { known_families = h; addresses = good; multipath = fits })
            ]
          ]
  ]

  -- gobgpd has no server that runs: it cannot be asked, or it reports an ASN of 0.
  abbrev pub NotRunning : Option (Option Global) → Type 0
  NotRunning none = Unit
  NotRunning (some none) = ⊥
  NotRunning (some (some current)) = current.asn ≡ 0

  -- It has one, of the same ASN and router ID.
  abbrev pub SameIdentity : Option (Option Global) → Type 0
  SameIdentity none = ⊥
  SameIdentity (some none) = ⊥
  SameIdentity (some (some current)) =
      (current.asn ≢ 0) × (current.asn ≡ spec.asn) × (current.router_id ≡ id)

  abbrev Failed : GlobalOutcome → Type 0
  Failed o = (e : GlobalError) × (o.error ≡ some e)

  -- The three ways on from GetBgp.
  abbrev ComesUp : List ℕ → Option (Option Global) → GlobalOutcome → Type 0
  ComesUp families answer o =
      (NotRunning answer
        × (o.calls ≡ get_bgp ∷ start_bgp (desired_global spec id families) ∷ [])
        × (o.error ≡ (if daemon.starts then none else some start_failed)))
      ⊎ ((¬ NotRunning answer)
          × (o.calls ≡ get_bgp ∷ [])
          × ((SameIdentity answer × (o.error ≡ none)) ⊎ ((¬ SameIdentity answer) × Failed o)))

  running-ComesUp :
      (families : List ℕ) (current : Global)
      → current.asn ≢ 0
      → ComesUp families
          (some (some current))
          (Run.compare_running (desired_global spec id families) current)
  unfolding Run.compare_running desired_global
  running-ComesUp families current up = elim (Bool-cases (current.asn != spec.asn)) [
    | inl other ↦ rw other (
        inr (
          up,
          refl,
          inr (
            λ s. let e = !=_of_eq {A = ℕ} (s.1) in absurd (let f = sym other ∙ e in cc),
            (_, refl),
          ),
        ))
    | inr asn ↦ elim (Bool-cases (current.router_id != id)) [
      | inl other ↦
          rw (asn, other)
            (inr (
              up,
              refl,
              inr (
                λ s. let e = !=_of_eq {A = List ℕ} (s.2) in absurd (let f = sym other ∙ e in cc),
                (_, refl),
              ),
            ))
      | inr same ↦
          rw (asn, same)
            (inr (up, refl, inl ((up, eq_of_!= {A = ℕ} asn, eq_of_!= {A = List ℕ} same), refl)))
    ]
  ]

  not_both : (answer : Option (Option Global)) → NotRunning answer → SameIdentity answer → ⊥
  not_both none n s = s
  not_both (some none) n s = s
  not_both (some (some current)) n s = s.0 n

  bring_up-ComesUp :
      (families : List ℕ) (answer : Option (Option Global))
      → ComesUp families answer (bring_up daemon (desired_global spec id families) answer)
  unfolding bring_up Run.start
  bring_up-ComesUp families none = inl (tt, refl, refl)
  bring_up-ComesUp families (some none) = inr (λ h. h, refl, inr (λ h. h, (_, refl)))
  bring_up-ComesUp families (some (some current)) = elim (Bool-cases (current.asn == 0)) [
    | inl fresh ↦ rw fresh (inl (eq_of_== {A = ℕ} fresh, refl, refl))
    | inr up ↦ rw up (running-ComesUp families current (ne_of_== {A = ℕ} up))
  ]

  -- Without an error, gobgpd runs the Global of the resource's valid settings, or one of the same identity:
  -- reconcileGlobal ends without an error exactly if the settings are valid and either no server runs and
  -- StartBgp succeeds, or one runs with the resource's ASN and router ID, whatever else of it differs.
  pub apply_global-none_iff : ((apply_global daemon spec id).error ≡ none) ↔ (
      ((families : List ℕ) × IsValid daemon spec families)
      × ((NotRunning daemon.get_bgp_answer × (daemon.starts ≡ true))
          ⊎ SameIdentity daemon.get_bgp_answer))
  apply_global-none_iff = (λ h. forth h validity, λ h. back h)
    where
      up :
          (families : List ℕ)
          → IsValid daemon spec families
          → ComesUp families daemon.get_bgp_answer (apply_global daemon spec id)
      up families v =
          rw (apply_global-valid families v) (bring_up-ComesUp families daemon.get_bgp_answer)

      started : (b : Bool) → (if b then none else some start_failed) ≡ none → b ≡ true
      started true h = refl
      started false h = absurd (cc)

      forth :
          (apply_global daemon spec id).error ≡ none
          → ((families : List ℕ) × IsValid daemon spec families)
            ⊎ Refused (apply_global daemon spec id)
          → ((families : List ℕ) × IsValid daemon spec families)
            × ((NotRunning daemon.get_bgp_answer × (daemon.starts ≡ true))
                ⊎ SameIdentity daemon.get_bgp_answer)
      forth h (inr (no_calls, (e, broke))) = absurd (let x = sym broke ∙ h in cc)
      forth h (inl (families, v)) = (
        (families, v),
        elim (up families v) [
          | inl (fresh, calls, error) ↦ inl (fresh, started daemon.starts (sym error ∙ h))
          | inr (running, calls, inl (same, error)) ↦ inr same
          | inr (running, calls, inr (other, broke)) ↦ absurd (let x = sym broke.1 ∙ h in cc)
        ],
      )

      back :
          ((families : List ℕ) × IsValid daemon spec families)
            × ((NotRunning daemon.get_bgp_answer × (daemon.starts ≡ true))
                ⊎ SameIdentity daemon.get_bgp_answer)
          → (apply_global daemon spec id).error ≡ none
      back ((families, v), way) = elim (up families v) [
        | inl (fresh, calls, error) ↦ elim way [
          | inl (f, starts) ↦ error ∙ rw starts refl
          | inr same ↦ absurd (not_both daemon.get_bgp_answer fresh same)
        ]
        | inr (running, calls, inl (same, error)) ↦ error
        | inr (running, calls, inr (other, broke)) ↦ elim way [
          | inl (fresh, starts) ↦ absurd (running fresh)
          | inr same ↦ absurd (other same)
        ]
      ]

  -- reconcileGlobal starts gobgpd only with the desired Global of valid settings, in which multipath and its
  -- limits agree, and only where no server runs: a running one is never started again.
  pub start_bgp_only :
      (g : Global)
      → Starts g (apply_global daemon spec id).calls
      → NotRunning daemon.get_bgp_answer
        × ((families : List ℕ) × IsValid daemon spec families
            × (g ≡ desired_global spec id families))
  start_bgp_only g m = elim validity [
    | inr (no_calls, broke) ↦ absurd (subst (Starts g) no_calls m)
    | inl (families, v) ↦
        let out : ComesUp families daemon.get_bgp_answer (apply_global daemon spec id) =
          rw (apply_global-valid families v) (bring_up-ComesUp families daemon.get_bgp_answer) in
        elim out [
          | inl (fresh, calls, error) ↦ elim (subst (Starts g) calls m) [
            | inl same ↦ (fresh, (families, v, same))
            | inr none_left ↦ absurd none_left
          ]
          | inr (running, calls, rest) ↦ absurd (subst (Starts g) calls m)
        ]
  ]
