-- ===== src/Global/Multipath.antt =====
-- controllers/bgpconfiguration_controller.go: what validateMultipath accepts.
use k8gobgp.Prelude.{
  ℕ, zero, suc, ◌≡◌, ◌≢◌, ◌↔◌, ◌⊎◌, refl, inl, inr, Bool, true, false, ◌||◌, ◌&&◌, not, none, some,
  ◌!=◌, nat_eq, list_eq, if◌then◌else◌, arith,
}
use k8gobgp.Crd
use k8gobgp.Global
use k8gobgp.Global.{
  ListenError, MultipathError, desired_global, validate_listen_addresses, validate_multipath,
  drifted, update_global_restart_required,
}

has_limit_iff : (e i : ℕ) → ((e != 0 || i != 0) ≡ true) ↔ ((e ≢ 0) ⊎ (i ≢ 0))
has_limit_iff zero zero =
    (λ h. absurd (cc), λ h. elim h [ inl n ↦ absurd (n refl) | inr n ↦ absurd (n refl) ])
has_limit_iff zero (suc i) = (λ h. inr (λ e. absurd (omega arith)), λ h. ground arith)
has_limit_iff (suc e) i = (λ h. inl (λ e. absurd (omega arith)), λ h. ground arith)

multipath_iff :
    (uses limited : Bool)
    → ((uses && not limited) ≡ false) × ((not uses && limited) ≡ false)
      ↔ ((uses ≡ true) ↔ (limited ≡ true))
multipath_iff true true = (λ h. (λ u. refl, λ l. refl), λ h. (refl, refl))
multipath_iff true false = (λ h. absurd (let e = h.0 in cc), λ h. absurd (let e = h.0 refl in cc))
multipath_iff false true = (λ h. absurd (let e = h.1 in cc), λ h. absurd (let e = h.1 refl in cc))
multipath_iff false false = (λ h. (λ u. u, λ l. l), λ h. (refl, refl))

two_tests :
    (a b : Bool)
    → ((if a then some Global.no_limit else if b then some Global.limit_without_multipath else none)
        ≡ none)
      ↔ ((a ≡ false) × (b ≡ false))
two_tests true b = (λ h. absurd (cc), λ h. absurd (let e = h.0 in cc))
two_tests false true = (λ h. absurd (cc), λ h. absurd (let e = h.1 in cc))
two_tests false false = (λ h. (refl, refl), λ h. refl)

-- validateMultipath accepts exactly the settings in which multipath is on if and only if a limit is set.
pub validate_multipath_iff :
    (g : Crd.GlobalSpec)
    → (validate_multipath g ≡ none)
      ↔ ((g.use_multiple_paths ≡ true) ↔ ((g.ebgp_maximum_paths ≢ 0) ⊎ (g.ibgp_maximum_paths ≢ 0)))
unfolding validate_multipath
validate_multipath_iff g =
    let limited = g.ebgp_maximum_paths != 0 || g.ibgp_maximum_paths != 0 in
    let tests =
      two_tests (g.use_multiple_paths && not limited) (not g.use_multiple_paths && limited) in
    let both = multipath_iff g.use_multiple_paths limited in
    let limit = has_limit_iff g.ebgp_maximum_paths g.ibgp_maximum_paths in
    (
      λ h. let b = both.0 (tests.0 h) in (λ u. limit.0 (b.0 u), λ l. b.1 (limit.1 l)),
      λ h. tests.1 (both.1 (λ u. limit.1 (h.0 u), λ l. h.1 (limit.0 l))),
    )
