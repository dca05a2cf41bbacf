-- ===== src/Validation/Findings.antt =====
-- controllers/bgpconfiguration_controller.go: when each loop of validateConfiguration adds no error.
use k8gobgp.Prelude.{
  String, ◌≡◌, refl, ◌≢◌, ◌↔◌, false, Option, none, some, List, [], ◌∷◌, ◌++◌, ◌==◌, ◌!=◌,
  string_eq, Bool-cases, inl, inr, eq_of_==, eq_of_!=, !=_of_eq, ne_of_==,
}
use k8gobgp.Prelude.Text.{codes}
use k8gobgp.Crd
use k8gobgp.RouterId.{RouterIdError, IpNet, validate_router_id_pool}
use k8gobgp.Validation.{
  Verdict, accepted, rejected, index_panic, validate_community, validate_large_community,
}
use k8gobgp.Validation.Communities.{IsCommunity, validate_community_iff}
use k8gobgp.Validation.Config.{
  ValidationError, collect, verdict_errors, community_errors, large_community_errors, pool_result,
  pool_errors, export_errors, action_errors, set_errors,
}

abbrev pub AllOf : {A : Type 0} → (A → Type 0) → List A → Type 0
AllOf P [] = Unit
AllOf P (a ∷ rest) = P a × AllOf P rest

abbrev pub OfSome : {A : Type 0} → (A → Type 0) → Option A → Type 0
OfSome P none = Unit
OfSome P (some a) = P a

pub append-nil_iff : {A : Type 0} (xs ys : List A) → (xs ++ ys ≡ []) ↔ ((xs ≡ []) × (ys ≡ []))
append-nil_iff [] ys = (λ h. (refl, h), λ h. h.1)
append-nil_iff (x ∷ xs) ys = (λ h. absurd (cc), λ h. absurd (let e = h.0 in cc))

pub collect-nil_iff :
    {A : Type 0} (errors : A → List ValidationError) (P : A → Type 0)
    → ((a : A) → (errors a ≡ []) ↔ P a)
    → (xs : List A) → (collect errors xs ≡ []) ↔ AllOf P xs
unfolding collect
collect-nil_iff errors P each_iff [] = (λ h. tt, λ h. refl)
collect-nil_iff errors P each_iff (a ∷ rest) =
    let both = append-nil_iff (errors a) (collect errors rest) in
    let later = collect-nil_iff errors P each_iff rest in
    (
      λ h. ((each_iff a).0 (both.0 h).0, later.0 (both.0 h).1),
      λ h. both.1 ((each_iff a).1 h.0, later.1 h.1),
    )

verdict_errors-nil_iff :
    (value : String) (v : Verdict) → (verdict_errors value v ≡ []) ↔ (v ≡ accepted)
unfolding verdict_errors
verdict_errors-nil_iff value accepted = (λ h. refl, λ h. refl)
verdict_errors-nil_iff value (rejected e) = (λ h. absurd (cc), λ h. absurd (cc))
verdict_errors-nil_iff value index_panic = (λ h. absurd (cc), λ h. absurd (cc))

abbrev pub IsCommunityText : String → Type 0
IsCommunityText c = IsCommunity (codes c)

abbrev pub IsLargeCommunityText : String → Type 0
IsLargeCommunityText c = validate_large_community (codes c) ≡ accepted

community_errors-nil_iff : (c : String) → (community_errors c ≡ []) ↔ IsCommunityText c
unfolding community_errors
community_errors-nil_iff c =
    let errors = verdict_errors-nil_iff c (validate_community (codes c)) in
    let text = validate_community_iff (codes c) in
    (λ h. text.0 (errors.0 h), λ h. errors.1 (text.1 h))

large_community_errors-nil_iff :
    (c : String) → (large_community_errors c ≡ []) ↔ IsLargeCommunityText c
unfolding large_community_errors
large_community_errors-nil_iff c = verdict_errors-nil_iff c (validate_large_community (codes c))

-- Both lists of communities, of a rule or of the export of a VRF.
abbrev pub ListsAreValid : List String → List String → Type 0
ListsAreValid communities large =
    AllOf IsCommunityText communities × AllOf IsLargeCommunityText large

pub lists_nil_iff :
    (cs ls : List String)
    → (collect community_errors cs ++ collect large_community_errors ls ≡ []) ↔ ListsAreValid cs ls
lists_nil_iff cs ls =
    let both = append-nil_iff (collect community_errors cs) (collect large_community_errors ls) in
    let c = collect-nil_iff community_errors IsCommunityText community_errors-nil_iff cs in
    let l =
      collect-nil_iff large_community_errors IsLargeCommunityText large_community_errors-nil_iff
        ls in
    (λ h. (c.0 (both.0 h).0, l.0 (both.0 h).1), λ h. both.1 (c.1 h.0, l.1 h.1))

pub export_errors-nil_iff :
    (e : Option Crd.VrfNetlinkExport)
    → (export_errors e ≡ [])
      ↔ OfSome
          (λ (x : Crd.VrfNetlinkExport). ListsAreValid x.community_list x.large_community_list)
          e
unfolding export_errors
export_errors-nil_iff none = (λ h. tt, λ h. refl)
export_errors-nil_iff (some e) = lists_nil_iff e.community_list e.large_community_list

pub action_errors-nil_iff :
    (a : Option Crd.CommunityAction)
    → (action_errors a ≡ [])
      ↔ OfSome (λ (x : Crd.CommunityAction). AllOf IsCommunityText x.communities) a
unfolding action_errors
action_errors-nil_iff none = (λ h. tt, λ h. refl)
action_errors-nil_iff (some a) =
    collect-nil_iff community_errors IsCommunityText community_errors-nil_iff a.communities

abbrev pub SetIsValid : Crd.DefinedSet → Type 0
SetIsValid s = s.defined_type ≡ "community" → AllOf IsCommunityText s.list

pub set_errors-nil_iff : (s : Crd.DefinedSet) → (set_errors s ≡ []) ↔ SetIsValid s
unfolding set_errors
set_errors-nil_iff s =
    let all = collect-nil_iff community_errors IsCommunityText community_errors-nil_iff s.list in
    elim (Bool-cases (s.defined_type == "community")) [
      | inl same ↦ rw same (λ h e. all.0 h, λ h. all.1 (h (eq_of_== {A = String} same)))
      | inr other ↦ rw other (λ h e. absurd (ne_of_== {A = String} other e), λ h. refl)
    ]

pool_result-nil_iff :
    (pool : String) (r : Option RouterIdError) → (pool_result pool r ≡ []) ↔ (r ≡ none)
unfolding pool_result
pool_result-nil_iff pool none = (λ h. refl, λ h. refl)
pool_result-nil_iff pool (some e) = (λ h. absurd (cc), λ h. absurd (cc))

abbrev pub PoolIsValid : (String → Option IpNet) → String → Type 0
PoolIsValid parse_cidr pool =
    pool ≢ "" → validate_router_id_pool (codes pool) (parse_cidr pool) ≡ none

pub pool_errors-nil_iff :
    (parse_cidr : String → Option IpNet) (pool : String)
    → (pool_errors parse_cidr pool ≡ []) ↔ PoolIsValid parse_cidr pool
unfolding pool_errors
pool_errors-nil_iff parse_cidr pool =
    let result =
      pool_result-nil_iff pool (validate_router_id_pool (codes pool) (parse_cidr pool)) in
    elim (Bool-cases (pool != "")) [
      | inl set ↦ rw set (
        λ h n. result.0 h,
        λ h.
            result.1
              (h (λ e. let f : (pool != "") ≡ false = !=_of_eq {A = String} e in absurd (cc))),
      )
      | inr unset ↦ rw unset (λ h n. absurd (n (eq_of_!= {A = String} unset)), λ h. refl)
    ]
