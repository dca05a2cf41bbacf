-- ===== src/Global/Locked.antt =====
-- controllers/bgpconfiguration_controller.go: a resource's router ID over several calls.
use k8gobgp.Prelude.{
  ◌≢◌, ==_of_ne, ℕ, String, ◌≡◌, refl, Option, none, some, List, [], ◌∷◌, ◌==◌, string_eq, arith,
  ==_refl, Bool-cases, Option-cases, inl, inr, sym, ◌∙◌, eq_of_==, ap,
}
use mathlib.Core.Path.{subst}
use k8gobgp.Prelude.GoMap.{lookup, lookup-insert, lookup-erase}
use k8gobgp.Crd
use k8gobgp.RouterId.{IpNet}
use k8gobgp.RouterId.NodeCache.{NodeCache}
use k8gobgp.RouterId.Resolve.{Resolved, resolved, unresolved, resolve_router_id}
use k8gobgp.Global.Effective
use k8gobgp.Global.Effective.{
  LocalRouterIdEntry, Reconciler, Call, EffectiveId, effective, resolution_failed, EffectiveRun,
  cache_key, drop_router_id, keep_resolution, resolve_effective_router_id,
}

-- What a pod does with the cache: a call of resolveEffectiveRouterID, and the end of the deletion of a
-- resource, which drops its entry.
pub data PodStep : Type 0 where
  resolve : Call → Crd.BgpConfiguration → PodStep
  forget : Crd.BgpConfiguration → PodStep

-- No resource under the key is deleted.
abbrev pub KeepsKey : String → List PodStep → Type 0
KeepsKey key [] = Unit
KeepsKey key (resolve call config ∷ steps) = KeepsKey key steps
KeepsKey key (forget config ∷ steps) = (cache_key config ≢ key) × KeepsKey key steps

module _ (parse_ipv6 : List ℕ → Option (List ℕ)) (parse_cidr : String → Option IpNet) where
  -- The steps of a pod one after the other, for whichever resources, with the IDs that the calls give.
  unfoldable pub resolutions : Reconciler → List PodStep → List (String × EffectiveId)
  unfolding drop_router_id
  resolutions r [] = []
  resolutions r (forget config ∷ rest) = resolutions (drop_router_id config r) rest
  resolutions r (resolve call config ∷ rest) =
      elim (resolve_effective_router_id parse_ipv6 parse_cidr call r config) [
        | none ↦ []
        | some run ↦ (cache_key config, run.id) ∷ resolutions run.reconciler rest
      ]

  -- All results under the key are the ID.
  abbrev pub AllAre : String → List ℕ → List (String × EffectiveId) → Type 0
  AllAre key id [] = Unit
  AllAre key id ((k, x) ∷ rest) = (k ≡ key → x ≡ effective id) × AllAre key id rest

  abbrev Holds : Reconciler → String → List ℕ → Type 0
  Holds r key id =
      (e : LocalRouterIdEntry) × (lookup key r.local_router_id_cache ≡ some e) × (e.router_id ≡ id)

  keep_resolution-Holds :
      (call : Call) (r : Reconciler) (config : Crd.BgpConfiguration)
      (x : Resolved × Option NodeCache) (key : String) (id : List ℕ)
      → lookup (cache_key config) r.local_router_id_cache ≡ none
      → Holds r key id
      → Holds (keep_resolution call r config x).reconciler key id
  unfolding keep_resolution
  keep_resolution-Holds call r config (unresolved e, nodes) key id absent h = h
  keep_resolution-Holds call r config (resolved x, nodes) key id absent (e, found, same) =
      let fresh : LocalRouterIdEntry = record { router_id = x.router_id; source = x.source } in
      elim (Bool-cases (cache_key config == key)) [
        | inl p ↦
            let k = eq_of_== {A = String} p in
            let none_there : lookup key r.local_router_id_cache ≡ none = rw (← k) absent in
            absurd (let no : some e ≡ none = sym found ∙ none_there in cc)
        | inr q ↦ (
          e,
          lookup-insert (cache_key config) key fresh r.local_router_id_cache ∙ rw q found,
          same,
        )
      ]

  -- A call keeps what is in the cache, and gives it for its key.
  abbrev AfterCall : Crd.BgpConfiguration → String → List ℕ → EffectiveRun → Type 0
  AfterCall config key id run =
      Holds run.reconciler key id × (cache_key config ≡ key → run.id ≡ effective id)

  effective_from-AfterCall :
      (call : Call) (r : Reconciler) (config : Crd.BgpConfiguration) (key : String) (id : List ℕ)
      (found : Option LocalRouterIdEntry) (run : EffectiveRun)
      → lookup (cache_key config) r.local_router_id_cache ≡ found
      → Holds r key id
      → Effective.effective_from parse_ipv6 parse_cidr call r config found ≡ some run
      → AfterCall config key id run
  unfolding Effective.effective_from
  effective_from-AfterCall call r config key id (some entry) run hit (e, found, same) h =
      let reused : EffectiveRun = record {
        id = effective entry.router_id;
        reconciler = r;
        config = Effective.mark_resolved call.ended entry.source config;
      } in
      let p : reused ≡ run = cc in
      subst
        (λ (x : EffectiveRun).
          Holds x.reconciler key id × (cache_key config ≡ key → x.id ≡ effective id))
        p
        (
          (e, found, same),
          λ k.
              let there : lookup key r.local_router_id_cache ≡ some entry = rw (← k) hit in
              let one : entry ≡ e = cc in
              ap effective (ap (λ (x : LocalRouterIdEntry). x.router_id) one ∙ same),
        )
  effective_from-AfterCall call r config key id none run miss held h =
      elim (Option-cases (
        resolve_router_id parse_ipv6 parse_cidr call.surroundings call.started r.node_name
          config.spec.global r.node_cache)) [
            | inl out ↦ let no = rw (out, Effective.on_result) at h in absurd (cc)
            | inr (x, got) ↦
                let p : keep_resolution call r config x ≡ run =
                  let k = rw (got, Effective.on_result) at h in cc in
                subst
                  (λ (y : EffectiveRun).
                    Holds y.reconciler key id × (cache_key config ≡ key → y.id ≡ effective id))
                  p
                  (
                    keep_resolution-Holds call r config x key id miss held,
                    λ k.
                        let none_there : lookup key r.local_router_id_cache ≡ none =
                          rw (← k) miss in
                        absurd (let no : some held.0 ≡ none = sym held.1 ∙ none_there in cc),
                  )
          ]

  after_call :
      (call : Call) (r : Reconciler) (config : Crd.BgpConfiguration) (key : String) (id : List ℕ)
      (run : EffectiveRun)
      → Holds r key id
      → resolve_effective_router_id parse_ipv6 parse_cidr call r config ≡ some run
      → Holds run.reconciler key id × (cache_key config ≡ key → run.id ≡ effective id)
  unfolding resolve_effective_router_id
  after_call call r config key id run h got =
      effective_from-AfterCall call r config key id _ run refl h got

  drop_router_id-Holds :
      (config : Crd.BgpConfiguration) (r : Reconciler) (key : String) (id : List ℕ)
      → cache_key config ≢ key
      → Holds r key id
      → Holds (drop_router_id config r) key id
  unfolding drop_router_id
  drop_router_id-Holds config r key id other (e, found, same) = (
    e,
    lookup-erase (cache_key config) key r.local_router_id_cache ∙ rw (==_of_ne other) found,
    same,
  )

  AllAre-resolutions :
      (steps : List PodStep) (r : Reconciler) (key : String) (id : List ℕ)
      → KeepsKey key steps
      → Holds r key id
      → AllAre key id (resolutions r steps)
  unfolding resolutions
  AllAre-resolutions [] r key id keeps h = tt
  AllAre-resolutions (forget config ∷ rest) r key id keeps h =
      AllAre-resolutions rest (drop_router_id config r) key id keeps.1
        (drop_router_id-Holds config r key id keeps.0 h)
  AllAre-resolutions (resolve call config ∷ rest) r key id keeps h =
      elim (Option-cases (resolve_effective_router_id parse_ipv6 parse_cidr call r config)) [
        | inl out ↦ rw (out, resolutions) tt
        | inr (run, got) ↦
            let after = after_call call r config key id run h got in
            rw (got, resolutions)
              (after.1, AllAre-resolutions rest run.reconciler key id keeps after.0)
      ]

  keep_resolution-found :
      (call : Call) (r : Reconciler) (config : Crd.BgpConfiguration)
      (x : Resolved × Option NodeCache) (id : List ℕ)
      → (keep_resolution call r config x).id ≡ effective id
      → Holds (keep_resolution call r config x).reconciler (cache_key config) id
  unfolding keep_resolution
  keep_resolution-found call r config (unresolved e, nodes) id h = absurd (cc)
  keep_resolution-found call r config (resolved x, nodes) id h =
      let fresh : LocalRouterIdEntry = record { router_id = x.router_id; source = x.source } in
      (
        fresh,
        lookup-insert (cache_key config) (cache_key config) fresh r.local_router_id_cache
            ∙ rw (==_refl {A = String} (cache_key config)) refl,
        cc,
      )

  effective_from-found :
      (call : Call) (r : Reconciler) (config : Crd.BgpConfiguration) (id : List ℕ)
      (found : Option LocalRouterIdEntry) (run : EffectiveRun)
      → lookup (cache_key config) r.local_router_id_cache ≡ found
      → Effective.effective_from parse_ipv6 parse_cidr call r config found ≡ some run
      → run.id ≡ effective id
      → Holds run.reconciler (cache_key config) id
  unfolding Effective.effective_from
  effective_from-found call r config id (some entry) run hit h given =
      let same : r ≡ run.reconciler = ground arith in
      let value : effective entry.router_id ≡ run.id = ground arith in
      subst (λ (x : Reconciler). Holds x (cache_key config) id) same
        (entry, hit, let v = value ∙ given in cc)
  effective_from-found call r config id none run miss h given =
      elim (Option-cases (
        resolve_router_id parse_ipv6 parse_cidr call.surroundings call.started r.node_name
          config.spec.global r.node_cache)) [
            | inl out ↦ let no = rw (out, Effective.on_result) at h in absurd (cc)
            | inr (x, got) ↦
                let p : keep_resolution call r config x ≡ run =
                  let k = rw (got, Effective.on_result) at h in cc in
                subst (λ (y : EffectiveRun). Holds y.reconciler (cache_key config) id) p
                  (keep_resolution-found call r config x id
                    (ap (λ (y : EffectiveRun). y.id) p ∙ given))
          ]

  -- Once resolveEffectiveRouterID has given an ID for a resource, every later call on the pod for a resource
  -- of the same namespace and name gives that ID, until one of these is deleted, whatever its spec says by
  -- then and whatever calls for other resources and deletions of them lie between.
  pub router_id_locked :
      (call : Call) (r : Reconciler) (config : Crd.BgpConfiguration) (run : EffectiveRun)
      (id : List ℕ) (later : List PodStep)
      → resolve_effective_router_id parse_ipv6 parse_cidr call r config ≡ some run
      → run.id ≡ effective id
      → KeepsKey (cache_key config) later
      → AllAre (cache_key config) id (resolutions run.reconciler later)
  unfolding resolve_effective_router_id
  router_id_locked call r config run id later got given keeps =
      AllAre-resolutions later run.reconciler (cache_key config) id keeps
        (effective_from-found call r config id _ run refl got given)
