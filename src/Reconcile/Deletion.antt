-- ===== src/Reconcile/Deletion.antt =====
-- The end of a deletion: when the resource's finalizer is removed.
use mathlib.Core.Path.{subst}
use k8gobgp.Prelude.{
  ap, ◌⊎◌, inl, inr, Bool-cases, String, ◌≡◌, refl, sym, ◌∙◌, Bool, true, false, none, some, List,
  [], ◌∷◌, ◌++◌, map, if◌then◌else◌,
}
use k8gobgp.Crd.{BgpConfiguration}
use k8gobgp.Cleanup.{
  CleanupCall, cleanup_calls, counted_calls, some_fails, contains_finalizer, remove_finalizer,
}
use k8gobgp.Cleanup.Finalizer.{
  Deletes, HasObjects, DistinctCalls, counted_calls-some_fails, contains_finalizer-remove_finalizer,
}
use k8gobgp.Cleanup.Outcome.{Succeeds, counted_calls-Succeeds}
use k8gobgp.Cleanup.Made.{CleansAll, cleanup_calls-CleansAll}
use k8gobgp.Reconcile.{
  Effect, update_config, update_status, delete_metrics, dial, list_peers, clean, run_stage,
  forget_router_id, Run, World, reconcile_delete, clean_up, finish_delete, unfinalized,
}

-- The resources that r.Update is called with.
unfoldable pub updates : List Effect → List BgpConfiguration
updates [] = []
updates (update_config c ∷ es) = c ∷ updates es
updates (update_status s ∷ es) = updates es
updates (delete_metrics n m ∷ es) = updates es
updates (dial ∷ es) = updates es
updates (list_peers ∷ es) = updates es
updates (clean c ∷ es) = updates es
updates (run_stage l ∷ es) = updates es
updates (forget_router_id n m ∷ es) = updates es

-- The cleanup calls that are made.
unfoldable pub cleaned : List Effect → List CleanupCall
cleaned [] = []
cleaned (update_config c ∷ es) = cleaned es
cleaned (update_status s ∷ es) = cleaned es
cleaned (delete_metrics n m ∷ es) = cleaned es
cleaned (dial ∷ es) = cleaned es
cleaned (list_peers ∷ es) = cleaned es
cleaned (clean c ∷ es) = c ∷ cleaned es
cleaned (run_stage l ∷ es) = cleaned es
cleaned (forget_router_id n m ∷ es) = cleaned es

updates-map-clean :
    (cs : List CleanupCall) (es : List Effect) → updates (map clean cs ++ es) ≡ updates es
unfolding updates
updates-map-clean [] es = refl
updates-map-clean (c ∷ cs) es = updates-map-clean cs es

updates-finish_delete :
    (w : World) (c : BgpConfiguration) (failed : Bool)
    → updates (finish_delete w c failed).0
      ≡ (if failed then [] else record c { finalizers = remove_finalizer c.finalizers } ∷ [])
unfolding updates finish_delete unfinalized
updates-finish_delete w c true = refl
updates-finish_delete w c false = refl

updates-clean_up :
    (w : World) (c : BgpConfiguration)
    → updates (clean_up w c none).0 ≡ (
        if some_fails w.fails [] (counted_calls w.peer_keys c.spec)
        then []
        else record c { finalizers = remove_finalizer c.finalizers } ∷ [])
unfolding clean_up updates
updates-clean_up w c =
    updates-map-clean (cleanup_calls w.peer_keys c.spec) _
    ∙ updates-finish_delete w c (some_fails w.fails [] (counted_calls w.peer_keys c.spec))

-- With the finalizer there and gobgpd reached, the deletion is the cleanup.
reached :
    (w : World) (c : BgpConfiguration)
    → contains_finalizer c.finalizers ≡ true
    → w.dial_error ≡ none
    → reconcile_delete w c ≡ clean_up w c none
unfolding reconcile_delete
reached w c has dialed = rw (has, dialed) refl

updates_by_failures :
    (w : World) (c : BgpConfiguration)
    → contains_finalizer c.finalizers ≡ true
    → w.dial_error ≡ none
    → updates (reconcile_delete w c).0 ≡ (
        if some_fails w.fails [] (counted_calls w.peer_keys c.spec)
        then []
        else record c { finalizers = remove_finalizer c.finalizers } ∷ [])
unfolding reconcile_delete
updates_by_failures w c has dialed =
    ap (λ (r : Run). updates r.0) (reached w c has dialed) ∙ updates-clean_up w c

cleaned-map-clean :
    (cs : List CleanupCall) (es : List Effect) → cleaned es ≡ [] → cleaned (map clean cs ++ es) ≡ cs
unfolding cleaned
cleaned-map-clean [] es none_later = none_later
cleaned-map-clean (c ∷ cs) es none_later =
    ap (λ rest. c ∷ rest) (cleaned-map-clean cs es none_later)

cleaned-finish_delete :
    (w : World) (c : BgpConfiguration) (failed : Bool) → cleaned (finish_delete w c failed).0 ≡ []
unfolding cleaned finish_delete
cleaned-finish_delete w c true = refl
cleaned-finish_delete w c false = refl

cleaned-clean_up :
    (w : World) (c : BgpConfiguration)
    → cleaned (clean_up w c none).0 ≡ cleanup_calls w.peer_keys c.spec
unfolding clean_up cleaned
cleaned-clean_up w c =
    cleaned-map-clean (cleanup_calls w.peer_keys c.spec) _
      (cleaned-finish_delete w c (some_fails w.fails [] (counted_calls w.peer_keys c.spec)))

-- How a deletion ends: with the one update, or with none.
abbrev pub Ends : (List CleanupCall → CleanupCall → Bool) → BgpConfiguration → List Effect → Type 0
Ends fails c effects =
    (Succeeds fails [] (cleaned effects)
      × (updates effects ≡ record c { finalizers = remove_finalizer c.finalizers } ∷ []))
    ⊎ ((Succeeds fails [] (cleaned effects) → ⊥) × (updates effects ≡ []))

-- Once gobgpd is reached, the deletion of a resource with the finalizer makes a call for each peer of the
-- resource, unless a listing of the peers lacks it, and for each dynamic neighbor, peer group, VRF, policy
-- and defined set. It makes one update, of the resource without the finalizer, if each of the cleanup calls
-- that it made succeeded, those that disable netlink left aside, and makes no update if one failed.
pub updates-reconcile_delete :
    (w : World) (c : BgpConfiguration)
    → contains_finalizer c.finalizers ≡ true
    → w.dial_error ≡ none
    → CleansAll w.peer_keys c.spec (cleaned (reconcile_delete w c).0)
      × Ends w.fails c (reconcile_delete w c).0
updates-reconcile_delete w c has dialed =
    let calls : cleaned (reconcile_delete w c).0 ≡ cleanup_calls w.peer_keys c.spec =
      ap (λ (r : Run). cleaned r.0) (reached w c has dialed) ∙ cleaned-clean_up w c in
    let counted = counted_calls-Succeeds w.fails w.peer_keys c.spec in
    let given = updates_by_failures w c has dialed in
    (
      subst (λ cs. CleansAll w.peer_keys c.spec cs) (sym calls)
          (cleanup_calls-CleansAll w.peer_keys c.spec),
      elim (Bool-cases (some_fails w.fails [] (counted_calls w.peer_keys c.spec))) [
        | inl failed ↦ inr (
          λ succeeded.
              let no = counted.1 (subst (λ cs. Succeeds w.fails [] cs) calls succeeded) in
              absurd (let p = sym failed ∙ no in cc),
          given ∙ rw failed refl,
        )
        | inr worked ↦ inl (
          subst (λ cs. Succeeds w.fails [] cs) (sym calls) (counted.0 worked),
          given ∙ rw worked refl,
        )
      ],
    )

-- A deletion ends on every node, also on those where some of the neighbors were never configured: where
-- gobgpd is reached, lists its peers, has the dynamic neighbors, peer groups, VRFs, policies and defined sets
-- of the resource, deletes each of what it has at the first call, and no object stands twice in the
-- resource, one call of the reconciler leaves one update, and the resource in it has no finalizer of
-- this controller.
pub reconcile_delete_finishes :
    (w : World) (c : BgpConfiguration) (present : List String) (has : CleanupCall → Bool)
    → contains_finalizer c.finalizers ≡ true
    → w.dial_error ≡ none
    → w.peer_keys ≡ some present
    → Deletes w.fails has
    → HasObjects has present c.spec
    → DistinctCalls (counted_calls (some present) c.spec)
    → (d : BgpConfiguration) × (updates (reconcile_delete w c).0 ≡ d ∷ [])
      × (contains_finalizer d.finalizers ≡ false)
reconcile_delete_finishes w c present has has_finalizer dialed listing deletes objects distinct =
    let none_fails =
      subst (λ k. some_fails w.fails [] (counted_calls k c.spec) ≡ false) (sym listing)
        (counted_calls-some_fails w.fails has present c.spec deletes objects distinct) in
    (
      record c { finalizers = remove_finalizer c.finalizers },
      updates_by_failures w c has_finalizer dialed ∙ rw none_fails refl,
      contains_finalizer-remove_finalizer c.finalizers,
    )
