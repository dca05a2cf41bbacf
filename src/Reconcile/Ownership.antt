-- ===== src/Reconcile/Ownership.antt =====
-- controllers/bgpconfiguration_controller.go: whose reconciliations make calls of gobgpd.
use mathlib.Core.Path.{subst}
use mathlib.Core.Bool.{false≢true}
use mathlib.Core.Option.{some-injective}
use k8gobgp.Prelude.{
  String, ◌≡◌, refl, ap, sym, ◌∙◌, Bool, true, false, ◌||◌, some, List, [], ◌∷◌, string_eq, is_some,
  Bool-cases, inl, inr, eq_of_==, and_split,
}
use k8gobgp.Crd.{BgpConfiguration}
use k8gobgp.Owner.{elect_owning_config}
use k8gobgp.Owner.Election.{elect_owning_config-Elected}
use k8gobgp.Cleanup.{contains_finalizer}
use k8gobgp.Reconcile.{
  Effect, update_config, update_status, delete_metrics, dial, list_peers, clean, run_stage,
  forget_router_id, World, found, reconcile, reconcile_get, reconcile_found, handle, handle_other,
  owns, reject_duplicate_config, delete_ignored_config,
}

-- Does the effect reach gobgpd?
unfoldable pub reaches_gobgpd : Effect → Bool
reaches_gobgpd (update_config c) = false
reaches_gobgpd (update_status s) = false
reaches_gobgpd (delete_metrics n m) = false
reaches_gobgpd dial = true
reaches_gobgpd list_peers = true
reaches_gobgpd (clean c) = true
reaches_gobgpd (run_stage l) = true
reaches_gobgpd (forget_router_id n m) = false

unfoldable pub some_reach : List Effect → Bool
some_reach [] = false
some_reach (e ∷ es) = reaches_gobgpd e || some_reach es

delete_ignored_config-some_reach :
    (w : World) (c : BgpConfiguration) → some_reach (delete_ignored_config w c).0 ≡ false
unfolding some_reach reaches_gobgpd delete_ignored_config
delete_ignored_config-some_reach w c = elim (Bool-cases (contains_finalizer c.finalizers)) [
  | inl has ↦ rw has refl
  | inr lacks ↦ rw lacks refl
]

handle_other-some_reach :
    (w : World) (deleted : Bool) (owner c : BgpConfiguration)
    → some_reach (handle_other w deleted owner c).0 ≡ false
unfolding handle_other some_reach reaches_gobgpd reject_duplicate_config
handle_other-some_reach w true owner c = delete_ignored_config-some_reach w c
handle_other-some_reach w false owner c = refl

handle-some_reach :
    (w : World) (owner c : BgpConfiguration)
    → owns w (some owner) c ≡ false
    → some_reach (handle w (some owner) c).0 ≡ false
unfolding handle
handle-some_reach w owner c h =
    rw (handle, h) (handle_other-some_reach w (is_some c.deletion_timestamp) owner c)

-- A reconciliation that dials gobgpd, or makes a call of it, is one of the elected owner: where the
-- listing succeeds and has a resource, the resource found has the owner's namespace and name. This
-- holds on the deletion path too.
pub reconcile_reaches_as_owner :
    (w : World) (namespace name : String) (c d : BgpConfiguration) (ds : List BgpConfiguration)
    → w.get ≡ found c
    → w.configs ≡ some (d ∷ ds)
    → some_reach (reconcile w namespace name).0 ≡ true
    → (owner : BgpConfiguration) × (elect_owning_config (d ∷ ds) ≡ some owner)
      × (owner.namespace ≡ c.namespace)
      × (owner.name ≡ c.name)
unfolding reconcile reconcile_get reconcile_found owns
reconcile_reaches_as_owner w namespace name c d ds got listed reaches =
    let (owner, elected, _) = elect_owning_config-Elected d ds in
    elim (Bool-cases (owns w (some owner) c)) [
      | inl mine ↦
          let (namespaces, names) = and_split _ _ mine in
          (owner, elected, eq_of_== {A = String} namespaces, eq_of_== {A = String} names)
      | inr other ↦
          let at_found =
            subst (λ g. some_reach (reconcile_get w namespace name g).0 ≡ true) got reaches in
          let at_listed =
            subst (λ l. some_reach (reconcile_found w c l).0 ≡ true) listed at_found in
          let at_owner = subst (λ o. some_reach (handle w o c).0 ≡ true) elected at_listed in
          absurd (false≢true (sym (handle-some_reach w owner c other) ∙ at_owner))
    ]

-- One resource drives gobgpd: of two reconciliations over the same listing, whatever else they see,
-- that both reach gobgpd, both are for the same namespace and name.
pub one_config_reaches :
    (v w : World) (namespace name namespace' name' : String) (b c d : BgpConfiguration)
    (ds : List BgpConfiguration)
    → v.get ≡ found b
    → w.get ≡ found c
    → v.configs ≡ some (d ∷ ds)
    → w.configs ≡ some (d ∷ ds)
    → some_reach (reconcile v namespace name).0 ≡ true
    → some_reach (reconcile w namespace' name').0 ≡ true
    → (b.namespace ≡ c.namespace) × (b.name ≡ c.name)
one_config_reaches v w namespace name namespace' name' b c d ds got_b got_c listed_v listed_w
      reaches_v reaches_w =
    let (o, elected_v, namespace_v, name_v) =
      reconcile_reaches_as_owner v namespace name b d ds got_b listed_v reaches_v in
    let (p, elected_w, namespace_w, name_w) =
      reconcile_reaches_as_owner w namespace' name' c d ds got_c listed_w reaches_w in
    let same = some-injective o p (sym elected_v ∙ elected_w) in
    (
      sym namespace_v ∙ ap (λ (x : BgpConfiguration). x.namespace) same ∙ namespace_w,
      sym name_v ∙ ap (λ (x : BgpConfiguration). x.name) same ∙ name_w,
    )
