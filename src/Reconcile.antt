-- ===== src/Reconcile.antt =====
-- controllers/bgpconfiguration_controller.go: Reconcile, rejectDuplicateConfig, deleteIgnoredConfig and
-- reconcileDelete, as the effects that a call has on the cluster and on gobgpd, in their order, and its
-- reply. Logs, events and metrics other than DeleteMetricsForConfig are left out. The
-- effect `forget_router_id` is the removal of the resource's entry from localRouterIDCache, which
-- Global.Effective.drop_router_id does.
mod Messages
pub mod Ownership
pub mod Deletion
use k8gobgp.Prelude.{
  ℕ, String, Bool, true, false, ◌&&◌, not, Option, none, some, List, [], ◌∷◌, ◌++◌, map, ◌==◌,
  string_eq, if◌then◌else◌, is_some,
}
use k8gobgp.Crd
use k8gobgp.Owner.{elect_owning_config}
use k8gobgp.Status.{update_status_condition}
use k8gobgp.Cleanup.{
  CleanupCall, cleanup_calls, counted_calls, some_fails, contains_finalizer, remove_finalizer,
  finalizer_name,
}
unfoldable pub use Messages.{duplicate_message, wrapped}

pub data Effect : Type 0 where
  update_config : Crd.BgpConfiguration → Effect
  update_status : Crd.BgpConfigurationStatus → Effect
  delete_metrics : String → String → Effect
  dial : Effect
  list_peers : Effect
  clean : CleanupCall → Effect
  run_stage : String → Effect
  forget_router_id : String → String → Effect

-- ctrl.Result with its error: the seconds of RequeueAfter, 0 for none.
pub data Reply : Type 0 where
  requeue_after : ℕ → Reply
  reply_error : Reply

abbrev pub Run : Type 0
Run = List Effect × Reply

-- What r.Get finds.
pub data Found : Type 0 where
  not_found get_failed : Found
  found : Crd.BgpConfiguration → Found

-- One function of the chain, reconcileGlobal to reconcileNetlink: it may change the resource's status,
-- and it may end with an error.
pub record Stage : Type 0 where
  pub label : String
  pub run : Crd.BgpConfiguration → Crd.BgpConfiguration × Option String

-- What a call reads of its surroundings: the answers of the API server and of gobgpd, the time, and the
-- texts of errors. `invalid` is the text of a failed validateConfiguration.
pub record World : Type 0 where
  pub now : ℕ
  pub node_name : String
  pub get : Found
  pub configs : Option (List Crd.BgpConfiguration)
  pub update_succeeds : Bool
  pub status_update_succeeds : Bool
  pub dial_error : Option String
  pub invalid : Crd.BgpConfiguration → Option String
  pub stages : List Stage
  pub peer_keys : Option (List String)
  pub fails : List CleanupCall → CleanupCall → Bool

module _ (w : World) where
  -- The status fields set together: ObservedGeneration, Message and LastReconcileTime.
  observed : Crd.BgpConfiguration → String → Crd.BgpConfiguration
  observed config message = record config {
    status = record config.status {
      observed_generation = config.generation;
      message = message;
      last_reconcile_time = some w.now;
    };
  }

  unfoldable pub reject_duplicate_config : Crd.BgpConfiguration → Crd.BgpConfiguration → Run
  unfolding observed update_status_condition
  reject_duplicate_config config owner =
      let message = duplicate_message owner.namespace owner.name w.node_name in
      let marked =
        update_status_condition w.now config "Ready" Crd.condition_false "MultipleConfigurations"
          message in
      (update_status (observed marked message).status ∷ [], requeue_after 30)

  -- The finalizer taken off and the resource updated.
  unfinalized : Crd.BgpConfiguration → Crd.BgpConfiguration
  unfinalized config = record config { finalizers = remove_finalizer config.finalizers }

  after_update : Reply
  after_update = if w.update_succeeds then requeue_after 0 else reply_error

  unfoldable pub delete_ignored_config : Crd.BgpConfiguration → Run
  unfolding unfinalized after_update
  delete_ignored_config config =
      if not (contains_finalizer config.finalizers)
      then (delete_metrics config.name config.namespace ∷ [], requeue_after 0)
      else (
        delete_metrics config.name config.namespace ∷ update_config (unfinalized config) ∷ [],
        after_update,
      )

  -- After the cleanup calls.
  unfoldable pub finish_delete : Crd.BgpConfiguration → Bool → Run
  unfolding unfinalized after_update
  finish_delete config true = ([], requeue_after 15)
  finish_delete config false = (
    delete_metrics config.name config.namespace
        ∷ forget_router_id config.namespace config.name
        ∷ update_config (unfinalized config)
        ∷ [],
    after_update,
  )

  unfoldable pub clean_up : Crd.BgpConfiguration → Option String → Run
  unfolding finish_delete
  clean_up config (some error) = (dial ∷ [], requeue_after 10)
  clean_up config none =
      let failed = some_fails w.fails [] (counted_calls w.peer_keys config.spec) in
      let (rest, reply) = finish_delete config failed in
      (dial ∷ list_peers ∷ map clean (cleanup_calls w.peer_keys config.spec) ++ rest, reply)

  unfoldable pub reconcile_delete : Crd.BgpConfiguration → Run
  unfolding clean_up
  reconcile_delete config =
      if contains_finalizer config.finalizers
      then clean_up config w.dial_error
      else ([], requeue_after 0)

  -- The chain: the stages in their order, up to the first that fails.
  unfoldable pub run_chain :
      List Stage → Crd.BgpConfiguration → List Effect × Crd.BgpConfiguration × Option String
  run_chain [] config = ([], config, none)
  run_chain (s ∷ rest) config =
      let (config', error) = s.run config in
      elim error [
        | some e ↦ (run_stage s.label ∷ [], config', some (wrapped s.label e))
        | none ↦
            let (effects, config'', error') = run_chain rest config' in
            (run_stage s.label ∷ effects, config'', error')
      ]

  -- The end of Reconcile, after the chain.
  unfoldable pub report : Crd.BgpConfiguration → Option String → Run
  unfolding observed update_status_condition
  report config (some error) =
      let marked =
        update_status_condition w.now config "Ready" Crd.condition_false "ReconcileFailed" error in
      (update_status (observed marked error).status ∷ [], requeue_after 30)
  report config none =
      let message : String = "BGP configuration applied successfully" in
      let marked =
        update_status_condition w.now config "Ready" Crd.condition_true "ReconcileSuccess"
          message in
      (
        update_status (observed marked message).status ∷ [],
        if w.status_update_succeeds then requeue_after 0 else reply_error,
      )

  unfoldable pub apply_config : Crd.BgpConfiguration → Option String → Run
  unfolding run_chain report
  apply_config config (some error) = (dial ∷ [], requeue_after 10)
  apply_config config none =
      let (effects, config', error) = run_chain w.stages config in
      let (reported, reply) = report config' error in (dial ∷ effects ++ reported, reply)

  unfoldable pub validate_and_apply : Crd.BgpConfiguration → Option String → Run
  unfolding apply_config observed update_status_condition
  validate_and_apply config (some errors) =
      let marked =
        update_status_condition w.now config "Ready" Crd.condition_false "ConfigurationInvalid"
          errors in
      (
        update_status (observed marked (wrapped "Configuration validation failed" errors)).status
            ∷ [],
        requeue_after 30,
      )
  validate_and_apply config none = apply_config config w.dial_error

  unfoldable pub add_finalizer_or_apply : Crd.BgpConfiguration → Run
  unfolding validate_and_apply
  add_finalizer_or_apply config =
      if not (contains_finalizer config.finalizers)
      then (
        update_config (record config { finalizers = config.finalizers ++ finalizer_name ∷ [] })
            ∷ [],
        if w.update_succeeds then requeue_after 1 else reply_error,
      )
      else validate_and_apply config (w.invalid config)

  unfoldable pub owns : Option Crd.BgpConfiguration → Crd.BgpConfiguration → Bool
  owns none config = true
  owns (some owner) config = owner.namespace == config.namespace && owner.name == config.name

  -- A resource that is its own owner, and one that is not, by whether it is being deleted.
  unfoldable pub handle_own : Bool → Crd.BgpConfiguration → Run
  unfolding reconcile_delete add_finalizer_or_apply
  handle_own true config = reconcile_delete config
  handle_own false config = add_finalizer_or_apply config

  unfoldable pub handle_other : Bool → Crd.BgpConfiguration → Crd.BgpConfiguration → Run
  unfolding reject_duplicate_config delete_ignored_config
  handle_other true owner config = delete_ignored_config config
  handle_other false owner config = reject_duplicate_config config owner

  unfoldable pub handle : Option Crd.BgpConfiguration → Crd.BgpConfiguration → Run
  unfolding handle_own handle_other owns
  handle none config = handle_own (is_some config.deletion_timestamp) config
  handle (some owner) config =
      if owns (some owner) config
      then handle_own (is_some config.deletion_timestamp) config
      else handle_other (is_some config.deletion_timestamp) owner config

  unfoldable pub reconcile_found : Crd.BgpConfiguration → Option (List Crd.BgpConfiguration) → Run
  unfolding handle elect_owning_config
  reconcile_found config none = ([], reply_error)
  reconcile_found config (some configs) = handle (elect_owning_config configs) config

  unfoldable pub reconcile_get : String → String → Found → Run
  unfolding reconcile_found
  reconcile_get namespace name not_found = (delete_metrics name namespace ∷ [], requeue_after 0)
  reconcile_get namespace name get_failed = ([], reply_error)
  reconcile_get namespace name (found config) = reconcile_found config w.configs

  -- Reconcile, for the request's namespace and name.
  unfoldable pub reconcile : String → String → Run
  unfolding reconcile_get
  reconcile namespace name = reconcile_get namespace name w.get
