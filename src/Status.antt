-- ===== src/Status.antt =====
-- controllers/bgpconfiguration_controller.go: updateStatusCondition, the conditions of the status.
pub mod Transition
use k8gobgp.Prelude.{
  ℕ, String, Bool, true, false, Option, none, some, List, [], ◌∷◌, ◌==◌, string_eq, if◌then◌else◌,
}
use k8gobgp.Crd.{
  ConditionStatus, condition_true, condition_false, Condition, BgpConfigurationStatus,
  BgpConfiguration,
}

unfoldable pub same_status : ConditionStatus → ConditionStatus → Bool
same_status condition_true condition_true = true
same_status condition_false condition_false = true
same_status _ _ = false

-- What a call sets, with the time of the call and the generation of the resource.
pub record Setting : Type 0 where
  pub now : ℕ
  pub generation : ℕ
  pub condition_type : String
  pub status : ConditionStatus
  pub reason : String
  pub message : String

unfoldable pub updated : Setting → Condition → Condition
unfolding same_status
updated s c = record c {
  observed_generation = s.generation;
  reason = s.reason;
  message = s.message;
  status = if same_status c.status s.status then c.status else s.status;
  last_transition_time = if same_status c.status s.status then c.last_transition_time else s.now;
}

unfoldable pub appended : Setting → Condition
appended s = record {
  condition_type = s.condition_type;
  status = s.status;
  observed_generation = s.generation;
  last_transition_time = s.now;
  reason = s.reason;
  message = s.message;
}

-- The loop over the conditions, which returns at the first of the type, and the append after it.
unfoldable pub set_condition : Setting → List Condition → List Condition
unfolding updated appended
set_condition s [] = appended s ∷ []
set_condition s (c ∷ cs) =
    let rest = set_condition s cs in
    if c.condition_type == s.condition_type then updated s c ∷ cs else c ∷ rest

unfoldable pub update_status_condition :
    ℕ → BgpConfiguration → String → ConditionStatus → String → String → BgpConfiguration
unfolding set_condition
update_status_condition now config type status reason message =
    let s : Setting = record {
      now = now;
      generation = config.generation;
      condition_type = type;
      status = status;
      reason = reason;
      message = message;
    } in
    record config {
      status = record config.status { conditions = set_condition s config.status.conditions };
    }
