-- ===== src/Status/Transition.antt =====
-- What updateStatusCondition does to the conditions, read by their types.
use mathlib.Core.Path.{subst}
use k8gobgp.Prelude.{
  ℕ, String, ◌≡◌, refl, ap, ◌∙◌, false, Option, none, some, List, [], ◌∷◌, ◌==◌, string_eq,
  if◌then◌else◌, Bool-cases, inl, inr, eq_of_==, ==_refl,
}
use k8gobgp.Crd.{ConditionStatus, condition_true, condition_false, Condition, BgpConfiguration}
use k8gobgp.Status.{Setting, set_condition, updated, appended, same_status, update_status_condition}

-- The condition of a type: the first, where there are several.
unfoldable pub find_condition : String → List Condition → Option Condition
find_condition t [] = none
find_condition t (c ∷ cs) = if c.condition_type == t then some c else find_condition t cs

-- What a call makes of the condition of its type.
put : Setting → Option Condition → Condition
put s none = appended s
put s (some c) = updated s c

find_condition-set_condition :
    (s : Setting) (t : String) (cs : List Condition)
    → find_condition t (set_condition s cs) ≡ (
        if s.condition_type == t
        then some (put s (find_condition s.condition_type cs))
        else find_condition t cs)
unfolding find_condition set_condition put appended updated
find_condition-set_condition s t [] = refl
find_condition-set_condition s t (c ∷ cs) =
    elim (Bool-cases (c.condition_type == s.condition_type)) [
      | inl same ↦
          let e = eq_of_== {A = String} same in
          elim (Bool-cases (s.condition_type == t)) [
            | inl here ↦ rw (same, e, here) refl
            | inr other ↦ rw (same, e, other) refl
          ]
      | inr differs ↦ elim (Bool-cases (s.condition_type == t)) [
        | inl here ↦
            let not_t =
              subst (λ x. (c.condition_type == x) ≡ false) (eq_of_== {A = String} here) differs in
            rw (differs, here, not_t) (find_condition-set_condition s t cs ∙ rw here refl)
        | inr other ↦
            rw (differs, other)
              (ap (λ x. if c.condition_type == t then some c else x)
                (find_condition-set_condition s t cs ∙ rw other refl))
      ]
    ]

-- The time of the last change of status: kept where a condition of that status was there.
abbrev pub transition_time : ℕ → ConditionStatus → Option Condition → ℕ
transition_time now status none = now
transition_time now status (some c) =
    if same_status c.status status then c.last_transition_time else now

-- What the condition of the type is after a call.
pub record HasSetting (now generation : ℕ) (status : ConditionStatus) (reason message : String)
    (before : Option Condition) (c : Condition) : Type 0 where
  pub has_status : c.status ≡ status
  pub has_generation : c.observed_generation ≡ generation
  pub has_reason : c.reason ≡ reason
  pub has_message : c.message ≡ message
  pub has_time : c.last_transition_time ≡ transition_time now status before

same_status-eq : (a b : ConditionStatus) → (if same_status a b then a else b) ≡ b
unfolding same_status
same_status-eq condition_true condition_true = refl
same_status-eq condition_true condition_false = refl
same_status-eq condition_false condition_true = refl
same_status-eq condition_false condition_false = refl

put-HasSetting :
    (s : Setting) (before : Option Condition)
    → HasSetting s.now s.generation s.status s.reason s.message before (put s before)
unfolding put updated appended
put-HasSetting s none = record {
  has_status = refl;
  has_generation = refl;
  has_reason = refl;
  has_message = refl;
  has_time = refl;
}
put-HasSetting s (some c) = record {
  has_status = same_status-eq c.status s.status;
  has_generation = refl;
  has_reason = refl;
  has_message = refl;
  has_time = refl;
}

-- After an update there is a condition of the type with the status, reason and message given and the
-- resource's generation, whose transition time is the time of the update if the status changed or the
-- type is new, and else the earlier time. The conditions of other types are as they were.
pub update_status_condition_lem :
    (now : ℕ) (config : BgpConfiguration) (type : String) (status : ConditionStatus)
    (reason message : String)
    → ((c : Condition) × (find_condition type
            (update_status_condition now config type status reason message).status.conditions
          ≡ some c)
        × HasSetting now config.generation status reason message
            (find_condition type config.status.conditions)
            c)
      × ((t : String)
          → (type == t) ≡ false
          → find_condition t
              (update_status_condition now config type status reason message).status.conditions
            ≡ find_condition t config.status.conditions)
unfolding update_status_condition
update_status_condition_lem now config type status reason message =
    let s : Setting = record {
      now = now;
      generation = config.generation;
      condition_type = type;
      status = status;
      reason = reason;
      message = message;
    } in
    let conditions = config.status.conditions in
    let before = find_condition type conditions in
    (
      (
        put s before,
        find_condition-set_condition s type conditions ∙ rw (==_refl type) refl,
        put-HasSetting s before,
      ),
      λ t other. find_condition-set_condition s t conditions ∙ rw other refl,
    )
