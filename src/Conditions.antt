-- ===== src/Conditions.antt =====
-- `setCondition` of the branch and the workflow reconciler, which are alike: the first condition of
-- the type is written anew, or one is added at the end.
use terrakojo.Prelude.{ℕ, pos, String, List, [], ◌∷◌, ◌==◌, if◌then◌else◌}
use terrakojo.Api.{Condition, ConditionStatus}

unfoldable pub set_condition :
    ℕ → String → ConditionStatus → String → String → List Condition → List Condition
set_condition now type status reason message [] =
    record {
      type = type;
      status = status;
      observed_generation = pos 0;
      last_transition_time = now;
      reason = reason;
      message = message;
    }
    ∷ []
set_condition now type status reason message (c ∷ conditions) =
    if c.type == type
    then record c {
      status = status;
      reason = reason;
      message = message;
      last_transition_time = now;
    }
      ∷ conditions
    else c ∷ set_condition now type status reason message conditions
