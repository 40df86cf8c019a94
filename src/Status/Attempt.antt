-- ===== src/Status/Attempt.antt =====
-- `AttemptOutcome` (durable-workflows/src/persistence/mod.rs): the persisted text of each variant, its parser.
use durable_workflows.Base.{ℕ, String, Bool, List, [], ◌∷◌, ◌==◌, str_eq, if◌then◌else◌}
use durable_workflows.Base.Outcome.{Result, ok, err, invalid_state}

pub data AttemptOutcome : Type 0 where
  succeeded retryable_failure dead_lettered lease_expired operator_cancelled application_cancelled
        operator_paused :
      AttemptOutcome

-- `ALL`, in the order of the declaration.
abbrev pub all : List AttemptOutcome
all =
    succeeded ∷ retryable_failure ∷ dead_lettered ∷ lease_expired ∷ operator_cancelled
    ∷ application_cancelled ∷ operator_paused ∷ []

abbrev pub as_str : AttemptOutcome → String
as_str succeeded = "succeeded"
as_str retryable_failure = "retryable_failure"
as_str dead_lettered = "dead_lettered"
as_str lease_expired = "lease_expired"
as_str operator_cancelled = "operator_cancelled"
as_str application_cancelled = "application_cancelled"
as_str operator_paused = "operator_paused"

-- `TryFrom<&str>`: an unknown text is `InvalidState`.
unfoldable pub try_from : String → Result AttemptOutcome
try_from value =
    if str_eq value "succeeded"
    then ok succeeded
    else if str_eq value "retryable_failure"
    then ok retryable_failure
    else if str_eq value "dead_lettered"
    then ok dead_lettered
    else if str_eq value "lease_expired"
    then ok lease_expired
    else if str_eq value "operator_cancelled"
    then ok operator_cancelled
    else if str_eq value "application_cancelled"
    then ok application_cancelled
    else if str_eq value "operator_paused"
    then ok operator_paused
    else err invalid_state

-- `status as usize`: the position in the declaration.
abbrev pub index : AttemptOutcome → ℕ
index succeeded = 0
index retryable_failure = 1
index dead_lettered = 2
index lease_expired = 3
index operator_cancelled = 4
index application_cancelled = 5
index operator_paused = 6

abbrev pub same : AttemptOutcome → AttemptOutcome → Bool
same a b = index a == index b
