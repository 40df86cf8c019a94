-- ===== src/Status/Workflow.antt =====
-- `WorkflowStatus` (durable-workflows/src/persistence/mod.rs): the persisted text of each variant, its parser,
-- and the status sets.
use durable_workflows.Base.{
  ℕ, String, Bool, true, false, List, [], ◌∷◌, ◌==◌, str_eq, if◌then◌else◌, ◌||◌,
}
use durable_workflows.Base.Outcome.{Result, ok, err, invalid_state}

pub data WorkflowStatus : Type 0 where
  ready running waiting_activity waiting_child sleeping waiting_approval paused blocked succeeded
        failed cancelled :
      WorkflowStatus

-- `ALL`, in the order of the declaration.
abbrev pub all : List WorkflowStatus
all =
    ready ∷ running ∷ waiting_activity ∷ waiting_child ∷ sleeping ∷ waiting_approval ∷ paused
    ∷ blocked ∷ succeeded ∷ failed ∷ cancelled ∷ []

abbrev pub as_str : WorkflowStatus → String
as_str ready = "ready"
as_str running = "running"
as_str waiting_activity = "waiting_activity"
as_str waiting_child = "waiting_child"
as_str sleeping = "sleeping"
as_str waiting_approval = "waiting_approval"
as_str paused = "paused"
as_str blocked = "blocked"
as_str succeeded = "succeeded"
as_str failed = "failed"
as_str cancelled = "cancelled"

-- `TryFrom<&str>`: an unknown text is `InvalidState`.
unfoldable pub try_from : String → Result WorkflowStatus
try_from value =
    if str_eq value "ready"
    then ok ready
    else if str_eq value "running"
    then ok running
    else if str_eq value "waiting_activity"
    then ok waiting_activity
    else if str_eq value "waiting_child"
    then ok waiting_child
    else if str_eq value "sleeping"
    then ok sleeping
    else if str_eq value "waiting_approval"
    then ok waiting_approval
    else if str_eq value "paused"
    then ok paused
    else if str_eq value "blocked"
    then ok blocked
    else if str_eq value "succeeded"
    then ok succeeded
    else if str_eq value "failed"
    then ok failed
    else if str_eq value "cancelled"
    then ok cancelled
    else err invalid_state

-- `status as usize`: the position in the declaration.
abbrev pub index : WorkflowStatus → ℕ
index ready = 0
index running = 1
index waiting_activity = 2
index waiting_child = 3
index sleeping = 4
index waiting_approval = 5
index paused = 6
index blocked = 7
index succeeded = 8
index failed = 9
index cancelled = 10

abbrev pub same : WorkflowStatus → WorkflowStatus → Bool
same a b = index a == index b

-- The loop of `set_contains`.
abbrev pub set_contains : List WorkflowStatus → WorkflowStatus → Bool
set_contains [] status = false
set_contains (x ∷ xs) status = same x status || set_contains xs status

abbrev pub is_terminal : WorkflowStatus → Bool
is_terminal ready = false
is_terminal running = false
is_terminal waiting_activity = false
is_terminal waiting_child = false
is_terminal sleeping = false
is_terminal waiting_approval = false
is_terminal paused = false
is_terminal blocked = false
is_terminal succeeded = true
is_terminal failed = true
is_terminal cancelled = true

abbrev pub terminal : List WorkflowStatus
terminal = succeeded ∷ failed ∷ cancelled ∷ []

abbrev pub awaits_child : WorkflowStatus → Bool
awaits_child ready = false
awaits_child running = false
awaits_child waiting_activity = false
awaits_child waiting_child = true
awaits_child sleeping = false
awaits_child waiting_approval = false
awaits_child paused = true
awaits_child blocked = false
awaits_child succeeded = false
awaits_child failed = false
awaits_child cancelled = false

abbrev pub child_waiters : List WorkflowStatus
child_waiters = waiting_child ∷ paused ∷ []

abbrev pub awaits_approval : WorkflowStatus → Bool
awaits_approval ready = false
awaits_approval running = false
awaits_approval waiting_activity = false
awaits_approval waiting_child = false
awaits_approval sleeping = false
awaits_approval waiting_approval = true
awaits_approval paused = true
awaits_approval blocked = false
awaits_approval succeeded = false
awaits_approval failed = false
awaits_approval cancelled = false

abbrev pub approval_waiters : List WorkflowStatus
approval_waiters = waiting_approval ∷ paused ∷ []

abbrev pub awaits_dead_letter : WorkflowStatus → Bool
awaits_dead_letter ready = false
awaits_dead_letter running = false
awaits_dead_letter waiting_activity = false
awaits_dead_letter waiting_child = false
awaits_dead_letter sleeping = false
awaits_dead_letter waiting_approval = false
awaits_dead_letter paused = true
awaits_dead_letter blocked = true
awaits_dead_letter succeeded = false
awaits_dead_letter failed = false
awaits_dead_letter cancelled = false

abbrev pub dead_letter_waiters : List WorkflowStatus
dead_letter_waiters = blocked ∷ paused ∷ []

abbrev pub is_restartable : WorkflowStatus → Bool
is_restartable ready = false
is_restartable running = false
is_restartable waiting_activity = false
is_restartable waiting_child = false
is_restartable sleeping = false
is_restartable waiting_approval = false
is_restartable paused = true
is_restartable blocked = true
is_restartable succeeded = true
is_restartable failed = true
is_restartable cancelled = true

abbrev pub is_start_recoverable : WorkflowStatus → Bool
is_start_recoverable ready = false
is_start_recoverable running = false
is_start_recoverable waiting_activity = false
is_start_recoverable waiting_child = false
is_start_recoverable sleeping = false
is_start_recoverable waiting_approval = false
is_start_recoverable paused = false
is_start_recoverable blocked = true
is_start_recoverable succeeded = false
is_start_recoverable failed = true
is_start_recoverable cancelled = false
