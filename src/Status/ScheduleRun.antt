-- ===== src/Status/ScheduleRun.antt =====
-- `ScheduleRunStatus` (durable-workflows/src/persistence/mod.rs): the persisted text of each variant, its parser.
use durable_workflows.Base.{ℕ, String, Bool, List, [], ◌∷◌, ◌==◌, str_eq, if◌then◌else◌}
use durable_workflows.Base.Outcome.{Result, ok, err, invalid_state}

pub data ScheduleRunStatus : Type 0 where
  queued materializing started skipped coalesced : ScheduleRunStatus

-- `ALL`, in the order of the declaration.
abbrev pub all : List ScheduleRunStatus
all = queued ∷ materializing ∷ started ∷ skipped ∷ coalesced ∷ []

abbrev pub as_str : ScheduleRunStatus → String
as_str queued = "queued"
as_str materializing = "materializing"
as_str started = "started"
as_str skipped = "skipped"
as_str coalesced = "coalesced"

-- `TryFrom<&str>`: an unknown text is `InvalidState`.
unfoldable pub try_from : String → Result ScheduleRunStatus
try_from value =
    if str_eq value "queued"
    then ok queued
    else if str_eq value "materializing"
    then ok materializing
    else if str_eq value "started"
    then ok started
    else if str_eq value "skipped"
    then ok skipped
    else if str_eq value "coalesced"
    then ok coalesced
    else err invalid_state

-- `status as usize`: the position in the declaration.
abbrev pub index : ScheduleRunStatus → ℕ
index queued = 0
index materializing = 1
index started = 2
index skipped = 3
index coalesced = 4

abbrev pub same : ScheduleRunStatus → ScheduleRunStatus → Bool
same a b = index a == index b
