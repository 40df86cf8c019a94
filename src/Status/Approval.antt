-- ===== src/Status/Approval.antt =====
-- `ApprovalStatus` (durable-workflows/src/persistence/mod.rs): the persisted text of each variant, its parser.
use durable_workflows.Base.{ℕ, String, Bool, List, [], ◌∷◌, ◌==◌, str_eq, if◌then◌else◌}
use durable_workflows.Base.Outcome.{Result, ok, err, invalid_state}

pub data ApprovalStatus : Type 0 where
  pending resolved expired cancelled : ApprovalStatus

-- `ALL`, in the order of the declaration.
abbrev pub all : List ApprovalStatus
all = pending ∷ resolved ∷ expired ∷ cancelled ∷ []

abbrev pub as_str : ApprovalStatus → String
as_str pending = "pending"
as_str resolved = "resolved"
as_str expired = "expired"
as_str cancelled = "cancelled"

-- `TryFrom<&str>`: an unknown text is `InvalidState`.
unfoldable pub try_from : String → Result ApprovalStatus
try_from value =
    if str_eq value "pending"
    then ok pending
    else if str_eq value "resolved"
    then ok resolved
    else if str_eq value "expired"
    then ok expired
    else if str_eq value "cancelled"
    then ok cancelled
    else err invalid_state

-- `status as usize`: the position in the declaration.
abbrev pub index : ApprovalStatus → ℕ
index pending = 0
index resolved = 1
index expired = 2
index cancelled = 3

abbrev pub same : ApprovalStatus → ApprovalStatus → Bool
same a b = index a == index b
