-- ===== src/Status/Activity.antt =====
-- `ActivityStatus` (durable-workflows/src/persistence/mod.rs): the persisted text of each variant, its parser,
-- and the status sets.
use durable_workflows.Base.{
  ℕ, String, Bool, true, false, List, [], ◌∷◌, ◌==◌, str_eq, if◌then◌else◌, ◌||◌, not,
}
use durable_workflows.Base.Outcome.{Result, ok, err, invalid_state}

pub data ActivityStatus : Type 0 where
  pending running cancelling succeeded dead_lettered cancelled : ActivityStatus

-- `ALL`, in the order of the declaration.
abbrev pub all : List ActivityStatus
all = pending ∷ running ∷ cancelling ∷ succeeded ∷ dead_lettered ∷ cancelled ∷ []

abbrev pub as_str : ActivityStatus → String
as_str pending = "pending"
as_str running = "running"
as_str cancelling = "cancelling"
as_str succeeded = "succeeded"
as_str dead_lettered = "dead_lettered"
as_str cancelled = "cancelled"

-- `TryFrom<&str>`: an unknown text is `InvalidState`.
unfoldable pub try_from : String → Result ActivityStatus
try_from value =
    if str_eq value "pending"
    then ok pending
    else if str_eq value "running"
    then ok running
    else if str_eq value "cancelling"
    then ok cancelling
    else if str_eq value "succeeded"
    then ok succeeded
    else if str_eq value "dead_lettered"
    then ok dead_lettered
    else if str_eq value "cancelled"
    then ok cancelled
    else err invalid_state

-- `status as usize`: the position in the declaration.
abbrev pub index : ActivityStatus → ℕ
index pending = 0
index running = 1
index cancelling = 2
index succeeded = 3
index dead_lettered = 4
index cancelled = 5

abbrev pub same : ActivityStatus → ActivityStatus → Bool
same a b = index a == index b

-- The loop of `set_contains`.
abbrev pub set_contains : List ActivityStatus → ActivityStatus → Bool
set_contains [] status = false
set_contains (x ∷ xs) status = same x status || set_contains xs status

abbrev pub holds_slot : ActivityStatus → Bool
holds_slot pending = false
holds_slot running = true
holds_slot cancelling = true
holds_slot succeeded = false
holds_slot dead_lettered = false
holds_slot cancelled = false

abbrev pub slot_holders : List ActivityStatus
slot_holders = running ∷ cancelling ∷ []

abbrev pub holds_lease : ActivityStatus → Bool
holds_lease pending = false
holds_lease running = true
holds_lease cancelling = true
holds_lease succeeded = false
holds_lease dead_lettered = false
holds_lease cancelled = false

abbrev pub lease_holders : List ActivityStatus
lease_holders = running ∷ cancelling ∷ []

abbrev pub is_terminal : ActivityStatus → Bool
is_terminal pending = false
is_terminal running = false
is_terminal cancelling = false
is_terminal succeeded = true
is_terminal dead_lettered = true
is_terminal cancelled = true

abbrev pub is_non_terminal : ActivityStatus → Bool
is_non_terminal s = not (is_terminal s)

abbrev pub non_terminal : List ActivityStatus
non_terminal = pending ∷ running ∷ cancelling ∷ []
