-- ===== src/Status/Waits.antt =====
-- `WaitKind` (durable-workflows/src/persistence/mod.rs): the persisted text of each variant, its parser.
use durable_workflows.Base.{ℕ, String, Bool, List, [], ◌∷◌, ◌==◌, str_eq, if◌then◌else◌}
use durable_workflows.Base.Outcome.{Result, ok, err, invalid_state}

pub data WaitKind : Type 0 where
  timer activity child approval : WaitKind

-- `ALL`, in the order of the declaration.
abbrev pub all : List WaitKind
all = timer ∷ activity ∷ child ∷ approval ∷ []

abbrev pub as_str : WaitKind → String
as_str timer = "timer"
as_str activity = "activity"
as_str child = "child"
as_str approval = "approval"

-- `TryFrom<&str>`: an unknown text is `InvalidState`.
unfoldable pub try_from : String → Result WaitKind
try_from value =
    if str_eq value "timer"
    then ok timer
    else if str_eq value "activity"
    then ok activity
    else if str_eq value "child"
    then ok child
    else if str_eq value "approval"
    then ok approval
    else err invalid_state

-- `status as usize`: the position in the declaration.
abbrev pub index : WaitKind → ℕ
index timer = 0
index activity = 1
index child = 2
index approval = 3

abbrev pub same : WaitKind → WaitKind → Bool
same a b = index a == index b
