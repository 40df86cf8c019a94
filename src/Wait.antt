-- ===== src/Wait.antt =====
-- The persisted wait of a workflow (durable-workflows/src/persistence/wait.rs): the `wait_kind` and
-- `wait_reference_id` columns, read by one parser and written by one changeset. Typed ids
-- (durable-workflows/src/ids.rs) are their `i64`; `new_id` is the check of their constructor.
pub mod Columns
use durable_workflows.Base.{ℕ, Option, none, some, ltb, if◌then◌else◌}
use durable_workflows.Base.Int.{ℤ, pos, negsuc, leb_ℤ}
use durable_workflows.Base.Outcome.{Result, ok, err, invalid_state, invalid_id, ◌>>=◌}
use durable_workflows.Status.Waits.{WaitKind}

unfoldable pub new_id : ℤ → Result ℤ
new_id value = if leb_ℤ value (pos 0) then err (invalid_id value) else ok value

-- `u32::try_from` of a signed integer, with the error the caller maps it to.
unfoldable pub u32_try_from : ℤ → Result ℕ
u32_try_from (pos n) = if ltb 4_294_967_295 n then err invalid_state else ok n
u32_try_from (negsuc n) = err invalid_state

pub data Wait : Type 0 where
  timer : (command_sequence : ℕ) → Wait
  activity : (id : ℤ) → Wait
  child : (id : ℤ) → Wait
  approval : (id : ℤ) → Wait

parse_kind : WaitKind → ℤ → Result Wait
unfolding new_id u32_try_from
parse_kind WaitKind.timer reference = do
  command_sequence ← u32_try_from reference
  ok (timer command_sequence)
parse_kind WaitKind.activity reference = do id ← new_id reference; ok (activity id)
parse_kind WaitKind.child reference = do id ← new_id reference; ok (child id)
parse_kind WaitKind.approval reference = do id ← new_id reference; ok (approval id)

unfoldable pub parse : Option WaitKind → Option ℤ → Result (Option Wait)
unfolding parse_kind
parse none none = ok none
parse (some kind) (some reference) = do wait ← parse_kind kind reference; ok (some wait)
parse (some kind) none = err invalid_state
parse none (some reference) = err invalid_state

abbrev pub kind : Wait → WaitKind
kind (timer n) = WaitKind.timer
kind (activity id) = WaitKind.activity
kind (child id) = WaitKind.child
kind (approval id) = WaitKind.approval

abbrev pub reference_id : Wait → ℤ
reference_id (timer n) = pos n
reference_id (activity id) = id
reference_id (child id) = id
reference_id (approval id) = id

-- `WaitColumns`: both columns are written from one wait, or both are cleared.
abbrev pub WaitColumns : Type 0
WaitColumns = record { wait_kind : Option WaitKind; wait_reference_id : Option ℤ }

abbrev pub on : Wait → WaitColumns
on wait = record { wait_kind = some (kind wait); wait_reference_id = some (reference_id wait) }

abbrev pub cleared : WaitColumns
cleared = record { wait_kind = none; wait_reference_id = none }
