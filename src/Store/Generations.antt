-- ===== src/Store/Generations.antt =====
-- The generations of a workflow: each restart inserts a successor that names the row it was restarted
-- from (`lock_newest_generation` and `lock_successor` of durable-workflows/src/store.rs).
pub mod Ends
use durable_workflows.Base.{ℕ, zero, suc, Bool, Option, none, some, List, length}
use durable_workflows.Base.Table.{first_where}
use durable_workflows.Rows.{WorkflowRow}
use durable_workflows.Tx.{is_int}

abbrev pub restarts : WorkflowRow → WorkflowRow → Bool
restarts row r = is_int r.restarted_from_workflow_id row.id

unfoldable pub lock_successor : List WorkflowRow → WorkflowRow → Option WorkflowRow
lock_successor workflows row = first_where (restarts row) workflows

-- The `while` loop; `none` means that the fuel ran out.
unfoldable pub newest_within : List WorkflowRow → ℕ → WorkflowRow → Option WorkflowRow
newest_within workflows zero row = none
newest_within workflows (suc fuel) row = elim (lock_successor workflows row) [
  | none ↦ some row
  | some successor ↦ newest_within workflows fuel successor
]

-- One round for each row of the table, and one to see that there is no successor.
unfoldable pub lock_newest_generation : List WorkflowRow → WorkflowRow → Option WorkflowRow
unfolding newest_within
lock_newest_generation workflows row = newest_within workflows (suc (length workflows)) row
