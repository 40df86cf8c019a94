-- ===== src/Store/Recover.antt =====
-- The start that recovers a failed or blocked workflow by a successor (`recoverable_start_in` and
-- `hand_waiting_parents_to_successor` of durable-workflows/src/store.rs).
pub mod Sound
use durable_workflows.Base.{
  Bool, true, false, not, ◌&&◌, if◌then◌else◌, Option, none, some, List, [], ◌∷◌, String,
}
use durable_workflows.Base.Int.{ℤ, pos, ◌==ℤ◌}
use durable_workflows.Base.Table.{first_where, select_where}
use durable_workflows.Base.Outcome.{database}
use durable_workflows.Clock.{DbMillis}
use durable_workflows.Status.Workflow
use durable_workflows.Status.Workflow.{WorkflowStatus}
use durable_workflows.Status.Activity
use durable_workflows.Status.Activity.{ActivityStatus}
use durable_workflows.Status.Waits.{WaitKind}
use durable_workflows.Rows.{WorkflowRow, ActivityRow}
use durable_workflows.Tx.{
  Tx, pure, reads, or_fail, update_workflows, update_activities, ensure_fenced, is_int, ◌>>=◌, ◌>>◌,
}
use durable_workflows.Events.{Env, append_system_event}
use durable_workflows.Parents.{failure, awaits, is_kind, wake_waiting_parents_on_child_terminal}
use durable_workflows.Store.{
  StartOptions, PreparedStart, StartOutcome, deduplication_key, restarted,
}
use durable_workflows.Store.Start.{has_key, insert_prepared}
use durable_workflows.Store.Generations.{lock_newest_generation}
use durable_workflows.Store.Cancel.{cancelled_row, cancel_owned_descendants}

abbrev superseded_reason : String
superseded_reason = "a successor recovery generation was started"

abbrev pub reattached_row : ℤ → DbMillis → WorkflowRow → WorkflowRow
reattached_row successor now r = record r {
  wait_kind = some WaitKind.child;
  wait_reference_id = some successor;
  updated_at = now;
}

-- The parent as it was read, still waiting for the superseded row.
abbrev pub still_awaits : WorkflowRow → ℤ → WorkflowRow → Bool
still_awaits parent superseded r =
    r.id ==ℤ parent.id
    && Workflow.same r.status parent.status
    && is_kind r.wait_kind WaitKind.child
    && is_int r.wait_reference_id superseded

reattach_each : Env → List WorkflowRow → ℤ → ℤ → DbMillis → Tx Unit
reattach_each env [] superseded successor now = pure tt
reattach_each env (parent ∷ parents) superseded successor now = do
  changed ← update_workflows (still_awaits parent superseded) (reattached_row successor now)
  ensure_fenced changed
  append_system_event parent.id none "child_wait_reattached"
      (some (env.reattached_metadata superseded successor))
      (some (env.reattached_reason superseded successor)) now
  reattach_each env parents superseded successor now

reattach : Env → ℤ → ℤ → DbMillis → Tx Unit
unfolding reattach_each
reattach env superseded successor now = do
  parents ← reads (λ db. select_where (awaits superseded) db.workflows)
  reattach_each env parents superseded successor now

-- Another version of the workflow does not answer for the one that the parents started.
unfoldable pub hand_waiting_parents_to_successor : Env → WorkflowRow → ℤ → ℤ → DbMillis → Tx Unit
unfolding reattach
hand_waiting_parents_to_successor env superseded successor version now =
    if version ==ℤ superseded.version
    then reattach env superseded.id successor now
    else wake_waiting_parents_on_child_terminal env superseded
        (failure "child_superseded" (env.superseded_message superseded.id successor version)) now

abbrev pub dead_lettered_of : ℤ → ActivityRow → Bool
dead_lettered_of workflow_id r =
    r.workflow_id ==ℤ workflow_id && Activity.same r.status ActivityStatus.dead_lettered

abbrev pub is_blocked : WorkflowRow → WorkflowRow → Bool
is_blocked row r = r.id ==ℤ row.id && Workflow.same r.status WorkflowStatus.blocked

-- A superseded or restarted row keeps its wait columns.
abbrev pub superseded_row : DbMillis → WorkflowRow → WorkflowRow
superseded_row now r = record r {
  status = WorkflowStatus.cancelled;
  lease_owner = none;
  lease_token = none;
  lease_expires_at = none;
  updated_at = now;
  completed_at = some now;
}

supersede : Env → WorkflowRow → StartOutcome → ℤ → DbMillis → Tx Unit
unfolding hand_waiting_parents_to_successor
supersede env latest successor version now = do
  changed ← update_workflows (is_blocked latest) (superseded_row now)
  ensure_fenced changed
  append_system_event latest.id none "workflow_superseded_by_recovery" none (some superseded_reason)
      now
  hand_waiting_parents_to_successor env latest successor.workflow_id version now
  cancel_owned_descendants env latest superseded_reason none now

supersede_if_blocked : Env → WorkflowRow → StartOutcome → ℤ → DbMillis → Tx Unit
unfolding supersede
supersede_if_blocked env latest successor version now =
    if Workflow.same latest.status WorkflowStatus.blocked
    then supersede env latest successor version now
    else pure tt

abbrev pub root_for : WorkflowRow → ℤ
root_for row = elim row.root_workflow_id [ none ↦ row.id | some root ↦ root ]

-- The successor goes in first, and then what it replaces is closed.
recover : Env → PreparedStart → StartOptions → ℤ → WorkflowRow → Tx StartOutcome
unfolding supersede_if_blocked
recover env prepared options root latest = do
  successor ← insert_prepared env prepared (restarted options root latest.id)
  update_activities (dead_lettered_of latest.id) (cancelled_row env.now)
  supersede_if_blocked env latest successor prepared.version env.now
  pure successor

recover_if_needed : Env → PreparedStart → StartOptions → ℤ → WorkflowRow → Tx StartOutcome
unfolding recover
recover_if_needed env prepared options root latest =
    if not (Workflow.is_start_recoverable latest.status)
    then pure (record { workflow_id = latest.id; inserted = false })
    else recover env prepared options root latest

start_or_recover : Env → PreparedStart → StartOptions → Option WorkflowRow → Tx StartOutcome
unfolding recover_if_needed
start_or_recover env prepared options none = insert_prepared env prepared options
start_or_recover env prepared options (some original) = do
  newest ← reads (λ db. lock_newest_generation db.workflows original)
  latest ← or_fail newest database
  recover_if_needed env prepared options (root_for original) latest

start_keyed : Env → PreparedStart → StartOptions → Option String → Tx StartOutcome
unfolding start_or_recover
start_keyed env prepared options none = insert_prepared env prepared options
start_keyed env prepared options (some key) = do
  original ← reads (λ db. first_where (has_key prepared.kind key) db.workflows)
  start_or_recover env prepared options original

unfoldable pub recoverable_start : Env → PreparedStart → StartOptions → Tx StartOutcome
unfolding start_keyed
recoverable_start env prepared options =
    start_keyed env prepared options (deduplication_key options)
