-- ===== src/Store/Start.antt =====
-- The insert of a started workflow with its first event: `insert_started`
-- (durable-workflows/src/persistence/workflows.rs) and `insert_prepared_untraced` (store.rs). The two
-- unique keys of the table decide whether a row is inserted (dialect/postgres.rs).
pub mod Sound
pub mod Leaves
pub mod Keys
use durable_workflows.Base.{
  Bool, true, false, ◌&&◌, ◌==◌, if◌then◌else◌, String, str_eq, Option, none, some,
}
use durable_workflows.Base.Int.{ℤ, pos}
use durable_workflows.Base.Table.{first_where, count_where}
use durable_workflows.Base.Outcome.{invalid_state, conflict}
use durable_workflows.Rows.{WorkflowRow}
use durable_workflows.Status.Workflow.{WorkflowStatus}
use durable_workflows.Tx.{
  Db, Tx, pure, reads, require, or_fail, push_workflow, append_event, eq_int, is_text, ◌>>=◌, ◌>>◌,
}
use durable_workflows.Events.{Env}
use durable_workflows.Store.{
  StartOptions, PreparedStart, StartOutcome, deduplication_key, root_workflow_id,
  restarted_from_workflow_id,
}

-- SQL `deduplication_key = value` where the value may be NULL.
abbrev pub eq_text : Option String → Option String → Bool
eq_text x none = false
eq_text x (some v) = is_text x v

abbrev pub has_key : String → String → WorkflowRow → Bool
has_key kind key r = str_eq r.kind kind && is_text r.deduplication_key key

unfoldable pub find_by_deduplication_key : String → String → Tx (Option WorkflowRow)
find_by_deduplication_key kind key = reads (λ db. first_where (has_key kind key) db.workflows)

pub data WorkflowInsert : Type 0 where
  inserted : ℤ → WorkflowInsert
  deduplication_conflict : WorkflowInsert

abbrev pub same_start : WorkflowRow → WorkflowRow → Bool
same_start w r = str_eq r.kind w.kind && eq_text r.deduplication_key w.deduplication_key

-- The row that was restarted has a successor already.
abbrev pub same_restart : WorkflowRow → WorkflowRow → Bool
same_restart w r = eq_int r.restarted_from_workflow_id w.restarted_from_workflow_id

insert_unless : WorkflowRow → Bool → Tx WorkflowInsert
insert_unless row true = pure WorkflowInsert.deduplication_conflict
insert_unless row false = do
  unused ← reads (λ db. count_where (same_restart row) db.workflows == 0)
  require unused conflict
  id ← push_workflow row
  pure (WorkflowInsert.inserted id)

abbrev is_used : WorkflowRow → Db → Bool
is_used row db = if count_where (same_start row) db.workflows == 0 then false else true

-- `dialect::insert_workflow`.
unfoldable pub insert_workflow : WorkflowRow → Tx WorkflowInsert
unfolding insert_unless
insert_workflow row = do used ← reads (is_used row); insert_unless row used

pub data StartedInsert : Type 0 where
  inserted : ℤ → StartedInsert
  existing : WorkflowRow → StartedInsert

unfoldable pub started_as : Env → WorkflowRow → WorkflowInsert → Tx StartedInsert
unfolding find_by_deduplication_key
started_as env row (WorkflowInsert.inserted id) = do
  append_event (record {
    workflow_id = id;
    sequence = pos 1;
    delivery_sequence = some (pos 1);
    event_type = "started";
    metadata_json = none;
    actor_type = some "system";
    actor_id = none;
    reason = none;
    created_at = env.now;
  })
  pure (StartedInsert.inserted id)
started_as env row WorkflowInsert.deduplication_conflict = do
  key ← or_fail row.deduplication_key invalid_state
  found ← find_by_deduplication_key row.kind key
  other ← or_fail found conflict
  pure (StartedInsert.existing other)

unfoldable pub insert_started : Env → WorkflowRow → Tx StartedInsert
unfolding insert_workflow started_as
insert_started env row = do outcome ← insert_workflow row; started_as env row outcome

abbrev available : Option ℤ → ℤ → ℤ
available none now = now
available (some at) now = at

-- The row that a start inserts.
abbrev pub started_row : Env → PreparedStart → StartOptions → WorkflowRow
started_row env prepared options = record {
  id = env.assigned_id;
  kind = prepared.kind;
  version = prepared.version;
  input_json = prepared.input_json;
  state_json = prepared.state_json;
  state_version = pos 1;
  status = WorkflowStatus.ready;
  result_json = none;
  error_category = none;
  error_message = none;
  wait_kind = none;
  wait_reference_id = none;
  available_at = available options.available_at env.now;
  activation_attempts = pos 0;
  max_activation_attempts = pos 8;
  consecutive_continuations = pos 0;
  lease_owner = none;
  lease_token = none;
  lease_expires_at = none;
  deduplication_key = deduplication_key options;
  schedule_run_id = options.schedule_run_id;
  root_workflow_id = root_workflow_id options;
  restarted_from_workflow_id = restarted_from_workflow_id options;
  parent_workflow_id = none;
  parent_command_sequence = none;
  command_sequence = pos 0;
  delivered_event_sequence = pos 0;
  created_at = env.now;
  updated_at = env.now;
  completed_at = none;
}

abbrev pub outcome_of : StartedInsert → StartOutcome
outcome_of (StartedInsert.inserted id) = record { workflow_id = id; inserted = true }
outcome_of (StartedInsert.existing row) = record { workflow_id = row.id; inserted = false }

insert_fresh : Env → PreparedStart → StartOptions → Tx StartOutcome
unfolding insert_started
insert_fresh env prepared options = do
  outcome ← insert_started env (started_row env prepared options)
  pure (outcome_of outcome)

insert_unless_found : Env → PreparedStart → StartOptions → Option WorkflowRow → Tx StartOutcome
unfolding insert_fresh
insert_unless_found env prepared options (some row) =
    pure (record { workflow_id = row.id; inserted = false })
insert_unless_found env prepared options none = insert_fresh env prepared options

abbrev keyed_row : String → Option String → Db → Option WorkflowRow
keyed_row kind none db = none
keyed_row kind (some key) db = first_where (has_key kind key) db.workflows

-- A key that a row already has starts nothing.
unfoldable pub insert_prepared : Env → PreparedStart → StartOptions → Tx StartOutcome
unfolding insert_unless_found
insert_prepared env prepared options = do
  found ← reads (keyed_row prepared.kind (deduplication_key options))
  insert_unless_found env prepared options found
