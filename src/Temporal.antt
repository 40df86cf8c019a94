-- ===== src/Temporal.antt =====
-- Timers and approval expiries (durable-workflows/src/runtime/temporal.rs). `held` says which rows
-- other transactions have locked: a `SKIP LOCKED` read leaves them out.
pub mod Sound
use durable_workflows.Base.{
  ℕ, Bool, true, false, not, ◌&&◌, ◌||◌, ◌==◌, Option, none, some, List, [], ◌∷◌, if◌then◌else◌,
  str_eq,
}
use durable_workflows.Base.Int.{ℤ, pos, ◌==ℤ◌, leb_ℤ, ltb_ℤ}
use durable_workflows.Base.Table.{first_where, select_where, first_by}
use durable_workflows.Base.Outcome
use durable_workflows.Base.Outcome.{Result, ok, err, invalid_state, database}
use durable_workflows.Clock.{DbMillis}
use durable_workflows.Status.Workflow
use durable_workflows.Status.Workflow.{WorkflowStatus}
use durable_workflows.Status.Approval
use durable_workflows.Status.Approval.{ApprovalStatus}
use durable_workflows.Status.Waits.{WaitKind}
use durable_workflows.Wait.{Wait, timer, approval, activity, child, u32_try_from}
use durable_workflows.Rows.{WorkflowRow, ApprovalRow}
use durable_workflows.Tx.{
  Db, Tx, pure, lift, reads, or_fail, require, update_approvals, ensure_fenced, is_some, ◌>>=◌,
  ◌>>◌,
}
use durable_workflows.Events.{
  Env, WorkflowEvent, timer_fired, approval_expired, append_delivery_event,
}
use durable_workflows.Parents.{row_wait, is_kind, clear_wait}

-- `ORDER BY a, b`: the earlier key first, then the smaller id.
abbrev pub precedes : ℤ → ℤ → ℤ → ℤ → Bool
precedes key id key' id' = ltb_ℤ key key' || key ==ℤ key' && ltb_ℤ id id'

abbrev pub or_min : Option DbMillis → DbMillis
or_min none = pos 0
or_min (some t) = t

-- The order of `(available_at, id)`.
abbrev pub sooner : WorkflowRow → WorkflowRow → Bool
sooner r s = precedes r.available_at r.id s.available_at s.id

unfoldable pub wait_sequence : Option Wait → WorkflowRow → Result ℕ
wait_sequence (some (timer command_sequence)) workflow =
    if not (pos command_sequence ==ℤ workflow.command_sequence)
    then err invalid_state
    else u32_try_from workflow.command_sequence
wait_sequence (some (approval id)) workflow = u32_try_from workflow.command_sequence
wait_sequence (some (activity id)) workflow = err invalid_state
wait_sequence (some (child id)) workflow = err invalid_state
wait_sequence none workflow = err invalid_state

unfoldable pub wait_command_sequence : WorkflowRow → Result ℕ
wait_command_sequence workflow =
    Outcome.◌>>=◌ (row_wait workflow) (λ wait. wait_sequence wait workflow)

abbrev pub timer_due : DbMillis → WorkflowRow → Bool
timer_due now r =
    Workflow.same r.status WorkflowStatus.sleeping
    && is_kind r.wait_kind WaitKind.timer
    && leb_ℤ r.available_at now

unfoldable pub fire_timer : Env → DbMillis → Option WorkflowRow → Tx (Option ℤ)
fire_timer env now none = pure none
fire_timer env now (some workflow) = do
  command_sequence ← lift (wait_command_sequence workflow)
  append_delivery_event env workflow "timer_fired" (timer_fired command_sequence) now
  clear_wait workflow now
  pure (some workflow.id)

abbrev pub unheld : (ℤ → Bool) → WorkflowRow → Bool
unheld held r = not (held r.id)

-- `TimerMaterializer::materialize_one`: the row is read and locked before it is used.
unfoldable pub timer_materialize_one : Env → (ℤ → Bool) → DbMillis → Tx (Option ℤ)
timer_materialize_one env held now = do
  due ←
      reads
        (λ db. first_by sooner (select_where (λ r. timer_due now r && unheld held r) db.workflows))
  fire_timer env now due

abbrev pub expiry_due : DbMillis → ApprovalRow → Bool
expiry_due now a =
    Approval.same a.status ApprovalStatus.pending
    && is_some a.expires_at
    && leb_ℤ (or_min a.expires_at) now

-- The order of `(expires_at, id)`.
abbrev pub expires_sooner : ApprovalRow → ApprovalRow → Bool
expires_sooner a b = precedes (or_min a.expires_at) a.id (or_min b.expires_at) b.id

abbrev pub waits_on_approval : Option Wait → ℤ → Bool
waits_on_approval (some (approval id)) a = id ==ℤ a
waits_on_approval w a = false

unfoldable pub expire_approval : Env → DbMillis → WorkflowRow → ApprovalRow → Tx (Option ℤ)
expire_approval env now workflow approval_row = do
  require (Workflow.awaits_approval workflow.status) invalid_state
  wait ← lift (row_wait workflow)
  require
      (waits_on_approval wait approval_row.id
        && str_eq workflow.kind approval_row.kind
        && workflow.version ==ℤ approval_row.version)
      invalid_state
  command_sequence ← lift (wait_command_sequence workflow)
  require (pos command_sequence ==ℤ approval_row.command_sequence) invalid_state
  append_delivery_event env workflow "approval_expired" (approval_expired command_sequence) now
  changed ←
      update_approvals
        (λ a. a.id ==ℤ approval_row.id && Approval.same a.status ApprovalStatus.pending)
        (λ a. record a { status = ApprovalStatus.expired; resolved_at = some now })
  ensure_fenced changed
  clear_wait workflow now
  pure (some approval_row.id)

-- The transaction for one candidate: it looks again at the locked rows.
unfoldable pub expire_candidate : Env → DbMillis → ℤ → ℤ → Tx (Option ℤ)
expire_candidate env now approval_id workflow_id = do
  workflow_row ← reads (λ db. first_where (λ w. w.id ==ℤ workflow_id) db.workflows)
  workflow ← or_fail workflow_row database
  approval_row ← reads (λ db. first_where (λ a. a.id ==ℤ approval_id) db.approvals)
  found ← or_fail approval_row database
  if not (expiry_due now found) then pure none else expire_approval env now workflow found

-- The read before the transaction.
unfoldable pub expiry_candidate : DbMillis → Db → Option ApprovalRow
expiry_candidate now db = first_by expires_sooner (select_where (expiry_due now) db.approvals)
