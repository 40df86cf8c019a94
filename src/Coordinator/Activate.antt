-- ===== src/Coordinator/Activate.antt =====
-- An activation (`activate_one` and `activate_claim_inner` in
-- durable-workflows/src/runtime/coordinator.rs): the claim, the step of the handler between the
-- transactions, and the commit of its transition or of a failure. The step and the registries are
-- arguments, and so is what other processes commit between two transactions.
use durable_workflows.Base.{
  Bool, true, false, not, ◌&&◌, if◌then◌else◌, Option, none, some, List, String,
}
use durable_workflows.Base.Int.{ℤ, ◌==ℤ◌, ltb_ℤ}
use durable_workflows.Base.Table.{first_by, select_where}
use durable_workflows.Base.Outcome.{
  Result, ok, err, DurableError, invalid_definition, definition_mismatch, invalid_state,
  fenced_write,
}
use durable_workflows.Rows.{WorkflowEventRow}
use durable_workflows.Tx.{Db, Tx, is_text}
use durable_workflows.Events.{Env, WorkflowEvent, decode_event}
use durable_workflows.Coordinator.{CoordinatorConfig, ClaimedRow}
use durable_workflows.Coordinator.Claim.{claim_row}
use durable_workflows.Coordinator.Failure.{record_activation_failure}
use durable_workflows.Coordinator.Child.{
  StoredTransition, run_activity, run_child, commit_on_connection,
}

-- How the step ends: the handler panics (with the text of the failure), runs out of time, or returns.
pub data Stepped : Type 0 where
  panicked : String → Stepped
  timed_out : Stepped
  returned : Result StoredTransition → Stepped

-- The registries of the coordinator, its handlers, and the texts of its failures.
pub record Runtime : Type 0 where
  pub step_stored : ClaimedRow → WorkflowEvent → Stepped
  pub contains_workflow : String → ℤ → Bool
  pub contains_activity : String → ℤ → Bool
  pub topic_for : String → ℤ → Option String
  pub child_not_registered : String → ℤ → String
  pub activity_not_registered : String → ℤ → String
  pub topic_mismatch : String → ℤ → String → Option String → String
  pub error_text : DurableError → String
  pub is_transient : DurableError → Bool

-- A transaction on the database that it finds: a rolled back one leaves it as it is.
abbrev pub finish : {A : Type 0} → Result (A × Db) → Db → Result A × Db
finish (ok (a, db')) db = (ok a, db')
finish (err e) db = (err e, db)

abbrev pub run_tx : {A : Type 0} → Tx A → Db → Result A × Db
run_tx m db = finish (m db) db

abbrev sequence_gt : Option ℤ → ℤ → Bool
sequence_gt none delivered = false
sequence_gt (some s) delivered = ltb_ℤ delivered s

abbrev delivery : WorkflowEventRow → ℤ
delivery e = elim e.delivery_sequence [ none ↦ e.sequence | some s ↦ s ]

abbrev delivered_first : WorkflowEventRow → WorkflowEventRow → Bool
delivered_first a b = ltb_ℤ (delivery a) (delivery b)

-- The first event of the workflow that it has not consumed.
unfoldable pub next_delivery_event : ℤ → ℤ → Db → Option WorkflowEventRow
next_delivery_event workflow_id delivered db = first_by delivered_first (
    select_where (λ e. e.workflow_id ==ℤ workflow_id && sequence_gt e.delivery_sequence delivered)
      db.events)

-- Why a transition is not committed at all.
unfoldable pub refusal : Runtime → StoredTransition → Option String
refusal rt (run_child state child) =
    if rt.contains_workflow child.kind child.version
    then none
    else some (rt.child_not_registered child.kind child.version)
refusal rt (run_activity state activity) =
    if not (rt.contains_activity activity.kind activity.version)
    then some (rt.activity_not_registered activity.kind activity.version)
    else if is_text (rt.topic_for activity.kind activity.version) activity.topic
    then none
    else some (
        rt.topic_mismatch activity.kind activity.version activity.topic
          (rt.topic_for activity.kind activity.version))
refusal rt transition = none

module _ (env : Env) (config : CoordinatorConfig) (rt : Runtime) (claim : ClaimedRow)
    (meanwhile : Db → Db) where
  unfoldable pub fail_activation : String → Db → Result (Unit {0}) × Db
  fail_activation message db =
      run_tx (record_activation_failure env config claim message) (meanwhile db)

  -- The errors of a transition that the handler asked for are failures of the activation.
  unfoldable pub after_commit : Result (Unit {0}) × Db → Result (Unit {0}) × Db
  unfolding fail_activation
  after_commit (ok u, db) = (ok u, db)
  after_commit (err definition_mismatch, db) =
      fail_activation (rt.error_text definition_mismatch) db
  after_commit (err invalid_definition, db) = fail_activation (rt.error_text invalid_definition) db
  after_commit (err e, db) = (err e, db)

  unfoldable pub commit_unless :
      WorkflowEventRow → StoredTransition → Option String → Db → Result (Unit {0}) × Db
  unfolding after_commit
  commit_unless event transition (some message) db = fail_activation message db
  commit_unless event transition none db =
      after_commit (run_tx (commit_on_connection env config claim event transition) (meanwhile db))

  unfoldable pub after_step : WorkflowEventRow → Stepped → Db → Result (Unit {0}) × Db
  unfolding commit_unless refusal
  after_step event (panicked message) db = fail_activation message db
  after_step event timed_out db = fail_activation "step exceeded step_timeout" db
  after_step event (returned (err e)) db = fail_activation (rt.error_text e) db
  after_step event (returned (ok transition)) db =
      commit_unless event transition (refusal rt transition) db

  unfoldable pub step_on : WorkflowEventRow → Result WorkflowEvent → Db → Result (Unit {0}) × Db
  unfolding after_step
  step_on event (err e) db = (err e, db)
  step_on event (ok input) db = after_step event (rt.step_stored claim input) db

  unfoldable pub activate_on : Option WorkflowEventRow → Db → Result (Unit {0}) × Db
  unfolding step_on
  activate_on none db = (err invalid_state, db)
  activate_on (some event) db = step_on event (decode_event env event) db

  unfoldable pub activate_claim_inner : Db → Result (Unit {0}) × Db
  unfolding activate_on
  activate_claim_inner db =
      activate_on (next_delivery_event claim.row.id claim.row.delivered_event_sequence db) db

-- A lost fence and a transient error end the activation and nothing else.
abbrev is_benign : Runtime → DurableError → Bool
is_benign rt fenced_write = true
is_benign rt e = rt.is_transient e

abbrev pub skip_benign : Runtime → ℤ → Result (Unit {0}) × Db → Result (Option ℤ) × Db
skip_benign rt id (ok u, db) = (ok (some id), db)
skip_benign rt id (err e, db) = (if is_benign rt e then ok (some id) else err e, db)

unfoldable pub activate_claimed :
    Env
    → CoordinatorConfig
    → Runtime
    → (Db → Db)
    → Result (Option ClaimedRow) × Db
    → Result (Option ℤ) × Db
activate_claimed env config rt meanwhile (err e, db) = (err e, db)
activate_claimed env config rt meanwhile (ok none, db) = (ok none, db)
activate_claimed env config rt meanwhile (ok (some claim), db) =
    skip_benign rt claim.row.id (activate_claim_inner env config rt claim meanwhile (meanwhile db))

unfoldable pub activate_one :
    Env
    → CoordinatorConfig
    → Runtime
    → List (String × ℤ)
    → String
    → (ℤ → Bool)
    → (ℤ → Bool)
    → (Db → Db)
    → Db
    → Result (Option ℤ) × Db
unfolding activate_claimed
activate_one env config rt definitions worker_id held held' meanwhile db =
    activate_claimed env config rt meanwhile
      (run_tx (claim_row env config definitions worker_id held held') db)
