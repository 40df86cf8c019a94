-- ===== src/Worker/Sound.antt =====
-- The statements that the worker's transactions share keep the database sound, and so do the
-- settling of a revoke and the renewal of a lease.
use durable_workflows.Base.{◌≡◌, ◌∙◌, refl, ap, arith, Bool, true, false, Option, String}
use durable_workflows.Base.Int.{ℤ}
use durable_workflows.Clock.{DbMillis}
use durable_workflows.Status.Workflow
use durable_workflows.Status.Workflow.{WorkflowStatus}
use durable_workflows.Status.Activity
use durable_workflows.Status.Activity.{ActivityStatus}
use durable_workflows.Status.Attempt.{AttemptOutcome}
use durable_workflows.Rows.{WorkflowRow, ActivityRow, ActivityAttemptRow}
use durable_workflows.Tx.{Db}
use durable_workflows.Events.{Env}
use durable_workflows.Sound.{WorkflowOk, WorkflowStep, ActivityOk, ActivityStep, AttemptStep}
use durable_workflows.Sound.Keeps.{
  Keeps, Keeps-bind, Keeps-lift, Keeps-reads, Keeps-or_fail, Keeps-update_workflows,
  Keeps-update_activities, Keeps-update_attempts, Keeps-ensure_fenced, keeps_rules,
}
use durable_workflows.Parents.Sound.{Keeps-append_system_event, Keeps-append_activity_history}
use durable_workflows.Worker.{
  ActivityClaim, fenced_activity, leased, unfinished, waits_for, finish_attempt, close_attempt,
  blocked_row, readied_row, block_workflow, wake_workflow, dead_letter,
}
use durable_workflows.Worker.Revoke.{settled_row, still_cancelling, settle_revoked}
use durable_workflows.Worker.Heartbeat.{renewed_row, heartbeat_once}

waiting :
    (row : ActivityRow) (w : WorkflowRow)
    → waits_for row w ≡ true
    → w.status ≡ WorkflowStatus.waiting_activity
waiting row w e = ground arith

blocked-WorkflowOk :
    (c m : String) (now : DbMillis) (w : WorkflowRow)
    → w.status ≡ WorkflowStatus.waiting_activity
    → WorkflowOk w
    → WorkflowOk (blocked_row c m now w)
blocked-WorkflowOk c m now w e sound = record {
  lease = ground (arith, sound.lease);
  wait = ground (arith, sound.wait);
  paired = sound.paired;
  timer = λ h. ground arith;
  completed = sound.completed ∙ ap Workflow.is_terminal e;
}

readied-WorkflowOk :
    (now : DbMillis) (w : WorkflowRow)
    → w.status ≡ WorkflowStatus.waiting_activity
    → WorkflowOk w
    → WorkflowOk (readied_row now w)
readied-WorkflowOk now w e sound = record {
  lease = ground (arith, sound.lease);
  wait = refl;
  paired = refl;
  timer = λ h. ground arith;
  completed = sound.completed ∙ ap Workflow.is_terminal e;
}

blocked-WorkflowStep :
    (c m : String) (now : DbMillis) (w : WorkflowRow)
    → w.status ≡ WorkflowStatus.waiting_activity
    → WorkflowStep w (blocked_row c m now w)
blocked-WorkflowStep c m now w e = record {
  id = refl;
  kind = refl;
  version = refl;
  input_json = refl;
  reaches = ground arith;
  settled = λ h. ground arith;
}

readied-WorkflowStep :
    (now : DbMillis) (w : WorkflowRow)
    → w.status ≡ WorkflowStatus.waiting_activity
    → WorkflowStep w (readied_row now w)
readied-WorkflowStep now w e = record {
  id = refl;
  kind = refl;
  version = refl;
  input_json = refl;
  reaches = ground arith;
  settled = λ h. ground arith;
}

-- A row that is not terminal may go to any status but `cancelling` and `cancelled`.
pub live-ActivityStep :
    (r r' : ActivityRow)
    → Activity.is_terminal r.status ≡ false
    → Activity.same r.status ActivityStatus.cancelling ≡ false
    → Activity.same r'.status ActivityStatus.cancelling ≡ false
    → Activity.same r'.status ActivityStatus.cancelled ≡ false
    → r'.id ≡ r.id
    → r'.workflow_id ≡ r.workflow_id
    → r'.payload_json ≡ r.payload_json
    → ActivityStep r r'
live-ActivityStep r r' e c f g i w p = record {
  id = i;
  workflow_id = w;
  payload_json = p;
  reaches = ground arith;
  settled = λ h. ground arith;
}

pub running-ActivityStep :
    (r r' : ActivityRow)
    → r.status ≡ ActivityStatus.running
    → Activity.same r'.status ActivityStatus.cancelling ≡ false
    → Activity.same r'.status ActivityStatus.cancelled ≡ false
    → r'.id ≡ r.id
    → r'.workflow_id ≡ r.workflow_id
    → r'.payload_json ≡ r.payload_json
    → ActivityStep r r'
running-ActivityStep r r' e =
    live-ActivityStep r r' (ap Activity.is_terminal e)
      (ap (λ s. Activity.same s ActivityStatus.cancelling) e)

pub fenced-running :
    (claim : ActivityClaim) (r : ActivityRow)
    → fenced_activity claim r ≡ true
    → r.status ≡ ActivityStatus.running
fenced-running claim r e = ground arith

settled-ActivityOk :
    (t : Bool) (row : ActivityRow) (now : DbMillis) (r : ActivityRow)
    → ActivityOk (settled_row t row now r)
settled-ActivityOk true row now r = record { lease = refl; completed = refl }
settled-ActivityOk false row now r = record { lease = refl; completed = refl }

settled-ActivityStep :
    (t : Bool) (row : ActivityRow) (now : DbMillis) (r : ActivityRow)
    → r.status ≡ ActivityStatus.cancelling
    → ActivityStep r (settled_row t row now r)
settled-ActivityStep t row now r e = record {
  id = refl;
  workflow_id = refl;
  payload_json = refl;
  reaches = ground arith;
  settled = λ h. ground arith;
}

renewed-ActivityOk :
    (at now : DbMillis) (r : ActivityRow)
    → Activity.holds_lease r.status ≡ true
    → ActivityOk r
    → ActivityOk (renewed_row at now r)
renewed-ActivityOk at now r e sound = record {
  lease = ground (arith, sound.lease);
  completed = sound.completed;
}

renewed-ActivityStep :
    (at now : DbMillis) (r : ActivityRow)
    → Activity.holds_lease r.status ≡ true
    → ActivityStep r (renewed_row at now r)
renewed-ActivityStep at now r e = record {
  id = refl;
  workflow_id = refl;
  payload_json = refl;
  reaches = ground arith;
  settled = λ h. ground arith;
}

-- An unfinished attempt may change but for what it is an attempt of.
pub unfinished-AttemptStep :
    (i n : ℤ) (t : String) (a a' : ActivityAttemptRow)
    → unfinished i n t a ≡ true
    → a'.activity_id ≡ a.activity_id
    → a'.attempt_number ≡ a.attempt_number
    → a'.started_at ≡ a.started_at
    → AttemptStep a a'
unfinished-AttemptStep i n t a a' e p q s = record {
  activity_id = p;
  attempt_number = q;
  started_at = s;
  settled = λ h. ground arith;
}

module _ {old : Db} where
  pub Keeps-finish_attempt :
      (claim : ActivityClaim) (o : AttemptOutcome) (c m p : Option String) (now : DbMillis)
      → Keeps old (finish_attempt claim o c m p now)
  unfolding finish_attempt
  Keeps-finish_attempt claim o c m p now =
      Keeps-bind _ _
        (Keeps-update_attempts _ _ (λ a e. unfinished-AttemptStep _ _ _ a _ e refl refl refl))
        (λ n. Keeps-ensure_fenced n)

  Keeps-close_attempt :
      (row : ActivityRow) (o : AttemptOutcome) (m : String) (now : DbMillis)
      → Keeps old (close_attempt row o m now)
  unfolding close_attempt
  Keeps-close_attempt row o m now = Keeps-bind _ _ (Keeps-or_fail _ _) (λ t.
      Keeps-bind _ _
        (Keeps-update_attempts _ _ (λ a e. unfinished-AttemptStep _ _ _ a _ e refl refl refl))
        (λ n. Keeps-ensure_fenced n))

  pub Keeps-block_workflow :
      (row : ActivityRow) (c m : String) (now : DbMillis) → Keeps old (block_workflow row c m now)
  unfolding block_workflow
  Keeps-block_workflow row c m now =
      Keeps-bind _ _
        (Keeps-update_workflows _ _ (λ w e. blocked-WorkflowOk c m now w (waiting row w e))
          (λ w e. blocked-WorkflowStep c m now w (waiting row w e)))
        (λ n. Keeps-bind _ _ (Keeps-ensure_fenced n) (λ u. Keeps-append_system_event _ _ _ _ _ _))

  pub Keeps-wake_workflow :
      (env : Env) (claim : ActivityClaim) (o : String) (now : DbMillis)
      → Keeps old (wake_workflow env claim o now)
  unfolding wake_workflow
  Keeps-wake_workflow env claim o now =
      search
        (
          keeps_rules,
          Keeps-update_workflows _ _ (λ w e. readied-WorkflowOk now w (waiting claim.row w e))
              (λ w e. readied-WorkflowStep now w (waiting claim.row w e)),
        )
        depth 30

  pub Keeps-dead_letter :
      (claim : ActivityClaim) (row : ActivityRow) (c m : String) (now : DbMillis)
      → Keeps old (dead_letter claim row c m now)
  unfolding dead_letter
  Keeps-dead_letter claim row c m now =
      Keeps-bind _ _
        (Keeps-update_activities _ _ (λ r e sound. record { lease = refl; completed = refl })
          (λ r e. running-ActivityStep r _ (fenced-running claim r e) refl refl refl refl refl))
        (λ n. Keeps-bind _ _ (Keeps-ensure_fenced n) (λ u.
          Keeps-bind _ _ (Keeps-finish_attempt claim _ _ _ _ now)
            (λ u'. Keeps-block_workflow row c m now)))

  pub Keeps-settle_revoked :
      (row : ActivityRow) (o : AttemptOutcome) (m : String) (now : DbMillis)
      → Keeps old (settle_revoked row o m now)
  unfolding settle_revoked
  Keeps-settle_revoked row o m now = Keeps-bind _ _ (Keeps-or_fail _ _) (λ t.
      Keeps-bind _ _ (Keeps-reads _) (λ f. Keeps-bind _ _ (Keeps-or_fail _ _) (λ w.
        Keeps-bind _ _ (Keeps-close_attempt row o m now) (λ u.
          Keeps-bind _ _
            (Keeps-update_activities _ _ (λ r e sound. settled-ActivityOk _ row now r)
              (λ r e. settled-ActivityStep _ row now r (cancelling row t r e)))
            (λ n.
              Keeps-bind _ _ (Keeps-ensure_fenced n)
                (λ u'. Keeps-append_activity_history _ _ _ _))))))
    where
      cancelling :
          (row : ActivityRow) (t : String) (r : ActivityRow)
          → still_cancelling row t r ≡ true
          → r.status ≡ ActivityStatus.cancelling
      cancelling row t r e = ground arith

  pub Keeps-heartbeat_once :
      (env : Env) (claim : ActivityClaim) → Keeps old (heartbeat_once env claim)
  unfolding heartbeat_once
  Keeps-heartbeat_once env claim = Keeps-bind _ _ (Keeps-or_fail _ _) (λ at.
      Keeps-bind _ _ (Keeps-reads _) (λ f. Keeps-bind _ _ (Keeps-or_fail _ _) (λ row.
        Keeps-bind _ _
          (Keeps-update_activities _ _ (λ r e. renewed-ActivityOk at env.now r (holds r e))
            (λ r e. renewed-ActivityStep at env.now r (holds r e)))
          (λ n. Keeps-bind _ _ (Keeps-ensure_fenced n) (λ u.
            Keeps-bind _ _
              (Keeps-update_attempts _ _ (λ a e. unfinished-AttemptStep _ _ _ a _ e refl refl refl))
              (λ n'. Keeps-bind _ _ (Keeps-ensure_fenced n') (λ u'. Keeps-lift _)))))))
    where
      holds : (r : ActivityRow) → leased claim r ≡ true → Activity.holds_lease r.status ≡ true
      holds r e = ground arith
