-- ===== src/Coordinator/Commit/Sound.antt =====
-- Every commit keeps the database sound.
use durable_workflows.Base.{
  ℕ, ◌≡◌, ◌||◌, ◌∙◌, refl, sym, ap, arith, Bool, true, false, Option, some, String,
}
use durable_workflows.Base.Int.{ℤ, pos}
use durable_workflows.Clock.{DbMillis}
use durable_workflows.Status.Workflow
use durable_workflows.Status.Workflow.{WorkflowStatus}
use durable_workflows.Wait.{Wait, kind}
use durable_workflows.Wait.Columns.{u32_try_from_inv}
use durable_workflows.Rows.{WorkflowRow}
use durable_workflows.Tx.{Db}
use durable_workflows.Events.{Env}
use durable_workflows.Sound.{WorkflowOk, WorkflowStep, wait_fits, is_settled}
use durable_workflows.Sound.Keeps.{
  Keeps, Keeps-bind, Keeps-lift, Keeps-lift-bind, Keeps-update_workflows, Keeps-ensure_fenced,
  Keeps-reads, Keeps-or_fail, Keeps-next_event_sequence, Keeps-append_event, Keeps-insert_approval,
  Keeps-insert_activity,
}
use durable_workflows.Parents.Sound.{Keeps-append_history, Keeps-wake_waiting_parents}
use durable_workflows.Coordinator.{CoordinatorConfig, ClaimedRow, ActivityCommand, fenced}
use durable_workflows.Coordinator.Commit.{
  continued_row, completed_row, waiting_row, sleeping_row, commit_continue, commit_complete,
  commit_sleep, lock_fence, commit_approval, commit_activity,
}

pub fenced-running :
    (id : ℤ) (token : String) (r : WorkflowRow)
    → fenced id token r ≡ true
    → r.status ≡ WorkflowStatus.running
fenced-running id token r e = ground arith

continued-WorkflowOk :
    (claim : ClaimedRow) (d : ℤ) (fair : Bool) (s : String) (at now : DbMillis) (r : WorkflowRow)
    → r.status ≡ WorkflowStatus.running
    → WorkflowOk r
    → WorkflowOk (continued_row claim d fair s at now r)
continued-WorkflowOk claim d fair s at now r e sound = record {
  lease = refl;
  wait = ground (arith, sound.wait);
  paired = sound.paired;
  timer = λ h. ground arith;
  completed = sound.completed ∙ ap Workflow.is_terminal e;
}

completed-WorkflowOk :
    (d : ℤ) (o : String) (now : DbMillis) (r : WorkflowRow)
    → r.status ≡ WorkflowStatus.running
    → WorkflowOk r
    → WorkflowOk (completed_row d o now r)
completed-WorkflowOk d o now r e sound = record {
  lease = refl;
  wait = ground (arith, sound.wait);
  paired = sound.paired;
  timer = λ h. ground arith;
  completed = refl;
}

-- The statuses of the waiting transitions but `sleeping`, each with its wait.
abbrev pub waits_as : WorkflowStatus → Wait → Bool
waits_as WorkflowStatus.sleeping w = false
waits_as WorkflowStatus.paused w = false
waits_as WorkflowStatus.cancelled w = false
waits_as s w = wait_fits s (some (kind w))

pub waiting-WorkflowOk :
    (claim : ClaimedRow) (s : WorkflowStatus) (w : Wait) (st : String) (c d : ℤ) (now : DbMillis)
    (r : WorkflowRow)
    → waits_as s w ≡ true
    → is_settled s ≡ false
    → r.status ≡ WorkflowStatus.running
    → WorkflowOk r
    → WorkflowOk (waiting_row claim s w st c d now r)
waiting-WorkflowOk claim s w st c d now r fits unsettled e sound = record {
  lease = ground arith;
  wait = ground arith;
  paired = refl;
  timer = λ h. ground arith;
  completed = sound.completed ∙ ap Workflow.is_terminal e ∙ ground arith;
}

sleeping-WorkflowOk :
    (claim : ClaimedRow) (n : ℕ) (st : String) (at c d : ℤ) (now : DbMillis) (r : WorkflowRow)
    → c ≡ pos n
    → r.status ≡ WorkflowStatus.running
    → WorkflowOk r
    → WorkflowOk (sleeping_row claim (Wait.timer n) st at c d now r)
sleeping-WorkflowOk claim n st at c d now r q e sound = record {
  lease = refl;
  wait = refl;
  paired = refl;
  timer = λ h. ap some (sym q);
  completed = sound.completed ∙ ap Workflow.is_terminal e;
}

-- A commit leads a running row to any status but `paused` and `cancelled`, and keeps its identity.
pub committed-WorkflowStep :
    (r r' : WorkflowRow)
    → r.status ≡ WorkflowStatus.running
    → Workflow.same r'.status WorkflowStatus.paused
        || Workflow.same r'.status WorkflowStatus.cancelled
      ≡ false
    → r'.id ≡ r.id
    → r'.kind ≡ r.kind
    → r'.version ≡ r.version
    → r'.input_json ≡ r.input_json
    → WorkflowStep r r'
committed-WorkflowStep r r' e f i k v j = record {
  id = i;
  kind = k;
  version = v;
  input_json = j;
  reaches = ground arith;
  settled = λ h. ground arith;
}

module _ {old : Db} where
  pub Keeps-commit_continue :
      (env : Env) (config : CoordinatorConfig) (claim : ClaimedRow) (d : ℤ) (s : String)
      → Keeps old (commit_continue env config claim d s)
  unfolding commit_continue
  Keeps-commit_continue env config claim d s = Keeps-bind _ _ (Keeps-lift _) (λ at.
      Keeps-bind _ _
        (Keeps-update_workflows _ _
          (λ r e. continued-WorkflowOk claim d _ s at env.now r (fenced-running _ _ r e))
          (λ r e. committed-WorkflowStep r _ (fenced-running _ _ r e) refl refl refl refl refl))
        (λ n.
          Keeps-bind _ _ (Keeps-ensure_fenced n)
            (λ u. Keeps-bind _ _ (Keeps-next_event_sequence _) (λ q. Keeps-append_event _))))

  pub Keeps-commit_complete :
      (env : Env) (claim : ClaimedRow) (d : ℤ) (o : String)
      → Keeps old (commit_complete env claim d o)
  unfolding commit_complete
  Keeps-commit_complete env claim d o =
      Keeps-bind _ _
        (Keeps-update_workflows _ _
          (λ r e. completed-WorkflowOk d o env.now r (fenced-running _ _ r e))
          (λ r e. committed-WorkflowStep r _ (fenced-running _ _ r e) refl refl refl refl refl))
        (λ n. Keeps-bind _ _ (Keeps-ensure_fenced n) (λ u.
          Keeps-bind _ _ (Keeps-append_history _ _ _)
            (λ u'. Keeps-wake_waiting_parents env claim.row _ env.now)))

  pub Keeps-commit_sleep :
      (env : Env) (claim : ClaimedRow) (d : ℤ) (s : String) (at : ℤ)
      → Keeps old (commit_sleep env claim d s at)
  unfolding commit_sleep
  Keeps-commit_sleep env claim d s at = Keeps-lift-bind _ _ (λ n q.
      Keeps-bind _ _
        (Keeps-update_workflows _ _
          (λ r e.
            sleeping-WorkflowOk claim n s at _ d env.now r (u32_try_from_inv _ n q).0
              (fenced-running _ _ r e))
          (λ r e. committed-WorkflowStep r _ (fenced-running _ _ r e) refl refl refl refl refl))
        (λ c. Keeps-bind _ _ (Keeps-ensure_fenced c) (λ u. Keeps-append_history _ _ _)))

  Keeps-lock_fence : (claim : ClaimedRow) → Keeps old (lock_fence claim)
  unfolding lock_fence
  Keeps-lock_fence claim = Keeps-bind _ _ (Keeps-reads _) (λ r. Keeps-or_fail _ _)

  pub Keeps-commit_approval :
      (env : Env) (claim : ClaimedRow) (d : ℤ) (s a : String) (at : Option ℤ)
      → Keeps old (commit_approval env claim d s a at)
  unfolding commit_approval
  Keeps-commit_approval env claim d s a at = Keeps-bind _ _ (Keeps-lock_fence claim) (λ f.
      Keeps-bind _ _ (Keeps-insert_approval _) (λ id.
        Keeps-bind _ _
          (Keeps-update_workflows _ _
            (λ r e.
              waiting-WorkflowOk claim WorkflowStatus.waiting_approval (Wait.approval id) s _ d
                env.now r refl refl (fenced-running _ _ r e))
            (λ r e. committed-WorkflowStep r _ (fenced-running _ _ r e) refl refl refl refl refl))
          (λ c. Keeps-bind _ _ (Keeps-ensure_fenced c) (λ u. Keeps-append_history _ _ _))))

  pub Keeps-commit_activity :
      (env : Env) (claim : ClaimedRow) (d : ℤ) (s : String) (a : ActivityCommand)
      → Keeps old (commit_activity env claim d s a)
  unfolding commit_activity
  Keeps-commit_activity env claim d s a = Keeps-bind _ _ (Keeps-lock_fence claim) (λ f.
      Keeps-bind _ _ (Keeps-lift _) (λ m. Keeps-bind _ _ (Keeps-lift _) (λ t.
        Keeps-bind _ _ (Keeps-lift _) (λ l.
          Keeps-bind _ _ (Keeps-insert_activity _ (record { lease = refl; completed = refl }))
            (λ id.
              Keeps-bind _ _
                (Keeps-update_workflows _ _
                  (λ r e.
                    waiting-WorkflowOk claim WorkflowStatus.waiting_activity (Wait.activity id) s _
                      d env.now r refl refl (fenced-running _ _ r e))
                  (λ r e.
                    committed-WorkflowStep r _ (fenced-running _ _ r e) refl refl refl refl refl))
                (λ c. Keeps-bind _ _ (Keeps-ensure_fenced c) (λ u. Keeps-append_history _ _ _)))))))
