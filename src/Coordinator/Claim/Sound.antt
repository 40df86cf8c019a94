-- ===== src/Coordinator/Claim/Sound.antt =====
-- A claim, with the recovery before it, keeps the database sound.
use durable_workflows.Base.{◌≡◌, ◌∙◌, refl, ap, arith, Bool, Option, none, some, List, String}
use durable_workflows.Base.Int.{ℤ}
use durable_workflows.Clock.{DbMillis}
use durable_workflows.Status.Workflow
use durable_workflows.Status.Workflow.{WorkflowStatus}
use durable_workflows.Rows.{WorkflowRow}
use durable_workflows.Tx.{Db}
use durable_workflows.Events.{Env}
use durable_workflows.Sound.{WorkflowOk, WorkflowStep}
use durable_workflows.Sound.Keeps.{
  Keeps, Keeps-pure, Keeps-bind, Keeps-lift, Keeps-reads, Keeps-or_fail, Keeps-update_workflows,
  Keeps-ensure_fenced,
}
use durable_workflows.Parents.Sound.{Keeps-append_history}
use durable_workflows.Coordinator.{CoordinatorConfig}
use durable_workflows.Coordinator.Commit.Sound.{committed-WorkflowStep}
use durable_workflows.Coordinator.Claim.{recovered_row, recover, claimed_row, lease_row, claim_row}

recovered-WorkflowOk :
    (now : DbMillis) (r : WorkflowRow)
    → r.status ≡ WorkflowStatus.running
    → WorkflowOk r
    → WorkflowOk (recovered_row now r)
recovered-WorkflowOk now r e sound = record {
  lease = refl;
  wait = ground (arith, sound.wait);
  paired = sound.paired;
  timer = λ h. ground arith;
  completed = sound.completed ∙ ap Workflow.is_terminal e;
}

claimed-WorkflowOk :
    (w t : String) (at now : DbMillis) (r : WorkflowRow)
    → r.status ≡ WorkflowStatus.ready
    → WorkflowOk r
    → WorkflowOk (claimed_row w t at now r)
claimed-WorkflowOk w t at now r e sound = record {
  lease = refl;
  wait = ground (arith, sound.wait);
  paired = sound.paired;
  timer = λ h. ground arith;
  completed = sound.completed ∙ ap Workflow.is_terminal e;
}

claimed-WorkflowStep :
    (w t : String) (at now : DbMillis) (r : WorkflowRow)
    → r.status ≡ WorkflowStatus.ready
    → WorkflowStep r (claimed_row w t at now r)
claimed-WorkflowStep w t at now r e = record {
  id = refl;
  kind = refl;
  version = refl;
  input_json = refl;
  reaches = ground arith;
  settled = λ h. ground arith;
}

module _ {old : Db} where
  Keeps-recover : (env : Env) (o : Option WorkflowRow) → Keeps old (recover env o)
  unfolding recover
  Keeps-recover env none = Keeps-pure tt
  Keeps-recover env (some w) =
      Keeps-bind _ _
        (Keeps-update_workflows _ _ (λ r e. recovered-WorkflowOk env.now r (ground (arith, e)))
          (λ r e. committed-WorkflowStep r _ (ground (arith, e)) refl refl refl refl refl))
        (λ n. Keeps-bind _ _ (Keeps-ensure_fenced n) (λ u. Keeps-append_history _ _ _))

  Keeps-lease_row :
      (env : Env) (w : String) (at : DbMillis) (o : Option WorkflowRow)
      → Keeps old (lease_row env w at o)
  unfolding lease_row
  Keeps-lease_row env w at none = Keeps-pure none
  Keeps-lease_row env w at (some row) =
      Keeps-bind _ _
        (Keeps-update_workflows _ _
          (λ r e. claimed-WorkflowOk w env.uuid at env.now r (ground (arith, e)))
          (λ r e. claimed-WorkflowStep w env.uuid at env.now r (ground (arith, e))))
        (λ n. Keeps-bind _ _ (Keeps-ensure_fenced n) (λ u. Keeps-pure _))

  pub Keeps-claim_row :
      (env : Env) (config : CoordinatorConfig) (definitions : List (String × ℤ)) (w : String)
      (held held' : ℤ → Bool)
      → Keeps old (claim_row env config definitions w held held')
  unfolding claim_row
  Keeps-claim_row env config definitions w held held' = Keeps-bind _ _ (Keeps-lift _) (λ l.
      Keeps-bind _ _ (Keeps-or_fail _ _) (λ at. Keeps-bind _ _ (Keeps-reads _) (λ x.
        Keeps-bind _ _ (Keeps-recover env x)
          (λ u. Keeps-bind _ _ (Keeps-reads _) (λ c. Keeps-lease_row env w at c)))))
