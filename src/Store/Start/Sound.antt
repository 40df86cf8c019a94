-- ===== src/Store/Start/Sound.antt =====
-- A start keeps the database sound.
use durable_workflows.Base.{refl, Bool, true, false, Option, none, some}
use durable_workflows.Rows.{WorkflowRow}
use durable_workflows.Tx.{Db}
use durable_workflows.Events.{Env}
use durable_workflows.Sound.{WorkflowOk}
use durable_workflows.Sound.Keeps.{
  Keeps, Keeps-pure, Keeps-bind, Keeps-reads, Keeps-require, Keeps-push_workflow, keeps_rules,
}
use durable_workflows.Store.{StartOptions, PreparedStart}
use durable_workflows.Store.Start.{
  WorkflowInsert, insert_unless, insert_workflow, started_as, started_row, insert_started,
  find_by_deduplication_key, insert_fresh, insert_unless_found, insert_prepared,
}

pub started-WorkflowOk :
    (env : Env) (p : PreparedStart) (o : StartOptions) → WorkflowOk (started_row env p o)
started-WorkflowOk env p o = record {
  lease = refl;
  wait = refl;
  paired = refl;
  timer = λ h. cc;
  completed = refl;
}

module _ {old : Db} where
  Keeps-insert_unless : (w : WorkflowRow) (b : Bool) → WorkflowOk w → Keeps old (insert_unless w b)
  unfolding insert_unless
  Keeps-insert_unless w true sound = Keeps-pure _
  Keeps-insert_unless w false sound = Keeps-bind _ _ (Keeps-reads _) (λ unused.
      Keeps-bind _ _ (Keeps-require _ _)
        (λ u. Keeps-bind _ _ (Keeps-push_workflow w sound) (λ id. Keeps-pure _)))

  Keeps-insert_workflow : (w : WorkflowRow) → WorkflowOk w → Keeps old (insert_workflow w)
  unfolding insert_workflow
  Keeps-insert_workflow w sound =
      Keeps-bind _ _ (Keeps-reads _) (λ used. Keeps-insert_unless w used sound)

  Keeps-started_as :
      (env : Env) (w : WorkflowRow) (i : WorkflowInsert) → Keeps old (started_as env w i)
  unfolding started_as find_by_deduplication_key
  Keeps-started_as env w (WorkflowInsert.inserted id) = search keeps_rules
  Keeps-started_as env w WorkflowInsert.deduplication_conflict = search keeps_rules

  pub Keeps-insert_started :
      (env : Env) (w : WorkflowRow) → WorkflowOk w → Keeps old (insert_started env w)
  unfolding insert_started
  Keeps-insert_started env w sound =
      Keeps-bind _ _ (Keeps-insert_workflow w sound) (λ i. Keeps-started_as env w i)

  Keeps-insert_unless_found :
      (env : Env) (p : PreparedStart) (o : StartOptions) (found : Option WorkflowRow)
      → Keeps old (insert_unless_found env p o found)
  unfolding insert_unless_found insert_fresh
  Keeps-insert_unless_found env p o (some row) = Keeps-pure _
  Keeps-insert_unless_found env p o none =
      Keeps-bind _ _ (Keeps-insert_started env _ (started-WorkflowOk env p o)) (λ s. Keeps-pure _)

  pub Keeps-insert_prepared :
      (env : Env) (p : PreparedStart) (o : StartOptions) → Keeps old (insert_prepared env p o)
  unfolding insert_prepared
  Keeps-insert_prepared env p o =
      Keeps-bind _ _ (Keeps-reads _) (λ found. Keeps-insert_unless_found env p o found)
