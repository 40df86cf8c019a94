-- ===== src/Store/Start/Leaves.antt =====
-- What a start leaves in the table of workflows: the rows it found, with at most its own at their end.
use durable_workflows.Base.{Bool, true, false, List, [], ◌∷◌, ◌++◌}
use durable_workflows.Rows.{WorkflowRow}
use durable_workflows.Events.{Env}
use durable_workflows.Tx.Leaves.{
  Leaves, Leaves-pure, Leaves-bind, Leaves-reads, Leaves-require, Leaves-or_fail,
  Leaves-push_workflow, Leaves-append_event,
}
use durable_workflows.Store.Start.{
  WorkflowInsert, insert_unless, insert_workflow, started_as, insert_started,
  find_by_deduplication_key,
}

module _ (W : List WorkflowRow → Type 0) (w : WorkflowRow)
    (kept : (rs : List WorkflowRow) → W rs → W (rs ++ w ∷ [])) where
  Leaves-insert_unless : (b : Bool) → Leaves W W (insert_unless w b)
  unfolding insert_unless
  Leaves-insert_unless true = Leaves-pure _
  Leaves-insert_unless false = Leaves-bind _ _ (Leaves-reads _) (λ unused.
      Leaves-bind _ _ (Leaves-require _ _)
        (λ u. Leaves-bind _ _ (Leaves-push_workflow {V = W} {W = W} w kept) (λ id. Leaves-pure _)))

  Leaves-insert_workflow : Leaves W W (insert_workflow w)
  unfolding insert_workflow
  Leaves-insert_workflow = Leaves-bind _ _ (Leaves-reads _) (λ used. Leaves-insert_unless used)

  Leaves-started_as : (env : Env) (i : WorkflowInsert) → Leaves W W (started_as env w i)
  unfolding started_as find_by_deduplication_key
  Leaves-started_as env (WorkflowInsert.inserted id) =
      Leaves-bind _ _ (Leaves-append_event _) (λ u. Leaves-pure _)
  Leaves-started_as env WorkflowInsert.deduplication_conflict =
      Leaves-bind _ _ (Leaves-or_fail _ _) (λ key.
        Leaves-bind _ _ (Leaves-reads _)
          (λ found. Leaves-bind _ _ (Leaves-or_fail _ _) (λ other. Leaves-pure _)))

  pub Leaves-insert_started : (env : Env) → Leaves W W (insert_started env w)
  unfolding insert_started
  Leaves-insert_started env = Leaves-bind _ _ Leaves-insert_workflow (λ i. Leaves-started_as env i)
