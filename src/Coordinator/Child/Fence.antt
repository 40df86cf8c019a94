-- ===== src/Coordinator/Child/Fence.antt =====
-- A claim that has lost its row commits no child, though it may have inserted one.
use durable_workflows.Base.{
  ◌≡◌, refl, arith, Bool, false, ◌++◌, Option, none, some, List, [], ◌∷◌, String,
}
use durable_workflows.Base.Int.{ℤ}
use durable_workflows.Base.Table.{first_where}
use durable_workflows.Rows.{WorkflowRow}
use durable_workflows.Status.Workflow.{WorkflowStatus}
use durable_workflows.Tx.{Db}
use durable_workflows.Tx.Leaves.{
  Leaves, Leaves-pure, Leaves-bind, Leaves-lift, Leaves-reads, Leaves-or_fail, Leaves-require,
}
use durable_workflows.Tx.Refuses.{Fails, Fails-first, Fails-rest, Fails-last_update}
use durable_workflows.Events.{Env}
use durable_workflows.Store.Start.{StartedInsert, find_by_deduplication_key}
use durable_workflows.Store.Start.Leaves.{Leaves-insert_started}
use durable_workflows.Coordinator.{ClaimedRow}
use durable_workflows.Coordinator.Commit.{fence}
use durable_workflows.Coordinator.Child.{
  ChildWorkflowCommand, ChildStart, child_row, lock_workflow_by_id, keyed_child, resolve_child,
  insert_child, refuse_ancestor, set_child_wait, commit_child,
}

-- No row of the table runs under the claim's token.
abbrev pub NoRow : ClaimedRow → List WorkflowRow → Type 0
NoRow claim rs = first_where (fence claim) rs ≡ none

first_where-append_none :
    (p : WorkflowRow → Bool) (w : WorkflowRow) (rs : List WorkflowRow)
    → p w ≡ false
    → first_where p rs ≡ none
    → first_where p (rs ++ w ∷ []) ≡ none
first_where-append_none p w [] e h = ground arith
first_where-append_none p w (r ∷ rs) e h = ground (arith, first_where-append_none p w rs e)

ready_row_unfenced :
    (claim : ClaimedRow) (w : WorkflowRow) → w.status ≡ WorkflowStatus.ready → fence claim w ≡ false
ready_row_unfenced claim w e = ground arith

module _ (env : Env) (claim : ClaimedRow) where
  Leaves-keyed_child :
      (row : WorkflowRow) (found : Option WorkflowRow)
      → row.status ≡ WorkflowStatus.ready
      → Leaves (NoRow claim) (NoRow claim) (keyed_child env row found)
  unfolding keyed_child lock_workflow_by_id
  Leaves-keyed_child row (some keyed) e =
      Leaves-bind _ _ (Leaves-bind _ _ (Leaves-reads _) (λ found. Leaves-or_fail _ _))
        (λ locked. Leaves-pure _)
  Leaves-keyed_child row none e =
      Leaves-insert_started (NoRow claim) row
        (λ rs h. first_where-append_none _ row rs (ready_row_unfenced claim row e) h) env

  Leaves-resolve_child :
      (c : ChildWorkflowCommand) (s : StartedInsert)
      → Leaves (NoRow claim) (NoRow claim) (resolve_child c s)
  unfolding resolve_child
  Leaves-resolve_child c (StartedInsert.inserted id) = Leaves-pure _
  Leaves-resolve_child c (StartedInsert.existing keyed) =
      Leaves-bind _ _ (Leaves-reads _) (λ newest.
        Leaves-bind _ _ (Leaves-or_fail _ _)
          (λ row. Leaves-bind _ _ (Leaves-require _ _) (λ u. Leaves-pure _)))

  Leaves-insert_child :
      (c : ChildWorkflowCommand) (key : String) (p command root : ℤ)
      → Leaves (NoRow claim) (NoRow claim) (insert_child env c key p command root)
  unfolding insert_child find_by_deduplication_key
  Leaves-insert_child c key p command root = Leaves-bind _ _ (Leaves-lift _) (λ u.
      Leaves-bind _ _ (Leaves-reads _) (λ found.
        Leaves-bind _ _ (Leaves-keyed_child (child_row env c key p command root) found refl)
          (λ keyed. Leaves-resolve_child c keyed)))

  Leaves-refuse_ancestor :
      (child : ChildStart) → Leaves (NoRow claim) (NoRow claim) (refuse_ancestor claim child)
  unfolding refuse_ancestor
  Leaves-refuse_ancestor (ChildStart.inserted id) = Leaves-pure _
  Leaves-refuse_ancestor (ChildStart.existing row) = Leaves-bind _ _ (Leaves-reads _) (λ walked.
      Leaves-bind _ _ (Leaves-or_fail _ _)
        (λ answer. Leaves-bind _ _ (Leaves-lift _) (λ ancestor. Leaves-require _ _)))

  pub commit_child_lost :
      (d : ℤ) (s : String) (c : ChildWorkflowCommand) (db : Db)
      → NoRow claim db.workflows
      → Fails (commit_child env claim d s c db)
  unfolding commit_child set_child_wait
  commit_child_lost d s c db h =
      Fails-rest (NoRow claim) (NoRow claim) _ _ db (Leaves-insert_child c _ _ _ _) h
        (λ child db' h'.
          Fails-rest (NoRow claim) (NoRow claim) _ _ db' (Leaves-refuse_ancestor child) h'
            (λ u db'' h''. Fails-first _ _ db'' (Fails-last_update _ _ db'' h'')))
