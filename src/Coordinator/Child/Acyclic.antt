-- ===== src/Coordinator/Child/Acyclic.antt =====
-- A workflow never comes to wait for itself or for one of its ancestors.
use durable_workflows.Base.{
  ◌≡◌, ◌∙◌, ap, refl, true, some, String, All, ◌∷◌, ◌⊎◌, Bool-cases, inl, inr,
}
use durable_workflows.Base.Int.{ℤ, ◌==ℤ◌}
use durable_workflows.Base.Table.{first_where}
use durable_workflows.Base.Outcome.{Result, ok, err, DurableError}
use durable_workflows.Rows.{WorkflowRow}
use durable_workflows.Tx.{Db, reads, or_fail, lift, require, pure, ◌>>=◌}
use durable_workflows.Tx.Refuses.{Fails, Fails-first, Fails-continue}
use durable_workflows.Events.{Env}
use durable_workflows.Store.{validate_key}
use durable_workflows.Store.Start.{has_key, find_by_deduplication_key}
use durable_workflows.Store.Generations.{lock_newest_generation}
use durable_workflows.Coordinator.{ClaimedRow}
use durable_workflows.Coordinator.Commit.{command_of}
use durable_workflows.Coordinator.Child.{
  ChildWorkflowCommand, ChildStart, child_key_of, root_of_child, lock_workflow_by_id, keyed_child,
  resolve_child, insert_child, is_caller_or_ancestor, refuse_ancestor, commit_child,
}
use durable_workflows.Coordinator.Child.Ancestors.{
  LinksEarlier, LeadsTo, is_caller_or_ancestor_total,
}

Result-cases :
    {A : Type 0} (r : Result A) → ((x : DurableError) × (r ≡ err x)) ⊎ ((a : A) × (r ≡ ok a))
Result-cases (err x) = inl (x, refl)
Result-cases (ok a) = inr (a, refl)

-- An insert either fails or gives the newest generation of the row that has the key.
insert_child-existing :
    (env : Env) (claim : ClaimedRow) (child : ChildWorkflowCommand) (db : Db) (key : String)
    (command root : ℤ) (keyed locked newest : WorkflowRow)
    → first_where (has_key child.kind key) db.workflows ≡ some keyed
    → first_where (λ r. r.id ==ℤ keyed.id) db.workflows ≡ some locked
    → lock_newest_generation db.workflows locked ≡ some newest
    → Fails (insert_child env child key claim.row.id command root db)
      ⊎ (insert_child env child key claim.row.id command root db
          ≡ ok (ChildStart.existing newest, db))
unfolding insert_child keyed_child resolve_child lock_workflow_by_id find_by_deduplication_key ◌>>=◌
    reads or_fail lift require pure
insert_child-existing env claim child db key command root keyed locked newest e e' e'' =
    elim (Result-cases (validate_key key)) [
      | inl (x, bad) ↦ inl (rw bad tt)
      | inr (u, good) ↦
          rw (good, e)
            (rw e' (
              rw e'' (elim (Bool-cases (newest.version ==ℤ child.version)) [
                | inl fits ↦ inr (rw fits refl)
                | inr differs ↦ inl (rw differs tt)
              ])))
    ]

refuse_ancestor-Fails :
    (claim : ClaimedRow) (row : WorkflowRow) (db : Db)
    → is_caller_or_ancestor db.workflows claim.row row.id ≡ some (ok true)
    → Fails (refuse_ancestor claim (ChildStart.existing row) db)
unfolding refuse_ancestor ◌>>=◌ reads or_fail lift require
refuse_ancestor-Fails claim row db e = rw e tt

refused_after :
    (env : Env) (claim : ClaimedRow) (d : ℤ) (s : String) (child : ChildWorkflowCommand)
    (newest : WorkflowRow) (db : Db)
    → insert_child env child
        (child_key_of env claim child)
        claim.row.id
        (command_of claim)
        (root_of_child claim)
        db
      ≡ ok (ChildStart.existing newest, db)
    → Fails (refuse_ancestor claim (ChildStart.existing newest) db)
    → Fails (commit_child env claim d s child db)
unfolding commit_child ◌>>=◌
refused_after env claim d s child newest db e h = rw e (Fails-continue _ _ h)

-- When the key of the command belongs to a workflow whose newest generation is the caller or one that
-- the caller's links lead to, the commit fails: no workflow comes to wait for itself or for an
-- ancestor. The rows were inserted after the rows they link to.
pub commit_child-LeadsTo :
    (env : Env) (claim : ClaimedRow) (d : ℤ) (s : String) (child : ChildWorkflowCommand) (db : Db)
    (keyed locked newest : WorkflowRow)
    → All LinksEarlier (claim.row ∷ db.workflows)
    → first_where (has_key child.kind (child_key_of env claim child)) db.workflows ≡ some keyed
    → first_where (λ r. r.id ==ℤ keyed.id) db.workflows ≡ some locked
    → lock_newest_generation db.workflows locked ≡ some newest
    → LeadsTo db.workflows claim.row newest.id claim.row.id
    → Fails (commit_child env claim d s child db)
unfolding commit_child
commit_child-LeadsTo env claim d s child db keyed locked newest linked e e' e'' l =
    let walked = is_caller_or_ancestor_total db.workflows claim.row linked newest.id in
    elim (insert_child-existing env claim child db (child_key_of env claim child) (command_of claim)
      (root_of_child claim) keyed locked newest e e' e'') [
        | inl failed ↦ Fails-first _ _ db failed
        | inr found ↦
            refused_after env claim d s child newest db found
              (refuse_ancestor-Fails claim newest db (walked.1 ∙ ap some (walked.2.1 l)))
      ]
