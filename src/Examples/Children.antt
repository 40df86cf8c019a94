-- ===== src/Examples/Children.antt =====
-- The theorems on generations, ancestors and starts, on a few rows.
use durable_workflows.Base.{String, ◌≡◌, refl, true, ◌↔◌, Bool, none, some, [], ◌∷◌}
use durable_workflows.Base.Int.{pos}
use durable_workflows.Base.Outcome.{Result, ok}
use durable_workflows.Rows.{WorkflowRow}
use durable_workflows.Tx.{Db, committed}
use durable_workflows.Store.{StartLineage, StartOptions, PreparedStart, StartOutcome}
use durable_workflows.Store.Start.{insert_prepared}
use durable_workflows.Store.Start.Keys.{keys, start, insert_prepared-start}
use durable_workflows.Tx.Refuses.{Fails}
use durable_workflows.Store.Generations.{lock_successor, lock_newest_generation}
use durable_workflows.Store.Generations.Ends.{IsGeneration, lock_newest_generation_total}
use durable_workflows.Coordinator.{ClaimedRow}
use durable_workflows.Coordinator.Child.{ChildWorkflowCommand, is_caller_or_ancestor, commit_child}
use durable_workflows.Coordinator.Child.Ancestors.{LeadsTo, there, up, is_caller_or_ancestor_total}
use durable_workflows.Coordinator.Child.Acyclic.{commit_child-LeadsTo}
use durable_workflows.Examples.World.{env, running, ended, world}

-- A workflow with a key, one that was restarted from it, and a child of the latter.
abbrev origin : WorkflowRow
origin = record ended { deduplication_key = some "key"; completed_at = some (pos 800) }

abbrev successor : WorkflowRow
successor = record running { id = pos 5; restarted_from_workflow_id = some (pos 3) }

abbrev child : WorkflowRow
child = record running { id = pos 6; parent_workflow_id = some (pos 5) }

abbrev family : Db
family = record world { workflows = origin ∷ successor ∷ child ∷ [] }

lock_newest_generation_total_example :
    (newest : WorkflowRow) × (lock_newest_generation family.workflows origin ≡ some newest)
    × IsGeneration family.workflows origin newest
    × (lock_successor family.workflows newest ≡ none)
lock_newest_generation_total_example =
    lock_newest_generation_total family.workflows origin (refl, (refl, (refl, tt)))

is_caller_or_ancestor_total_example :
    (answer : Result Bool) × (is_caller_or_ancestor family.workflows child (pos 3) ≡ some answer)
    × ((answer ≡ ok true) ↔ LeadsTo family.workflows child (pos 3) child.id)
is_caller_or_ancestor_total_example =
    is_caller_or_ancestor_total family.workflows child (refl, (refl, (refl, (refl, tt)))) (pos 3)

abbrev claim : ClaimedRow
claim = record { row = child; lease_token = "token-1" }

-- The child asks for a child with the key of the workflow that its parent was restarted from.
abbrev command : ChildWorkflowCommand
command = record {
  kind = "order";
  version = pos 1;
  input_json = "{}";
  state_json = "{}";
  deduplication_key = some "key";
}

commit_child-LeadsTo_example : Fails (commit_child env claim (pos 2) "{}" command family)
unfolding lock_newest_generation durable_workflows.Store.Generations.newest_within lock_successor
commit_child-LeadsTo_example =
    commit_child-LeadsTo env claim (pos 2) "{}" command family origin origin successor
      (refl, (refl, (refl, (refl, tt)))) refl refl refl (up refl there)

abbrev prepared : PreparedStart
prepared = record { kind = "order"; version = pos 1; input_json = "{}"; state_json = "{}" }

abbrev options : StartOptions
options = record {
  available_at = none;
  schedule_run_id = none;
  lineage = StartLineage.deduplicated "other";
}

unfoldable started : Db
started = committed (insert_prepared env prepared options family) family

abbrev outcome : StartOutcome
outcome = record { workflow_id = pos 90; inserted = true }

family_starts : insert_prepared env prepared options family ≡ ok (outcome, started)
unfolding started insert_prepared durable_workflows.Tx.◌>>=◌ durable_workflows.Tx.require
    durable_workflows.Tx.push_workflow durable_workflows.Tx.append_event
family_starts = refl

insert_prepared-start_example :
    (outcome ≡ (start (keys family.workflows) "order" (some "other") (pos 90)).0)
    × ((kind key : String)
        → keys started.workflows kind key
          ≡ (start (keys family.workflows) "order" (some "other") (pos 90)).1 kind key)
insert_prepared-start_example =
    insert_prepared-start env prepared options family started outcome family_starts
