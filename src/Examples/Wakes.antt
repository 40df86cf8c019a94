-- ===== src/Examples/Wakes.antt =====
-- The wake of the paused workflow that waits for workflow 1.
use durable_workflows.Base.{◌≡◌, refl, false, none}
use durable_workflows.Base.Int.{pos}
use durable_workflows.Base.Member.{Memᴰ}
use durable_workflows.Base.Outcome.{ok}
use durable_workflows.Rows.{WorkflowRow}
use durable_workflows.Tx.{Db, committed}
use durable_workflows.Parents.{output, awaits, wake_waiting_parents_on_child_terminal}
use durable_workflows.Parents.Woken.{wake_waiting_parents-none_left}
use durable_workflows.Examples.World.{env, running, paused, world}

abbrev woken_world : Db
woken_world =
    committed (wake_waiting_parents_on_child_terminal env running (output "1") (pos 1_000) world)
      world

wake_commits :
    wake_waiting_parents_on_child_terminal env running (output "1") (pos 1_000) world
    ≡ ok (tt, woken_world)
unfolding wake_waiting_parents_on_child_terminal durable_workflows.Tx.◌>>=◌
    durable_workflows.Wait.parse durable_workflows.Events.new_child_result
    durable_workflows.Text.ensure_size durable_workflows.Text.width durable_workflows.Tx.or_fail
    durable_workflows.Tx.checked_succ durable_workflows.Base.Int.◌+ℤ◌
    durable_workflows.Events.append_system_event durable_workflows.Tx.next_event_sequence
    durable_workflows.Tx.append_event durable_workflows.Tx.require
    durable_workflows.Tx.update_workflows durable_workflows.Tx.ensure_fenced
wake_commits = refl

abbrev told : WorkflowRow
told = record paused {
  wait_kind = none;
  wait_reference_id = none;
  available_at = pos 1_000;
  updated_at = pos 1_000;
}

told_is_there : Memᴰ told woken_world.workflows
unfolding wake_waiting_parents_on_child_terminal durable_workflows.Tx.◌>>=◌
    durable_workflows.Wait.parse durable_workflows.Events.new_child_result
    durable_workflows.Text.ensure_size durable_workflows.Text.width durable_workflows.Tx.or_fail
    durable_workflows.Tx.checked_succ durable_workflows.Base.Int.◌+ℤ◌
    durable_workflows.Events.append_system_event durable_workflows.Tx.next_event_sequence
    durable_workflows.Tx.append_event durable_workflows.Tx.require
    durable_workflows.Tx.update_workflows durable_workflows.Tx.ensure_fenced
told_is_there = Memᴰ.tail (Memᴰ.head refl)

wake_waiting_parents-none_left_example : awaits (pos 1) told ≡ false
wake_waiting_parents-none_left_example =
    wake_waiting_parents-none_left env running (output "1") (pos 1_000) world woken_world
      wake_commits told told_is_there
