-- ===== src/Admin/Pause/Sound.antt =====
-- A pause changes rows only as the program may.
use durable_workflows.Base.{◌≡◌, ◌||◌, refl, ap, arith, not, true, false, Option, none, some}
use durable_workflows.Base.Int.{ℤ}
use durable_workflows.Clock.{DbMillis}
use durable_workflows.Status.Workflow
use durable_workflows.Status.Workflow.{WorkflowStatus}
use durable_workflows.Status.Activity
use durable_workflows.Status.Activity.{ActivityStatus}
use durable_workflows.Wait.{Wait}
use durable_workflows.Rows.{WorkflowRow, ActivityRow}
use durable_workflows.Tx.{Db}
use durable_workflows.Events.{Env}
use durable_workflows.Sound.{WorkflowOk, ActivityOk}
use durable_workflows.Sound.Keeps.{
  Keeps-pure, Keeps-reads, Keeps-or_fail, Keeps-lift, Keeps-bind, Keeps-ensure_fenced,
}
use durable_workflows.System.Change.{ActivityChange}
use durable_workflows.System.Allows.{
  Allows, Allows-Keeps, Allows-bind, Allows-require-bind, Allows-update_workflows,
  Allows-update_activities,
}
use durable_workflows.Store.Cancel.Sound.{live-WorkflowChange, unchanged-live, held_as-holds_lease}
use durable_workflows.Admin.{Operator}
use durable_workflows.Admin.Sound.{Keeps-lock_workflow, Keeps-append_operator_event}
use durable_workflows.Admin.Pause.{
  paused_activity, pause_running, pause_as, pause_found, pause_activity, pause_waited, paused_row,
  pause_locked, pause_workflow,
}

paused_activity-ActivityOk :
    (o : Operator) (m : ℤ) (now : DbMillis) (r : ActivityRow)
    → Activity.holds_lease r.status ≡ true
    → ActivityOk r
    → ActivityOk (paused_activity o m now r)
paused_activity-ActivityOk o m now r e sound = record {
  lease = ground (arith, sound.lease);
  completed = ground (arith, sound.completed);
}

paused_activity-ActivityChange :
    (o : Operator) (m : ℤ) (now : DbMillis) (r : ActivityRow)
    → Activity.holds_lease r.status ≡ true
    → ActivityChange r (paused_activity o m now r)
paused_activity-ActivityChange o m now r e = record {
  id = refl;
  workflow_id = refl;
  payload_json = refl;
  reaches = ground arith;
  closed = λ h. ground arith;
}

paused-WorkflowOk :
    (now : DbMillis) (r : WorkflowRow)
    → Workflow.is_terminal r.status ≡ false
    → WorkflowOk r
    → WorkflowOk (paused_row now r)
paused-WorkflowOk now r live sound = record {
  lease = refl;
  wait = ground arith;
  paired = sound.paired;
  timer = sound.timer;
  completed = ground (arith, sound.completed);
}

module _ {old : Db} where
  Allows-pause_running :
      (o : Operator) (a : ActivityRow) (now : DbMillis)
      → Activity.holds_lease a.status ≡ true
      → Allows old (pause_running o a now)
  unfolding pause_running
  Allows-pause_running o a now h =
      Allows-bind _ _ (Allows-Keeps _ (λ db. Keeps-or_fail _ _)) (λ token.
        Allows-bind _ _ (Allows-Keeps _ (λ db. Keeps-or_fail _ _)) (λ m.
          Allows-bind _ _
            (Allows-update_activities _ _
              (λ r e. paused_activity-ActivityOk o m now r (held_as-holds_lease a token r h e))
              (λ r e. paused_activity-ActivityChange o m now r (held_as-holds_lease a token r h e)))
            (λ n. Allows-Keeps _ (λ db. Keeps-ensure_fenced n))))

  Allows-pause_as :
      (s : ActivityStatus) (o : Operator) (a : ActivityRow) (now : DbMillis)
      → a.status ≡ s
      → Allows old (pause_as s o a now)
  unfolding pause_as
  Allows-pause_as ActivityStatus.running o a now e =
      Allows-pause_running o a now (ap Activity.holds_lease e)
  Allows-pause_as _ o a now e = Allows-Keeps _ (λ db. Keeps-pure _)

  Allows-pause_found :
      (o : Operator) (a : Option ActivityRow) (now : DbMillis) → Allows old (pause_found o a now)
  unfolding pause_found
  Allows-pause_found o none now = Allows-Keeps _ (λ db. Keeps-pure _)
  Allows-pause_found o (some a) now = Allows-pause_as a.status o a now refl

  Allows-pause_waited :
      (o : Operator) (w : Option Wait) (now : DbMillis) → Allows old (pause_waited o w now)
  unfolding pause_waited pause_activity
  Allows-pause_waited o (some (Wait.activity id)) now =
      Allows-bind _ _ (Allows-Keeps _ (λ db. Keeps-reads _)) (λ a. Allows-pause_found o a now)
  Allows-pause_waited o (some _) now = Allows-Keeps _ (λ db. Keeps-pure _)
  Allows-pause_waited o none now = Allows-Keeps _ (λ db. Keeps-pure _)

  Allows-pause_locked :
      (env : Env) (o : Operator) (w : WorkflowRow) → Allows old (pause_locked env o w)
  unfolding pause_locked
  Allows-pause_locked env o w =
      Allows-require-bind
        (not (Workflow.same w.status WorkflowStatus.paused || Workflow.is_terminal w.status)) _ _
        (λ e.
          let live : Workflow.is_terminal w.status ≡ false = ground (arith, e) in
          Allows-bind _ _ (Allows-Keeps _ (λ db. Keeps-lift _)) (λ wait.
            Allows-bind _ _ (Allows-pause_waited o wait env.now) (λ u.
              Allows-bind _ _
                (Allows-update_workflows _ _
                  (λ r k. paused-WorkflowOk env.now r (unchanged-live w r live k))
                  (λ r k. live-WorkflowChange r _ (unchanged-live w r live k) refl refl refl refl))
                (λ n. Allows-Keeps _ (λ db.
                  Keeps-bind _ _ (Keeps-ensure_fenced n)
                    (λ fenced. Keeps-append_operator_event _ _ _ _))))))

  pub Allows-pause_workflow :
      (env : Env) (o : Operator) (w : ℤ) → Allows old (pause_workflow env o w)
  unfolding pause_workflow
  Allows-pause_workflow env o w =
      Allows-bind _ _ (Allows-Keeps _ (λ db. Keeps-lock_workflow w))
        (λ row. Allows-pause_locked env o row)
