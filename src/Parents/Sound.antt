-- ===== src/Parents/Sound.antt =====
-- Waking a workflow and its waiting parents keeps every row sound.
use durable_workflows.Base.{
  ◌≡◌, refl, arith, Bool, true, false, not, List, [], ◌∷◌, Option, none, String,
}
use durable_workflows.Base.Int.{ℤ}
use durable_workflows.Clock.{DbMillis}
use durable_workflows.Status.Workflow
use durable_workflows.Status.Workflow.{WorkflowStatus}
use durable_workflows.Rows.{WorkflowRow, ActivityRow}
use durable_workflows.Tx.{Db}
use durable_workflows.Events.{
  Env, WorkflowEvent, append_system_event, append_history, append_activity_history,
  append_delivery_event,
}
use durable_workflows.Sound.{WorkflowOk, WorkflowStep}
use durable_workflows.Sound.Keeps.{
  Keeps, Keeps-if, Keeps-pure, Keeps-bind, Keeps-lift, Keeps-or_fail, Keeps-update_workflows,
  Keeps-ensure_fenced, Keeps-reads, keeps_rules,
}
use durable_workflows.Parents.{
  ChildOutcome, clear_wait, deliver_to_parent, deliver_if_waiting,
  wake_loaded_parent_on_child_terminal, wake_parents, wake_waiting_parents_on_child_terminal, woken,
}

-- The statuses that a wake may find: waiting for something other than an operator, or paused.
abbrev pub is_wakeable : WorkflowStatus → Bool
is_wakeable WorkflowStatus.waiting_activity = true
is_wakeable WorkflowStatus.waiting_child = true
is_wakeable WorkflowStatus.sleeping = true
is_wakeable WorkflowStatus.waiting_approval = true
is_wakeable WorkflowStatus.paused = true
is_wakeable s = false

abbrev woken_row : WorkflowStatus → DbMillis → WorkflowRow → WorkflowRow
woken_row s now r = record r {
  status = woken s;
  wait_kind = none;
  wait_reference_id = none;
  available_at = now;
  updated_at = now;
}

woken-WorkflowOk :
    (s : WorkflowStatus) (now : DbMillis) (r : WorkflowRow)
    → is_wakeable s ≡ true
    → Workflow.same r.status s ≡ true
    → WorkflowOk r
    → WorkflowOk (woken_row s now r)
woken-WorkflowOk s now r k e sound = record {
  lease = ground (arith, sound.lease);
  wait = ground arith;
  paired = refl;
  timer = λ h. ground arith;
  completed = ground (arith, sound.completed);
}

woken-WorkflowStep :
    (s : WorkflowStatus) (now : DbMillis) (r : WorkflowRow)
    → is_wakeable s ≡ true
    → Workflow.same r.status s ≡ true
    → WorkflowStep r (woken_row s now r)
woken-WorkflowStep s now r k e = record {
  id = refl;
  kind = refl;
  version = refl;
  input_json = refl;
  reaches = ground arith;
  settled = λ h. ground arith;
}

child_waiter-is_wakeable :
    (s : WorkflowStatus) → not (Workflow.awaits_child s) ≡ false → is_wakeable s ≡ true
child_waiter-is_wakeable s e = ground arith

module _ {old : Db} where
  pub Keeps-clear_wait :
      (w : WorkflowRow) (now : DbMillis)
      → is_wakeable w.status ≡ true
      → Keeps old (clear_wait w now)
  unfolding clear_wait
  Keeps-clear_wait w now k =
      Keeps-bind _ _
        (Keeps-update_workflows _ _ (λ r e. woken-WorkflowOk w.status now r k (ground (arith, e)))
          (λ r e. woken-WorkflowStep w.status now r k (ground (arith, e))))
        (λ n. Keeps-ensure_fenced n)

  pub Keeps-append_system_event :
      (w : ℤ) (d : Option ℤ) (t : String) (j reason : Option String) (now : DbMillis)
      → Keeps old (append_system_event w d t j reason now)
  unfolding append_system_event
  Keeps-append_system_event w d t j reason now = search keeps_rules

  pub Keeps-append_history :
      (w : ℤ) (t : String) (now : DbMillis) → Keeps old (append_history w t now)
  unfolding append_history
  Keeps-append_history w t now = Keeps-append_system_event _ _ _ _ _ _

  pub Keeps-append_activity_history :
      (r : ActivityRow) (t : String) (reason : Option String) (now : DbMillis)
      → Keeps old (append_activity_history r t reason now)
  unfolding append_activity_history
  Keeps-append_activity_history r t reason now = Keeps-append_system_event _ _ _ _ _ _

  pub Keeps-append_delivery_event :
      (env : Env) (w : WorkflowRow) (t : String) (e : WorkflowEvent) (now : DbMillis)
      → Keeps old (append_delivery_event env w t e now)
  unfolding append_delivery_event
  Keeps-append_delivery_event env w t e now = search (keeps_rules, Keeps-append_system_event)

  Keeps-deliver_to_parent :
      (env : Env) (p c : WorkflowRow) (o : ChildOutcome) (now : DbMillis)
      → is_wakeable p.status ≡ true
      → Keeps old (deliver_to_parent env p c o now)
  unfolding deliver_to_parent
  Keeps-deliver_to_parent env p c o now k = Keeps-bind _ _ (Keeps-lift _) (λ n.
      Keeps-bind _ _ (Keeps-lift _) (λ event. Keeps-bind _ _ (Keeps-or_fail _ _) (λ d.
        Keeps-bind _ _ (Keeps-append_system_event _ _ _ _ _ _) (λ u. Keeps-clear_wait p now k))))

  Keeps-wake_loaded_parent :
      (env : Env) (p c : WorkflowRow) (o : ChildOutcome) (now : DbMillis)
      → Keeps old (wake_loaded_parent_on_child_terminal env p c o now)
  unfolding wake_loaded_parent_on_child_terminal deliver_if_waiting
  Keeps-wake_loaded_parent env p c o now =
      Keeps-if (not (Workflow.awaits_child p.status)) _ _ (λ e. Keeps-pure _)
        (λ e. Keeps-bind _ _ (Keeps-lift _) (λ w.
          Keeps-if _ _ _ (λ e'. Keeps-pure _)
            (λ e'. Keeps-deliver_to_parent env p c o now (child_waiter-is_wakeable p.status e))))

  Keeps-wake_parents :
      (env : Env) (ps : List WorkflowRow) (c : WorkflowRow) (o : ChildOutcome) (now : DbMillis)
      → Keeps old (wake_parents env ps c o now)
  unfolding wake_parents
  Keeps-wake_parents env [] c o now = Keeps-pure _
  Keeps-wake_parents env (p ∷ ps) c o now =
      Keeps-bind _ _ (Keeps-wake_loaded_parent env p c o now)
        (λ u. Keeps-wake_parents env ps c o now)

  pub Keeps-wake_waiting_parents :
      (env : Env) (c : WorkflowRow) (o : ChildOutcome) (now : DbMillis)
      → Keeps old (wake_waiting_parents_on_child_terminal env c o now)
  unfolding wake_waiting_parents_on_child_terminal
  Keeps-wake_waiting_parents env c o now =
      Keeps-bind _ _ (Keeps-reads _) (λ ps. Keeps-wake_parents env ps c o now)
