-- ===== src/Store/Cancel/Sound.antt =====
-- A cancellation changes rows only as the program may.
use durable_workflows.Base.{
  ℕ, zero, suc, ◌≡◌, refl, ap, arith, true, false, ◌||◌, ◌&&◌, Option, none, some, List, [], ◌∷◌,
  String,
}
use durable_workflows.Base.Int.{ℤ, ◌==ℤ◌}
use durable_workflows.Clock.{DbMillis}
use durable_workflows.Status.Workflow
use durable_workflows.Status.Workflow.{WorkflowStatus}
use durable_workflows.Status.Activity
use durable_workflows.Status.Activity.{ActivityStatus}
use durable_workflows.Status.Approval
use durable_workflows.Status.Approval.{ApprovalStatus}
use durable_workflows.Status.Attempt.{AttemptOutcome}
use durable_workflows.Rows.{WorkflowRow, ActivityRow, ApprovalRow}
use durable_workflows.Tx.{Db}
use durable_workflows.Events.{Env}
use durable_workflows.Sound.{WorkflowOk, ActivityOk, is_decided}
use durable_workflows.Sound.Keeps.{
  Keeps, Keeps-pure, Keeps-fail, Keeps-reads, Keeps-require, Keeps-or_fail, Keeps-bind,
  Keeps-ensure_fenced, Keeps-update_approvals, Keeps-next_event_sequence, Keeps-append_event,
}
use durable_workflows.Parents.Sound.{Keeps-wake_waiting_parents}
use durable_workflows.System.Change.{WorkflowChange, ActivityChange}
use durable_workflows.System.Allows.{
  Allows, Allows-Keeps, Allows-if, Allows-bind, Allows-or_fail-bind, Allows-update_workflows,
  Allows-update_activities,
}
use durable_workflows.Store.Cancel.{
  revoked_row, cancelled_row, held_as, in_status, revoke, withdraw, cancel_as, cancel_each,
  cancel_activities, cancel_each_approval, cancel_approvals, cancelled_workflow, unchanged,
  cancel_one_workflow, cancel_live, cancel_generations, cancel_children, descend,
  cancel_owned_descendants, cancel_locked_workflow, cancel_if_live, cancel_with_conn,
}

revoked-ActivityOk :
    (c reason : String) (now : DbMillis) (r : ActivityRow)
    → Activity.holds_lease r.status ≡ true
    → ActivityOk r
    → ActivityOk (revoked_row c reason now r)
revoked-ActivityOk c reason now r e sound = record {
  lease = ground (arith, sound.lease);
  completed = ground (arith, sound.completed);
}

revoked-ActivityChange :
    (c reason : String) (now : DbMillis) (r : ActivityRow)
    → Activity.holds_lease r.status ≡ true
    → ActivityChange r (revoked_row c reason now r)
revoked-ActivityChange c reason now r e = record {
  id = refl;
  workflow_id = refl;
  payload_json = refl;
  reaches = ground arith;
  closed = λ h. ground arith;
}

pub held_as-holds_lease :
    (a : ActivityRow) (token : String) (r : ActivityRow)
    → Activity.holds_lease a.status ≡ true
    → held_as a token r ≡ true
    → Activity.holds_lease r.status ≡ true
held_as-holds_lease a token r h e = ground arith

pub cancelled-ActivityChange :
    (now : DbMillis) (r : ActivityRow)
    → Activity.same r.status ActivityStatus.pending
        || Activity.same r.status ActivityStatus.dead_lettered
      ≡ true
    → ActivityChange r (cancelled_row now r)
cancelled-ActivityChange now r e = record {
  id = refl;
  workflow_id = refl;
  payload_json = refl;
  reaches = ground arith;
  closed = λ h. ground arith;
}

cancelled_workflow-WorkflowOk :
    (now : DbMillis) (r : WorkflowRow) → WorkflowOk (cancelled_workflow now r)
cancelled_workflow-WorkflowOk now r = record {
  lease = refl;
  wait = refl;
  paired = refl;
  timer = λ h. cc;
  completed = refl;
}

-- A workflow that is not terminal may change in all but what it was started as.
pub live-WorkflowChange :
    (r r' : WorkflowRow)
    → Workflow.is_terminal r.status ≡ false
    → r'.id ≡ r.id
    → r'.kind ≡ r.kind
    → r'.version ≡ r.version
    → r'.input_json ≡ r.input_json
    → WorkflowChange r r'
live-WorkflowChange r r' live i k v j = record {
  id = i;
  kind = k;
  version = v;
  input_json = j;
  terminal = λ h. ground arith;
}

pub unchanged-live :
    (w r : WorkflowRow)
    → Workflow.is_terminal w.status ≡ false
    → unchanged w r ≡ true
    → Workflow.is_terminal r.status ≡ false
unchanged-live w r h e = ground arith

module _ {old : Db} where
  Allows-revoke :
      (a : ActivityRow) (reason : String) (o : AttemptOutcome) (now : DbMillis)
      → Activity.holds_lease a.status ≡ true
      → Allows old (revoke a reason o now)
  unfolding revoke
  Allows-revoke a reason o now h = Allows-or_fail-bind _ _ _ (λ token e.
      Allows-bind _ _
        (Allows-update_activities _ _
          (λ r e'. revoked-ActivityOk _ reason now r (held_as-holds_lease a token r h e'))
          (λ r e'. revoked-ActivityChange _ reason now r (held_as-holds_lease a token r h e')))
        (λ n. Allows-Keeps _ (λ db. Keeps-ensure_fenced n)))

  Allows-withdraw : (a : ActivityRow) (now : DbMillis) → Allows old (withdraw a now)
  unfolding withdraw
  Allows-withdraw a now =
      Allows-bind _ _
        (Allows-update_activities _ _ (λ r e sound. record { lease = refl; completed = refl })
          (λ r e. cancelled-ActivityChange now r (pending_first r e)))
        (λ n. Allows-Keeps _ (λ db. Keeps-ensure_fenced n))
    where
      pending_first :
          (r : ActivityRow)
          → in_status a ActivityStatus.pending r ≡ true
          → Activity.same r.status ActivityStatus.pending
              || Activity.same r.status ActivityStatus.dead_lettered
            ≡ true
      pending_first r e = ground arith

  Allows-cancel_as :
      (s : ActivityStatus) (a : ActivityRow) (reason : String) (o : AttemptOutcome) (now : DbMillis)
      → a.status ≡ s
      → Allows old (cancel_as s a reason o now)
  unfolding cancel_as
  Allows-cancel_as ActivityStatus.running a reason o now e =
      Allows-revoke a reason o now (ap Activity.holds_lease e)
  Allows-cancel_as ActivityStatus.cancelling a reason o now e =
      Allows-revoke a reason o now (ap Activity.holds_lease e)
  Allows-cancel_as ActivityStatus.pending a reason o now e = Allows-withdraw a now
  Allows-cancel_as _ a reason o now e = Allows-Keeps _ (λ db. Keeps-fail _)

  Allows-cancel_each :
      (as' : List ActivityRow) (reason : String) (o : AttemptOutcome) (now : DbMillis)
      → Allows old (cancel_each as' reason o now)
  unfolding cancel_each
  Allows-cancel_each [] reason o now = Allows-Keeps _ (λ db. Keeps-pure _)
  Allows-cancel_each (a ∷ as') reason o now =
      Allows-bind _ _ (Allows-cancel_as a.status a reason o now refl)
        (λ u. Allows-cancel_each as' reason o now)

  pub Allows-cancel_activities :
      (w : ℤ) (reason : String) (o : AttemptOutcome) (now : DbMillis)
      → Allows old (cancel_activities w reason o now)
  unfolding cancel_activities
  Allows-cancel_activities w reason o now =
      Allows-bind _ _ (Allows-Keeps _ (λ db. Keeps-reads _))
        (λ rows. Allows-cancel_each rows reason o now)

  Keeps-cancel_each_approval :
      (rows : List ApprovalRow) (reason : String) (now : DbMillis)
      → Keeps old (cancel_each_approval rows reason now)
  unfolding cancel_each_approval
  Keeps-cancel_each_approval [] reason now = Keeps-pure _
  Keeps-cancel_each_approval (a ∷ rows) reason now =
      Keeps-bind _ _
        (Keeps-update_approvals _ _
          (λ r e. record { id = refl; settled = λ h. absurd (pending_first a r e h) }))
        (λ n.
          Keeps-bind _ _ (Keeps-ensure_fenced n) (λ u. Keeps-cancel_each_approval rows reason now))
    where
      pending_first :
          (a r : ApprovalRow)
          → (r.id ==ℤ a.id && Approval.same r.status ApprovalStatus.pending) ≡ true
          → is_decided r.status ≡ true
          → ⊥
      pending_first a r e h = ground arith

  pub Keeps-cancel_approvals :
      (w : ℤ) (reason : String) (now : DbMillis) → Keeps old (cancel_approvals w reason now)
  unfolding cancel_approvals
  Keeps-cancel_approvals w reason now =
      Keeps-bind _ _ (Keeps-reads _) (λ rows. Keeps-cancel_each_approval rows reason now)

module _ {old : Db} (env : Env) (reason : String) (operator : Option String) (now : DbMillis) where
  Allows-cancel_one_workflow :
      (w : WorkflowRow)
      → Workflow.is_terminal w.status ≡ false
      → Allows old (cancel_one_workflow env w reason operator now)
  unfolding cancel_one_workflow
  Allows-cancel_one_workflow w live = Allows-bind _ _ (Allows-cancel_activities _ _ _ _) (λ u.
      Allows-bind _ _ (Allows-Keeps _ (λ db. Keeps-cancel_approvals _ _ _)) (λ u'.
        Allows-bind _ _
          (Allows-update_workflows _ _ (λ r e sound. cancelled_workflow-WorkflowOk now r)
            (λ r e. live-WorkflowChange r _ (unchanged-live w r live e) refl refl refl refl))
          (λ n. Allows-Keeps _ (λ db. Keeps-bind _ _ (Keeps-ensure_fenced n) (λ fenced.
            Keeps-bind _ _ (Keeps-next_event_sequence _) (λ q.
              Keeps-bind _ _ (Keeps-append_event _)
                (λ told. Keeps-wake_waiting_parents env w _ now)))))))

  Allows-cancel_live :
      (row : WorkflowRow) (ids : List ℤ) → Allows old (cancel_live env row reason operator now ids)
  unfolding cancel_live
  Allows-cancel_live row ids =
      Allows-if _ _ _ (λ e. Allows-Keeps _ (λ db. Keeps-pure _))
        (λ live.
          Allows-bind _ _ (Allows-cancel_one_workflow row live)
            (λ u. Allows-Keeps _ (λ db. Keeps-pure _)))

  Allows-cancel_generations :
      (fuel : ℕ) (row : Option WorkflowRow) (ids : List ℤ)
      → Allows old (cancel_generations env fuel row reason operator now ids)
  unfolding cancel_generations
  Allows-cancel_generations zero row ids = Allows-Keeps _ (λ db. Keeps-fail _)
  Allows-cancel_generations (suc fuel) none ids = Allows-Keeps _ (λ db. Keeps-pure _)
  Allows-cancel_generations (suc fuel) (some row) ids =
      Allows-bind _ _ (Allows-cancel_live row ids) (λ ids'.
        Allows-bind _ _ (Allows-Keeps _ (λ db. Keeps-reads _))
          (λ next. Allows-cancel_generations fuel next ids'))

  Allows-cancel_children :
      (children : List ℤ) (ids : List ℤ)
      → Allows old (cancel_children env children reason operator now ids)
  unfolding cancel_children
  Allows-cancel_children [] ids = Allows-Keeps _ (λ db. Keeps-pure _)
  Allows-cancel_children (c ∷ cs) ids =
      Allows-bind _ _ (Allows-Keeps _ (λ db. Keeps-reads _)) (λ found.
        Allows-bind _ _ (Allows-Keeps _ (λ db. Keeps-or_fail _ _)) (λ row.
          Allows-bind _ _ (Allows-Keeps _ (λ db. Keeps-reads _)) (λ rows.
            Allows-bind _ _ (Allows-cancel_generations (suc (suc rows)) (some row) ids)
              (λ ids'. Allows-cancel_children cs ids'))))

module _ {old : Db} (env : Env) (operator : Option String) (now : DbMillis) where
  Allows-descend :
      (fuel : ℕ) (parents : List (ℤ × String)) → Allows old (descend env fuel parents operator now)
  unfolding descend
  Allows-descend zero parents = Allows-Keeps _ (λ db. Keeps-fail _)
  Allows-descend (suc fuel) [] = Allows-Keeps _ (λ db. Keeps-pure _)
  Allows-descend (suc fuel) ((p, r) ∷ parents) =
      Allows-bind _ _ (Allows-Keeps _ (λ db. Keeps-reads _)) (λ children.
        Allows-bind _ _ (Allows-cancel_children env _ operator now children [])
          (λ ids. Allows-descend fuel _))

  pub Allows-cancel_owned_descendants :
      (w : WorkflowRow) (reason : String)
      → Allows old (cancel_owned_descendants env w reason operator now)
  unfolding cancel_owned_descendants
  Allows-cancel_owned_descendants w reason =
      Allows-bind _ _ (Allows-Keeps _ (λ db. Keeps-reads _))
        (λ rows. Allows-descend (suc (suc rows)) ((w.id, reason) ∷ []))

  pub Allows-cancel_locked_workflow :
      (w : WorkflowRow) (reason : String)
      → Workflow.is_terminal w.status ≡ false
      → Allows old (cancel_locked_workflow env w reason operator now)
  unfolding cancel_locked_workflow
  Allows-cancel_locked_workflow w reason live =
      Allows-bind _ _ (Allows-cancel_one_workflow env reason operator now w live)
        (λ u. Allows-cancel_owned_descendants w reason)

module _ {old : Db} where
  pub Allows-cancel_with_conn :
      (env : Env) (w : ℤ) (reason : String) → Allows old (cancel_with_conn env w reason)
  unfolding cancel_with_conn cancel_if_live
  Allows-cancel_with_conn env w reason =
      Allows-bind _ _ (Allows-Keeps _ (λ db. Keeps-require _ _)) (λ valid.
        Allows-bind _ _ (Allows-Keeps _ (λ db. Keeps-reads _)) (λ found.
          Allows-bind _ _ (Allows-Keeps _ (λ db. Keeps-or_fail _ _)) (λ workflow.
            Allows-if _ _ _ (λ e'. Allows-Keeps _ (λ db. Keeps-pure _))
              (λ live. Allows-cancel_locked_workflow env none env.now workflow _ live))))
