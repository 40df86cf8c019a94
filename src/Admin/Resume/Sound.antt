-- ===== src/Admin/Resume/Sound.antt =====
-- A resume changes rows only as the program may, at a database where an id names one workflow and no
-- wait is answered already: the resumed row keeps its wait columns, whatever the new status is.
use durable_workflows.Base.{
  ℕ, ◌≡◌, ◌∙◌, refl, sym, ap, subst, arith, Bool, true, false, not, ◌||◌, ◌&&◌, Option, none, some,
  All,
}
use durable_workflows.Base.Int.{ℤ, ◌==ℤ◌}
use durable_workflows.Base.Table.{
  first_where, first_where-All, update_where, Grows-trans, Grows-update_where,
  All-update_where_when,
}
use durable_workflows.Base.Outcome
use durable_workflows.Base.Outcome.{Result, ok, err, DurableError, invalid_state, ok_or}
use durable_workflows.Clock.{DbMillis}
use durable_workflows.Status.Workflow
use durable_workflows.Status.Workflow.{WorkflowStatus}
use durable_workflows.Status.Activity.{ActivityStatus}
use durable_workflows.Status.Waits.{WaitKind}
use durable_workflows.Wait.{Wait}
use durable_workflows.Wait.Columns.{columns, parse_iff}
use durable_workflows.Rows.{WorkflowRow, ActivityRow, ApprovalRow}
use durable_workflows.Tx.{Db, reads, pure, ensure_fenced, update_workflows, ◌>>=◌, ◌>>◌}
use durable_workflows.Events.{Env}
use durable_workflows.Parents.{row_wait}
use durable_workflows.Sound.{WorkflowOk, wait_fits}
use durable_workflows.Sound.Keeps.{Keeps, Keeps-pure, Keeps-bind, Keeps-ensure_fenced}
use durable_workflows.System.Change.{
  Changes, WorkflowChange, WorkflowChange-refl, WorkflowChange-trans,
}
use durable_workflows.System.Allows.{
  Arrives, Allows-Keeps, Arrives-continue, Arrives-lift-bind, Arrives-or_fail-bind,
  Arrives-require-bind,
}
use durable_workflows.Store.Cancel.Sound.{live-WorkflowChange}
use durable_workflows.Admin.{Operator, lock_workflow, append_operator_event}
use durable_workflows.Admin.Sound.{Keeps-append_operator_event}
use durable_workflows.Admin.Resume.{
  for_activity, for_child, for_approval, resume_status, resumed_row, is_paused, resume_locked,
  resume_workflow,
}

-- A status that a row may be resumed to beside its wait.
abbrev fits_resumed : WorkflowStatus → Option WaitKind → Bool
fits_resumed s k =
    wait_fits s k && not (Workflow.same s WorkflowStatus.running || Workflow.is_terminal s)

activity_fits :
    (o : Option ActivityRow) (s : WorkflowStatus)
    → Outcome.◌>>=◌ (ok_or o invalid_state) (λ a. for_activity a.status) ≡ ok s
    → (s ≡ WorkflowStatus.ready → ⊥)
    → fits_resumed s (some WaitKind.activity) ≡ true
activity_fits none s e k = cc
activity_fits (some a) s e k = at_status a.status e
  where
    at_status :
        (t : ActivityStatus)
        → for_activity t ≡ ok s
        → fits_resumed s (some WaitKind.activity) ≡ true
    at_status t e' = ground (arith, k)

child_fits :
    (o : Option WorkflowRow) (s : WorkflowStatus)
    → Outcome.◌>>=◌ (ok_or o invalid_state) (λ w. for_child w.status) ≡ ok s
    → fits_resumed s (some WaitKind.child) ≡ true
child_fits none s e = cc
child_fits (some w) s e = ground arith

approval_fits :
    (o : Option ApprovalRow) (s : WorkflowStatus)
    → Outcome.◌>>=◌ (ok_or o invalid_state) (λ a. for_approval a.status) ≡ ok s
    → (s ≡ WorkflowStatus.ready → ⊥)
    → fits_resumed s (some WaitKind.approval) ≡ true
approval_fits none s e k = cc
approval_fits (some a) s e k = ground (arith, k)

status_fits :
    (db : Db) (wait : Option Wait) (s : WorkflowStatus)
    → resume_status db wait ≡ ok s
    → ((w : Wait) → wait ≡ some w → resume_status db (some w) ≡ ok WorkflowStatus.ready → ⊥)
    → fits_resumed s (columns wait).0 ≡ true
unfolding resume_status
status_fits db none s e waits = ground arith
status_fits db (some (Wait.timer n)) s e waits = ground arith
status_fits db (some (Wait.activity id)) s e waits =
    activity_fits _ s e (λ k. waits (Wait.activity id) refl (e ∙ ap ok k))
status_fits db (some (Wait.child id)) s e waits = child_fits _ s e
status_fits db (some (Wait.approval id)) s e waits =
    approval_fits (first_where (λ a. a.id ==ℤ id) db.approvals) s e
      (λ k. waits (Wait.approval id) refl (e ∙ ap ok k))

-- The row's wait, if it has one, is not answered yet.
abbrev pub IsUnanswered : Db → WorkflowRow → Type 0
IsUnanswered db r =
    (w : Wait) → row_wait r ≡ ok (some w) → resume_status db (some w) ≡ ok WorkflowStatus.ready → ⊥

-- No other row has the row's id.
abbrev pub IsOnly : Db → WorkflowRow → Type 0
IsOnly db r = All (λ other. (other.id ==ℤ r.id) ≡ true → other ≡ r) db.workflows

resumed-WorkflowOk :
    (db : Db) (r : WorkflowRow) (wait : Option Wait) (s : WorkflowStatus) (now : DbMillis)
    → row_wait r ≡ ok wait
    → resume_status db wait ≡ ok s
    → IsUnanswered db r
    → Workflow.same r.status WorkflowStatus.paused ≡ true
    → WorkflowOk r
    → WorkflowOk (resumed_row r s now r)
resumed-WorkflowOk db r wait s now e answer waits paused sound = record {
  lease = ground (arith, fits);
  wait = ground (arith, fits);
  paired = sound.paired;
  timer = sound.timer;
  completed = ground (arith, fits, sound.completed);
}
  where
    fits : fits_resumed s r.wait_kind ≡ true
    fits =
        subst (λ (k : Option WaitKind). fits_resumed s k ≡ true)
          (sym (
            ap (λ (c : Option WaitKind × Option ℤ). c.0)
              ((parse_iff r.wait_kind r.wait_reference_id wait).0 e).0))
          (status_fits db wait s answer (λ w h k. waits w (e ∙ ap ok h) k))

is_paused-live : (w r : WorkflowRow) → is_paused w r ≡ true → Workflow.is_terminal r.status ≡ false
is_paused-live w r e = ground arith

module _ {old : Db} where
  Keeps-told :
      (n : ℕ) (o : Operator) (w : ℤ) (s : WorkflowStatus) (now : DbMillis)
      → Keeps old (ensure_fenced n >> (append_operator_event w "workflow_resumed" o now >> pure s))
  Keeps-told n o w s now =
      Keeps-bind _ _ (Keeps-ensure_fenced n)
        (λ fenced. Keeps-bind _ _ (Keeps-append_operator_event _ _ _ _) (λ told. Keeps-pure _))

-- At the database, the row and the status that the answer gives.
Changes-resumed :
    (old db : Db) (r : WorkflowRow) (wait : Option Wait) (s : WorkflowStatus) (now : DbMillis)
    → row_wait r ≡ ok wait
    → resume_status db wait ≡ ok s
    → IsUnanswered db r
    → IsOnly db r
    → Changes old db
    → Changes old
        (record db { workflows = update_where (is_paused r) (resumed_row r s now) db.workflows })
Changes-resumed old db r wait s now e answer waits only h = record {
  workflows = Grows-trans WorkflowChange WorkflowChange-trans h.workflows (
      Grows-update_where WorkflowChange WorkflowChange-refl (is_paused r) _
        (λ x k. live-WorkflowChange x _ (is_paused-live r x k) refl refl refl refl) db.workflows);
  workflows_ok =
      All-update_where_when _ WorkflowOk (is_paused r) (resumed_row r s now) at_row db.workflows
        only h.workflows_ok;
  activities = h.activities;
  attempts = h.attempts;
  approvals = h.approvals;
  events = h.events;
  activities_ok = h.activities_ok;
}
  where
    at_row :
        (x : WorkflowRow)
        → ((x.id ==ℤ r.id) ≡ true → x ≡ r)
        → is_paused r x ≡ true
        → WorkflowOk x
        → WorkflowOk (resumed_row r s now x)
    at_row x same k sound =
        let q : x ≡ r = same (ground arith) in
        subst (λ (y : WorkflowRow). WorkflowOk (resumed_row r s now y)) (sym q)
          (resumed-WorkflowOk db r wait s now e answer waits
            (ap (λ (y : WorkflowRow). Workflow.same y.status WorkflowStatus.paused) (sym q)
              ∙ ground arith)
            (subst WorkflowOk q sound))

-- The premises about the row that is resumed.
abbrev pub IsResumable : Db → WorkflowRow → Type 0
IsResumable db r = IsUnanswered db r × IsOnly db r

Arrives-resume_locked :
    (old db : Db) (env : Env) (o : Operator) (r : WorkflowRow)
    → IsResumable db r
    → Changes old db
    → Arrives old (resume_locked env o r db)
unfolding resume_locked ◌>>=◌ reads update_workflows
Arrives-resume_locked old db env o r premises h = Arrives-require-bind old db _ _ _ (λ paused.
    Arrives-lift-bind old db (row_wait r) _ (λ wait e.
      Arrives-lift-bind old db (resume_status db wait) _ (λ s answer.
        Arrives-continue (update_workflows (is_paused r) (resumed_row r s env.now) db) _
          (λ n. Allows-Keeps _ (λ db'. Keeps-told n o r.id s env.now))
          (Changes-resumed old db r wait s env.now e answer premises.0 premises.1 h))))

pub Arrives-resume_workflow :
    (old db : Db) (env : Env) (o : Operator) (id : ℤ)
    → All (IsResumable db) db.workflows
    → Changes old db
    → Arrives old (resume_workflow env o id db)
unfolding resume_workflow lock_workflow ◌>>=◌ reads
Arrives-resume_workflow old db env o id premises h = Arrives-or_fail-bind old db _ _ _ (λ r e.
    Arrives-resume_locked old db env o r
      (first_where-All (IsResumable db) (λ x. x.id ==ℤ id) db.workflows r premises e).0 h)
