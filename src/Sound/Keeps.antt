-- ===== src/Sound/Keeps.antt =====
-- One rule for each statement and each way to join statements: what a transaction must show of a row
-- that it changes or adds, so that the database it leaves is sound and follows the earlier one.
use durable_workflows.Base.{
  ℕ, ◌≡◌, ◌∙◌, refl, Bool, true, false, Option, none, some, [], ◌∷◌, if◌then◌else◌,
}
use durable_workflows.Base.Int.{ℤ}
use durable_workflows.Base.Table.{
  Grows-append, Grows-update_where, Grows-trans, All-update_where, All-append,
}
use durable_workflows.Base.Outcome.{DurableError, Result, ok, err}
use durable_workflows.Rows.{
  WorkflowRow, WorkflowEventRow, ActivityRow, ActivityAttemptRow, ApprovalRow, ScheduleRunRow,
}
use durable_workflows.Tx.{
  Db, Tx, push_event, push_workflow, push_activity, push_attempt, push_approval, continue, pure,
  fail, lift, reads, require, or_fail, ensure_fenced, ◌>>=◌, update_workflows, update_activities,
  update_attempts, update_approvals, update_schedule_runs, append_event, insert_activity,
  insert_attempt, insert_approval, next_event_sequence,
}
use durable_workflows.Sound.{
  Follows, WorkflowOk, ActivityOk, WorkflowStep, ActivityStep, AttemptStep, ApprovalStep, EventStep,
  WorkflowStep-refl, ActivityStep-refl, AttemptStep-refl, ApprovalStep-refl, WorkflowStep-trans,
  ActivityStep-trans, AttemptStep-trans, ApprovalStep-trans,
}

-- Of a result: its database follows `old`. A failed transaction leaves none.
abbrev pub Leads : {A : Type 0} → Db → Result (A × Db) → Type 0
Leads old (ok (a, db)) = Follows old db
Leads old (err e) = Unit

pub record Keeps {A : Type 0} (old : Db) (m : Tx A) : Type 0 where
  pub at : (db : Db) → Follows old db → Leads old (m db)

module _ {old : Db} where
  pub Keeps-pure : {A : Type 0} (a : A) → Keeps old (pure a)
  unfolding pure
  Keeps-pure a = record { at = λ db h. h }

  pub Keeps-fail : {A : Type 0} (e : DurableError) → Keeps old (fail {A = A} e)
  unfolding fail
  Keeps-fail e = record { at = λ db h. tt }

  Leads-lift : {A : Type 0} (r : Result A) (db : Db) → Follows old db → Leads old (lift r db)
  unfolding lift
  Leads-lift (ok a) db h = h
  Leads-lift (err e) db h = tt

  pub Keeps-lift : {A : Type 0} (r : Result A) → Keeps old (lift r)
  Keeps-lift r = record { at = Leads-lift r }

  pub Keeps-reads : {A : Type 0} (f : Db → A) → Keeps old (reads f)
  unfolding reads
  Keeps-reads f = record { at = λ db h. h }

  Leads-require :
      (b : Bool) (e : DurableError) (db : Db) → Follows old db → Leads old (require b e db)
  unfolding require
  Leads-require true e db h = h
  Leads-require false e db h = tt

  pub Keeps-require : (b : Bool) (e : DurableError) → Keeps old (require b e)
  Keeps-require b e = record { at = Leads-require b e }

  pub Keeps-ensure_fenced : (n : ℕ) → Keeps old (ensure_fenced n)
  unfolding ensure_fenced
  Keeps-ensure_fenced n = Keeps-require _ _

  Leads-or_fail :
      {A : Type 0} (o : Option A) (e : DurableError) (db : Db)
      → Follows old db
      → Leads old (or_fail o e db)
  unfolding or_fail
  Leads-or_fail none e db h = tt
  Leads-or_fail (some a) e db h = h

  pub Keeps-or_fail : {A : Type 0} (o : Option A) (e : DurableError) → Keeps old (or_fail o e)
  Keeps-or_fail o e = record { at = Leads-or_fail o e }

  pub Keeps-next_event_sequence : (w : ℤ) → Keeps old (next_event_sequence w)
  unfolding next_event_sequence
  Keeps-next_event_sequence w = record { at = λ db h. Leads-or_fail _ _ db h }

  pub Keeps-if :
      {A : Type 0} (b : Bool) (m n : Tx A)
      → (b ≡ true → Keeps old m)
      → (b ≡ false → Keeps old n)
      → Keeps old (if b then m else n)
  Keeps-if true m n km kn = km refl
  Keeps-if false m n km kn = kn refl

  -- The rest may use that the test passed.
  pub Keeps-require-bind :
      {B : Type 0} (b : Bool) (e : DurableError) (f : Unit → Tx B)
      → (b ≡ true → Keeps old (f tt))
      → Keeps old (require b e >>= f)
  unfolding ◌>>=◌ require
  Keeps-require-bind true e f k = k refl
  Keeps-require-bind false e f k = record { at = λ db h. tt }

  pub Keeps-or_fail-bind :
      {A B : Type 0} (o : Option A) (e : DurableError) (f : A → Tx B)
      → ((a : A) → o ≡ some a → Keeps old (f a))
      → Keeps old (or_fail o e >>= f)
  unfolding ◌>>=◌ or_fail
  Keeps-or_fail-bind none e f k = record { at = λ db h. tt }
  Keeps-or_fail-bind (some a) e f k = k a refl

  pub Keeps-lift-bind :
      {A B : Type 0} (r : Result A) (f : A → Tx B)
      → ((a : A) → r ≡ ok a → Keeps old (f a))
      → Keeps old (lift r >>= f)
  unfolding ◌>>=◌ lift
  Keeps-lift-bind (ok a) f k = k a refl
  Keeps-lift-bind (err e) f k = record { at = λ db h. tt }

  -- The rest may use what is read, and that it was read.
  pub Keeps-reads-bind :
      {A B : Type 0} (g : Db → A) (f : A → Tx B)
      → ((db : Db) → Follows old db → Leads old (f (g db) db))
      → Keeps old (reads g >>= f)
  unfolding ◌>>=◌ reads
  Keeps-reads-bind g f k = record { at = k }

  Leads-continue :
      {A B : Type 0} (r : Result (A × Db)) (f : A → Tx B)
      → ((a : A) → Keeps old (f a))
      → Leads old r
      → Leads old (continue r f)
  Leads-continue (ok (a, db)) f k h = (k a).at db h
  Leads-continue (err e) f k h = tt

  pub Keeps-bind :
      {A B : Type 0} (m : Tx A) (f : A → Tx B)
      → Keeps old m
      → ((a : A) → Keeps old (f a))
      → Keeps old (m >>= f)
  unfolding ◌>>=◌
  Keeps-bind m f km kf = record { at = λ db h. Leads-continue (m db) f kf (km.at db h) }

  -- What an update must show of a row that passes its test.
  pub Keeps-update_workflows :
      (p : WorkflowRow → Bool) (f : WorkflowRow → WorkflowRow)
      → ((r : WorkflowRow) → p r ≡ true → WorkflowOk r → WorkflowOk (f r))
      → ((r : WorkflowRow) → p r ≡ true → WorkflowStep r (f r))
      → Keeps old (update_workflows p f)
  unfolding update_workflows
  Keeps-update_workflows p f sound step = record {
    at = λ db h. record {
      workflows =
          Grows-trans WorkflowStep WorkflowStep-trans h.workflows
            (Grows-update_where WorkflowStep WorkflowStep-refl p f step db.workflows);
      workflows_ok = All-update_where WorkflowOk p f sound db.workflows h.workflows_ok;
      activities = h.activities;
      attempts = h.attempts;
      approvals = h.approvals;
      events = h.events;
      activities_ok = h.activities_ok;
    };
  }

  pub Keeps-update_activities :
      (p : ActivityRow → Bool) (f : ActivityRow → ActivityRow)
      → ((r : ActivityRow) → p r ≡ true → ActivityOk r → ActivityOk (f r))
      → ((r : ActivityRow) → p r ≡ true → ActivityStep r (f r))
      → Keeps old (update_activities p f)
  unfolding update_activities
  Keeps-update_activities p f sound step = record {
    at = λ db h. record {
      activities =
          Grows-trans ActivityStep ActivityStep-trans h.activities
            (Grows-update_where ActivityStep ActivityStep-refl p f step db.activities);
      activities_ok = All-update_where ActivityOk p f sound db.activities h.activities_ok;
      workflows = h.workflows;
      attempts = h.attempts;
      approvals = h.approvals;
      events = h.events;
      workflows_ok = h.workflows_ok;
    };
  }

  pub Keeps-update_attempts :
      (p : ActivityAttemptRow → Bool) (f : ActivityAttemptRow → ActivityAttemptRow)
      → ((r : ActivityAttemptRow) → p r ≡ true → AttemptStep r (f r))
      → Keeps old (update_attempts p f)
  unfolding update_attempts
  Keeps-update_attempts p f step = record {
    at = λ db h. record {
      attempts =
          Grows-trans AttemptStep AttemptStep-trans h.attempts
            (Grows-update_where AttemptStep AttemptStep-refl p f step db.attempts);
      workflows = h.workflows;
      activities = h.activities;
      approvals = h.approvals;
      events = h.events;
      workflows_ok = h.workflows_ok;
      activities_ok = h.activities_ok;
    };
  }

  pub Keeps-update_approvals :
      (p : ApprovalRow → Bool) (f : ApprovalRow → ApprovalRow)
      → ((r : ApprovalRow) → p r ≡ true → ApprovalStep r (f r))
      → Keeps old (update_approvals p f)
  unfolding update_approvals
  Keeps-update_approvals p f step = record {
    at = λ db h. record {
      approvals =
          Grows-trans ApprovalStep ApprovalStep-trans h.approvals
            (Grows-update_where ApprovalStep ApprovalStep-refl p f step db.approvals);
      workflows = h.workflows;
      activities = h.activities;
      attempts = h.attempts;
      events = h.events;
      workflows_ok = h.workflows_ok;
      activities_ok = h.activities_ok;
    };
  }

  pub Keeps-update_schedule_runs :
      (p : ScheduleRunRow → Bool) (f : ScheduleRunRow → ScheduleRunRow)
      → Keeps old (update_schedule_runs p f)
  unfolding update_schedule_runs
  Keeps-update_schedule_runs p f = record {
    at = λ db h. record {
      workflows = h.workflows;
      activities = h.activities;
      attempts = h.attempts;
      approvals = h.approvals;
      events = h.events;
      workflows_ok = h.workflows_ok;
      activities_ok = h.activities_ok;
    };
  }

  Keeps-push_event : (e : WorkflowEventRow) → Keeps old (push_event e)
  unfolding push_event
  Keeps-push_event e = record {
    at = λ db h. (record {
      events =
          Grows-trans EventStep (λ x y z p q. q ∙ p) h.events
            (Grows-append EventStep (λ x. refl) db.events (e ∷ []));
      workflows = h.workflows;
      activities = h.activities;
      attempts = h.attempts;
      approvals = h.approvals;
      workflows_ok = h.workflows_ok;
      activities_ok = h.activities_ok;
    });
  }

  pub Keeps-append_event : (e : WorkflowEventRow) → Keeps old (append_event e)
  unfolding append_event
  Keeps-append_event e =
      Keeps-bind _ _ (Keeps-reads _)
        (λ fresh. Keeps-bind _ _ (Keeps-require _ _) (λ u. Keeps-push_event e))

  pub Keeps-push_workflow : (w : WorkflowRow) → WorkflowOk w → Keeps old (push_workflow w)
  unfolding push_workflow
  Keeps-push_workflow w sound = record {
    at = λ db h. (record {
      workflows =
          Grows-trans WorkflowStep WorkflowStep-trans h.workflows
            (Grows-append WorkflowStep WorkflowStep-refl db.workflows (w ∷ []));
      workflows_ok = All-append WorkflowOk db.workflows (w ∷ []) h.workflows_ok (sound, tt);
      activities = h.activities;
      attempts = h.attempts;
      approvals = h.approvals;
      events = h.events;
      activities_ok = h.activities_ok;
    });
  }

  Keeps-push_activity : (a : ActivityRow) → ActivityOk a → Keeps old (push_activity a)
  unfolding push_activity
  Keeps-push_activity a sound = record {
    at = λ db h. (record {
      activities =
          Grows-trans ActivityStep ActivityStep-trans h.activities
            (Grows-append ActivityStep ActivityStep-refl db.activities (a ∷ []));
      activities_ok = All-append ActivityOk db.activities (a ∷ []) h.activities_ok (sound, tt);
      workflows = h.workflows;
      attempts = h.attempts;
      approvals = h.approvals;
      events = h.events;
      workflows_ok = h.workflows_ok;
    });
  }

  pub Keeps-insert_activity : (a : ActivityRow) → ActivityOk a → Keeps old (insert_activity a)
  unfolding insert_activity
  Keeps-insert_activity a sound =
      Keeps-bind _ _ (Keeps-reads _)
        (λ fresh. Keeps-bind _ _ (Keeps-require _ _) (λ u. Keeps-push_activity a sound))

  Keeps-push_attempt : (a : ActivityAttemptRow) → Keeps old (push_attempt a)
  unfolding push_attempt
  Keeps-push_attempt a = record {
    at = λ db h. (record {
      attempts =
          Grows-trans AttemptStep AttemptStep-trans h.attempts
            (Grows-append AttemptStep AttemptStep-refl db.attempts (a ∷ []));
      workflows = h.workflows;
      activities = h.activities;
      approvals = h.approvals;
      events = h.events;
      workflows_ok = h.workflows_ok;
      activities_ok = h.activities_ok;
    });
  }

  pub Keeps-insert_attempt : (a : ActivityAttemptRow) → Keeps old (insert_attempt a)
  unfolding insert_attempt
  Keeps-insert_attempt a =
      Keeps-bind _ _ (Keeps-reads _)
        (λ fresh. Keeps-bind _ _ (Keeps-require _ _) (λ u. Keeps-push_attempt a))

  Keeps-push_approval : (a : ApprovalRow) → Keeps old (push_approval a)
  unfolding push_approval
  Keeps-push_approval a = record {
    at = λ db h. (record {
      approvals =
          Grows-trans ApprovalStep ApprovalStep-trans h.approvals
            (Grows-append ApprovalStep ApprovalStep-refl db.approvals (a ∷ []));
      workflows = h.workflows;
      activities = h.activities;
      attempts = h.attempts;
      events = h.events;
      workflows_ok = h.workflows_ok;
      activities_ok = h.activities_ok;
    });
  }

  pub Keeps-insert_approval : (a : ApprovalRow) → Keeps old (insert_approval a)
  unfolding insert_approval
  Keeps-insert_approval a =
      Keeps-bind _ _ (Keeps-reads _)
        (λ fresh. Keeps-bind _ _ (Keeps-require _ _) (λ u. Keeps-push_approval a))

pub ruleset keeps_rules = (
  Keeps-pure, Keeps-fail, Keeps-lift, Keeps-reads, Keeps-require, Keeps-ensure_fenced,
  Keeps-or_fail, Keeps-next_event_sequence, Keeps-append_event, Keeps-insert_attempt,
  Keeps-insert_approval, Keeps-bind,
)
