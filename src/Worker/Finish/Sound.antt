-- ===== src/Worker/Finish/Sound.antt =====
-- The end of an attempt keeps the database sound.
use durable_workflows.Base.{◌≡◌, ◌∙◌, refl, ap, String}
use durable_workflows.Base.Int.{leb_ℤ}
use durable_workflows.Clock.{DbMillis}
use durable_workflows.Status.Activity
use durable_workflows.Status.Activity.{ActivityStatus}
use durable_workflows.Rows.{ActivityRow}
use durable_workflows.Tx.{Db}
use durable_workflows.Events.{Env}
use durable_workflows.Sound.{ActivityOk}
use durable_workflows.Sound.Keeps.{
  Keeps, Keeps-if, Keeps-fail, Keeps-bind, Keeps-lift, Keeps-reads, Keeps-or_fail,
  Keeps-update_activities, Keeps-ensure_fenced,
}
use durable_workflows.Parents.Sound.{Keeps-append_activity_history}
use durable_workflows.Worker.{ActivityClaim}
use durable_workflows.Worker.Sound.{
  running-ActivityStep, fenced-running, Keeps-finish_attempt, Keeps-dead_letter,
  Keeps-wake_workflow, Keeps-settle_revoked,
}
use durable_workflows.Worker.Finish.{
  ExecutionOutcome, succeeded, retryable, permanent, revoked, finish_revoked, finish_succeeded,
  retried_row, retry_activity, finish_running, finish_as, finish_on_connection,
}

retried-ActivityOk :
    (c m : String) (at now : DbMillis) (r : ActivityRow)
    → r.status ≡ ActivityStatus.running
    → ActivityOk r
    → ActivityOk (retried_row c m at now r)
retried-ActivityOk c m at now r e sound = record {
  lease = refl;
  completed = sound.completed ∙ ap Activity.is_terminal e;
}

module _ {old : Db} where
  Keeps-finish_revoked : (env : Env) (row : ActivityRow) → Keeps old (finish_revoked env row)
  unfolding finish_revoked
  Keeps-finish_revoked env row =
      Keeps-bind _ _ (Keeps-or_fail _ _)
        (λ c. Keeps-bind _ _ (Keeps-lift _) (λ o. Keeps-settle_revoked row o _ env.now))

  Keeps-finish_succeeded :
      (env : Env) (claim : ActivityClaim) (o : String) → Keeps old (finish_succeeded env claim o)
  unfolding finish_succeeded
  Keeps-finish_succeeded env claim o =
      Keeps-bind _ _
        (Keeps-update_activities _ _ (λ r e sound. record { lease = refl; completed = refl })
          (λ r e. running-ActivityStep r _ (fenced-running claim r e) refl refl refl refl refl))
        (λ n. Keeps-bind _ _ (Keeps-ensure_fenced n) (λ u.
          Keeps-bind _ _ (Keeps-finish_attempt claim _ _ _ _ env.now)
            (λ u'. Keeps-wake_workflow env claim o env.now)))

  Keeps-retry_activity :
      (env : Env) (claim : ActivityClaim) (c m : String) → Keeps old (retry_activity env claim c m)
  unfolding retry_activity
  Keeps-retry_activity env claim c m = Keeps-bind _ _ (Keeps-lift _) (λ a.
      Keeps-bind _ _ (Keeps-lift _) (λ at.
        Keeps-bind _ _
          (Keeps-update_activities _ _
            (λ r e. retried-ActivityOk c m at env.now r (fenced-running claim r e))
            (λ r e. running-ActivityStep r _ (fenced-running claim r e) refl refl refl refl refl))
          (λ n. Keeps-bind _ _ (Keeps-ensure_fenced n) (λ u.
            Keeps-bind _ _ (Keeps-finish_attempt claim _ _ _ _ env.now)
              (λ u'. Keeps-append_activity_history _ _ _ _)))))

  Keeps-finish_running :
      (env : Env) (claim : ActivityClaim) (row : ActivityRow) (o : ExecutionOutcome)
      → Keeps old (finish_running env claim row o)
  unfolding finish_running
  Keeps-finish_running env claim row (succeeded o) = Keeps-finish_succeeded env claim o
  Keeps-finish_running env claim row (retryable c m) =
      Keeps-if (leb_ℤ claim.row.max_attempts claim.attempt_number) _ _
        (λ e. Keeps-dead_letter claim row c m env.now) (λ e. Keeps-retry_activity env claim c m)
  Keeps-finish_running env claim row (permanent c m) = Keeps-dead_letter claim row c m env.now
  Keeps-finish_running env claim row revoked = Keeps-fail _

  Keeps-finish_as :
      (env : Env) (claim : ActivityClaim) (row : ActivityRow) (s : ActivityStatus)
      (o : ExecutionOutcome)
      → Keeps old (finish_as env claim row s o)
  unfolding finish_as
  Keeps-finish_as env claim row ActivityStatus.cancelling o = Keeps-finish_revoked env row
  Keeps-finish_as env claim row ActivityStatus.running o = Keeps-finish_running env claim row o
  Keeps-finish_as env claim row _ o = Keeps-fail _

  pub Keeps-finish_on_connection :
      (env : Env) (claim : ActivityClaim) (o : ExecutionOutcome)
      → Keeps old (finish_on_connection env claim o)
  unfolding finish_on_connection
  Keeps-finish_on_connection env claim o = Keeps-bind _ _ (Keeps-reads _) (λ w.
      Keeps-bind _ _ (Keeps-or_fail _ _) (λ x. Keeps-bind _ _ (Keeps-reads _) (λ r.
        Keeps-bind _ _ (Keeps-or_fail _ _) (λ row. Keeps-finish_as env claim row row.status o))))
