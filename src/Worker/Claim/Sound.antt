-- ===== src/Worker/Claim/Sound.antt =====
-- A claim of an activity, and a quarantine in its place, keep the database sound.
use durable_workflows.Base.{
  ◌≡◌, ◌∙◌, refl, ap, arith, Bool, true, false, not, Option, none, some, String,
}
use durable_workflows.Base.Int.{ℤ}
use durable_workflows.Clock.{DbMillis}
use durable_workflows.Policy.{RetryPolicy}
use durable_workflows.Status.Activity
use durable_workflows.Status.Activity.{ActivityStatus}
use durable_workflows.Rows.{WorkflowRow, ActivityRow}
use durable_workflows.Tx.{Db}
use durable_workflows.Events.{Env}
use durable_workflows.Sound.{ActivityOk, ActivityStep}
use durable_workflows.Sound.Keeps.{
  Keeps, Keeps-if, Keeps-pure, Keeps-bind, Keeps-reads, Keeps-or_fail, Keeps-update_activities,
  Keeps-insert_attempt, Keeps-ensure_fenced,
}
use durable_workflows.Parents.Sound.{Keeps-append_activity_history}
use durable_workflows.Worker.{decode_retry_policy}
use durable_workflows.Worker.Sound.{live-ActivityStep, Keeps-block_workflow}
use durable_workflows.Worker.Claim.{
  still_pending, quarantined_row, quarantine_candidate, quarantine, running_row, start_attempt,
  start_with, claim_pending, claim_waited, claim_locked_candidate, attempts_exhausted,
  invalid_bounds,
}

pending : (row r : ActivityRow) → still_pending row r ≡ true → r.status ≡ ActivityStatus.pending
pending row r e = ground arith

pending-ActivityStep :
    (r r' : ActivityRow)
    → r.status ≡ ActivityStatus.pending
    → Activity.same r'.status ActivityStatus.cancelling ≡ false
    → Activity.same r'.status ActivityStatus.cancelled ≡ false
    → r'.id ≡ r.id
    → r'.workflow_id ≡ r.workflow_id
    → r'.payload_json ≡ r.payload_json
    → ActivityStep r r'
pending-ActivityStep r r' e =
    live-ActivityStep r r' (ap Activity.is_terminal e)
      (ap (λ s. Activity.same s ActivityStatus.cancelling) e)

quarantined-ActivityOk :
    (m : String) (now : DbMillis) (r : ActivityRow)
    → r.status ≡ ActivityStatus.pending
    → ActivityOk r
    → ActivityOk (quarantined_row m now r)
quarantined-ActivityOk m now r e sound = record {
  lease = ground (arith, sound.lease);
  completed = refl;
}

running-ActivityOk :
    (n : ℤ) (w t : String) (at now : DbMillis) (r : ActivityRow)
    → r.status ≡ ActivityStatus.pending
    → ActivityOk r
    → ActivityOk (running_row n w t at now r)
running-ActivityOk n w t at now r e sound = record {
  lease = refl;
  completed = sound.completed ∙ ap Activity.is_terminal e;
}

module _ {old : Db} where
  Keeps-quarantine_candidate :
      (row : ActivityRow) (m : String) (now : DbMillis) → Keeps old (quarantine_candidate row m now)
  unfolding quarantine_candidate
  Keeps-quarantine_candidate row m now =
      Keeps-bind _ _
        (Keeps-update_activities _ _ (λ r e. quarantined-ActivityOk m now r (pending row r e))
          (λ r e. pending-ActivityStep r _ (pending row r e) refl refl refl refl refl))
        (λ n. Keeps-bind _ _ (Keeps-ensure_fenced n) (λ u.
          Keeps-bind _ _ (Keeps-append_activity_history _ _ _ _)
            (λ u'. Keeps-block_workflow row _ m now)))

  Keeps-quarantine :
      (env : Env) (row : ActivityRow) (reason : String) → Keeps old (quarantine env row reason)
  unfolding quarantine
  Keeps-quarantine env row reason =
      Keeps-bind _ _ (Keeps-quarantine_candidate row _ env.now) (λ u. Keeps-pure none)

  Keeps-start_attempt :
      (env : Env) (w : String) (row : ActivityRow) (p : RetryPolicy)
      → Keeps old (start_attempt env w row p)
  unfolding start_attempt
  Keeps-start_attempt env w row p = Keeps-bind _ _ (Keeps-or_fail _ _) (λ n.
      Keeps-bind _ _ (Keeps-or_fail _ _) (λ at.
        Keeps-bind _ _
          (Keeps-update_activities _ _
            (λ r e. running-ActivityOk n w env.uuid at env.now r (pending row r e))
            (λ r e. pending-ActivityStep r _ (pending row r e) refl refl refl refl refl))
          (λ c.
            Keeps-bind _ _ (Keeps-ensure_fenced c)
              (λ u. Keeps-bind _ _ (Keeps-insert_attempt _) (λ u'. Keeps-pure _)))))

  Keeps-start_with :
      (env : Env) (w : String) (row : ActivityRow) (o : Option RetryPolicy)
      → Keeps old (start_with env w row o)
  unfolding start_with
  Keeps-start_with env w row none = Keeps-quarantine env row _
  Keeps-start_with env w row (some p) = Keeps-start_attempt env w row p

  Keeps-claim_pending :
      (env : Env) (registered : String → ℤ → Bool) (w : String) (o : Option ActivityRow)
      → Keeps old (claim_pending env registered w o)
  unfolding claim_pending
  Keeps-claim_pending env registered w none = Keeps-pure none
  Keeps-claim_pending env registered w (some row) =
      Keeps-if (not (registered row.kind row.version)) _ _ (λ e. Keeps-pure none)
        (λ e.
          Keeps-if (attempts_exhausted row) _ _ (λ e'. Keeps-quarantine env row _)
            (λ e'.
              Keeps-if (invalid_bounds row) _ _ (λ x. Keeps-quarantine env row _)
                (λ x. Keeps-start_with env w row (decode_retry_policy env row.retry_policy_json))))

  Keeps-claim_waited :
      (env : Env) (registered : String → ℤ → Bool) (w : String) (held : ℤ → Bool) (c i : ℤ)
      (o : Option WorkflowRow)
      → Keeps old (claim_waited env registered w held c i o)
  unfolding claim_waited
  Keeps-claim_waited env registered w held c i none = Keeps-pure none
  Keeps-claim_waited env registered w held c i (some x) =
      Keeps-bind _ _ (Keeps-reads _) (λ row. Keeps-claim_pending env registered w row)

  pub Keeps-claim_locked_candidate :
      (env : Env) (registered : String → ℤ → Bool) (w : String) (held held' : ℤ → Bool) (c i : ℤ)
      → Keeps old (claim_locked_candidate env registered w held held' c i)
  unfolding claim_locked_candidate
  Keeps-claim_locked_candidate env registered w held held' c i =
      Keeps-bind _ _ (Keeps-reads _) (λ x. Keeps-claim_waited env registered w held' c i x)
