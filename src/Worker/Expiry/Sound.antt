-- ===== src/Worker/Expiry/Sound.antt =====
-- The reconciliation of expired leases keeps the database sound.
use durable_workflows.Base.{
  ◌≡◌, refl, arith, Bool, true, false, Option, none, some, List, [], ◌∷◌, String,
}
use durable_workflows.Base.Int.{ℤ}
use durable_workflows.Clock.{DbMillis}
use durable_workflows.Status.Activity.{ActivityStatus}
use durable_workflows.Rows.{WorkflowRow, ActivityRow}
use durable_workflows.Tx.{Db}
use durable_workflows.Events.{Env}
use durable_workflows.Sound.{ActivityOk, ActivityStep}
use durable_workflows.Sound.Keeps.{
  Keeps, Keeps-if, Keeps-pure, Keeps-fail, Keeps-bind, Keeps-lift, Keeps-reads, Keeps-or_fail,
  Keeps-update_activities, Keeps-update_attempts, Keeps-ensure_fenced,
}
use durable_workflows.Parents.Sound.{Keeps-append_activity_history}
use durable_workflows.Worker.Sound.{
  running-ActivityStep, unfinished-AttemptStep, Keeps-block_workflow, Keeps-settle_revoked,
}
use durable_workflows.Worker.Expiry.{
  still_running, expired_row, blocks, block_if_exhausted, expire_running, expire_row, expire_found,
  reconcile_candidate, reconcile_each, reconcile_expired,
}

running :
    (row : ActivityRow) (t : String) (r : ActivityRow)
    → still_running row t r ≡ true
    → r.status ≡ ActivityStatus.running
running row t r e = ground arith

expired-ActivityOk :
    (x : Bool) (at now : DbMillis) (r : ActivityRow) → ActivityOk (expired_row x at now r)
expired-ActivityOk true at now r = record { lease = refl; completed = refl }
expired-ActivityOk false at now r = record { lease = refl; completed = refl }

expired-ActivityStep :
    (x : Bool) (at now : DbMillis) (r : ActivityRow)
    → r.status ≡ ActivityStatus.running
    → ActivityStep r (expired_row x at now r)
expired-ActivityStep true at now r e = running-ActivityStep r _ e refl refl refl refl refl
expired-ActivityStep false at now r e = running-ActivityStep r _ e refl refl refl refl refl

module _ {old : Db} where
  Keeps-block_if_exhausted :
      (env : Env) (w : WorkflowRow) (row : ActivityRow) → Keeps old (block_if_exhausted env w row)
  unfolding block_if_exhausted
  Keeps-block_if_exhausted env w row =
      Keeps-if (blocks w row) _ _ (λ e. Keeps-block_workflow row _ _ env.now) (λ e. Keeps-pure tt)

  Keeps-expire_running :
      (env : Env) (w : WorkflowRow) (row : ActivityRow) → Keeps old (expire_running env w row)
  unfolding expire_running
  Keeps-expire_running env w row = Keeps-bind _ _ (Keeps-or_fail _ _) (λ t.
      Keeps-bind _ _ (Keeps-lift _) (λ at.
        Keeps-bind _ _
          (Keeps-update_activities _ _ (λ r e sound. expired-ActivityOk _ at env.now r)
            (λ r e. expired-ActivityStep _ at env.now r (running row t r e)))
          (λ n. Keeps-bind _ _ (Keeps-ensure_fenced n) (λ u.
            Keeps-bind _ _
              (Keeps-update_attempts _ _ (λ a e. unfinished-AttemptStep _ _ _ a _ e refl refl refl))
              (λ n'. Keeps-bind _ _ (Keeps-ensure_fenced n') (λ u'.
                Keeps-bind _ _ (Keeps-append_activity_history _ _ _ _)
                  (λ x. Keeps-block_if_exhausted env w row)))))))

  Keeps-expire_row :
      (env : Env) (w : WorkflowRow) (row : ActivityRow) (s : ActivityStatus)
      → Keeps old (expire_row env w row s)
  unfolding expire_row
  Keeps-expire_row env w row ActivityStatus.running = Keeps-expire_running env w row
  Keeps-expire_row env w row ActivityStatus.cancelling = Keeps-settle_revoked row _ _ env.now
  Keeps-expire_row env w row _ = Keeps-fail _

  Keeps-expire_found :
      (env : Env) (w : WorkflowRow) (o : Option ActivityRow) → Keeps old (expire_found env w o)
  unfolding expire_found
  Keeps-expire_found env w none = Keeps-pure tt
  Keeps-expire_found env w (some row) = Keeps-expire_row env w row row.status

  Keeps-reconcile_candidate :
      (env : Env) (topic : String) (c : ActivityRow) (o : Option WorkflowRow)
      → Keeps old (reconcile_candidate env topic c o)
  unfolding reconcile_candidate
  Keeps-reconcile_candidate env topic c none = Keeps-pure _
  Keeps-reconcile_candidate env topic c (some w) =
      Keeps-bind _ _ (Keeps-reads _)
        (λ r. Keeps-bind _ _ (Keeps-expire_found env w r) (λ u. Keeps-pure _))

  Keeps-reconcile_each :
      (env : Env) (held : ℤ → Bool) (topic : String) (cs : List ActivityRow)
      → Keeps old (reconcile_each env held topic cs)
  unfolding reconcile_each
  Keeps-reconcile_each env held topic [] = Keeps-pure _
  Keeps-reconcile_each env held topic (c ∷ cs) = Keeps-bind _ _ (Keeps-reads _) (λ w.
      Keeps-bind _ _ (Keeps-reconcile_candidate env topic c w)
        (λ u. Keeps-bind _ _ (Keeps-reconcile_each env held topic cs) (λ rest. Keeps-pure _)))

  pub Keeps-reconcile_expired :
      (env : Env) (held : ℤ → Bool) (topic : String) → Keeps old (reconcile_expired env held topic)
  unfolding reconcile_expired
  Keeps-reconcile_expired env held topic =
      Keeps-bind _ _ (Keeps-reads _) (λ cs. Keeps-reconcile_each env held topic cs)
