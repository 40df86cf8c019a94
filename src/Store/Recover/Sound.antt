-- ===== src/Store/Recover/Sound.antt =====
-- A recoverable start changes rows only as the program may.
use durable_workflows.Base.{
  ◌≡◌, refl, arith, true, false, not, ◌||◌, Option, none, some, List, [], ◌∷◌, String, All,
}
use durable_workflows.Base.Int.{ℤ, ◌==ℤ◌}
use durable_workflows.Clock.{DbMillis}
use durable_workflows.Status.Workflow
use durable_workflows.Status.Workflow.{WorkflowStatus}
use durable_workflows.Status.Activity
use durable_workflows.Status.Activity.{ActivityStatus}
use durable_workflows.Rows.{WorkflowRow, ActivityRow}
use durable_workflows.Tx.{Db}
use durable_workflows.Events.{Env}
use durable_workflows.Sound.{WorkflowOk}
use durable_workflows.Sound.Keeps.{Keeps-pure, Keeps-reads, Keeps-or_fail, Keeps-ensure_fenced}
use durable_workflows.Base.Table.{select_where-All}
use durable_workflows.Parents.{awaits}
use durable_workflows.Parents.Sound.{Keeps-append_system_event, Keeps-wake_waiting_parents}
use durable_workflows.System.Change.{WorkflowChange}
use durable_workflows.System.Allows.{
  Allows, Allows-Keeps, Allows-if, Allows-bind, Allows-reads-bind, Allows-update_workflows,
  Allows-update_activities,
}
use durable_workflows.Store.{StartOptions, PreparedStart, StartOutcome}
use durable_workflows.Store.Start.Sound.{Keeps-insert_prepared}
use durable_workflows.Store.Cancel.Sound.{
  live-WorkflowChange, cancelled-ActivityChange, Allows-cancel_owned_descendants,
}
use durable_workflows.Store.Recover.{
  reattached_row, still_awaits, reattach_each, reattach, hand_waiting_parents_to_successor,
  dead_lettered_of, is_blocked, superseded_row, supersede, supersede_if_blocked, recover,
  recover_if_needed, start_or_recover, start_keyed, recoverable_start,
}

awaiting-WorkflowOk :
    (p : WorkflowRow) (old successor : ℤ) (now : DbMillis) (r : WorkflowRow)
    → still_awaits p old r ≡ true
    → WorkflowOk r
    → WorkflowOk (reattached_row successor now r)
awaiting-WorkflowOk p old successor now r e sound = record {
  lease = sound.lease;
  wait = ground (arith, sound.wait);
  paired = refl;
  timer = λ h. cc;
  completed = sound.completed;
}

awaiting-WorkflowChange :
    (p : WorkflowRow) (old successor : ℤ) (now : DbMillis) (r : WorkflowRow)
    → Workflow.set_contains Workflow.child_waiters p.status ≡ true
    → still_awaits p old r ≡ true
    → WorkflowChange r (reattached_row successor now r)
awaiting-WorkflowChange p old successor now r h e =
    live-WorkflowChange r _ (ground arith) refl refl refl refl

pub superseded-WorkflowOk :
    (now : DbMillis) (r : WorkflowRow) → WorkflowOk r → WorkflowOk (superseded_row now r)
superseded-WorkflowOk now r sound = record {
  lease = refl;
  wait = ground arith;
  paired = sound.paired;
  timer = sound.timer;
  completed = refl;
}

dead_lettered-first :
    (w : ℤ) (r : ActivityRow)
    → dead_lettered_of w r ≡ true
    → Activity.same r.status ActivityStatus.pending
        || Activity.same r.status ActivityStatus.dead_lettered
      ≡ true
dead_lettered-first w r e = ground arith

blocked-live : (w r : WorkflowRow) → is_blocked w r ≡ true → Workflow.is_terminal r.status ≡ false
blocked-live w r e = ground arith

waiter-of :
    (s : ℤ) (p : WorkflowRow)
    → awaits s p ≡ true
    → Workflow.set_contains Workflow.child_waiters p.status ≡ true
waiter-of s p e = ground arith

module _ {old : Db} (env : Env) where
  Allows-reattach_each :
      (parents : List WorkflowRow) (s successor : ℤ) (now : DbMillis)
      → All (λ p. awaits s p ≡ true) parents
      → Allows old (reattach_each env parents s successor now)
  unfolding reattach_each
  Allows-reattach_each [] s successor now h = Allows-Keeps _ (λ db. Keeps-pure _)
  Allows-reattach_each (p ∷ parents) s successor now h =
      Allows-bind _ _
        (Allows-update_workflows _ _ (λ r e sound. awaiting-WorkflowOk p s successor now r e sound)
          (λ r e. awaiting-WorkflowChange p s successor now r (waiter-of s p h.0) e))
        (λ n. Allows-bind _ _ (Allows-Keeps _ (λ db. Keeps-ensure_fenced n)) (λ u.
          Allows-bind _ _ (Allows-Keeps _ (λ db. Keeps-append_system_event _ _ _ _ _ _))
            (λ told. Allows-reattach_each parents s successor now h.1)))

  Allows-reattach : (s successor : ℤ) (now : DbMillis) → Allows old (reattach env s successor now)
  unfolding reattach
  Allows-reattach s successor now = Allows-reads-bind _ _ (λ db h.
      (Allows-reattach_each _ s successor now (select_where-All (awaits s) db.workflows)).at db h)

  pub Allows-hand_waiting_parents :
      (w : WorkflowRow) (successor version : ℤ) (now : DbMillis)
      → Allows old (hand_waiting_parents_to_successor env w successor version now)
  unfolding hand_waiting_parents_to_successor
  Allows-hand_waiting_parents w successor version now =
      Allows-if (version ==ℤ w.version) _ _ (λ e. Allows-reattach w.id successor now)
        (λ e. Allows-Keeps _ (λ db. Keeps-wake_waiting_parents env w _ now))

  Allows-supersede :
      (latest : WorkflowRow) (successor : StartOutcome) (version : ℤ) (now : DbMillis)
      → Allows old (supersede env latest successor version now)
  unfolding supersede
  Allows-supersede latest successor version now =
      Allows-bind _ _
        (Allows-update_workflows _ _ (λ r e sound. superseded-WorkflowOk now r sound)
          (λ r e. live-WorkflowChange r _ (blocked-live latest r e) refl refl refl refl))
        (λ n. Allows-bind _ _ (Allows-Keeps _ (λ db. Keeps-ensure_fenced n)) (λ u.
          Allows-bind _ _ (Allows-Keeps _ (λ db. Keeps-append_system_event _ _ _ _ _ _)) (λ told.
            Allows-bind _ _ (Allows-hand_waiting_parents latest _ version now)
              (λ handed. Allows-cancel_owned_descendants env none now latest _))))

  Allows-supersede_if_blocked :
      (latest : WorkflowRow) (successor : StartOutcome) (version : ℤ) (now : DbMillis)
      → Allows old (supersede_if_blocked env latest successor version now)
  unfolding supersede_if_blocked
  Allows-supersede_if_blocked latest successor version now =
      Allows-if (Workflow.same latest.status WorkflowStatus.blocked) _ _
        (λ e. Allows-supersede latest successor version now)
        (λ e. Allows-Keeps _ (λ db. Keeps-pure _))

  Allows-recover :
      (p : PreparedStart) (o : StartOptions) (root : ℤ) (latest : WorkflowRow)
      → Allows old (recover env p o root latest)
  unfolding recover
  Allows-recover p o root latest =
      Allows-bind _ _ (Allows-Keeps _ (λ db. Keeps-insert_prepared env p _)) (λ s.
        Allows-bind _ _
          (Allows-update_activities _ _ (λ r e sound. record { lease = refl; completed = refl })
            (λ r e. cancelled-ActivityChange env.now r (dead_lettered-first latest.id r e)))
          (λ n.
            Allows-bind _ _ (Allows-supersede_if_blocked latest s p.version env.now)
              (λ u. Allows-Keeps _ (λ db. Keeps-pure _))))

  Allows-recover_if_needed :
      (p : PreparedStart) (o : StartOptions) (root : ℤ) (latest : WorkflowRow)
      → Allows old (recover_if_needed env p o root latest)
  unfolding recover_if_needed
  Allows-recover_if_needed p o root latest =
      Allows-if (not (Workflow.is_start_recoverable latest.status)) _ _
        (λ e. Allows-Keeps _ (λ db. Keeps-pure _)) (λ e. Allows-recover p o root latest)

  Allows-start_or_recover :
      (p : PreparedStart) (o : StartOptions) (original : Option WorkflowRow)
      → Allows old (start_or_recover env p o original)
  unfolding start_or_recover
  Allows-start_or_recover p o none = Allows-Keeps _ (λ db. Keeps-insert_prepared env p o)
  Allows-start_or_recover p o (some original) =
      Allows-bind _ _ (Allows-Keeps _ (λ db. Keeps-reads _)) (λ newest.
        Allows-bind _ _ (Allows-Keeps _ (λ db. Keeps-or_fail _ _))
          (λ latest. Allows-recover_if_needed p o _ latest))

  Allows-start_keyed :
      (p : PreparedStart) (o : StartOptions) (key : Option String)
      → Allows old (start_keyed env p o key)
  unfolding start_keyed
  Allows-start_keyed p o none = Allows-Keeps _ (λ db. Keeps-insert_prepared env p o)
  Allows-start_keyed p o (some key) =
      Allows-bind _ _ (Allows-Keeps _ (λ db. Keeps-reads _))
        (λ original. Allows-start_or_recover p o original)

  pub Allows-recoverable_start :
      (p : PreparedStart) (o : StartOptions) → Allows old (recoverable_start env p o)
  unfolding recoverable_start
  Allows-recoverable_start p o = Allows-start_keyed p o _
