-- ===== src/Engine/Sound.antt =====
-- What holds of every database that the engine leads to.
use durable_workflows.Base.{subst}
use durable_workflows.Tx.{Db, Tx}
use durable_workflows.Sound.{Follows, IsSound, Follows-refl}
use durable_workflows.Sound.Keeps.{Keeps, Leads}
use durable_workflows.Temporal.Sound.{Keeps-timer_materialize_one, Keeps-expire_candidate}
use durable_workflows.Coordinator.Child.Sound.{Keeps-commit_on_connection}
use durable_workflows.Coordinator.Claim.Sound.{Keeps-claim_row}
use durable_workflows.Coordinator.Failure.Sound.{Keeps-record_activation_failure}
use durable_workflows.Worker.Sound.{Keeps-heartbeat_once}
use durable_workflows.Worker.Claim.Sound.{Keeps-claim_locked_candidate}
use durable_workflows.Worker.Finish.Sound.{Keeps-finish_on_connection}
use durable_workflows.Worker.Expiry.Sound.{Keeps-reconcile_expired}
use durable_workflows.Engine.{
  Commits, Step, claims_workflow, commits, fails_activation, fires_timer, expires_approval,
  claims_activity, beats, finishes, reconciles, Reach, begin, next,
}

kept :
    {A : Type 0} {old db db' : Db} (m : Tx A)
    → Keeps old m
    → Follows old db
    → Commits m db db'
    → Follows old db'
kept {old = old} {db = db} m k h c = subst (Leads old) (c.1) (k.at db h)

pub Step-Follows : {old db db' : Db} → Follows old db → Step db db' → Follows old db'
Step-Follows h (claims_workflow env config ds w held held' c) =
    kept _ (Keeps-claim_row env config ds w held held') h c
Step-Follows h (commits env config claim e t c) =
    kept _ (Keeps-commit_on_connection env config claim e t) h c
Step-Follows h (fails_activation env config claim m c) =
    kept _ (Keeps-record_activation_failure env config claim m) h c
Step-Follows h (fires_timer env held now c) = kept _ (Keeps-timer_materialize_one env held now) h c
Step-Follows h (expires_approval env now a w c) = kept _ (Keeps-expire_candidate env now a w) h c
Step-Follows h (claims_activity env registered w held held' a i c) =
    kept _ (Keeps-claim_locked_candidate env registered w held held' a i) h c
Step-Follows h (beats env claim c) = kept _ (Keeps-heartbeat_once env claim) h c
Step-Follows h (finishes env claim o c) = kept _ (Keeps-finish_on_connection env claim o) h c
Step-Follows h (reconciles env held t c) = kept _ (Keeps-reconcile_expired env held t) h c

-- From a sound database every sequence of the engine's transactions leads to a sound database, in
-- which each earlier row has changed only as its kind of row may, and no event has changed.
pub Reach-Follows : (db db' : Db) → IsSound db → Reach db db' → Follows db db'
Reach-Follows db _ sound begin = Follows-refl db sound
Reach-Follows db _ sound (next {db = mid} r s) = Step-Follows (Reach-Follows db mid sound r) s
