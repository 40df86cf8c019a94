-- ===== src/System/Sound.antt =====
-- What holds of every database that the program leads to.
use durable_workflows.Base.{subst}
use durable_workflows.Tx.{Db, Tx}
use durable_workflows.Sound.{IsSound, Follows-refl}
use durable_workflows.Engine.{Commits}
use durable_workflows.Engine.Sound.{Step-Follows}
use durable_workflows.System.Change.{Changes, Changes-refl, Changes-Follows}
use durable_workflows.System.Allows.{Arrives, Allows, Allows-Keeps}
use durable_workflows.Store.Start.Sound.{Keeps-insert_prepared}
use durable_workflows.Store.Cancel.Sound.{Allows-cancel_with_conn}
use durable_workflows.Store.Recover.Sound.{Allows-recoverable_start}
use durable_workflows.Admin.Sound.{Allows-cancel_workflow}
use durable_workflows.Admin.Pause.Sound.{Allows-pause_workflow}
use durable_workflows.Admin.Resume.Sound.{Arrives-resume_workflow}
use durable_workflows.Admin.Retry.Sound.{Allows-retry}
use durable_workflows.Admin.Resolve.Sound.{Allows-resolve_approval}
use durable_workflows.Admin.Restart.Sound.{Allows-restart}
use durable_workflows.System.{
  Step, runs, starts, starts_or_recovers, cancels, pauses, resumes, operator_cancels, retries,
  resolves, restarts, Reach, begin, next,
}

arrived :
    {A : Type 0} {old db db' : Db} (m : Tx A)
    → Allows old m
    → Changes old db
    → Commits m db db'
    → Changes old db'
arrived {old = old} {db = db} m k h c = subst (Arrives old) (c.1) (k.at db h)

Step-Changes : {old db db' : Db} → Changes old db → Step db db' → Changes old db'
Step-Changes {old = old} {db = db} {db' = db'} h (runs s) =
    Changes-Follows old db db' h
      (Step-Follows (Follows-refl db (h.workflows_ok, h.activities_ok)) s)
Step-Changes h (starts env p o c) =
    arrived _ (Allows-Keeps _ (λ db. Keeps-insert_prepared env p o)) h c
Step-Changes h (starts_or_recovers env p o c) = arrived _ (Allows-recoverable_start env p o) h c
Step-Changes h (cancels env w r c) = arrived _ (Allows-cancel_with_conn env w r) h c
Step-Changes h (pauses env o w c) = arrived _ (Allows-pause_workflow env o w) h c
Step-Changes {old = old} {db = db} h (resumes env o w premises c) =
    subst (Arrives old) (c.1) (Arrives-resume_workflow old db env o w premises h)
Step-Changes h (operator_cancels env o w c) = arrived _ (Allows-cancel_workflow env o w) h c
Step-Changes h (retries env hs o c' a c) = arrived _ (Allows-retry env hs o c' a) h c
Step-Changes h (resolves env hs o a d c) = arrived _ (Allows-resolve_approval env hs o a d) h c
Step-Changes h (restarts env hs o c' w c) = arrived _ (Allows-restart env hs o c' w) h c

-- From a sound database every sequence of the engine's transactions, of starts, cancellations and an
-- operator's controls leads to a sound database, in which each earlier workflow has kept its kind,
-- version and input and, where it was terminal, its whole row, each activity its payload, and no event
-- has changed; a resume is a step where an id names one workflow and no wait is answered already.
pub Reach-Changes : (db db' : Db) → IsSound db → Reach db db' → Changes db db'
Reach-Changes db _ sound begin = Changes-refl db sound
Reach-Changes db _ sound (next {db = mid} r s) = Step-Changes (Reach-Changes db mid sound r) s
