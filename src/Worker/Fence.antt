-- ===== src/Worker/Fence.antt =====
-- An attempt that has lost its lease commits nothing.
use durable_workflows.Base.{◌≡◌, none}
use durable_workflows.Base.Table.{first_where}
use durable_workflows.Tx.{Db}
use durable_workflows.Tx.Refuses.{Fails, Fails-or_fail-bind, Fails-none-bind, Fails-reads-bind}
use durable_workflows.Events.{Env}
use durable_workflows.Worker.{ActivityClaim, leased}
use durable_workflows.Worker.Heartbeat.{heartbeat_once}
use durable_workflows.Worker.Finish.{ExecutionOutcome, finish_on_connection}

-- When no activity row is leased to the claim's attempt under its token, neither a heartbeat nor any
-- outcome of the attempt commits.
pub lost_lease :
    (env : Env) (claim : ActivityClaim) (db : Db)
    → first_where (leased claim) db.activities ≡ none
    → Fails (heartbeat_once env claim db)
      × ((outcome : ExecutionOutcome) → Fails (finish_on_connection env claim outcome db))
unfolding heartbeat_once finish_on_connection
lost_lease env claim db h = (
  Fails-or_fail-bind _ _ _ db (λ at. Fails-reads-bind _ _ db (Fails-none-bind _ _ _ db h)),
  λ outcome.
      Fails-reads-bind _ _ db
        (Fails-or_fail-bind _ _ _ db (λ w. Fails-reads-bind _ _ db (Fails-none-bind _ _ _ db h))),
)
