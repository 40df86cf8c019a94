-- ===== src/Schedule/Overlap/Active.antt =====
-- While a workflow of the schedule is active, only the policy `allow` starts another.
use durable_workflows.Base.{◌≡◌}
use durable_workflows.Base.Outcome.{Result, ok, err}
use durable_workflows.Tx.{Db, Tx}
use durable_workflows.Schedule.Overlap.{Tick}

-- Of a result: its value has the property.
abbrev pub Ends : {A : Type 0} → (A → Type 0) → Result (A × Db) → Type 0
Ends P (ok (a, db)) = P a
Ends P (err e) = Unit

-- Nothing was started between the two.
abbrev pub IsIdle : Tick → Tick → Type 0
IsIdle tick tick' = (tick'.report.started ≡ tick.report.started) × (tick'.active ≡ tick.active)
