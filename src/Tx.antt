-- ===== src/Tx.antt =====
-- The database that the engine's transactions run on, and the statements they send. A transaction
-- is a function that returns a value with the database it leaves, or an error; an error leaves no
-- database, so a failed transaction is rolled back (durable-workflows/src/dialect/mod.rs and tx.rs).
-- Transactions are taken one after the other: the row locks they hold to commit make this the order
-- of their commits. What a `SKIP LOCKED` read leaves out is an argument, `held`.
pub mod Gives
pub mod Refuses
pub mod Leaves
use durable_workflows.Base.{
  ℕ, Bool, true, false, Option, none, some, List, [], ◌∷◌, ◌++◌, String, str_eq, ◌&&◌, ◌==◌,
  if◌then◌else◌, length,
}
use durable_workflows.Base.Int.{ℤ, pos, ◌+ℤ◌, ◌==ℤ◌, leb_ℤ, ltb_ℤ, checked, clamp, i32_min, i32_max}
use durable_workflows.Base.Table.{first_where, select_where, update_where, count_where}
use durable_workflows.Base.Outcome.{
  DurableError, Result, ok, err, database, fenced_write, invalid_state,
}
use durable_workflows.Rows.{
  WorkflowRow, WorkflowEventRow, ActivityRow, ActivityAttemptRow, ApprovalRow, ScheduleRunRow,
}

pub record Db : Type 0 where
  pub workflows : List WorkflowRow
  pub events : List WorkflowEventRow
  pub activities : List ActivityRow
  pub attempts : List ActivityAttemptRow
  pub approvals : List ApprovalRow
  pub schedule_runs : List ScheduleRunRow

abbrev pub Tx : Type 0 → Type 0
Tx A = Db → Result (A × Db)

unfoldable pub pure : {A : Type 0} → A → Tx A
pure a db = ok (a, db)

unfoldable pub fail : {A : Type 0} → DurableError → Tx A
fail e db = err e

unfoldable pub lift : {A : Type 0} → Result A → Tx A
lift (ok a) db = ok (a, db)
lift (err e) db = err e

unfoldable pub reads : {A : Type 0} → (Db → A) → Tx A
reads f db = ok (f db, db)

abbrev pub continue : {A B : Type 0} → Result (A × Db) → (A → Tx B) → Result (B × Db)
continue (ok (a, db)) f = f a db
continue (err e) f = err e

infixl 5 ◌>>=◌ ◌>>◌
unfoldable pub ◌>>=◌ : {A B : Type 0} → Tx A → (A → Tx B) → Tx B
unfolding pure fail lift reads
◌>>=◌ m f db = continue (m db) f

abbrev pub ◌>>◌ : {A B : Type 0} → Tx A → Tx B → Tx B
m >> n = m >>= λ _. n

-- `dialect::transaction`: the database after a commit, or the one before after a rollback.
abbrev pub committed : {A : Type 0} → Result (A × Db) → Db → Db
committed (ok (a, db')) db = db'
committed (err e) db = db

-- `if !test { return Err(e) }`.
unfoldable pub require : Bool → DurableError → Tx Unit
require true e db = ok (tt, db)
require false e db = err e

-- `.ok_or(e)?`.
unfoldable pub or_fail : {A : Type 0} → Option A → DurableError → Tx A
or_fail none e db = err e
or_fail (some a) e db = ok (a, db)

-- `ensure_fenced`, `ensure_single_change` and `ensure_cancel_changed`.
unfoldable pub ensure_fenced : ℕ → Tx Unit
ensure_fenced changed = require (changed == 1) fenced_write

-- `UPDATE … WHERE … SET …`, with the number of rows it changed.
unfoldable pub update_workflows : (WorkflowRow → Bool) → (WorkflowRow → WorkflowRow) → Tx ℕ
update_workflows p f db =
    ok (count_where p db.workflows, record db { workflows = update_where p f db.workflows })

unfoldable pub update_activities : (ActivityRow → Bool) → (ActivityRow → ActivityRow) → Tx ℕ
update_activities p f db =
    ok (count_where p db.activities, record db { activities = update_where p f db.activities })

unfoldable pub update_attempts :
    (ActivityAttemptRow → Bool) → (ActivityAttemptRow → ActivityAttemptRow) → Tx ℕ
update_attempts p f db =
    ok (count_where p db.attempts, record db { attempts = update_where p f db.attempts })

unfoldable pub update_approvals : (ApprovalRow → Bool) → (ApprovalRow → ApprovalRow) → Tx ℕ
update_approvals p f db =
    ok (count_where p db.approvals, record db { approvals = update_where p f db.approvals })

unfoldable pub update_schedule_runs :
    (ScheduleRunRow → Bool) → (ScheduleRunRow → ScheduleRunRow) → Tx ℕ
update_schedule_runs p f db = ok (
  count_where p db.schedule_runs,
  record db { schedule_runs = update_where p f db.schedule_runs },
)

-- SQL `column = value`: no row with NULL in the column matches.
abbrev pub is_int : Option ℤ → ℤ → Bool
is_int none v = false
is_int (some x) v = x ==ℤ v

abbrev pub is_text : Option String → String → Bool
is_text none v = false
is_text (some x) v = str_eq x v

-- SQL `column = value` where the value may be NULL too.
abbrev pub eq_int : Option ℤ → Option ℤ → Bool
eq_int x none = false
eq_int x (some v) = is_int x v

abbrev pub is_none {ℓ} : {A : Type ℓ} → Option A → Bool
is_none none = true
is_none (some a) = false

abbrev pub is_some {ℓ} : {A : Type ℓ} → Option A → Bool
is_some none = false
is_some (some a) = true

-- Inserts check the unique keys of the migrations; a duplicate is a database error. The id that the
-- database assigns is an argument.
abbrev same_key : WorkflowEventRow → WorkflowEventRow → Bool
same_key e r = r.workflow_id ==ℤ e.workflow_id && r.sequence ==ℤ e.sequence

abbrev same_delivery : WorkflowEventRow → WorkflowEventRow → Bool
same_delivery e r =
    r.workflow_id ==ℤ e.workflow_id && eq_int r.delivery_sequence e.delivery_sequence

unfoldable pub push_event : WorkflowEventRow → Tx Unit
push_event e db = ok (tt, record db { events = db.events ++ e ∷ [] })

unfoldable pub append_event : WorkflowEventRow → Tx Unit
unfolding push_event
append_event e = do
  fresh ← reads (λ db.
      count_where (same_key e) db.events == 0 && count_where (same_delivery e) db.events == 0)
  require fresh database
  push_event e

unfoldable pub push_workflow : WorkflowRow → Tx ℤ
push_workflow w db = ok (w.id, record db { workflows = db.workflows ++ w ∷ [] })

abbrev same_command : ActivityRow → ActivityRow → Bool
same_command a r =
    r.workflow_id ==ℤ a.workflow_id
    && r.command_sequence ==ℤ a.command_sequence
    && r.replacement_number ==ℤ a.replacement_number

unfoldable pub push_activity : ActivityRow → Tx ℤ
push_activity a db = ok (a.id, record db { activities = db.activities ++ a ∷ [] })

unfoldable pub insert_activity : ActivityRow → Tx ℤ
unfolding push_activity
insert_activity a = do
  fresh ← reads (λ db. count_where (same_command a) db.activities == 0)
  require fresh database
  push_activity a

abbrev same_attempt : ActivityAttemptRow → ActivityAttemptRow → Bool
same_attempt a r = r.activity_id ==ℤ a.activity_id && r.attempt_number ==ℤ a.attempt_number

unfoldable pub push_attempt : ActivityAttemptRow → Tx Unit
push_attempt a db = ok (tt, record db { attempts = db.attempts ++ a ∷ [] })

unfoldable pub insert_attempt : ActivityAttemptRow → Tx Unit
unfolding push_attempt
insert_attempt a = do
  fresh ← reads (λ db. count_where (same_attempt a) db.attempts == 0)
  require fresh database
  push_attempt a

abbrev same_request : ApprovalRow → ApprovalRow → Bool
same_request a r = r.workflow_id ==ℤ a.workflow_id && r.command_sequence ==ℤ a.command_sequence

unfoldable pub push_approval : ApprovalRow → Tx ℤ
push_approval a db = ok (a.id, record db { approvals = db.approvals ++ a ∷ [] })

unfoldable pub insert_approval : ApprovalRow → Tx ℤ
unfolding push_approval
insert_approval a = do
  fresh ← reads (λ db. count_where (same_request a) db.approvals == 0)
  require fresh database
  push_approval a

abbrev later : ℤ → Option ℤ → ℤ
later a none = a
later a (some b) = if ltb_ℤ a b then b else a

-- The largest sequence of the workflow's events.
abbrev pub largest : ℤ → List WorkflowEventRow → Option ℤ
largest w [] = none
largest w (e ∷ es) =
    let rest = largest w es in if e.workflow_id ==ℤ w then some (later e.sequence rest) else rest

abbrev pub or_zero : Option ℤ → ℤ
or_zero none = pos 0
or_zero (some a) = a

unfoldable pub next_event_sequence : ℤ → Tx ℤ
next_event_sequence w db =
    or_fail (checked i32_min i32_max (or_zero (largest w db.events) +ℤ pos 1)) invalid_state db

-- `i32::saturating_add(1)` and `i32::checked_add(1)`.
unfoldable pub saturating_succ : ℤ → ℤ
saturating_succ a = clamp i32_min i32_max (a +ℤ pos 1)

unfoldable pub checked_succ : ℤ → Option ℤ
checked_succ a = checked i32_min i32_max (a +ℤ pos 1)
