-- ===== src/Coordinator/Claim/Found.antt =====
-- The claim finds a workflow that is due.
use durable_workflows.Base.{
  ◌≡◌, refl, subst, arith, Bool, true, false, ◌&&◌, some, List, [], ◌∷◌, String, All,
}
use durable_workflows.Base.Int.{ℤ, ◌==ℤ◌, ==ℤ_refl}
use durable_workflows.Base.Table.{
  first_by, select_where, order_by, limit, update_where, count_where,
}
use durable_workflows.Base.Member.{Memᴰ, All-map, All-Memᴰ, Memᴰ-All}
use durable_workflows.Base.Counting.{count_where_mono, count_where-Memᴰ}
use durable_workflows.Base.Queries.{
  select_where-keeps, order_by-keeps, select_where-IsFound, order_by-IsFound,
}
use durable_workflows.Base.Outcome.{ok}
use durable_workflows.Clock.{DbMillis, checked_plus_millis, duration_millis}
use durable_workflows.Status.Workflow
use durable_workflows.Status.Workflow.{WorkflowStatus}
use durable_workflows.Rows.{WorkflowRow}
use durable_workflows.Tx.{
  Db, pure, lift, reads, require, or_fail, update_workflows, ensure_fenced, ◌>>=◌,
}
use durable_workflows.Events.{Env}
use durable_workflows.Temporal.{sooner, unheld}
use durable_workflows.Coordinator.{CoordinatorConfig, ClaimedRow}
use durable_workflows.Coordinator.Claim.{
  lease_expired, recover, defined, is_ready, claim_candidate, claimed_row, lease_row, claim_row,
}

abbrev pub is_due : List (String × ℤ) → DbMillis → WorkflowRow → Bool
is_due definitions now r = defined definitions r && is_ready now r

-- The claim that is given for a row, and the database with that row leased.
abbrev pub claim_of : Env → DbMillis → WorkflowRow → ClaimedRow
claim_of env until row = record {
  row = record row {
    status = WorkflowStatus.running;
    lease_token = some env.uuid;
    lease_expires_at = some until;
  };
  lease_token = env.uuid;
}

abbrev is_unleased : WorkflowRow → WorkflowRow → Bool
is_unleased row r = r.id ==ℤ row.id && Workflow.same r.status WorkflowStatus.ready

abbrev pub leased_db : Env → String → DbMillis → WorkflowRow → Db → Db
leased_db env worker_id until row db = record db {
  workflows =
      update_where (is_unleased row) (claimed_row worker_id env.uuid until env.now) db.workflows;
}

select_where-none :
    (p : WorkflowRow → Bool) (rows : List WorkflowRow)
    → All (λ r. p r ≡ false) rows
    → select_where p rows ≡ []
select_where-none p [] h = refl
select_where-none p (r ∷ rows) h = rw h.0 (select_where-none p rows h.1)

-- The first of the due rows that no one holds: some row, and one that is due.
candidate-IsDue :
    (definitions : List (String × ℤ)) (db : Db) (now : DbMillis) (r : WorkflowRow)
    → Memᴰ r db.workflows
    → is_due definitions now r ≡ true
    → (x : WorkflowRow) × (claim_candidate definitions (λ id. false) now db ≡ some x)
      × Memᴰ x db.workflows
      × (is_due definitions now x ≡ true)
unfolding claim_candidate limit
candidate-IsDue definitions db now r m e =
    let due = is_due definitions now in
    let page = order_by sooner (select_where due db.workflows) in
    let found = order_by-IsFound sooner _ (select_where-IsFound due db.workflows r m e) in
    let kept : All (λ x. Memᴰ x db.workflows × (due x ≡ true)) page =
      order_by-keeps _ sooner _
        (select_where-keeps _ due db.workflows (Memᴰ-All _ db.workflows (λ x k. k))) in
    let head = subst (All (λ x. Memᴰ x db.workflows × (due x ≡ true))) found.2 kept in
    (found.0, rw found.2 refl, head.0.0, head.0.1)

abbrev pub same_id : WorkflowRow → WorkflowRow → Bool
same_id r x = x.id ==ℤ r.id

-- An id names one row, so a due row is the only one that the fenced update finds.
unleased_once :
    (definitions : List (String × ℤ)) (now : DbMillis) (db : Db) (x : WorkflowRow)
    → count_where (same_id x) db.workflows ≡ 1
    → Memᴰ x db.workflows
    → is_due definitions now x ≡ true
    → count_where (is_unleased x) db.workflows ≡ 1
unleased_once definitions now db x once m e = omega (
  arith,
  once,
  count_where_mono (is_unleased x) (same_id x) (λ r k. ground (arith, k)) db.workflows,
  count_where-Memᴰ (is_unleased x) db.workflows x m (ground (arith, e, ==ℤ_refl x.id)),
)

lease_row-once :
    (env : Env) (worker_id : String) (until : DbMillis) (x : WorkflowRow) (db : Db)
    → count_where (is_unleased x) db.workflows ≡ 1
    → lease_row env worker_id until (some x) db
      ≡ ok (some (claim_of env until x), leased_db env worker_id until x db)
unfolding lease_row ◌>>=◌ update_workflows ensure_fenced require pure
lease_row-once env worker_id until x db once = rw once refl

-- While no lease has expired and no other transaction holds a row, a claim finds a workflow if one is
-- ready, due and of a definition that the coordinator has: it commits, it leases exactly one such row
-- under the new token, and it gives the claim of that row. The lease must fit the clock, and an id
-- names one row.
pub claim_row-is_due :
    (env : Env) (config : CoordinatorConfig) (definitions : List (String × ℤ)) (worker_id : String)
    (held : ℤ → Bool) (db : Db) (r : WorkflowRow) (millis : ℤ) (until : DbMillis)
    → duration_millis config.lease_duration ≡ ok millis
    → checked_plus_millis env.now millis ≡ some until
    → All (λ s. lease_expired env.now s ≡ false) db.workflows
    → All (λ s. count_where (same_id s) db.workflows ≡ 1) db.workflows
    → Memᴰ r db.workflows
    → is_due definitions env.now r ≡ true
    → (x : WorkflowRow) × Memᴰ x db.workflows
      × (is_due definitions env.now x ≡ true)
      × (claim_row env config definitions worker_id held (λ id. false) db
          ≡ ok (some (claim_of env until x), leased_db env worker_id until x db))
unfolding claim_row recover first_by ◌>>=◌ reads lift or_fail pure
claim_row-is_due env config definitions worker_id held db r millis until fits in_time none_expired
      once m e =
    let due = candidate-IsDue definitions db env.now r m e in
    let once_there = All-Memᴰ _ db.workflows due.0 once due.2 in
    (
      due.0,
      due.2,
      due.3,
      rw
          (
            fits,
            in_time,
            select_where-none (λ s. lease_expired env.now s && unheld held s) db.workflows
                (All-map _ _ (λ s k. rw k refl) db.workflows none_expired),
            due.1,
          )
          (lease_row-once env worker_id until due.0 db
            (unleased_once definitions env.now db due.0 once_there due.2 due.3)),
    )
