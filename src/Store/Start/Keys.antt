-- ===== src/Store/Start/Keys.antt =====
-- What a start promises to its callers: a map from the kinds and keys to ids, into which a start puts
-- its own id unless one is there.
use durable_workflows.Base.{
  ◌≡◌, refl, arith, Bool, true, false, ◌&&◌, ◌==◌, ◌++◌, Option, none, some, List, [], ◌∷◌, String,
  str_eq, if◌then◌else◌, Option-cases, Bool-cases, inl, inr,
}
use durable_workflows.Base.Int.{ℤ}
use durable_workflows.Base.Table.{first_where, count_where}
use durable_workflows.Base.Outcome.{Result, ok, err, conflict}
use durable_workflows.Rows.{WorkflowRow}
use durable_workflows.Tx.{
  Db, pure, reads, require, push_workflow, append_event, push_event, is_text, ◌>>=◌,
}
use durable_workflows.Events.{Env}
use durable_workflows.Store.{StartOptions, PreparedStart, StartOutcome, deduplication_key}
use durable_workflows.Store.Start.{
  has_key, same_restart, is_used, keyed_row, started_row, insert_unless, insert_workflow,
  started_as, insert_started, insert_fresh, insert_unless_found, insert_prepared,
}

abbrev pub Keys : Type 0
Keys = String → String → Option ℤ

abbrev id_of : Option WorkflowRow → Option ℤ
id_of none = none
id_of (some r) = some r.id

-- The ids that the keys of a table stand for.
abbrev pub keys : List WorkflowRow → Keys
keys rows kind key = id_of (first_where (has_key kind key) rows)

abbrev taken : Keys → String → Option String → Option ℤ
taken m kind none = none
taken m kind (some key) = m kind key

abbrev or_fresh : Option ℤ → Bool → ℤ → Option ℤ
or_fresh (some id) same fresh = some id
or_fresh none same fresh = if same then some fresh else none

abbrev with_key : Keys → String → Option String → ℤ → Keys
with_key m kind key fresh kind' key' =
    or_fresh (m kind' key') (str_eq kind kind' && is_text key key') fresh

abbrev start_at : Option ℤ → Keys → String → Option String → ℤ → StartOutcome × Keys
start_at (some id) m kind key fresh = (record { workflow_id = id; inserted = false }, m)
start_at none m kind key fresh =
    (record { workflow_id = fresh; inserted = true }, with_key m kind key fresh)

-- A start of the map: it finds the id of the key, or puts a fresh one there.
abbrev pub start : Keys → String → Option String → ℤ → StartOutcome × Keys
start m kind key fresh = start_at (taken m kind key) m kind key fresh

keys-append :
    (rows : List WorkflowRow) (w : WorkflowRow) (kind key : String)
    → keys (rows ++ w ∷ []) kind key ≡ or_fresh (keys rows kind key) (has_key kind key w) w.id
keys-append [] w kind key = elim (Bool-cases (has_key kind key w)) [
  | inl e ↦ rw e refl
  | inr e ↦ rw e refl
]
keys-append (r ∷ rows) w kind key = elim (Bool-cases (has_key kind key r)) [
  | inl e ↦ rw e refl
  | inr e ↦ rw e (keys-append rows w kind key)
]

count_where-first :
    (p : WorkflowRow → Bool) (rows : List WorkflowRow)
    → first_where p rows ≡ none
    → count_where p rows ≡ 0
count_where-first p [] e = refl
count_where-first p (r ∷ rows) e = elim (Bool-cases (p r)) [
  | inl k ↦ ground (arith, k, e)
  | inr k ↦ rw k (omega (arith, count_where-first p rows (rw k at e)))
]

taken-keyed_row :
    (kind : String) (key : Option String) (db : Db)
    → taken (keys db.workflows) kind key ≡ id_of (keyed_row kind key db)
taken-keyed_row kind none db = refl
taken-keyed_row kind (some key) db = refl

-- No row has the key of the new one.
is_used-fresh :
    (env : Env) (p : PreparedStart) (o : StartOptions) (db : Db)
    → keyed_row p.kind (deduplication_key o) db ≡ none
    → is_used (started_row env p o) db ≡ false
is_used-fresh env p o db e = at_key (deduplication_key o) e
  where
    none_same :
        (rows : List WorkflowRow) → count_where (λ r. str_eq r.kind p.kind && false) rows ≡ 0
    none_same [] = refl
    none_same (r ∷ rows) = ground (arith, none_same rows)

    at_key :
        (key : Option String)
        → keyed_row p.kind key db ≡ none
        → is_used (record (started_row env p o) { deduplication_key = key }) db ≡ false
    at_key none e' = rw (none_same db.workflows) refl
    at_key (some key) e' = rw (count_where-first (has_key p.kind key) db.workflows e') refl

-- A start that finds no row and commits has inserted its own.
insert_fresh_inv :
    (env : Env) (p : PreparedStart) (o : StartOptions) (db db' : Db) (outcome : StartOutcome)
    → is_used (started_row env p o) db ≡ false
    → insert_fresh env p o db ≡ ok (outcome, db')
    → (outcome ≡ record { workflow_id = env.assigned_id; inserted = true })
      × (db'.workflows ≡ db.workflows ++ started_row env p o ∷ [])
unfolding insert_fresh insert_started insert_workflow insert_unless started_as ◌>>=◌ reads require
    push_workflow append_event push_event pure
insert_fresh_inv env p o db db' outcome e h = at_unused unused refl
  where
    w : WorkflowRow
    w = started_row env p o

    unused : Bool
    unused = count_where (same_restart w) db.workflows == 0

    at_unused :
        (u : Bool)
        → unused ≡ u
        → (outcome ≡ record { workflow_id = env.assigned_id; inserted = true })
          × (db'.workflows ≡ db.workflows ++ started_row env p o ∷ [])
    at_unused false k = absurd (failed (rw (e, k) at h))
      where
        answer : Result (StartOutcome × Db)
        answer = ok (outcome, db')

        failed : err conflict ≡ answer → ⊥
        failed bad = cc
    at_unused true k = ground (arith, rw (e, k) at h)

-- A start that commits does to the keys of the table what a start of the map does: under a key that is
-- taken it gives that workflow's id and changes no key, and otherwise it gives the id of its own row,
-- which the key stands for from then on, while every other key stands for what it did.
pub insert_prepared-start :
    (env : Env) (p : PreparedStart) (o : StartOptions) (db db' : Db) (outcome : StartOutcome)
    → insert_prepared env p o db ≡ ok (outcome, db')
    → (outcome ≡ (start (keys db.workflows) p.kind (deduplication_key o) env.assigned_id).0)
      × ((kind key : String)
          → keys db'.workflows kind key
            ≡ (start (keys db.workflows) p.kind (deduplication_key o) env.assigned_id).1 kind key)
unfolding insert_prepared insert_unless_found ◌>>=◌ reads pure
insert_prepared-start env p o db db' outcome h =
    elim (Option-cases (keyed_row p.kind (deduplication_key o) db)) [
      | inl e ↦
          let done =
            insert_fresh_inv env p o db db' outcome (is_used-fresh env p o db e) (rw e at h) in
          rw (taken-keyed_row p.kind (deduplication_key o) db, e)
            (done.0, λ kind key. rw done.1 (keys-append db.workflows _ kind key))
      | inr (row, e) ↦
          rw (taken-keyed_row p.kind (deduplication_key o) db, e) (ground (arith, rw e at h))
    ]
