-- ===== src/Tx/Refuses.antt =====
-- When a transaction cannot commit: a fenced update that finds no row.
use durable_workflows.Base.{◌≡◌, refl, arith, Bool, Option, none, some, List, [], ◌∷◌}
use durable_workflows.Base.Table.{first_where, count_where}
use durable_workflows.Base.Outcome.{Result, ok, err, DurableError}
use durable_workflows.Rows.{WorkflowRow}
use durable_workflows.Tx.Leaves.{Ends, Leaves}
use durable_workflows.Tx.{
  Db, Tx, continue, lift, or_fail, reads, update_workflows, ensure_fenced, require, ◌>>=◌,
}

-- The transaction fails on this database.
abbrev pub Fails : {A : Type 0} → Result (A × Db) → Type 0
Fails (ok x) = ⊥
Fails (err e) = Unit

pub Fails-continue :
    {A B : Type 0} (r : Result (A × Db)) (f : A → Tx B) → Fails r → Fails (continue r f)
Fails-continue (ok x) f h = elim h [ ]
Fails-continue (err e) f h = tt

-- A row of the table that passes is counted.
none-count_where :
    {A : Type 0} (p : A → Bool) (rs : List A) → first_where p rs ≡ none → count_where p rs ≡ 0
none-count_where p [] h = refl
none-count_where p (r ∷ rs) h = ground (arith, none-count_where p rs)

module _ {A B : Type 0} where
  pub Fails-first : (m : Tx A) (f : A → Tx B) (db : Db) → Fails (m db) → Fails ((m >>= f) db)
  unfolding ◌>>=◌
  Fails-first m f db h = Fails-continue (m db) f h

  Fails-after_continue :
      (V W : List WorkflowRow → Type 0) (r : Result (A × Db)) (f : A → Tx B)
      → Ends W r
      → ((a : A) (db : Db) → W db.workflows → Fails (f a db))
      → Fails (continue r f)
  Fails-after_continue V W (ok (a, db)) f h k = k a db h
  Fails-after_continue V W (err e) f h k = tt

  -- What comes first leaves a table on which the rest fails.
  pub Fails-rest :
      (V W : List WorkflowRow → Type 0) (m : Tx A) (f : A → Tx B) (db : Db)
      → Leaves V W m
      → V db.workflows
      → ((a : A) (db : Db) → W db.workflows → Fails (f a db))
      → Fails ((m >>= f) db)
  unfolding ◌>>=◌
  Fails-rest V W m f db l h k = Fails-after_continue V W (m db) f (l.at db h) k

  pub Fails-lift-bind :
      (r : Result A) (f : A → Tx B) (db : Db)
      → ((a : A) → Fails (f a db))
      → Fails ((lift r >>= f) db)
  unfolding ◌>>=◌ lift
  Fails-lift-bind (ok a) f db h = h a
  Fails-lift-bind (err e) f db h = tt

  pub Fails-or_fail-bind :
      (o : Option A) (e : DurableError) (f : A → Tx B) (db : Db)
      → ((a : A) → Fails (f a db))
      → Fails ((or_fail o e >>= f) db)
  unfolding ◌>>=◌ or_fail
  Fails-or_fail-bind (some a) e f db h = h a
  Fails-or_fail-bind none e f db h = tt

  pub Fails-none-bind :
      (o : Option A) (e : DurableError) (f : A → Tx B) (db : Db)
      → o ≡ none
      → Fails ((or_fail o e >>= f) db)
  unfolding ◌>>=◌ or_fail
  Fails-none-bind (some a) e f db h = cc
  Fails-none-bind none e f db h = tt

  pub Fails-reads-bind :
      (g : Db → A) (f : A → Tx B) (db : Db) → Fails (f (g db) db) → Fails ((reads g >>= f) db)
  unfolding ◌>>=◌ reads
  Fails-reads-bind g f db h = h

pub Fails-fenced_update :
    {B : Type 0} (p : WorkflowRow → Bool) (f : WorkflowRow → WorkflowRow) (k : Unit → Tx B)
    (db : Db)
    → first_where p db.workflows ≡ none
    → Fails ((update_workflows p f >>= λ changed. ensure_fenced changed >>= k) db)
unfolding ◌>>=◌ update_workflows ensure_fenced require
Fails-fenced_update p f k db h = rw (none-count_where p db.workflows h) tt

-- The same, where nothing follows.
pub Fails-last_update :
    (p : WorkflowRow → Bool) (f : WorkflowRow → WorkflowRow) (db : Db)
    → first_where p db.workflows ≡ none
    → Fails ((update_workflows p f >>= ensure_fenced) db)
unfolding ◌>>=◌ update_workflows ensure_fenced require
Fails-last_update p f db h = rw (none-count_where p db.workflows h) tt
