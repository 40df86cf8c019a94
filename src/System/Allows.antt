-- ===== src/System/Allows.antt =====
-- The rules by which a transaction is shown to change rows only as the program may.
use durable_workflows.Base.{◌≡◌, refl, Bool, true, false, Option, none, some, if◌then◌else◌}
use durable_workflows.Base.Table.{Grows-trans, Grows-update_where, All-update_where}
use durable_workflows.Base.Outcome.{Result, ok, err, DurableError}
use durable_workflows.Rows.{WorkflowRow, ActivityRow}
use durable_workflows.Tx.{
  Db, Tx, continue, lift, reads, require, or_fail, update_workflows, update_activities, ◌>>=◌,
}
use durable_workflows.Sound.{WorkflowOk, ActivityOk, Follows-refl}
use durable_workflows.Sound.Keeps.{Keeps, Leads}
use durable_workflows.System.Change.{
  Changes, Changes-Follows, WorkflowChange, ActivityChange, WorkflowChange-refl,
  ActivityChange-refl, WorkflowChange-trans, ActivityChange-trans,
}

-- Of a result: its database is one that `old` may change to.
abbrev pub Arrives : {A : Type 0} → Db → Result (A × Db) → Type 0
Arrives old (ok (a, db)) = Changes old db
Arrives old (err e) = Unit

pub record Allows {A : Type 0} (old : Db) (m : Tx A) : Type 0 where
  pub at : (db : Db) → Changes old db → Arrives old (m db)

Arrives-Leads :
    {A : Type 0} (old db : Db) (r : Result (A × Db)) → Changes old db → Leads db r → Arrives old r
Arrives-Leads old db (ok (a, db')) h f = Changes-Follows old db db' h f
Arrives-Leads old db (err e) h f = tt

module _ {old : Db} where
  -- What the engine's promise holds of, from every database.
  pub Allows-Keeps : {A : Type 0} (m : Tx A) → ((db : Db) → Keeps db m) → Allows old m
  Allows-Keeps m k = record {
    at = λ db h.
        Arrives-Leads old db (m db) h
          ((k db).at db (Follows-refl db (h.workflows_ok, h.activities_ok)));
  }

  pub Allows-if :
      {A : Type 0} (b : Bool) (m n : Tx A)
      → (b ≡ true → Allows old m)
      → (b ≡ false → Allows old n)
      → Allows old (if b then m else n)
  Allows-if true m n km kn = km refl
  Allows-if false m n km kn = kn refl

  pub Allows-require-bind :
      {B : Type 0} (b : Bool) (e : DurableError) (f : Unit → Tx B)
      → (b ≡ true → Allows old (f tt))
      → Allows old (require b e >>= f)
  unfolding ◌>>=◌ require
  Allows-require-bind true e f k = k refl
  Allows-require-bind false e f k = record { at = λ db h. tt }

  pub Allows-or_fail-bind :
      {A B : Type 0} (o : Option A) (e : DurableError) (f : A → Tx B)
      → ((a : A) → o ≡ some a → Allows old (f a))
      → Allows old (or_fail o e >>= f)
  unfolding ◌>>=◌ or_fail
  Allows-or_fail-bind none e f k = record { at = λ db h. tt }
  Allows-or_fail-bind (some a) e f k = k a refl

  pub Allows-lift-bind :
      {A B : Type 0} (r : Result A) (f : A → Tx B)
      → ((a : A) → r ≡ ok a → Allows old (f a))
      → Allows old (lift r >>= f)
  unfolding ◌>>=◌ lift
  Allows-lift-bind (ok a) f k = k a refl
  Allows-lift-bind (err e) f k = record { at = λ db h. tt }

  -- The rest may use what is read, and the database that it was read from.
  pub Allows-reads-bind :
      {A B : Type 0} (g : Db → A) (f : A → Tx B)
      → ((db : Db) → Changes old db → Arrives old (f (g db) db))
      → Allows old (reads g >>= f)
  unfolding ◌>>=◌ reads
  Allows-reads-bind g f k = record { at = k }

  pub Arrives-continue :
      {A B : Type 0} (r : Result (A × Db)) (f : A → Tx B)
      → ((a : A) → Allows old (f a))
      → Arrives old r
      → Arrives old (continue r f)
  Arrives-continue (ok (a, db)) f k h = (k a).at db h
  Arrives-continue (err e) f k h = tt

  pub Allows-bind :
      {A B : Type 0} (m : Tx A) (f : A → Tx B)
      → Allows old m
      → ((a : A) → Allows old (f a))
      → Allows old (m >>= f)
  unfolding ◌>>=◌
  Allows-bind m f km kf = record { at = λ db h. Arrives-continue (m db) f kf (km.at db h) }

  pub Allows-update_workflows :
      (p : WorkflowRow → Bool) (f : WorkflowRow → WorkflowRow)
      → ((r : WorkflowRow) → p r ≡ true → WorkflowOk r → WorkflowOk (f r))
      → ((r : WorkflowRow) → p r ≡ true → WorkflowChange r (f r))
      → Allows old (update_workflows p f)
  unfolding update_workflows
  Allows-update_workflows p f sound step = record {
    at = λ db h. record {
      workflows =
          Grows-trans WorkflowChange WorkflowChange-trans h.workflows
            (Grows-update_where WorkflowChange WorkflowChange-refl p f step db.workflows);
      workflows_ok = All-update_where WorkflowOk p f sound db.workflows h.workflows_ok;
      activities = h.activities;
      attempts = h.attempts;
      approvals = h.approvals;
      events = h.events;
      activities_ok = h.activities_ok;
    };
  }

  pub Allows-update_activities :
      (p : ActivityRow → Bool) (f : ActivityRow → ActivityRow)
      → ((r : ActivityRow) → p r ≡ true → ActivityOk r → ActivityOk (f r))
      → ((r : ActivityRow) → p r ≡ true → ActivityChange r (f r))
      → Allows old (update_activities p f)
  unfolding update_activities
  Allows-update_activities p f sound step = record {
    at = λ db h. record {
      activities =
          Grows-trans ActivityChange ActivityChange-trans h.activities
            (Grows-update_where ActivityChange ActivityChange-refl p f step db.activities);
      activities_ok = All-update_where ActivityOk p f sound db.activities h.activities_ok;
      workflows = h.workflows;
      attempts = h.attempts;
      approvals = h.approvals;
      events = h.events;
      workflows_ok = h.workflows_ok;
    };
  }

-- The same rules at one database, for a transaction that is only right at some.
module _ (old db : Db) where
  pub Arrives-require-bind :
      {B : Type 0} (b : Bool) (e : DurableError) (f : Unit → Tx B)
      → (b ≡ true → Arrives old (f tt db))
      → Arrives old ((require b e >>= f) db)
  unfolding ◌>>=◌ require
  Arrives-require-bind true e f k = k refl
  Arrives-require-bind false e f k = tt

  pub Arrives-or_fail-bind :
      {A B : Type 0} (o : Option A) (e : DurableError) (f : A → Tx B)
      → ((a : A) → o ≡ some a → Arrives old (f a db))
      → Arrives old ((or_fail o e >>= f) db)
  unfolding ◌>>=◌ or_fail
  Arrives-or_fail-bind none e f k = tt
  Arrives-or_fail-bind (some a) e f k = k a refl

  pub Arrives-lift-bind :
      {A B : Type 0} (r : Result A) (f : A → Tx B)
      → ((a : A) → r ≡ ok a → Arrives old (f a db))
      → Arrives old ((lift r >>= f) db)
  unfolding ◌>>=◌ lift
  Arrives-lift-bind (ok a) f k = k a refl
  Arrives-lift-bind (err e) f k = tt
