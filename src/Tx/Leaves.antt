-- ===== src/Tx/Leaves.antt =====
-- What a transaction leaves in the table of workflows when it commits: one rule for each way to join
-- statements. `W` is what holds of the table before and after.
use durable_workflows.Base.{
  ◌≡◌, refl, Bool, true, false, Option, none, some, List, [], ◌∷◌, ◌++◌, ℕ,
}
use durable_workflows.Base.Int.{ℤ}
use durable_workflows.Base.Table.{update_where}
use durable_workflows.Base.Outcome.{Result, ok, err, DurableError}
use durable_workflows.Rows.{WorkflowRow, WorkflowEventRow}
use durable_workflows.Tx.{
  Db, Tx, pure, lift, reads, require, or_fail, ensure_fenced, continue, update_workflows,
  append_event, push_event, push_workflow, next_event_sequence, ◌>>=◌,
}

-- Of a result: the workflows that it leaves have the property.
abbrev pub Ends : {A : Type 0} → (List WorkflowRow → Type 0) → Result (A × Db) → Type 0
Ends W (ok (a, db)) = W db.workflows
Ends W (err e) = Unit

pub record Leaves {A : Type 0} (V W : List WorkflowRow → Type 0) (m : Tx A) : Type 0 where
  pub at : (db : Db) → V db.workflows → Ends W (m db)

Ends-lift :
    {A : Type 0} (W : List WorkflowRow → Type 0) (r : Result A) (db : Db)
    → W db.workflows
    → Ends W (lift r db)
unfolding lift
Ends-lift W (ok a) db h = h
Ends-lift W (err e) db h = tt

Ends-require :
    (W : List WorkflowRow → Type 0) (b : Bool) (e : DurableError) (db : Db)
    → W db.workflows
    → Ends W (require b e db)
unfolding require
Ends-require W true e db h = h
Ends-require W false e db h = tt

Ends-or_fail :
    {A : Type 0} (W : List WorkflowRow → Type 0) (o : Option A) (e : DurableError) (db : Db)
    → W db.workflows
    → Ends W (or_fail o e db)
unfolding or_fail
Ends-or_fail W none e db h = tt
Ends-or_fail W (some a) e db h = h

Ends-continue :
    {A B : Type 0} (V W : List WorkflowRow → Type 0) (r : Result (A × Db)) (f : A → Tx B)
    → ((a : A) → Leaves V W (f a))
    → Ends V r
    → Ends W (continue r f)
Ends-continue V W (ok (a, db)) f k h = (k a).at db h
Ends-continue V W (err e) f k h = tt

module _ {W : List WorkflowRow → Type 0} where
  pub Leaves-pure : {A : Type 0} (a : A) → Leaves W W (pure a)
  unfolding pure
  Leaves-pure a = record { at = λ db h. h }

  pub Leaves-lift : {A : Type 0} (r : Result A) → Leaves W W (lift r)
  Leaves-lift r = record { at = Ends-lift W r }

  pub Leaves-reads : {A : Type 0} (f : Db → A) → Leaves W W (reads f)
  unfolding reads
  Leaves-reads f = record { at = λ db h. h }

  pub Leaves-require : (b : Bool) (e : DurableError) → Leaves W W (require b e)
  Leaves-require b e = record { at = Ends-require W b e }

  pub Leaves-ensure_fenced : (n : ℕ) → Leaves W W (ensure_fenced n)
  unfolding ensure_fenced
  Leaves-ensure_fenced n = Leaves-require _ _

  pub Leaves-or_fail : {A : Type 0} (o : Option A) (e : DurableError) → Leaves W W (or_fail o e)
  Leaves-or_fail o e = record { at = Ends-or_fail W o e }

module _ {U V W : List WorkflowRow → Type 0} where
  pub Leaves-bind :
      {A B : Type 0} (m : Tx A) (f : A → Tx B)
      → Leaves U V m
      → ((a : A) → Leaves V W (f a))
      → Leaves U W (m >>= f)
  unfolding ◌>>=◌
  Leaves-bind m f km kf = record { at = λ db h. Ends-continue V W (m db) f kf (km.at db h) }

module _ {W : List WorkflowRow → Type 0} where
  Leaves-push_event : (e : WorkflowEventRow) → Leaves W W (push_event e)
  unfolding push_event
  Leaves-push_event e = record { at = λ db h. h }

  pub Leaves-append_event : (e : WorkflowEventRow) → Leaves W W (append_event e)
  unfolding append_event
  Leaves-append_event e =
      Leaves-bind _ _ (Leaves-reads _)
        (λ fresh. Leaves-bind _ _ (Leaves-require _ _) (λ u. Leaves-push_event e))

  pub Leaves-next_event_sequence : (w : ℤ) → Leaves W W (next_event_sequence w)
  unfolding next_event_sequence
  Leaves-next_event_sequence w = record { at = λ db h. Ends-or_fail W _ _ db h }

-- An update leaves what holds of the updated table.
pub Leaves-update_workflows :
    {V W : List WorkflowRow → Type 0} (p : WorkflowRow → Bool) (f : WorkflowRow → WorkflowRow)
    → ((rs : List WorkflowRow) → V rs → W (update_where p f rs))
    → Leaves V W (update_workflows p f)
unfolding update_workflows
Leaves-update_workflows p f k = record { at = λ db h. k db.workflows h }

module _ {V W : List WorkflowRow → Type 0} where
  -- The rest may use what was lifted.
  pub Leaves-lift-bind :
      {A B : Type 0} (r : Result A) (f : A → Tx B)
      → ((a : A) → r ≡ ok a → Leaves V W (f a))
      → Leaves V W (lift r >>= f)
  unfolding ◌>>=◌ lift
  Leaves-lift-bind (ok a) f k = k a refl
  Leaves-lift-bind (err e) f k = record { at = λ db h. tt }

-- An insert leaves what holds of the table with the row at its end.
pub Leaves-push_workflow :
    {V W : List WorkflowRow → Type 0} (w : WorkflowRow)
    → ((rs : List WorkflowRow) → V rs → W (rs ++ w ∷ []))
    → Leaves V W (push_workflow w)
unfolding push_workflow
Leaves-push_workflow w k = record { at = λ db h. k db.workflows h }

pub ruleset leaves_rules =
    (Leaves-pure, Leaves-lift, Leaves-reads, Leaves-require, Leaves-or_fail, Leaves-append_event)
