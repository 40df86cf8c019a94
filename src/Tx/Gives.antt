-- ===== src/Tx/Gives.antt =====
-- What a transaction returns when it commits: one rule for each way to join statements.
use durable_workflows.Base.{◌≡◌, refl, Bool, true, false, Option, none, some, if◌then◌else◌}
use durable_workflows.Base.Outcome.{Result, ok, err, DurableError}
use durable_workflows.Tx.{Db, Tx, pure, reads, or_fail, continue, ◌>>=◌}

-- Of a result: what it returns has the property.
abbrev pub Returns : {A : Type 0} → (A → Type 0) → Result (A × Db) → Type 0
Returns P (ok (a, db)) = P a
Returns P (err e) = Unit

pub record Gives {A : Type 0} (P : A → Type 0) (m : Tx A) : Type 0 where
  pub at : (db : Db) → Returns P (m db)

module _ {A : Type 0} (P : A → Type 0) where
  pub Gives-pure : (a : A) → P a → Gives P (pure a)
  unfolding pure
  Gives-pure a p = record { at = λ db. p }

  Returns-continue :
      {B : Type 0} (r : Result (B × Db)) (f : B → Tx A)
      → ((b : B) → Gives P (f b))
      → Returns P (continue r f)
  Returns-continue (ok (b, db)) f k = (k b).at db
  Returns-continue (err e) f k = tt

  pub Gives-bind :
      {B : Type 0} (m : Tx B) (f : B → Tx A) → ((b : B) → Gives P (f b)) → Gives P (m >>= f)
  unfolding ◌>>=◌
  Gives-bind m f k = record { at = λ db. Returns-continue (m db) f k }

  -- The rest may use what is there.
  pub Gives-or_fail-bind :
      {B : Type 0} (o : Option B) (e : DurableError) (f : B → Tx A)
      → ((b : B) → o ≡ some b → Gives P (f b))
      → Gives P (or_fail o e >>= f)
  unfolding ◌>>=◌ or_fail
  Gives-or_fail-bind none e f k = record { at = λ db. tt }
  Gives-or_fail-bind (some b) e f k = k b refl

  -- The rest may use what is read, and what it was read from.
  pub Gives-reads-bind :
      {B : Type 0} (g : Db → B) (f : B → Tx A)
      → ((db : Db) → Gives P (f (g db)))
      → Gives P (reads g >>= f)
  unfolding ◌>>=◌ reads
  Gives-reads-bind g f k = record { at = λ db. (k db).at db }

  pub Gives-if :
      (b : Bool) (m n : Tx A)
      → (b ≡ true → Gives P m)
      → (b ≡ false → Gives P n)
      → Gives P (if b then m else n)
  Gives-if true m n km kn = km refl
  Gives-if false m n km kn = kn refl
