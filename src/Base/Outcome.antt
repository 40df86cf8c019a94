-- ===== src/Base/Outcome.antt =====
-- `DurableError` and `Result` (durable-workflows/src/error.rs). An error keeps its variant and the
-- identifier that `InvalidId` reports; the message texts are left out.
use mathlib.Core.Option.{Option, none, some}
use durable_workflows.Base.Int.{ℤ}

pub data DurableError : Type 0 where
  database : DurableError
  serialization : DurableError
  invalid_definition : DurableError
  invalid_state : DurableError
  fenced_write : DurableError
  invalid_id : ℤ → DurableError
  not_found : DurableError
  conflict : DurableError
  payload_too_large : DurableError
  definition_mismatch : DurableError

pub data Result {ℓ} (A : Type ℓ) : Type ℓ where
  ok : A → Result A
  err : DurableError → Result A

infixl 5 ◌>>=◌ ◌>>◌
-- `?`: an error ends the function that calls.
abbrev pub ◌>>=◌ {ℓ κ} : {A : Type ℓ} {B : Type κ} → Result A → (A → Result B) → Result B
err e >>= rest = err e
ok a >>= rest = rest a

abbrev pub ◌>>◌ {ℓ} : {B : Type ℓ} → Result (Unit {0}) → Result B → Result B
ok tt >> rest = rest
err e >> rest = err e

-- `ok_or`.
abbrev pub ok_or {ℓ} : {A : Type ℓ} → Option A → DurableError → Result A
ok_or none e = err e
ok_or (some a) e = ok a
