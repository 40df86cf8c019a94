-- ===== src/Engine/Activation.antt =====
-- An activation takes the engine's steps only.
use durable_workflows.Tx.{Tx}
