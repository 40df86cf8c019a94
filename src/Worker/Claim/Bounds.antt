-- ===== src/Worker/Claim/Bounds.antt =====
-- What a claim of an activity promises to the handler that runs it.
use durable_workflows.Base.{◌≡◌, true, Option, none, some}
use durable_workflows.Base.Int.{pos, ltb_ℤ, leb_ℤ}
use durable_workflows.Policy.Delay.{InBounds}
use durable_workflows.Status.Activity.{ActivityStatus}
use durable_workflows.Tx.Gives.{Gives}
use durable_workflows.Worker.{ActivityClaim}

-- The attempt is within the cap, the handler's time is positive and shorter than the lease, and the
-- retry policy is one that the checks accept.
pub record IsRunnable (claim : ActivityClaim) : Type 0 where
  pub attempt : leb_ℤ claim.attempt_number claim.row.max_attempts ≡ true
  pub timeout : ltb_ℤ (pos 0) claim.row.timeout_millis ≡ true
  pub lease : ltb_ℤ claim.row.timeout_millis claim.row.lease_duration_millis ≡ true
  pub policy : InBounds claim.retry_policy.backoff
  pub counted : claim.row.attempt_count ≡ claim.attempt_number
  pub running : claim.row.status ≡ ActivityStatus.running

abbrev pub AllRunnable : Option ActivityClaim → Type 0
AllRunnable none = Unit
AllRunnable (some claim) = IsRunnable claim
