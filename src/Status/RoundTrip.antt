-- ===== src/Status/RoundTrip.antt =====
-- Every persisted text is the text of exactly one variant: printing and parsing are inverse.
use durable_workflows.Base.{
  String, ◌≡◌, refl, ap, ◌∙◌, inl, inr, ◌↔◌, eq_iff, str_eq, Bool-cases, if◌then◌else◌,
}
use durable_workflows.Base.Outcome.{Result, ok}
use durable_workflows.Status.Workflow
use durable_workflows.Status.Workflow.{WorkflowStatus}
use durable_workflows.Status.Activity
use durable_workflows.Status.Activity.{ActivityStatus}
use durable_workflows.Status.Waits
use durable_workflows.Status.Waits.{WaitKind}
use durable_workflows.Status.Approval
use durable_workflows.Status.Approval.{ApprovalStatus}
use durable_workflows.Status.ScheduleRun
use durable_workflows.Status.ScheduleRun.{ScheduleRunStatus}
use durable_workflows.Status.Attempt
use durable_workflows.Status.Attempt.{AttemptOutcome}

ok-injective {ℓ} : {T : Type ℓ} {a b : T} → ok a ≡ ok b → a ≡ b
ok-injective h = cc

-- One test of a parser: either it passed at the text of its variant, or a later one did.
pick {ℓ} :
    {T : Type ℓ} (text : T → String) (t : String) (v s : T) (rest : Result T)
    → (rest ≡ ok s → t ≡ text s)
    → (if str_eq t (text v) then ok v else rest) ≡ ok s
    → t ≡ text s
pick text t v s rest next h = elim (Bool-cases (str_eq t (text v))) [
  | inl e ↦ (eq_iff t (text v)).0 e ∙ ap text (ok-injective (rw e at h))
  | inr e ↦ next (rw e at h)
]

pub WorkflowStatus_try_from-as_str :
    (s : WorkflowStatus) → Workflow.try_from (Workflow.as_str s) ≡ ok s
unfolding Workflow.try_from
WorkflowStatus_try_from-as_str WorkflowStatus.ready = refl
WorkflowStatus_try_from-as_str WorkflowStatus.running = refl
WorkflowStatus_try_from-as_str WorkflowStatus.waiting_activity = refl
WorkflowStatus_try_from-as_str WorkflowStatus.waiting_child = refl
WorkflowStatus_try_from-as_str WorkflowStatus.sleeping = refl
WorkflowStatus_try_from-as_str WorkflowStatus.waiting_approval = refl
WorkflowStatus_try_from-as_str WorkflowStatus.paused = refl
WorkflowStatus_try_from-as_str WorkflowStatus.blocked = refl
WorkflowStatus_try_from-as_str WorkflowStatus.succeeded = refl
WorkflowStatus_try_from-as_str WorkflowStatus.failed = refl
WorkflowStatus_try_from-as_str WorkflowStatus.cancelled = refl

pub WorkflowStatus_as_str-try_from :
    (t : String) (s : WorkflowStatus) → Workflow.try_from t ≡ ok s → t ≡ Workflow.as_str s
unfolding Workflow.try_from
WorkflowStatus_as_str-try_from t s = pick Workflow.as_str t WorkflowStatus.ready s _ (
    pick Workflow.as_str t WorkflowStatus.running s _ (
      pick Workflow.as_str t WorkflowStatus.waiting_activity s _ (
        pick Workflow.as_str t WorkflowStatus.waiting_child s _ (
          pick Workflow.as_str t WorkflowStatus.sleeping s _ (
            pick Workflow.as_str t WorkflowStatus.waiting_approval s _ (
              pick Workflow.as_str t WorkflowStatus.paused s _ (
                pick Workflow.as_str t WorkflowStatus.blocked s _ (
                  pick Workflow.as_str t WorkflowStatus.succeeded s _ (
                    pick Workflow.as_str t WorkflowStatus.failed s _
                      (pick Workflow.as_str t WorkflowStatus.cancelled s _ (λ h. cc)))))))))))

pub ActivityStatus_try_from-as_str :
    (s : ActivityStatus) → Activity.try_from (Activity.as_str s) ≡ ok s
unfolding Activity.try_from
ActivityStatus_try_from-as_str ActivityStatus.pending = refl
ActivityStatus_try_from-as_str ActivityStatus.running = refl
ActivityStatus_try_from-as_str ActivityStatus.cancelling = refl
ActivityStatus_try_from-as_str ActivityStatus.succeeded = refl
ActivityStatus_try_from-as_str ActivityStatus.dead_lettered = refl
ActivityStatus_try_from-as_str ActivityStatus.cancelled = refl

pub ActivityStatus_as_str-try_from :
    (t : String) (s : ActivityStatus) → Activity.try_from t ≡ ok s → t ≡ Activity.as_str s
unfolding Activity.try_from
ActivityStatus_as_str-try_from t s = pick Activity.as_str t ActivityStatus.pending s _ (
    pick Activity.as_str t ActivityStatus.running s _ (
      pick Activity.as_str t ActivityStatus.cancelling s _ (
        pick Activity.as_str t ActivityStatus.succeeded s _ (
          pick Activity.as_str t ActivityStatus.dead_lettered s _
            (pick Activity.as_str t ActivityStatus.cancelled s _ (λ h. cc))))))

pub WaitKind_try_from-as_str : (s : WaitKind) → Waits.try_from (Waits.as_str s) ≡ ok s
unfolding Waits.try_from
WaitKind_try_from-as_str WaitKind.timer = refl
WaitKind_try_from-as_str WaitKind.activity = refl
WaitKind_try_from-as_str WaitKind.child = refl
WaitKind_try_from-as_str WaitKind.approval = refl

pub WaitKind_as_str-try_from :
    (t : String) (s : WaitKind) → Waits.try_from t ≡ ok s → t ≡ Waits.as_str s
unfolding Waits.try_from
WaitKind_as_str-try_from t s = pick Waits.as_str t WaitKind.timer s _ (
    pick Waits.as_str t WaitKind.activity s _ (
      pick Waits.as_str t WaitKind.child s _ (pick Waits.as_str t WaitKind.approval s _ (λ h. cc))))

pub ApprovalStatus_try_from-as_str :
    (s : ApprovalStatus) → Approval.try_from (Approval.as_str s) ≡ ok s
unfolding Approval.try_from
ApprovalStatus_try_from-as_str ApprovalStatus.pending = refl
ApprovalStatus_try_from-as_str ApprovalStatus.resolved = refl
ApprovalStatus_try_from-as_str ApprovalStatus.expired = refl
ApprovalStatus_try_from-as_str ApprovalStatus.cancelled = refl

pub ApprovalStatus_as_str-try_from :
    (t : String) (s : ApprovalStatus) → Approval.try_from t ≡ ok s → t ≡ Approval.as_str s
unfolding Approval.try_from
ApprovalStatus_as_str-try_from t s = pick Approval.as_str t ApprovalStatus.pending s _ (
    pick Approval.as_str t ApprovalStatus.resolved s _ (
      pick Approval.as_str t ApprovalStatus.expired s _
        (pick Approval.as_str t ApprovalStatus.cancelled s _ (λ h. cc))))

pub ScheduleRunStatus_try_from-as_str :
    (s : ScheduleRunStatus) → ScheduleRun.try_from (ScheduleRun.as_str s) ≡ ok s
unfolding ScheduleRun.try_from
ScheduleRunStatus_try_from-as_str ScheduleRunStatus.queued = refl
ScheduleRunStatus_try_from-as_str ScheduleRunStatus.materializing = refl
ScheduleRunStatus_try_from-as_str ScheduleRunStatus.started = refl
ScheduleRunStatus_try_from-as_str ScheduleRunStatus.skipped = refl
ScheduleRunStatus_try_from-as_str ScheduleRunStatus.coalesced = refl

pub ScheduleRunStatus_as_str-try_from :
    (t : String) (s : ScheduleRunStatus) → ScheduleRun.try_from t ≡ ok s → t ≡ ScheduleRun.as_str s
unfolding ScheduleRun.try_from
ScheduleRunStatus_as_str-try_from t s = pick ScheduleRun.as_str t ScheduleRunStatus.queued s _ (
    pick ScheduleRun.as_str t ScheduleRunStatus.materializing s _ (
      pick ScheduleRun.as_str t ScheduleRunStatus.started s _ (
        pick ScheduleRun.as_str t ScheduleRunStatus.skipped s _
          (pick ScheduleRun.as_str t ScheduleRunStatus.coalesced s _ (λ h. cc)))))

pub AttemptOutcome_try_from-as_str :
    (s : AttemptOutcome) → Attempt.try_from (Attempt.as_str s) ≡ ok s
unfolding Attempt.try_from
AttemptOutcome_try_from-as_str AttemptOutcome.succeeded = refl
AttemptOutcome_try_from-as_str AttemptOutcome.retryable_failure = refl
AttemptOutcome_try_from-as_str AttemptOutcome.dead_lettered = refl
AttemptOutcome_try_from-as_str AttemptOutcome.lease_expired = refl
AttemptOutcome_try_from-as_str AttemptOutcome.operator_cancelled = refl
AttemptOutcome_try_from-as_str AttemptOutcome.application_cancelled = refl
AttemptOutcome_try_from-as_str AttemptOutcome.operator_paused = refl

pub AttemptOutcome_as_str-try_from :
    (t : String) (s : AttemptOutcome) → Attempt.try_from t ≡ ok s → t ≡ Attempt.as_str s
unfolding Attempt.try_from
AttemptOutcome_as_str-try_from t s = pick Attempt.as_str t AttemptOutcome.succeeded s _ (
    pick Attempt.as_str t AttemptOutcome.retryable_failure s _ (
      pick Attempt.as_str t AttemptOutcome.dead_lettered s _ (
        pick Attempt.as_str t AttemptOutcome.lease_expired s _ (
          pick Attempt.as_str t AttemptOutcome.operator_cancelled s _ (
            pick Attempt.as_str t AttemptOutcome.application_cancelled s _
              (pick Attempt.as_str t AttemptOutcome.operator_paused s _ (λ h. cc)))))))

-- A text parses to a variant exactly when it is the text that the variant is stored as.
pub WorkflowStatus_try_from_iff :
    (t : String) (s : WorkflowStatus) → (Workflow.try_from t ≡ ok s) ↔ (t ≡ Workflow.as_str s)
WorkflowStatus_try_from_iff t s =
    (WorkflowStatus_as_str-try_from t s, λ e. rw e (WorkflowStatus_try_from-as_str s))

-- A text parses to a variant exactly when it is the text that the variant is stored as.
pub ActivityStatus_try_from_iff :
    (t : String) (s : ActivityStatus) → (Activity.try_from t ≡ ok s) ↔ (t ≡ Activity.as_str s)
ActivityStatus_try_from_iff t s =
    (ActivityStatus_as_str-try_from t s, λ e. rw e (ActivityStatus_try_from-as_str s))

-- A text parses to a variant exactly when it is the text that the variant is stored as.
pub WaitKind_try_from_iff :
    (t : String) (s : WaitKind) → (Waits.try_from t ≡ ok s) ↔ (t ≡ Waits.as_str s)
WaitKind_try_from_iff t s = (WaitKind_as_str-try_from t s, λ e. rw e (WaitKind_try_from-as_str s))

-- A text parses to a variant exactly when it is the text that the variant is stored as.
pub ApprovalStatus_try_from_iff :
    (t : String) (s : ApprovalStatus) → (Approval.try_from t ≡ ok s) ↔ (t ≡ Approval.as_str s)
ApprovalStatus_try_from_iff t s =
    (ApprovalStatus_as_str-try_from t s, λ e. rw e (ApprovalStatus_try_from-as_str s))

-- A text parses to a variant exactly when it is the text that the variant is stored as.
pub ScheduleRunStatus_try_from_iff :
    (t : String) (s : ScheduleRunStatus)
    → (ScheduleRun.try_from t ≡ ok s) ↔ (t ≡ ScheduleRun.as_str s)
ScheduleRunStatus_try_from_iff t s =
    (ScheduleRunStatus_as_str-try_from t s, λ e. rw e (ScheduleRunStatus_try_from-as_str s))

-- A text parses to a variant exactly when it is the text that the variant is stored as.
pub AttemptOutcome_try_from_iff :
    (t : String) (s : AttemptOutcome) → (Attempt.try_from t ≡ ok s) ↔ (t ≡ Attempt.as_str s)
AttemptOutcome_try_from_iff t s =
    (AttemptOutcome_as_str-try_from t s, λ e. rw e (AttemptOutcome_try_from-as_str s))
