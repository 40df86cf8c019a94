-- ===== src/Restart.antt =====
-- When the supervisor restarts a failed task and when it stops the runtime
-- (durable-workflows/src/runtime/restart.rs). Durations and instants are whole nanoseconds.
pub mod Budget
use durable_workflows.Base.{
  ℕ, ◌+◌, ◌-◌, Bool, true, false, if◌then◌else◌, leb, ltb, max, min, Option, none, some, List, [],
  ◌∷◌,
}

-- How `DurableError::transience` classifies an error.
pub data Transience : Type 0 where
  rolled_back : Transience
  unavailable : Transience

pub data TaskFailureKind : Type 0 where
  transient : Transience → TaskFailureKind
  fault : TaskFailureKind
  panic : TaskFailureKind

pub record RestartPolicy : Type 0 where
  pub initial_backoff : ℕ
  pub max_backoff : ℕ
  pub healthy_after : ℕ
  pub max_restarts : ℕ
  pub window : ℕ
  pub max_transient_outage : ℕ

-- A cap below the initial delay keeps the delay fixed.
abbrev pub new_policy :
    (restart_backoff max_restart_backoff healthy_after max_restarts window max_transient_outage : ℕ)
    → RestartPolicy
new_policy restart_backoff max_restart_backoff healthy_after max_restarts window
      max_transient_outage =
    record {
      initial_backoff = restart_backoff;
      max_backoff = max max_restart_backoff restart_backoff;
      healthy_after = healthy_after;
      max_restarts = max_restarts;
      window = window;
      max_transient_outage = max_transient_outage;
    }

pub data StopReason : Type 0 where
  budget_exhausted : (max_restarts window : ℕ) → StopReason
  transient_outage : (lasted limit : ℕ) → StopReason
  unrestartable : StopReason

pub data RestartDecision : Type 0 where
  restart : (delay : ℕ) → RestartDecision
  stop : StopReason → RestartDecision

pub record RestartBudget : Type 0 where
  pub count : ℕ
  pub window_started : ℕ

pub record TaskRestarts : Type 0 where
  pub budget : RestartBudget
  pub backoff : ℕ
  pub outage_started : Option ℕ

abbrev pub new_task : ℕ → RestartPolicy → TaskRestarts
new_task now policy = record {
  budget = record { count = 0; window_started = now };
  backoff = policy.initial_backoff;
  outage_started = none;
}

abbrev duration_max : ℕ
duration_max = 18_446_744_073_709_551_615_999_999_999

-- `RestartBackoff::advance`: the next delay.
abbrev pub next_backoff : ℕ → ℕ → ℕ
next_backoff backoff max_backoff = min (min (backoff + backoff) duration_max) max_backoff

-- `RestartBudget::record`: the budget after a restart, and whether it allows the restart.
abbrev opened : ℕ → ℕ → RestartBudget → RestartBudget
opened now window budget =
    if ltb window (now - budget.window_started)
    then record { count = 0; window_started = now }
    else budget

abbrev pub recorded : ℕ → ℕ → RestartBudget → RestartBudget
recorded now window budget = record (opened now window budget) {
  count = min ((opened now window budget).count + 1) 4_294_967_295;
}

abbrev pub allows : ℕ → ℕ → ℕ → RestartBudget → Bool
allows now window max_restarts budget = leb (recorded now window budget).count max_restarts

abbrev refreshed : ℕ → RestartPolicy → TaskRestarts → TaskRestarts
refreshed ran_for policy task =
    if leb policy.healthy_after ran_for
    then record task { backoff = policy.initial_backoff; outage_started = none }
    else task

abbrev restarted : RestartPolicy → TaskRestarts → RestartDecision × TaskRestarts
restarted policy task =
    (restart task.backoff, record task { backoff = next_backoff task.backoff policy.max_backoff })

abbrev or_now : Option ℕ → ℕ → ℕ
or_now none now = now
or_now (some started) now = started

abbrev after_transient : ℕ → RestartPolicy → TaskRestarts → RestartDecision × TaskRestarts
after_transient now policy task =
    let started = or_now task.outage_started now in
    let task' = record task { outage_started = some started } in
    if ltb policy.max_transient_outage (now - started)
    then (stop (transient_outage (now - started) policy.max_transient_outage), task')
    else restarted policy task'

abbrev after_fault : ℕ → RestartPolicy → TaskRestarts → RestartDecision × TaskRestarts
after_fault now policy task =
    let task' = record task { budget = recorded now policy.window task.budget } in
    if allows now policy.window policy.max_restarts task.budget
    then restarted policy task'
    else (stop (budget_exhausted policy.max_restarts policy.window), task')

unfoldable pub decide :
    ℕ → TaskFailureKind → RestartPolicy → TaskRestarts → RestartDecision × TaskRestarts
decide now (transient t) policy task = after_transient now policy task
decide now fault policy task = after_fault now policy task
decide now panic policy task = after_fault now policy task

unfoldable pub on_failure :
    ℕ → ℕ → TaskFailureKind → RestartPolicy → TaskRestarts → RestartDecision × TaskRestarts
unfolding decide
on_failure now ran_for kind policy task = decide now kind policy (refreshed ran_for policy task)

pub record Failure : Type 0 where
  pub now : ℕ
  pub ran_for : ℕ
  pub kind : TaskFailureKind

abbrev pub if_restarted : RestartDecision → Option TaskRestarts → Option TaskRestarts
if_restarted (restart delay) later = later
if_restarted (stop reason) later = none

-- The failures of a task one after the other, as long as each of them is restarted.
unfoldable pub survives : RestartPolicy → List Failure → TaskRestarts → Option TaskRestarts
unfolding on_failure
survives policy [] task = some task
survives policy (f ∷ failures) task =
    let decided = on_failure f.now f.ran_for f.kind policy task in
    if_restarted decided.0 (survives policy failures decided.1)
