-- ===== src/Restart/Budget.antt =====
-- A task is restarted after a bounded number of faults and panics in a window.
use durable_workflows.Base.{
  ℕ, ◌≤◌, ◌<◌, ◌+◌, ◌-◌, ◌≡◌, sym, subst, arith, Bool, true, false, Option, some, List, [], ◌∷◌,
  All, length,
}
use durable_workflows.Restart.{
  TaskFailureKind, transient, fault, panic, RestartPolicy, TaskRestarts, Failure, decide,
  on_failure, survives, if_restarted,
}

abbrev is_transient : TaskFailureKind → Bool
is_transient (transient t) = true
is_transient fault = false
is_transient panic = false

-- A fault or a panic in the window that began at the instant.
abbrev pub InWindow : ℕ → ℕ → Failure → Type 0
InWindow started window f = (is_transient f.kind ≡ false) × (f.now - started ≤ window)

-- A restart after a fault has counted it in the window.
Counts : RestartPolicy → Failure → TaskRestarts → Option TaskRestarts → TaskRestarts → Type 0
Counts policy f task rest last =
    ((on_failure f.now f.ran_for f.kind policy task).1.budget.count ≡ task.budget.count + 1)
    × (task.budget.count + 1 ≤ policy.max_restarts)
    × ((on_failure f.now f.ran_for f.kind policy task).1.budget.window_started
        ≡ task.budget.window_started)
    × (rest ≡ some last)

on_failure-Counts :
    (policy : RestartPolicy) (f : Failure) (task : TaskRestarts) (rest : Option TaskRestarts)
    (last : TaskRestarts)
    → policy.max_restarts < 4_294_967_295
    → task.budget.count ≤ policy.max_restarts
    → InWindow task.budget.window_started policy.window f
    → if_restarted (on_failure f.now f.ran_for f.kind policy task).0 rest ≡ some last
    → Counts policy f task rest last
unfolding Counts on_failure decide
on_failure-Counts policy f task rest last small within h e =
    ground (arith, small, within, h.0, h.1, e)

-- A task that is restarted after each of a sequence of faults and panics in its current window has had
-- no more of them, with those counted before, than the policy allows, whatever its runs and its backoff
-- are. The policy allows fewer than the largest `u32`, and the count was within it.
pub survives-InWindow :
    (policy : RestartPolicy) (failures : List Failure) (task last : TaskRestarts)
    → policy.max_restarts < 4_294_967_295
    → task.budget.count ≤ policy.max_restarts
    → All (InWindow task.budget.window_started policy.window) failures
    → survives policy failures task ≡ some last
    → task.budget.count + length failures ≤ policy.max_restarts
unfolding survives Counts
survives-InWindow policy [] task last small within h e = ground (arith, within)
survives-InWindow policy (f ∷ failures) task last small within h e =
    let task' = (on_failure f.now f.ran_for f.kind policy task).1 in
    let counts =
      on_failure-Counts policy f task (survives policy failures task') last small within h.0 e in
    let later =
      subst (λ (started : ℕ). All (InWindow started policy.window) failures) (sym counts.2) h.1 in
    omega (
      arith,
      counts.0,
      survives-InWindow policy failures task' last small (omega (arith, counts.0, counts.1)) later
          counts.3,
    )
