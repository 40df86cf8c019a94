-- ===== src/Store/Generations/Ends.antt =====
-- The walk to the newest generation ends at a row of the chain that has no successor.
use durable_workflows.Base.{
  ℕ, zero, suc, ◌<◌, ◌≡◌, refl, arith, Bool, true, Option, none, some, List, All, length,
  Option-cases, inl, inr,
}
use durable_workflows.Base.Int.{ℤ, ltb_ℤ}
use durable_workflows.Base.Table.{count_where, first_where-All}
use durable_workflows.Base.Counting.{count_where-le-length, count_where-lt}
use durable_workflows.Rows.{WorkflowRow}
use durable_workflows.Store.Generations.{
  restarts, lock_successor, newest_within, lock_newest_generation,
}

-- A row was inserted after the row that it was restarted from.
abbrev earlier : Option ℤ → ℤ → Bool
earlier none id = true
earlier (some source) id = ltb_ℤ source id

abbrev pub RestartsEarlier : WorkflowRow → Type 0
RestartsEarlier r = earlier r.restarted_from_workflow_id r.id ≡ true

-- The rows one after the other on the chain.
pub data IsGeneration (workflows : List WorkflowRow) (row : WorkflowRow)
    : WorkflowRow → Type 0 where
  itself : IsGeneration workflows row row
  next :
      {r s : WorkflowRow}
      → IsGeneration workflows row r
      → lock_successor workflows r ≡ some s
      → IsGeneration workflows row s

abbrev after : WorkflowRow → WorkflowRow → Bool
after row r = ltb_ℤ row.id r.id

successor-after :
    (row s : WorkflowRow) → RestartsEarlier s → restarts row s ≡ true → after row s ≡ true
successor-after row s h e = ground arith

after_trans :
    (row s : WorkflowRow)
    → after row s ≡ true
    → (r : WorkflowRow) → after s r ≡ true
    → after row r ≡ true
after_trans row s h r k = ground arith

successor_closer :
    (workflows : List WorkflowRow) (row s : WorkflowRow)
    → All RestartsEarlier workflows
    → lock_successor workflows row ≡ some s
    → count_where (after s) workflows < count_where (after row) workflows
unfolding lock_successor
successor_closer workflows row s h e =
    let found = first_where-All RestartsEarlier (restarts row) workflows s h e in
    let later = successor-after row s found.0 found.1 in
    count_where-lt (after s) (after row) (restarts row) (after_trans row s later) workflows s e
      later (ground arith)

newest_within_total :
    (workflows : List WorkflowRow) (start row : WorkflowRow) (fuel : ℕ)
    → All RestartsEarlier workflows
    → IsGeneration workflows start row
    → count_where (after row) workflows < fuel
    → (newest : WorkflowRow) × (newest_within workflows fuel row ≡ some newest)
      × IsGeneration workflows start newest
      × (lock_successor workflows newest ≡ none)
unfolding newest_within
newest_within_total workflows start row zero h g lt = elim lt [ ]
newest_within_total workflows start row (suc fuel) h g lt =
    elim (Option-cases (lock_successor workflows row)) [
      | inl e ↦ (row, rw (e, newest_within) refl, g, e)
      | inr (s, e) ↦
          rw (e, newest_within)
            (newest_within_total workflows start s fuel h (next g e)
              (omega (arith, successor_closer workflows row s h e)))
    ]

-- When every row was inserted after the row it was restarted from, the walk from a workflow ends: it
-- gives a generation of the workflow that has no successor.
pub lock_newest_generation_total :
    (workflows : List WorkflowRow) (row : WorkflowRow)
    → All RestartsEarlier workflows
    → (newest : WorkflowRow) × (lock_newest_generation workflows row ≡ some newest)
      × IsGeneration workflows row newest
      × (lock_successor workflows newest ≡ none)
unfolding lock_newest_generation
lock_newest_generation_total workflows row h =
    newest_within_total workflows row row (suc (length workflows)) h itself
      (omega (arith, count_where-le-length (after row) workflows))
