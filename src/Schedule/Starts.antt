-- ===== src/Schedule/Starts.antt =====
-- How many due occurrences start, and which never do.
use durable_workflows.Base.{
  ℕ, zero, suc, ◌+◌, ◌-◌, ◌≡◌, ◌∙◌, refl, arith, Bool, true, false, not, List, [], ◌∷◌, ◌++◌, min,
  ◌==◌, if◌then◌else◌, length, Bool-cases, inl, inr,
}
use durable_workflows.Base.Int.{ℤ}
use durable_workflows.Base.Table.{count_where}
use durable_workflows.Clock.{DbMillis}
use durable_workflows.Schedule.{
  run_latest, catch_up, ScheduleOccurrence, OccurrenceOutcome, start, skip, coalesce, is_gap,
  runnable, latest, repeat, catch_up_outcomes, runnable_outcomes, place, classify, rest_of, next_of,
}
use durable_workflows.Schedule.Chunks.{length-runnable_outcomes}

abbrev pub is_start : OccurrenceOutcome → Bool
is_start start = true
is_start (skip reason) = false
is_start coalesce = false

abbrev pub starts : List OccurrenceOutcome → ℕ
starts os = count_where is_start os

starts-append : (xs ys : List OccurrenceOutcome) → starts (xs ++ ys) ≡ starts xs + starts ys
starts-append [] ys = omega arith
starts-append (x ∷ xs) ys = omega (arith, starts-append xs ys)

starts-repeat :
    (n : ℕ) (o : OccurrenceOutcome) → starts (repeat n o) ≡ (if is_start o then n else 0)
unfolding repeat
starts-repeat zero start = refl
starts-repeat zero (skip r) = refl
starts-repeat zero coalesce = refl
starts-repeat (suc n) start = omega (arith, starts-repeat n start)
starts-repeat (suc n) (skip r) = omega (arith, starts-repeat n (skip r))
starts-repeat (suc n) coalesce = omega (arith, starts-repeat n coalesce)

starts-place :
    (due : List ScheduleOccurrence) (os : List OccurrenceOutcome)
    → length os ≡ length (runnable due)
    → starts (place due os) ≡ starts os
unfolding place
starts-place [] [] h = refl
starts-place [] (o ∷ os) h = ground arith
starts-place (x ∷ due) os h = elim (Bool-cases (is_gap x.disposition)) [
  | inl e ↦
      rw (e, if◌then◌else◌)
        (let k = starts-place due os (rw (e, not, if◌then◌else◌) at h) in omega (arith, k))
  | inr e ↦
      rw (e, if◌then◌else◌)
        (given os (rw (e, not, if◌then◌else◌) at h) (starts-place due (rest_of os)))
]
  where
    given :
        (os : List OccurrenceOutcome)
        → length os ≡ suc (length (runnable due))
        → (length (rest_of os) ≡ length (runnable due)
            → starts (place due (rest_of os)) ≡ starts (rest_of os))
        → starts (next_of os ∷ place due (rest_of os)) ≡ starts os
    given [] k rec = omega (arith, k)
    given (o ∷ os) k rec = let q = rec (omega (arith, k)) in omega (arith, q)

starts-latest-start : (os : List ScheduleOccurrence) → starts (latest start os) ≡ min 1 (length os)
unfolding latest
starts-latest-start [] = omega arith
starts-latest-start (x ∷ []) = omega arith
starts-latest-start (x ∷ y ∷ os) = omega (arith, starts-latest-start (y ∷ os))

starts-latest-coalesce : (os : List ScheduleOccurrence) → starts (latest coalesce os) ≡ 0
unfolding latest
starts-latest-coalesce [] = refl
starts-latest-coalesce (x ∷ []) = refl
starts-latest-coalesce (x ∷ y ∷ os) = omega (arith, starts-latest-coalesce (y ∷ os))

starts-latest :
    (b : Bool) (os : List ScheduleOccurrence)
    → starts (latest (if b then start else coalesce) os) ≡ (if b then min 1 (length os) else 0)
starts-latest true os = starts-latest-start os
starts-latest false os = starts-latest-coalesce os

starts-catch_up : (n s : ℕ) → starts (catch_up_outcomes n s) ≡ s
unfolding catch_up_outcomes
starts-catch_up n s =
    rw
      (
        starts-append (repeat (n - s) (skip "catch_up_limit")) (repeat s start),
        starts-repeat (n - s) (skip "catch_up_limit"),
        starts-repeat s start,
      )
      (omega arith)

-- Running the latest starts one occurrence if some is runnable and none follows the chunk, else none;
-- catching up starts as many as are runnable, up to the limit less those that follow the chunk.
pub starts-classify :
    (due : List ScheduleOccurrence) (grace_millis : ℤ) (now : DbMillis) (following m : ℕ)
    → (starts (classify due run_latest grace_millis now following)
        ≡ (if following == 0 then min 1 (length (runnable due)) else 0))
      × (starts (classify due (catch_up m) grace_millis now following)
          ≡ min (m - following) (length (runnable due)))
unfolding classify runnable_outcomes
starts-classify due g now k m = (
  starts-place due _ (length-runnable_outcomes run_latest g now k (runnable due))
      ∙ starts-latest (k == 0) (runnable due),
  starts-place due _ (length-runnable_outcomes (catch_up m) g now k (runnable due))
      ∙ starts-catch_up (length (runnable due)) (min (m - k) (length (runnable due))),
)

-- `due.into_iter().zip(outcomes)`.
abbrev pub zip :
    List ScheduleOccurrence → List OccurrenceOutcome → List (ScheduleOccurrence × OccurrenceOutcome)
zip [] outcomes = []
zip (o ∷ due) [] = []
zip (o ∷ due) (outcome ∷ outcomes) = (o, outcome) ∷ zip due outcomes
