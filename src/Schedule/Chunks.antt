-- ===== src/Schedule/Chunks.antt =====
-- A tick that takes the due occurrences in chunks gives each the outcome that it would have in one
-- large tick.
use durable_workflows.Base.{
  ℕ, zero, suc, ◌+◌, ◌-◌, ◌≤◌, ◌≡◌, ◌⊎◌, inl, inr, refl, sym, ap, arith, false, not, List, [], ◌∷◌,
  ◌++◌, map, min, ◌==◌, if◌then◌else◌, length, length-append, Bool-cases,
}
use durable_workflows.Base.Int.{ℤ}
use durable_workflows.Clock.{DbMillis}
use durable_workflows.Schedule.{
  MisfirePolicy, skip_late, run_latest, catch_up, ScheduleOccurrence, OccurrenceOutcome, start,
  skip, coalesce, is_gap, runnable, late, latest, repeat, catch_up_outcomes, runnable_outcomes,
  place, classify, budget,
}

runnable-append :
    (xs ys : List ScheduleOccurrence) → runnable (xs ++ ys) ≡ runnable xs ++ runnable ys
runnable-append [] ys = refl
runnable-append (x ∷ xs) ys = elim (Bool-cases (is_gap x.disposition)) [
  | inl e ↦ rw (e, not, if◌then◌else◌) (runnable-append xs ys)
  | inr e ↦ rw (e, not, if◌then◌else◌) (ap (λ l. x ∷ l) (runnable-append xs ys))
]

absurd : {A : Type 0} → ⊥ → A
absurd h = elim h [ ]

place-append :
    (xs ys : List ScheduleOccurrence) (os ps : List OccurrenceOutcome)
    → length os ≡ length (runnable xs)
    → place (xs ++ ys) (os ++ ps) ≡ place xs os ++ place ys ps
unfolding place
place-append [] ys [] ps h = refl
place-append [] ys (o ∷ os) ps h = ground arith
place-append (x ∷ xs) ys [] ps h = elim (Bool-cases (is_gap x.disposition)) [
  | inl e ↦
      rw (e, if◌then◌else◌)
        (ap (λ l. skip "dst_gap" ∷ l) (place-append xs ys [] ps (rw (e, not, if◌then◌else◌) at h)))
  | inr e ↦ let k = rw (e, not, if◌then◌else◌) at h in absurd (omega (arith, k))
]
place-append (x ∷ xs) ys (o ∷ os) ps h = elim (Bool-cases (is_gap x.disposition)) [
  | inl e ↦
      rw (e, if◌then◌else◌)
        (ap (λ l. skip "dst_gap" ∷ l)
          (place-append xs ys (o ∷ os) ps (rw (e, not, if◌then◌else◌) at h)))
  | inr e ↦
      rw (e, if◌then◌else◌)
        (ap (λ l. o ∷ l)
          (place-append xs ys os ps (let k = rw (e, not, if◌then◌else◌) at h in omega (arith, k))))
]

repeat_add : (m n : ℕ) (o : OccurrenceOutcome) → repeat (m + n) o ≡ repeat m o ++ repeat n o
unfolding repeat
repeat_add zero n o = let e : 0 + n ≡ n = omega arith in rw e refl
repeat_add (suc m) n o =
    let e : suc m + n ≡ suc (m + n) = omega arith in rw e (ap (λ l. o ∷ l) (repeat_add m n o))

append_assoc : (xs ys zs : List OccurrenceOutcome) → xs ++ (ys ++ zs) ≡ (xs ++ ys) ++ zs
append_assoc [] ys zs = refl
append_assoc (x ∷ xs) ys zs = ap (λ l. x ∷ l) (append_assoc xs ys zs)

append_nil : {A : Type 0} (xs : List A) → xs ++ [] ≡ xs
append_nil [] = refl
append_nil (x ∷ xs) = ap (λ l. x ∷ l) (append_nil xs)

all_after :
    (a k m : ℕ) (o p : OccurrenceOutcome)
    → repeat (a + k) o ++ repeat m p ≡ (repeat a o ++ repeat 0 p) ++ (repeat k o ++ repeat m p)
unfolding repeat
all_after a k m o p =
    rw (repeat_add a k o, append_nil (repeat a o))
      (sym (append_assoc (repeat a o) (repeat k o) (repeat m p)))

some_before :
    (a t b : ℕ) (o p : OccurrenceOutcome)
    → repeat a o ++ repeat (t + b) p ≡ (repeat a o ++ repeat t p) ++ (repeat 0 o ++ repeat b p)
unfolding repeat
some_before a t b o p = rw (repeat_add t b p) (append_assoc (repeat a o) (repeat t p) (repeat b p))

le-cases : (m n : ℕ) → (m ≤ n) ⊎ (n ≤ m)
le-cases m n = omega arith

-- `a` runnable occurrences in the chunk and `b` after it, of which at most `m` start.
catch_up_chunks :
    (m a b : ℕ)
    → catch_up_outcomes (a + b) (min m (a + b))
      ≡ catch_up_outcomes a (min (m - min m b) a) ++ catch_up_outcomes b (min m b)
unfolding catch_up_outcomes
catch_up_chunks m a b = elim (le-cases m b) [
  | inl few ↦
      let e1 : min m (a + b) ≡ m = omega arith in
      let e2 : min m b ≡ m = omega arith in
      let e3 : min (m - m) a ≡ 0 = omega arith in
      let e4 : a + b - m ≡ a + (b - m) = omega arith in
      let e5 : a - 0 ≡ a = omega arith in rw (e1, e2, e3, e4, e5) (all_after a (b - m) m _ _)
  | inr many ↦
      let e1 : min m b ≡ b = omega arith in
      let e2 : min m (a + b) ≡ min (m - b) a + b = omega arith in
      let e3 : a + b - (min (m - b) a + b) ≡ a - min (m - b) a = omega arith in
      let e4 : b - b ≡ 0 = omega arith in
      rw (e1, e2, e3, e4) (some_before (a - min (m - b) a) (min (m - b) a) b _ _)
]

map-append :
    (f : ScheduleOccurrence → OccurrenceOutcome) (xs ys : List ScheduleOccurrence)
    → map f (xs ++ ys) ≡ map f xs ++ map f ys
map-append f [] ys = refl
map-append f (x ∷ xs) ys = ap (λ l. f x ∷ l) (map-append f xs ys)

latest-append :
    (o : OccurrenceOutcome) (xs : List ScheduleOccurrence) (y : ScheduleOccurrence)
    (ys : List ScheduleOccurrence)
    → latest o (xs ++ y ∷ ys) ≡ latest coalesce xs ++ latest o (y ∷ ys)
unfolding latest
latest-append o [] y ys = refl
latest-append o (x ∷ []) y ys = refl
latest-append o (x ∷ z ∷ xs) y ys = ap (λ l. coalesce ∷ l) (latest-append o (z ∷ xs) y ys)

latest_chunks :
    (xs ys : List ScheduleOccurrence)
    → latest start (xs ++ ys)
      ≡ latest (if min 1 (length ys) == 0 then start else coalesce) xs ++ latest start ys
unfolding latest
latest_chunks xs [] = rw (append_nil xs) (sym (append_nil (latest start xs)))
latest_chunks xs (y ∷ ys) =
    let e : (min 1 (suc (length ys)) == 0) ≡ false = ground arith in
    rw (e, if◌then◌else◌) (latest-append start xs y ys)

length-latest :
    (o : OccurrenceOutcome) (xs : List ScheduleOccurrence) → length (latest o xs) ≡ length xs
unfolding latest
length-latest o [] = refl
length-latest o (x ∷ []) = refl
length-latest o (x ∷ y ∷ xs) = ap suc (length-latest o (y ∷ xs))

length-repeat : (n : ℕ) (o : OccurrenceOutcome) → length (repeat n o) ≡ n
unfolding repeat
length-repeat zero o = refl
length-repeat (suc n) o = ap suc (length-repeat n o)

length-map :
    (f : ScheduleOccurrence → OccurrenceOutcome) (xs : List ScheduleOccurrence)
    → length (map f xs) ≡ length xs
length-map f [] = refl
length-map f (x ∷ xs) = ap suc (length-map f xs)

length-catch_up_outcomes : (n s : ℕ) → s ≤ n → length (catch_up_outcomes n s) ≡ n
unfolding catch_up_outcomes
length-catch_up_outcomes n s h =
    rw
      (
        length-append (repeat (n - s) (skip "catch_up_limit")) (repeat s start),
        length-repeat (n - s) (skip "catch_up_limit"),
        length-repeat s start,
      )
      (omega arith)

-- Every runnable occurrence gets an outcome.
pub length-runnable_outcomes :
    (policy : MisfirePolicy) (g : ℤ) (now : DbMillis) (k : ℕ) (os : List ScheduleOccurrence)
    → length (runnable_outcomes policy g now k os) ≡ length os
unfolding runnable_outcomes
length-runnable_outcomes skip_late g now k os = length-map (late g now) os
length-runnable_outcomes run_latest g now k os = length-latest _ os
length-runnable_outcomes (catch_up m) g now k os =
    length-catch_up_outcomes (length os) (min (m - k) (length os)) (omega arith)

runnable_chunks :
    (policy : MisfirePolicy) (g : ℤ) (now : DbMillis) (xs ys : List ScheduleOccurrence)
    → runnable_outcomes policy g now 0 (xs ++ ys)
      ≡ runnable_outcomes policy g now (min (budget policy) (length ys)) xs
        ++ runnable_outcomes policy g now 0 ys
unfolding runnable_outcomes
runnable_chunks skip_late g now xs ys = map-append (late g now) xs ys
runnable_chunks run_latest g now xs ys = latest_chunks xs ys
runnable_chunks (catch_up m) g now xs ys =
    let e : m - 0 ≡ m = omega arith in
    rw (e, length-append xs ys) (catch_up_chunks m (length xs) (length ys))

-- A chunk that is classified with the number of later runnable occurrences, up to the policy's budget,
-- and the rest that is classified after it, have together the outcomes of one classification of all
-- due occurrences.
pub classify-append :
    (policy : MisfirePolicy) (grace_millis : ℤ) (now : DbMillis)
    (chunk rest : List ScheduleOccurrence)
    → classify chunk policy grace_millis now (min (budget policy) (length (runnable rest)))
        ++ classify rest policy grace_millis now 0
      ≡ classify (chunk ++ rest) policy grace_millis now 0
unfolding classify
classify-append policy g now xs ys =
    rw (runnable-append xs ys, runnable_chunks policy g now (runnable xs) (runnable ys))
      (sym (place-append xs ys _ _ (length-runnable_outcomes policy g now _ (runnable xs))))
